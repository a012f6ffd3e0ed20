-- ===== src/Console/Editor/Titles.antt =====
-- The title of the form of console.js, and what is saved under it.
use certadillo.Prelude.{
  ℕ, String, Bool, true, false, List, [], ◌∷◌, Option, none, some, codes, ◌≡◌, refl, Bool-cases, In,
  inl, inr, ◌==◌, All, if◌then◌else◌,
}
use certadillo.Prelude.Int.{ℤ, pos}
use certadillo.Markup.{Text}
use certadillo.Console.Rules.{Rule, Result, ok, err, ◌>>=◌, read_rules}
use certadillo.Console.Folders.{Folder}
use certadillo.Console.Calls.{Action, save_folder, make_folder}
use certadillo.Console.Calls.Saving.{saved, save}
use certadillo.Console.Editor.{
  Editor, new_title, title_of, start, find_folder, edit_folder, subject, after_save, Event,
  click_edit, click_reset, click_add, change_rows, type_name, choose_parent, click_save, answered,
  loaded, load_policy, handle, run,
}
use certadillo.Console.Editor.Known.{folders_in, EventOk, All-EventOk}

-- `Known` is which folders have been loaded.
module _ (digits : ℤ → Text) (Known : Folder → Type 0) where
  -- What was sent is what the title said: the rules of the folder that was loaded and that the title
  -- names, or a new folder.
  unfoldable pub Agrees : Text × Action → Type 0
  Agrees (title, save_folder id settings) =
      (f : Folder) × Known f × (title ≡ title_of f) × (id ≡ digits (pos f.id))
  Agrees (title, make_folder name parent settings) = title ≡ new_title
  Agrees (title, _) = ⊥

-- The title names what is edited, and the fields of a folder that is there cannot be changed.
unfoldable pub IsTitled : (Folder → Type 0) → Option Folder → Text → Text → Bool → Bool → Type 0
IsTitled Known none title name name_off parent_off =
    (title ≡ new_title) × (name_off ≡ false) × (parent_off ≡ false)
IsTitled Known (some f) title name name_off parent_off =
    Known f × (title ≡ title_of f) × (name ≡ codes f.name) × (name_off ≡ true) × (parent_off ≡ true)

module _ (digits : ℤ → Text) (lower : Text → Text) (whole : Text → Option ℤ)
    (Known : Folder → Type 0) where
  pub record IsHonest (e : Editor) : Type 0 where
    pub titled : IsTitled Known e.editing e.title e.name e.name_disabled e.parent_disabled
    pub known : All Known e.folders
    pub logged : All (Agrees digits Known) e.log

  abbrev IsKnown : Option Folder → Type 0
  IsKnown none = Unit
  IsKnown (some f) = Known f

  find_folder-IsKnown : (fs : List Folder) (id : ℕ) → All Known fs → IsKnown (find_folder fs id)
  unfolding find_folder
  find_folder-IsKnown [] id h = tt
  find_folder-IsKnown (f ∷ fs) id (h, hs) = elim (Bool-cases (f.id == id)) [
    | inl e ↦ rw e h
    | inr e ↦ rw e (find_folder-IsKnown fs id hs)
  ]

  edit_folder-IsHonest :
      (o : Option Folder) (e : Editor)
      → IsKnown o
      → IsHonest e
      → IsHonest (edit_folder digits lower whole o e)
  unfolding edit_folder IsTitled
  edit_folder-IsHonest none e k h = record {
    titled = (refl, refl, refl);
    known = h.known;
    logged = h.logged;
  }
  edit_folder-IsHonest (some f) e k h = record {
    titled = (k, refl, refl, refl, refl);
    known = h.known;
    logged = h.logged;
  }

  saved-Agrees :
      (o : Option Folder) (e : Editor) (settings : List (String × Rule))
      → IsTitled Known o e.title e.name e.name_disabled e.parent_disabled
      → Agrees digits Known (e.title, saved (subject digits lower whole o e) settings)
  unfolding Agrees IsTitled
  saved-Agrees none e settings t = t.0
  saved-Agrees (some f) e settings t = (f, t.0, t.1, refl)

  save-IsHonest :
      (e : Editor) (rules : Result (List (String × Rule)))
      → IsHonest e
      → IsHonest (
          after_save digits lower whole
            (do settings ← rules; ok (saved (subject digits lower whole e.editing e) settings))
            e)
  save-IsHonest e (err x) h = record { titled = h.titled; known = h.known; logged = h.logged }
  save-IsHonest e (ok settings) h = record {
    titled = h.titled;
    known = h.known;
    logged = (saved-Agrees e.editing e settings h.titled, h.logged);
  }

  -- A field that can be changed is the field of a new folder.
  retyped-IsTitled :
      (o : Option Folder) (title name t : Text) (b p : Bool)
      → b ≡ false
      → IsTitled Known o title name b p
      → IsTitled Known o title t b p
  unfolding IsTitled
  retyped-IsTitled none title name t b p is_on h = h
  retyped-IsTitled (some f) title name t b p is_on h = cc

  type_name-IsHonest :
      (t : Text) (e : Editor) (b : Bool)
      → e.name_disabled ≡ b
      → IsHonest e
      → IsHonest (if b then e else record e { name = t })
  type_name-IsHonest t e true same h = h
  type_name-IsHonest t e false same h = record {
    titled =
        retyped-IsTitled e.editing e.title e.name t e.name_disabled e.parent_disabled same h.titled;
    known = h.known;
    logged = h.logged;
  }

  choose_parent-IsHonest :
      (p : Option ℕ) (e : Editor) (b : Bool)
      → IsHonest e
      → IsHonest (if b then e else record e { parent = p })
  choose_parent-IsHonest p e true h = h
  choose_parent-IsHonest p e false h = record {
    titled = h.titled;
    known = h.known;
    logged = h.logged;
  }

  load_policy-IsHonest :
      (settings : List String) (fs : Option (List Folder)) (e : Editor)
      → EventOk Known (loaded settings fs)
      → IsHonest e
      → IsHonest (load_policy digits lower whole settings fs e)
  unfolding load_policy
  load_policy-IsHonest settings none e k h = record {
    titled = h.titled;
    known = h.known;
    logged = h.logged;
  }
  load_policy-IsHonest settings (some fs) e k h = record {
    titled = h.titled;
    known = k;
    logged = h.logged;
  }

  handle-IsHonest :
      (x : Event) (e : Editor)
      → EventOk Known x
      → IsHonest e
      → IsHonest (handle digits lower whole x e)
  unfolding handle save
  handle-IsHonest (click_edit id) e k h =
      edit_folder-IsHonest (find_folder e.folders id) e (find_folder-IsKnown e.folders id h.known) h
  handle-IsHonest click_reset e k h = edit_folder-IsHonest none e tt h
  handle-IsHonest click_add e k h = record { titled = h.titled; known = h.known; logged = h.logged }
  handle-IsHonest (change_rows rows) e k h = record {
    titled = h.titled;
    known = h.known;
    logged = h.logged;
  }
  handle-IsHonest (type_name t) e k h = type_name-IsHonest t e e.name_disabled refl h
  handle-IsHonest (choose_parent p) e k h = choose_parent-IsHonest p e e.parent_disabled h
  handle-IsHonest (answered reply) e k h = record {
    titled = h.titled;
    known = h.known;
    logged = h.logged;
  }
  handle-IsHonest click_save e k h = save-IsHonest e (read_rules lower whole e.rows []) h
  handle-IsHonest (loaded settings fs) e k h = load_policy-IsHonest settings fs e k h

  run_on-IsHonest :
      (xs : List Event) (e : Editor)
      → All (EventOk Known) xs
      → IsHonest e
      → IsHonest (run digits lower whole xs e)
  unfolding run
  run_on-IsHonest [] e ks h = h
  run_on-IsHonest (x ∷ xs) e (k, ks) h =
      run_on-IsHonest xs (handle digits lower whole x e) ks (handle-IsHonest x e k h)

module _ (digits : ℤ → Text) (lower : Text → Text) (whole : Text → Option ℤ) where
  -- Whatever is clicked, typed and loaded, the title of the form names the folder that is edited, which
  -- is one that was loaded and whose name and parent cannot be changed, or says that the folder is new;
  -- and whatever was sent was sent under a title that says so: rules to the id of a folder that was
  -- loaded and whose path the title has, or a new folder.
  pub run-IsHonest :
      (xs : List Event)
      → IsHonest digits lower whole (λ f. In f (folders_in xs)) (run digits lower whole xs start)
  unfolding IsTitled
  run-IsHonest xs =
      let Known : Folder → Type 0 = λ f. In f (folders_in xs) in
      run_on-IsHonest digits lower whole Known xs start (All-EventOk Known xs (λ f i. i))
        (record { titled = (refl, refl, refl); known = tt; logged = tt })
