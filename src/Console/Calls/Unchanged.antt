-- ===== src/Console/Calls/Unchanged.antt =====
-- What console.js sends when the rules of a folder are saved as they are shown.
use certadillo.Prelude.{
  ℕ, ◌≡◌, refl, String, Bool, true, List, [], ◌∷◌, Option, some, All, codes, ◌++◌,
}
use certadillo.Prelude.Int.{ℤ, pos}
use certadillo.Markup.{Text}
use certadillo.Console.Rules.{Rule, is_setting}
use certadillo.Console.Rules.RoundTrip.{Readable, Fresh, read-draw_rules}
use certadillo.Console.Encode.{encode_component}
use certadillo.Console.Encode.Units.{WellFormed, encode_component_lem}
use certadillo.Console.Requests.{Call, ready, Json}
use certadillo.Console.Folders.{Folder}
use certadillo.Console.Calls.{save_folder, call_of}
use certadillo.Console.Calls.Saving.{save}
use certadillo.Console.Editor.{
  Editor, title_of, find_folder, click_edit, click_save, handle, edit_folder, run,
}

module _ (digits : ℤ → Text) (lower : Text → Text) (whole : Text → Option ℤ)
    (is_object : Text → Bool) where
  -- The rules of a folder that the editor can show: their keys differ and are settings, and each value
  -- fits its key and its field.
  abbrev pub CanShow : List String → List (String × Rule) → Type 0
  CanShow settings rules =
      All
        (λ e. (is_setting e.0 settings ≡ true) × Readable lower whole settings digits e.0 e.1.value)
        rules
      × Fresh [] rules

  -- A folder that is opened for editing and saved with no change, whatever the form held before, sends
  -- one request: a PUT to the address of that folder, with its id encoded between
  -- "/api/v1/folders/" and "/settings", whose body has the folder's own rules with their values, locks
  -- and order. This is for rules that the editor can show. Lower case leaves "true" and "false" alone,
  -- and the id has no half of a surrogate pair that stands alone.
  pub save-draw_rules :
      lower (codes "true") ≡ codes "true"
      → lower (codes "false") ≡ codes "false"
      → (e : Editor) (id : ℕ) (f : Folder) → find_folder e.folders id ≡ some f
      → WellFormed (digits (pos f.id))
      → CanShow e.settings f.settings
      → (c : Call) × (path_id : Text) × ((run digits lower whole
            (click_edit id ∷ click_save ∷ [])
            e).log
          ≡ (title_of f, save_folder (digits (pos f.id)) f.settings) ∷ e.log)
        × (call_of is_object (save_folder (digits (pos f.id)) f.settings) ≡ ready c)
        × (c.method ≡ "PUT")
        × (encode_component (digits (pos f.id)) ≡ some path_id)
        × (c.path ≡ codes "/api/v1/folders/" ++ (path_id ++ codes "/settings"))
        × (c.body ≡ ("settings", Json.rules f.settings) ∷ [])
  unfolding run handle edit_folder save call_of
  save-draw_rules t u e id f found w (h, k) =
      let (p, ep, _) = encode_component_lem (digits (pos f.id)) w in
      (
        record {
          method = "PUT";
          path = codes "/api/v1/folders/" ++ (p ++ codes "/settings");
          body = ("settings", Json.rules f.settings) ∷ [];
        },
        p,
        rw (found, read-draw_rules lower whole e.settings digits t u f.settings h k) refl,
        rw ep refl,
        refl,
        ep,
        refl,
        refl,
      )
