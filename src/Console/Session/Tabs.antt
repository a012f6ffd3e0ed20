-- ===== src/Console/Session/Tabs.antt =====
-- Which tab of console.js is open.
use text.Mathlib.TextEquality.{eq_iff}
use certadillo.Prelude.{
  String, Bool, true, false, not, List, [], ◌∷◌, Option, none, some, ◌≡◌, refl, sym, subst, ap, ◌∙◌,
  ◌↔◌, ◌⊎◌, inl, inr, In, arith, str_eq, if◌then◌else◌, Bool-cases, ◌++◌,
}
use certadillo.Words.{trim}
use certadillo.Markup.{Text}
use certadillo.Console.Onboard.{Reply, replied, failed}
use certadillo.Console.Session.{
  tabs, among, Me, Session, views_for, buttons_for, has_key, load, show, current_tab, with_role,
  connect, Event, click_tab, click_connect, handle, ◌>>=◌, run, opened, begin,
}

-- The tab's view and button are shown, and a session that may be written remembers it. A role that
-- may change nothing is no administrator's.
pub record IsOpen (tab : String) (s : Session) : Type 0 where
  pub known : among tab tabs ≡ true
  pub views : s.views ≡ views_for tab tabs
  pub buttons : s.buttons ≡ buttons_for tab tabs
  pub kept : s.storage_blocked ≡ false → s.stored_tab ≡ some tab
  pub classes : s.ro ≡ true → s.noadmin ≡ true

-- It returns, with some tab open.
abbrev Opens : Option Session → Type 0
Opens m = (s : Session) × (m ≡ some s) × (tab : String) × IsOpen tab s

IsOpen-loaded :
    (tab : String) (s : Session)
    → IsOpen tab s
    → IsOpen tab (record s { loaded = s.loaded ++ tab ∷ [] })
IsOpen-loaded tab s h = record {
  known = h.known;
  views = h.views;
  buttons = h.buttons;
  kept = h.kept;
  classes = h.classes;
}

load_lem : (tab : String) (s : Session) → IsOpen tab s → Opens (load tab s)
unfolding load
load_lem tab s h = elim (Bool-cases (has_key s.key)) [
  | inl e ↦ simp (e, h.known) (_, refl, tab, IsOpen-loaded tab s h)
  | inr e ↦ simp e (s, refl, tab, h)
]

show_lem :
    (tab : String) (s : Session)
    → among tab tabs ≡ true
    → (s.ro ≡ true → s.noadmin ≡ true)
    → Opens (show tab s)
unfolding show
show_lem tab s known classes = load_lem tab _ (record {
  known = known;
  views = refl;
  buttons = refl;
  kept = λ b. rw b refl;
  classes = classes;
})

-- What the session remembers is a tab, if it remembers one.
abbrev Remembers : Session → Type 0
Remembers s =
    (s.stored_tab ≡ none) ⊎ ((t : String) × (s.stored_tab ≡ some t) × (among t tabs ≡ true))

current_tab_lem : (s : Session) → Remembers s → among (current_tab s) tabs ≡ true
unfolding current_tab
current_tab_lem s (inl e) = elim (Bool-cases s.storage_blocked) [
  | inl b ↦ simp b refl
  | inr b ↦ simp (b, e) refl
]
current_tab_lem s (inr (t, e, k)) = elim (Bool-cases s.storage_blocked) [
  | inl b ↦ simp b refl
  | inr b ↦ elim (Bool-cases (str_eq t "")) [
    | inl n ↦ simp (b, e, n) refl
    | inr n ↦ simp (b, e, n) k
  ]
]

classes_lem : (me : Me) (s : Session) → (with_role me s).ro ≡ true → (with_role me s).noadmin ≡ true
classes_lem me s h = ground arith

IsOpen-current_tab : (tab : String) (s : Session) → IsOpen tab s → among (current_tab s) tabs ≡ true
IsOpen-current_tab tab s h = elim (Bool-cases s.storage_blocked) [
  | inl b ↦ (unfold current_tab in simp b refl)
  | inr b ↦ current_tab_lem s (inr (tab, h.kept b, h.known))
]

-- The key that has been typed is kept, whatever the reply.
abbrev keyed : Text → Session → Session
keyed value s = record s {
  key = trim value;
  stored_key = if s.storage_blocked then s.stored_key else some (trim value);
}

IsOpen-keyed :
    (value : Text) (tab : String) (s : Session) → IsOpen tab s → IsOpen tab (keyed value s)
IsOpen-keyed value tab s h = record {
  known = h.known;
  views = h.views;
  buttons = h.buttons;
  kept = h.kept;
  classes = h.classes;
}

connect_lem :
    (value : Text) (reply : Reply Me) (tab : String) (s : Session)
    → IsOpen tab s
    → Opens (connect value reply s)
unfolding connect
connect_lem value (failed e) tab s h = (
  _,
  refl,
  tab,
  record {
    known = h.known;
    views = h.views;
    buttons = h.buttons;
    kept = h.kept;
    classes = h.classes;
  },
)
connect_lem value (replied me) tab s h =
    show_lem (current_tab (keyed value s)) (with_role me (keyed value s))
      (IsOpen-current_tab tab (keyed value s) (IsOpen-keyed value tab s h))
      (classes_lem me (keyed value s))

Opens-if :
    (c : Bool) (m k : Option Session)
    → (c ≡ true → Opens m)
    → (c ≡ false → Opens k)
    → Opens (if c then m else k)
Opens-if true m k h j = h refl
Opens-if false m k h j = j refl

handle_lem : (e : Event) (tab : String) (s : Session) → IsOpen tab s → Opens (handle e s)
unfolding handle
handle_lem (click_tab t) tab s h =
    Opens-if (among t tabs) (show t s) (some s) (λ e. show_lem t s e h.classes)
      (λ e. (s, refl, tab, h))
handle_lem (click_connect value reply) tab s h = connect_lem value reply tab s h

run_lem : (es : List Event) (tab : String) (s : Session) → IsOpen tab s → Opens (run es s)
unfolding run
run_lem [] tab s h = (s, refl, tab, h)
run_lem (e ∷ es) tab s h = let (w, ew, t, k) = handle_lem e tab s h in rw ew (run_lem es t w k)

begin_lem :
    (reply : Reply Me) (s : Session)
    → Remembers s
    → (s.ro ≡ true → s.noadmin ≡ true)
    → Opens (begin reply s)
unfolding begin
begin_lem reply s known classes =
    let (w, ew, t, k) = show_lem (current_tab s) s (current_tab_lem s known) classes in
    rw ew (elim (Bool-cases (has_key w.key)) [
      | inl e ↦ simp e (connect_lem w.key reply t w k)
      | inr e ↦ simp e (w, refl, t, k)
    ])

hidden_else :
    (x k tab : String) → ◌≡◌ {A = String × Bool} (k, false) (x, not (str_eq x tab)) → k ≡ tab
hidden_else x k tab e =
    let same : k ≡ x = ap (λ p. p.0) e in
    let shown : false ≡ not (str_eq x tab) = ap (λ p. p.1) e in same ∙ ground (arith, eq_iff x tab)

views_for_sound : (tab k : String) (ks : List String) → In (k, false) (views_for tab ks) → k ≡ tab
views_for_sound tab k [] i = absurd i
views_for_sound tab k (x ∷ ks) (inl e) = hidden_else x k tab e
views_for_sound tab k (x ∷ ks) (inr i) = views_for_sound tab k ks i

views_for_complete :
    (tab : String) (ks : List String) → among tab ks ≡ true → In (tab, false) (views_for tab ks)
views_for_complete tab [] h = cc
views_for_complete tab (x ∷ ks) h = elim (Bool-cases (str_eq x tab)) [
  | inl e ↦ inl (rw e (ap (λ y. (y, false)) (sym ((eq_iff x tab).0 e))))
  | inr e ↦ inr (views_for_complete tab ks (ground arith))
]

-- However the session begins, with a tab that it remembers or none, and whatever is clicked and
-- replied after that: nothing throws, exactly one of the views is not hidden, its tab is one of the
-- page's and is remembered if the session may be written, and where the changes of an operator are
-- hidden those of an administrator are as well.
pub run-begin :
    (blocked : Bool) (key : Option Text) (stored : Option String) (reply : Reply Me)
    (es : List Event)
    → (stored ≡ none) ⊎ ((t : String) × (stored ≡ some t) × (among t tabs ≡ true))
    → (s : Session) × (tab : String) × ((begin reply (opened blocked key stored) >>= run es)
        ≡ some s)
      × (among tab tabs ≡ true)
      × ((k : String) → In (k, false) s.views ↔ (k ≡ tab))
      × (s.storage_blocked ≡ false → s.stored_tab ≡ some tab)
      × (s.ro ≡ true → s.noadmin ≡ true)
run-begin blocked key stored reply es known =
    let (w, ew, t, k) = begin_lem reply (opened blocked key stored) known (λ e. cc) in
    let (s, es', tab, h) = run_lem es t w k in
    (
      s,
      tab,
      rw ew es',
      h.known,
      (λ n. (
        (λ i. views_for_sound tab n tabs (subst (In (n, false)) h.views i)),
        λ e.
            subst (λ m. In (m, false) s.views) (sym e)
              (subst (In (tab, false)) (sym h.views) (views_for_complete tab tabs h.known)),
      )),
      h.kept,
      h.classes,
    )
