-- ===== src/Console/Session.antt =====
-- The key, the role and the tabs of src/certadillo/web/static/console.js: `show`, `currentTab`, the
-- button `#connect` and the start of the page. The reply to a click is part of its event.
pub mod Tabs
use certadillo.Prelude.{
  String, Bool, true, false, not, ◌&&◌, ◌||◌, List, [], ◌∷◌, ◌++◌, map, Option, none, some, str_eq,
  is_inherited, if◌then◌else◌,
}
use certadillo.Words.{trim}
use certadillo.Markup.{Text}
use certadillo.Console.Onboard.{Reply, replied, failed}

-- The keys of `TABS`, which are those of `loaders` too.
abbrev pub tabs : List String
tabs =
    "overview" ∷ "onboard" ∷ "inventory" ∷ "approvals" ∷ "discovery" ∷ "provisioning" ∷ "policy"
    ∷ "issuers" ∷ "signing" ∷ "sshkeys" ∷ "audit" ∷ "reports" ∷ []

abbrev pub among : String → List String → Bool
among t [] = false
among t (k ∷ ks) = str_eq k t || among t ks

-- The reply to GET /api/v1/me.
pub record Me : Type 0 where
  pub name : String
  pub role : String

-- `KEY`, the session storage, the classes of the body, the views with whether each is hidden, the
-- buttons of the tabs with whether each is on, and the loaders that have been called. `me` is whom
-- the last reply has accepted.
pub record Session : Type 0 where
  pub key : Text
  pub storage_blocked : Bool
  pub stored_key : Option Text
  pub stored_tab : Option String
  pub me : Option Me
  pub ro : Bool
  pub noadmin : Bool
  pub views : List (String × Bool)
  pub buttons : List (String × Bool)
  pub loaded : List String

abbrev pub views_for : String → List String → List (String × Bool)
views_for tab ks = map (λ k. (k, not (str_eq k tab))) ks

abbrev pub buttons_for : String → List String → List (String × Bool)
buttons_for tab ks = map (λ k. (k, str_eq k tab)) ks

abbrev pub has_key : Text → Bool
has_key [] = false
has_key (c ∷ k) = true

-- `if (KEY && loaders[tab]) loaders[tab]().catch(…)`; what `loaders` inherits under a name that is no
-- tab is no function or returns no promise, which throws.
unfoldable pub load : String → Session → Option Session
load tab s =
    if has_key s.key
    then if among tab tabs
      then some (record s { loaded = s.loaded ++ tab ∷ [] })
      else if is_inherited tab
      then none
      else some s
    else some s

unfoldable pub show : String → Session → Option Session
unfolding load
show tab s = load tab (record s {
  views = views_for tab tabs;
  buttons = buttons_for tab tabs;
  stored_tab = if s.storage_blocked then s.stored_tab else some tab;
})

abbrev tab_or : Option String → String
tab_or none = "overview"
tab_or (some t) = if str_eq t "" then "overview" else t

unfoldable pub current_tab : Session → String
current_tab s = if s.storage_blocked then "overview" else tab_or s.stored_tab

-- The classes for a role; they stay as they are when the key is not accepted.
abbrev pub with_role : Me → Session → Session
with_role me s = record s {
  me = some me;
  ro = not (str_eq me.role "admin" || str_eq me.role "operator");
  noadmin = not (str_eq me.role "admin");
}

unfoldable pub connect : Text → Reply Me → Session → Option Session
unfolding trim show current_tab
connect value reply s =
    let keyed : Session = record s {
      key = trim value;
      stored_key = if s.storage_blocked then s.stored_key else some (trim value);
    } in
    elim reply [
      | failed e ↦ some (record keyed { me = none })
      | replied me ↦ show (current_tab keyed) (with_role me keyed)
    ]

pub data Event : Type 0 where
  click_tab : String → Event
  click_connect : Text → Reply Me → Event

-- There is a button for each tab.
unfoldable pub handle : Event → Session → Option Session
unfolding show connect
handle (click_tab tab) s = if among tab tabs then show tab s else some s
handle (click_connect value reply) s = connect value reply s

infixl 5 ◌>>=◌
abbrev pub ◌>>=◌ {ℓ κ} : {A : Type ℓ} {B : Type κ} → Option A → (A → Option B) → Option B
none >>= f = none
some a >>= f = f a

unfoldable pub run : List Event → Session → Option Session
unfolding handle
run [] s = some s
run (e ∷ es) s = handle e s >>= run es

-- `sessionStorage.getItem("cdl_key") || ""`.
abbrev pub key_of : Bool → Option Text → Text
key_of true k = []
key_of false none = []
key_of false (some k) = k

-- The page before its first `show`, with the key that the session remembers.
abbrev pub opened : Bool → Option Text → Option String → Session
opened blocked key tab = record {
  key = key_of blocked key;
  storage_blocked = blocked;
  stored_key = key;
  stored_tab = tab;
  me = none;
  ro = false;
  noadmin = false;
  views = views_for "overview" tabs;
  buttons = map (λ k. (k, false)) tabs;
  loaded = [];
}

-- The end of the script: the tab is shown, and a key that is remembered connects.
unfoldable pub begin : Reply Me → Session → Option Session
unfolding show current_tab connect
begin reply s = show (current_tab s) s >>= λ shown.
    if has_key shown.key then connect shown.key reply shown else some shown
