-- ===== src/Console/Inventory.antt =====
-- The inventory and the approvals of src/certadillo/web/static/console.js: `renderInv`, `left`,
-- `loadApprovals` and their buttons. Texts that are searched are lists of UTF-16 units.
pub mod Shown
pub mod Table
use certadillo.Prelude.{
  ℕ, zero, suc, ◌+◌, ◌/◌, String, Bool, true, false, ◌&&◌, ◌||◌, List, [], ◌∷◌, ◌++◌, map, filter,
  Option, none, some, codes, str_eq, ltb, if◌then◌else◌,
}
use certadillo.Prelude.Int.{ℤ, pos, negsuc}
use certadillo.Markup.{Text}
use certadillo.Words.{has_word, join}

pub record Cert : Type 0 where
  pub id : String
  pub common_name : Text
  pub serial : Text
  pub location : Text
  pub sans : List Text
  pub status : String
  pub source : String
  pub hours_left : ℤ
  pub days_left : ℤ
  pub protocol : Text
  pub key : Text
  pub profile : Text

-- The values of `#f-status`, `#f-source` and `#f-q`.
pub record Filter : Type 0 where
  pub status : String
  pub source : String
  pub query : Text

abbrev pub is_blank : String → Bool
is_blank String.[] = true
is_blank (String.◌∷◌ _ _) = false

-- The fields that are searched, joined by spaces.
abbrev pub searched : Cert → Text
searched x = join (codes " ") (x.common_name ∷ x.serial ∷ x.location ∷ join (codes " ") x.sans ∷ [])

abbrev pub includes : Text → Text → Bool
includes t [] = true
includes t (c ∷ q) = has_word (c ∷ q) t

-- `lower` is `toLowerCase`.
module _ (lower : Text → Text) where
  unfoldable pub keeps : Filter → Cert → Bool
  unfolding has_word join
  keeps f x =
      (is_blank f.status || str_eq x.status f.status)
      && (is_blank f.source || str_eq x.source f.source)
      && includes (lower (searched x)) (lower f.query)

  -- The certificates that the table lists.
  unfoldable pub shown_certs : Filter → List Cert → List Cert
  unfolding keeps
  shown_certs f inv = filter (keeps f) inv

-- Whether a row has the button that revokes.
unfoldable pub can_revoke : Cert → Bool
can_revoke x = str_eq x.status "active" && str_eq x.source "issued"

-- `left`: hours past the end in days, rounded up, or the hours or days that are left.
pub data Left : Type 0 where
  days_ago : ℕ → Left
  hours : ℕ → Left
  days : ℤ → Left

unfoldable pub left : Cert → Left
left x = elim x.hours_left [
  | negsuc n ↦ days_ago ((suc n + 23) / 24)
  | pos n ↦ if ltb n 48 then hours n else days x.days_left
]

-- A request to the API: the method, the path and what is sent.
pub data Request : Type 0 where
  revoke : String → String → Option String → Request
  decide : String → String → Request

abbrev text_or_null : Option String → Option String
text_or_null none = none
text_or_null (some s) = if is_blank s then none else some s

-- The button that revokes: no reason, or an empty one, sends nothing; an empty ticket is null.
-- `none` is a dialog that is cancelled.
unfoldable pub ask_revoke : Cert → Option String → Option String → Option Request
ask_revoke x none change = none
ask_revoke x (some reason) change =
    if is_blank reason then none else some (revoke x.id reason (text_or_null change))

-- `payload` is what `JSON.stringify` makes of it.
pub record Approval : Type 0 where
  pub id : String
  pub status : String
  pub action : Text
  pub payload : Text
  pub requested_by : Text
  pub decided_by : Text

-- A button of an approval's row: its `data-ok`, or its `data-no`.
pub data Button : Type 0 where
  ok_button no_button : String → Button

unfoldable pub buttons : Approval → List Button
buttons a = if str_eq a.status "pending" then ok_button a.id ∷ no_button a.id ∷ [] else []

unfoldable pub all_buttons : List Approval → List Button
unfolding buttons
all_buttons [] = []
all_buttons (a ∷ rows) = buttons a ++ all_buttons rows

-- `id = ok || no`, `verb = ok ? "approve" : "reject"`, for an id that is not empty.
unfoldable pub press : Button → Request
press (ok_button id) = decide id "approve"
press (no_button id) = decide id "reject"
