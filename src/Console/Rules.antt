-- ===== src/Console/Rules.antt =====
-- The editor of a policy folder's rules in src/certadillo/web/static/console.js: `SETTING_KIND`,
-- `ruleRow`, `drawRules`, `readRules` and the button `#fe-add`.
pub mod RoundTrip
pub mod Reading
pub mod Adding
pub mod Table
use certadillo.Prelude.{
  ℕ, String, Bool, true, false, ◌||◌, List, [], ◌∷◌, ◌++◌, map, Option, none, some, codes, ◌==◌,
  str_eq, if◌then◌else◌, filter, not,
}
use certadillo.Prelude.Int.{ℤ}
use certadillo.Words.{is_space, trim, words_by, join}
use certadillo.Markup.{Text}
use certadillo.Markup.Allowed.{same_text}

pub data RuleKind : Type 0 where
  list_kind int_kind bool_kind text_kind : RuleKind

-- `SETTING_KIND[key] || "text"`.
unfoldable pub kind_of : String → RuleKind
kind_of key =
    if str_eq key "allowed_profiles" || str_eq key "allowed_zones" || str_eq key "ec_curves"
    then list_kind
    else if str_eq key "rsa_min_bits" || str_eq key "max_validity_days"
    then int_kind
    else if str_eq key "dual_control"
    then bool_kind
    else text_kind

pub data RuleValue : Type 0 where
  list_value : List Text → RuleValue
  int_value : ℤ → RuleValue
  bool_value : Bool → RuleValue
  text_value : Text → RuleValue

pub record Rule : Type 0 where
  pub value : RuleValue
  pub locked : Bool

-- What a row of the table holds: the chosen key, the text of the field, and the box.
pub record Row : Type 0 where
  pub key : String
  pub raw : Text
  pub locked : Bool

-- The errors of `readRules`, each with the key that it names.
pub data RuleError : Type 0 where
  needs_value not_whole : String → RuleError

pub data Result {ℓ} (A : Type ℓ) : Type ℓ where
  ok : A → Result A
  err : RuleError → Result A

infixl 5 ◌>>=◌
abbrev pub ◌>>=◌ {ℓ κ} : {A : Type ℓ} {B : Type κ} → Result A → (A → Result B) → Result B
ok a >>= f = f a
err e >>= f = err e

-- `/[\s,]/`.
unfoldable pub is_separator : ℕ → Bool
unfolding is_space
is_separator c = is_space c || c == b','

abbrev whole_or : String → Option ℤ → Result RuleValue
whole_or key none = err (not_whole key)
whole_or key (some n) = ok (int_value n)

-- `out[key] = …`: a key keeps its place and takes the later value.
unfoldable pub put_rule : String → Rule → List (String × Rule) → List (String × Rule)
put_rule key rule [] = (key, rule) ∷ []
put_rule key rule ((k, r) ∷ out) =
    if str_eq k key then (k, rule) ∷ out else (k, r) ∷ put_rule key rule out

-- `lower` is `toLowerCase`; `whole` is `Number`, for a text that it takes for a whole number.
module _ (lower : Text → Text) (whole : Text → Option ℤ) where
  unfoldable pub read_kind : String → RuleKind → Text → Result RuleValue
  unfolding words_by is_separator
  read_kind key list_kind raw = ok (list_value (words_by is_separator [] raw))
  read_kind key int_kind raw = whole_or key (whole raw)
  read_kind key bool_kind raw = ok (
      bool_value (
        same_text (lower raw) (codes "true")
        || same_text (lower raw) (codes "yes")
        || same_text (lower raw) (codes "1")))
  read_kind key text_kind raw = ok (text_value raw)

  -- One row. The text is trimmed, and must not be empty then.
  unfoldable pub read_row : Row → Result Rule
  unfolding trim kind_of read_kind
  read_row r = elim (trim r.raw) [
    | [] ↦ err (needs_value r.key)
    | c ∷ t ↦ read_kind r.key (kind_of r.key) (c ∷ t) >>= λ v.
        ok (record { value = v; locked = r.locked })
  ]

  -- The rows from the first to the last; the first one that cannot be read ends it.
  unfoldable pub read_rules : List Row → List (String × Rule) → Result (List (String × Rule))
  unfolding read_row put_rule
  read_rules [] out = ok out
  read_rules (r ∷ rows) out = do rule ← read_row r; read_rules rows (put_rule r.key rule out)

-- What `ruleRow` writes in the field: a list with commas, `String` of anything else. `shown` is
-- `String` of a whole number.
unfoldable pub draw_value : (ℤ → Text) → RuleValue → Text
unfolding join
draw_value shown (list_value items) = join (codes ", ") items
draw_value shown (int_value n) = shown n
draw_value shown (bool_value true) = codes "true"
draw_value shown (bool_value false) = codes "false"
draw_value shown (text_value t) = t

-- A field of one line drops the line breaks of its value.
abbrev pub is_break : ℕ → Bool
is_break c = c == 10 || c == 13

abbrev pub field_of : Text → Text
field_of t = filter (λ c. not (is_break c)) t

abbrev pub is_setting : String → List String → Bool
is_setting key [] = false
is_setting key (k ∷ settings) = str_eq k key || is_setting key settings

-- The value of a drop-down list of the settings in which none but `key` is marked as selected: the
-- first one where `key` is not in it, and nothing where it is empty.
abbrev pub selected : List String → String → String
selected settings key =
    if is_setting key settings then key else elim settings [ [] ↦ "" | k ∷ _ ↦ k ]

unfoldable pub draw_rules : List String → (ℤ → Text) → List (String × Rule) → List Row
unfolding draw_value
draw_rules settings shown [] = []
draw_rules settings shown ((key, rule) ∷ rules) =
    record {
      key = selected settings key;
      raw = field_of (draw_value shown rule.value);
      locked = rule.locked;
    }
    ∷ draw_rules settings shown rules

abbrev pub has_row : String → List Row → Bool
has_row key [] = false
has_row key (r ∷ rows) = str_eq r.key key || has_row key rows

-- The first of the settings with no row, if there is one.
unfoldable pub unused : List String → List Row → Option String
unused [] rows = none
unused (k ∷ settings) rows =
    let later = unused settings rows in if has_row k rows then later else some k

-- Without settings the list is empty.
abbrev pub key_or : Option String → List String → String
key_or (some k) settings = k
key_or none [] = ""
key_or none (k ∷ _) = k

-- A row that is drawn again with what it holds.
abbrev pub redrawn : List String → Row → Row
redrawn settings r = record r { key = selected settings r.key; raw = field_of r.raw }

-- The rows after a click on `#fe-add`: what is typed so far, and an empty row.
unfoldable pub add_row : List String → List Row → List Row
unfolding unused
add_row settings rows =
    map (redrawn settings) rows
    ++ record {
      key = selected settings (key_or (unused settings rows) settings);
      raw = [];
      locked = false;
    }
      ∷ []
