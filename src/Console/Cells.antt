-- ===== src/Console/Cells.antt =====
-- The templates that the views of src/certadillo/web/static/console.js share: `pill`, `options`,
-- `when`, `left` and what `part403` writes. A text that the API may leave out is empty then: both
-- show nothing, and both are false in a test. A number that is only shown is the text that
-- `String` makes of it.
pub mod Safety
use certadillo.Prelude.{Bool, List, [], codes, false, if◌then◌else◌, take, true, ℕ, ◌++◌, ◌==◌, ◌∷◌}
use certadillo.Prelude.Int.{pos, ℤ}
use certadillo.Markup.{Text, Value, array, html, text}
use certadillo.Markup.Tags.{map_values}
use certadillo.Console.Inventory.{Left, days, days_ago, hours}

-- `t.replace(a, b)` of single units.
unfoldable pub replace_first : ℕ → ℕ → Text → Text
replace_first a b [] = []
replace_first a b (c ∷ t) = let rest = replace_first a b t in if c == a then b ∷ t else c ∷ rest

-- Whether a text is true in a test.
abbrev pub is_set : Text → Bool
is_set [] = false
is_set (c ∷ t) = true

-- `t || other`.
abbrev pub or_text : Text → Text → Text
or_text [] other = other
or_text (c ∷ t) other = c ∷ t

-- `rows.length`, as a test.
abbrev pub has_rows {ℓ} : {A : Type ℓ} → List A → Bool
has_rows [] = false
has_rows (x ∷ xs) = true

-- `when`: the first 16 units, the first T in them a space.
unfoldable pub when : Text → Text
when t = replace_first b'T' b' ' (take 16 t)

-- What `left` shows; `digits` is `String` of a whole number.
unfoldable pub left_text : (ℤ → Text) → Left → Text
left_text digits (days_ago n) = digits (pos n) ++ codes "d ago"
left_text digits (hours n) = digits (pos n) ++ codes "h"
left_text digits (days n) = digits n ++ codes "d"

unfoldable pub pill : Text → Value
pill s = html (codes "<span class=\"pill ") ((text s, codes "\">") ∷ (text s, codes "</span>") ∷ [])

unfoldable pub option_row : Text → Text → Value
option_row value label =
    html (codes "<option value=\"")
      ((text value, codes "\">") ∷ (text label, codes "</option>") ∷ [])

unfoldable pub option_first : Text → Value
option_first first = html (codes "<option value=\"\">") ((text first, codes "</option>") ∷ [])

-- `options`; an empty `first` is none.
module _ {A : Type 0} (value label : A → Text) where
  abbrev pub option_of : A → Value
  option_of r = option_row (value r) (label r)

  unfoldable pub options : Text → List A → Value
  options first rows = html [] (
      (if is_set first then option_first first else text [], [])
      ∷ (array (map_values option_of rows), [])
      ∷ [])

-- What `part403` writes where its section may not be read.
unfoldable pub refused : Text → Value
refused message = html (codes "<span class=\"muted\">") ((text message, codes "</span>") ∷ [])

-- What a view shows of an error.
unfoldable pub failure : Text → Value
failure message = html (codes "<p class=\"err\">") ((text message, codes "</p>") ∷ [])

unfoldable pub tab_button : (Text × Text) → Value
tab_button tab =
    html (codes "<button data-tab=\"")
      ((text tab.0, codes "\">") ∷ (text tab.1, codes "</button>") ∷ [])

-- `#tabs`.
unfoldable pub tabs_view : List (Text × Text) → Value
tabs_view tabs = html (codes "") ((array (map_values tab_button (tabs)), codes "") ∷ [])
