-- ===== src/Markup.antt =====
-- Markup in src/certadillo/web/static/console.js: `escText`, `part`, the `html` tag, `SafeHtml` and
-- `render`. The function `esc` of kb-src/kb-app.js and kb-src/scenes-engine.js has the same table.
-- A text is the list of its UTF-16 units.
pub mod Lexer
pub mod Inert
pub mod Tags
pub mod Allowed
pub mod Counts
pub mod Decode
mod Tests
use certadillo.Prelude.{
  ℕ, String, Bool, true, false, List, [], ◌∷◌, ◌++◌, Option, none, some, codes, ◌==◌, if◌then◌else◌,
}

abbrev pub Text : Type 0
Text = List ℕ

-- The table of the replacements of `escText`; a unit that is not in it stays.
unfoldable pub esc_unit : ℕ → Text
esc_unit c =
    if c == b'&'
    then codes "&amp;"
    else if c == b'<'
    then codes "&lt;"
    else if c == b'>'
    then codes "&gt;"
    else if c == b'"'
    then codes "&quot;"
    else if c == b'\''
    then codes "&#39;"
    else if c == b'`'
    then codes "&#96;"
    else c ∷ []

unfoldable pub esc_text : Text → Text
unfolding esc_unit
esc_text [] = []
esc_text (c ∷ t) = esc_unit c ++ esc_text t

-- What stands in `${…}`: a string (or what `String` makes of a number or a truth value), `null` or
-- `undefined`, an instance of SafeHtml, or an array of such.
mutual
  pub data Value : Type 0 where
    text : Text → Value
    missing : Value
    safe : Text → Value
    array : Values → Value

  pub data Values : Type 0 where
    nil : Values
    cons : Value → Values → Values

-- `part`, and `map(part).join("")`.
unfoldable mutual
  unfolding esc_text

  pub part : Value → Text
  part (text t) = esc_text t
  part missing = []
  part (safe t) = t
  part (array vs) = parts vs

  pub parts : Values → Text
  parts nil = []
  parts (cons v vs) = part v ++ parts vs

-- `strings` and `values` after the first string: each value with the string behind it.
abbrev pub Holes : Type 0
Holes = List (Value × Text)

-- The loop of `html`.
unfoldable pub fill : Text → Holes → Text
unfolding part
fill out [] = out
fill out ((v, s) ∷ more) = fill (out ++ (part v ++ s)) more

unfoldable pub html : Text → Holes → Value
unfolding fill
html first holes = safe (fill first holes)

-- The markup that `render` writes; `none` is its TypeError.
unfoldable pub render : Value → Option Text
render (safe t) = some t
render _ = none
