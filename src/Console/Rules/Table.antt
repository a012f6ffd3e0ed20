-- ===== src/Console/Rules/Table.antt =====
-- The table of `drawRules` and `ruleRow` in src/certadillo/web/static/console.js.
pub mod Safety
use certadillo.Prelude.{List, String, [], codes, if◌then◌else◌, str_eq, ◌∷◌}
use certadillo.Prelude.Int.{ℤ}
use certadillo.Markup.{Text, Value, array, html, text}
use certadillo.Markup.Tags.{map_values, only}
use certadillo.Console.Rules.{Rule, draw_value}

unfoldable pub key_option : String → String → Value
key_option key k = html (codes "<option value=\"") (
    (text (codes k), codes "\" ")
    ∷ (if str_eq k key then only (codes "selected") else text [], codes ">")
    ∷ (text (codes k), codes "</option>")
    ∷ [])

unfoldable pub rule_row : List String → (ℤ → Text) → (String × Rule) → Value
rule_row settings digits entry = html (codes "<tr><td><select class=\"fe-key\">") (
    (
      array (map_values (key_option entry.0) (settings)),
      codes "</select></td>\n    <td><input class=\"fe-val\" value=\"",
    )
    ∷ (
      text (draw_value digits entry.1.value),
      codes
          "\" placeholder=\"value; lists comma separated\"></td>\n    <td><label class=\"inline\"><input type=\"checkbox\" class=\"fe-lock\" ",
    )
    ∷ (
      if entry.1.locked then only (codes "checked") else text [],
      codes "> locked</label></td>\n    <td><button class=\"fe-del\">Remove</button></td></tr>",
    )
    ∷ [])

-- `#fe-rules`.
unfoldable pub rules_view : List String → (ℤ → Text) → List (String × Rule) → Value
rules_view settings digits rules =
    html (codes "<tr><th>Rule</th><th>Value</th><th></th><th></th></tr>")
      ((array (map_values (rule_row settings digits) (rules)), codes "") ∷ [])
