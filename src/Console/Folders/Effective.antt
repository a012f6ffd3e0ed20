-- ===== src/Console/Folders/Effective.antt =====
-- The effective policy of an application in src/certadillo/web/static/console.js: `#pol-app` and
-- what its change shows.
pub mod Safety
use certadillo.Prelude.{Bool, List, [], codes, if◌then◌else◌, not, ◌&&◌, ◌∷◌}
use certadillo.Prelude.Int.{ℤ}
use certadillo.Markup.{Text, Value, array, html, text}
use certadillo.Markup.Tags.{map_values, only}
use certadillo.Console.Cells.{has_rows, is_set}
use certadillo.Console.Rules.{RuleValue, draw_value}
use certadillo.Markup.Allowed.{same_text}

-- A rule that applies, with the folder that sets it.
pub record FolderRule : Type 0 where
  pub key : Text
  pub value : RuleValue
  pub folder : Text
  pub locked : Bool

-- The reply to GET /api/v1/apps/{id}/policy.
pub record Effective : Type 0 where
  pub app : Text
  pub profile : Text
  pub folder : Text
  pub folder_rules : List FolderRule

unfoldable pub app_option : (Text × Text) → Value
app_option app =
    html (codes "<option value=\"")
      ((text app.0, codes "\">") ∷ (text app.1, codes "</option>") ∷ [])

-- `#pol-app`.
unfoldable pub app_options : List (Text × Text) → Value
app_options apps =
    html (codes "<option value=\"\">pick an app</option>")
      ((array (map_values app_option (apps)), codes "") ∷ [])

unfoldable pub in_folder : Text → Value
in_folder folder = html (codes " in <b>") ((text folder, codes "</b>") ∷ [])

unfoldable pub effective_row : (ℤ → Text) → FolderRule → Value
effective_row digits r = html (codes "<tr><td>") (
    (text r.key, codes "</td><td>")
    ∷ (text (draw_value digits r.value), codes "</td><td>")
    ∷ (text r.folder, codes "</td><td>")
    ∷ (text (if r.locked then codes "yes" else []), codes "</td></tr>")
    ∷ [])

unfoldable pub effective_table : (ℤ → Text) → List FolderRule → Value
effective_table digits rules =
    html (codes "<table><tr><th>Rule</th><th>Value</th><th>Set at</th><th>Locked</th></tr>")
      ((array (map_values (effective_row digits) (rules)), codes "</table>") ∷ [])

-- `#pol-out`.
unfoldable pub effective_view : (ℤ → Text) → Effective → Value
effective_view digits r = html (codes "<p>") (
    (text r.app, codes " uses profile <b>")
    ∷ (text r.profile, codes "</b>")
    ∷ (
      if is_set r.folder && not (same_text r.folder (codes "\\"))
          then (in_folder r.folder)
          else (text (codes " and sits in no policy folder")),
      codes ".</p>\n      ",
    )
    ∷ (
      if has_rows r.folder_rules
          then (effective_table digits r.folder_rules)
          else (only (codes "<p class=\"muted\">No folder rules; the profile alone applies.</p>")),
      codes "",
    )
    ∷ [])
