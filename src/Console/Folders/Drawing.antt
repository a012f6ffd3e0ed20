-- ===== src/Console/Folders/Drawing.antt =====
-- The markup of the policy tree in src/certadillo/web/static/console.js: `node` of `loadPolicy`.
pub mod Safety
pub mod Total
use certadillo.Prelude.{
  Bool, List, Option, String, [], codes, if◌then◌else◌, none, some, suc, zero, ℕ, ◌==◌, ◌∷◌,
}
use certadillo.Prelude.Int.{pos, ℤ}
use certadillo.Markup.{Text, Value, Values, array, cons, html, nil, text}
use certadillo.Markup.Tags.{map_values, only}
use certadillo.Console.Cells.{has_rows}
use certadillo.Console.Folders.{Folder, kids, ◌>>=◌}
use certadillo.Console.Rules.{Rule, draw_value}

unfoldable pub folder_rule : (ℤ → Text) → (String × Rule) → Value
folder_rule digits entry = html (codes "<span class=\"rule ") (
    (text (if entry.1.locked then codes "locked" else []), codes "\" title=\"")
    ∷ (
      text (
          if entry.1.locked then codes "cannot be changed below this folder" else codes "set here"),
      codes "\">",
    )
    ∷ (text (codes entry.0), codes ": ")
    ∷ (text (draw_value digits entry.1.value), codes "</span>")
    ∷ [])

-- The folders below a folder, if there are any.
abbrev pub below_or : Bool → Values → Value
below_or c vs =
    if c then html (codes "<ul class=\"tree\">") ((array vs, codes "</ul>") ∷ []) else text []

-- The markup of a folder; `below` is that of the folders that it holds.
unfoldable pub folder_item : (ℤ → Text) → Folder → Bool → Values → Value
folder_item digits f c below = html (codes "<li><b>") (
    (text (codes f.name), codes "</b> <span class=\"muted\">")
    ∷ (text (digits (pos f.apps)), codes " app")
    ∷ (
      text (if f.apps == 1 then [] else codes "s"),
      codes "</span> <button class=\"adm small\" data-edit=\"",
    )
    ∷ (text (digits (pos f.id)), codes "\">Edit rules</button>\n      <div class=\"rules\">")
    ∷ (array (map_values (folder_rule digits) f.settings), codes "</div>\n      ")
    ∷ (below_or c below, codes "</li>")
    ∷ [])

-- `ks.map(node)`.
module _ (node : Folder → Option Value) where
  unfoldable pub map_items : List Folder → Option Values
  map_items [] = some nil
  map_items (f ∷ ks) = do here ← node f; rest ← map_items ks; some (cons here rest)

-- `node`; `none` means that the fuel ran out.
unfoldable pub node_view : (ℤ → Text) → ℕ → List Folder → Folder → Option Value
unfolding map_items kids
node_view digits zero fs f = none
node_view digits (suc fuel) fs f = do
  below ← map_items (node_view digits fuel fs) (kids fs (some f.id))
  some (folder_item digits f (has_rows (kids fs (some f.id))) below)

-- `#tree`.
unfoldable pub tree_view : (ℤ → Text) → ℕ → List Folder → Option Value
unfolding node_view
tree_view digits fuel fs =
    if has_rows fs
    then (map_items (node_view digits fuel fs) (kids fs none) >>= λ below.
        some (html (codes "<ul class=\"tree\">") ((array below, codes "</ul>") ∷ [])))
    else some (only (codes "No folders yet. Apps use their profile's rules only."))
