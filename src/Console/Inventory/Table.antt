-- ===== src/Console/Inventory/Table.antt =====
-- The tables of `renderInv` and `loadApprovals` in src/certadillo/web/static/console.js.
pub mod Safety
pub mod Rows
pub mod Buttons
use certadillo.Prelude.{List, [], codes, if◌then◌else◌, length, str_eq, take, ◌++◌, ◌∷◌}
use certadillo.Prelude.Int.{pos, ℤ}
use certadillo.Markup.{Text, Value, array, html, text}
use certadillo.Markup.Tags.{map_values, only}
use certadillo.Console.Cells.{has_rows, is_set, left_text, pill}
use certadillo.Console.Inventory.{Approval, Cert, Filter, can_revoke, left, shown_certs}

unfoldable pub revoke_button : Cert → Value
revoke_button x =
    html (codes "<button data-revoke=\"") ((text (codes x.id), codes "\">Revoke</button>") ∷ [])

-- `" / " + protocol`, where there is one.
abbrev after_slash : Text → Text
after_slash [] = []
after_slash (c ∷ t) = codes " / " ++ c ∷ t

unfoldable pub cert_row : (ℤ → Text) → Cert → Value
cert_row digits x = html (codes "<tr><td>") (
    (text x.common_name, codes "<br><span class=\"muted\">")
    ∷ (text (take 16 x.serial), codes "…</span></td><td>")
    ∷ (pill (codes x.status), codes "</td><td>")
    ∷ (text (codes x.source), codes "")
    ∷ (text (after_slash x.protocol), codes "</td><td>")
    ∷ (text x.key, codes "</td><td>")
    ∷ (text x.profile, codes "</td><td>")
    ∷ (text x.location, codes "</td><td class=\"num\">")
    ∷ (text (left_text digits (left x)), codes "</td>\n    <td>")
    ∷ (if can_revoke x then (revoke_button x) else (text []), codes "</td></tr>")
    ∷ [])

-- `#inv`.
unfoldable pub inventory_view : (Text → Text) → (ℤ → Text) → Filter → List Cert → Value
inventory_view lower digits f inv = html (codes "<p class=\"muted\">") (
    (text (digits (pos (length (shown_certs lower f inv)))), codes " of ")
    ∷ (
      text (digits (pos (length inv))),
      codes
          "</p><table><tr><th>Name</th><th>Status</th><th>Source</th><th>Key</th><th>Profile</th><th>Location</th><th class=\"num\">Expires</th><th></th></tr>",
    )
    ∷ (array (map_values (cert_row digits) (shown_certs lower f inv)), codes "</table>")
    ∷ [])

unfoldable pub decided_by : Text → Value
decided_by name = html (codes "<br>by ") ((text name, codes "") ∷ [])

unfoldable pub decide_buttons : Text → Value
decide_buttons id = html (codes "<button class=\"primary\" data-ok=\"") (
    (text id, codes "\">Approve</button> <button data-no=\"")
    ∷ (text id, codes "\">Reject</button>")
    ∷ [])

unfoldable pub approval_row : Approval → Value
approval_row r = html (codes "<tr><td>") (
    (text (codes r.id), codes "</td><td>")
    ∷ (text r.action, codes "</td><td><pre>")
    ∷ (text r.payload, codes "</pre></td><td>")
    ∷ (text r.requested_by, codes "</td><td>")
    ∷ (pill (codes r.status), codes "")
    ∷ (
      if is_set r.decided_by then (decided_by r.decided_by) else (text []),
      codes "</td>\n    <td>",
    )
    ∷ (
      if str_eq r.status "pending" then (decide_buttons (codes r.id)) else (text []),
      codes "</td></tr>",
    )
    ∷ [])

-- `#appr`.
unfoldable pub approvals_view : List Approval → Value
approvals_view rows =
    if has_rows rows
    then (html
        (codes
          "<table><tr><th>#</th><th>Action</th><th>Details</th><th>Requested by</th><th>Status</th><th></th></tr>")
        ((array (map_values approval_row (rows)), codes "</table>") ∷ []))
    else (only (codes "No approval requests."))
