-- ===== src/Console/Drawn/Tests.antt =====
-- Small inputs for the views of src/certadillo/web/static/console.js.
use certadillo.Prelude.{
  ◌≡◌, refl, true, false, List, [], ◌∷◌, some, none, codes, all, arith, String,
}
use certadillo.Markup.{Text, render}
use certadillo.Markup.Tags.{read_all, at_content}
use certadillo.Prelude.Int.{pos}
use certadillo.Markup.Counts.{Shows}
use certadillo.Console.Inventory.{Cert, Filter, Approval, shown_certs, can_revoke, all_buttons}
use certadillo.Console.Inventory.Table.{inventory_view, approvals_view}
use certadillo.Console.Inventory.Table.Rows.{is_row, is_revoke, inventory_view-Shows}
use certadillo.Console.Inventory.Table.Buttons.{is_decision, approvals_view-Shows}
use certadillo.Console.Allowed.{is_allowed}
use certadillo.Console.Overview.{Alert, alerts_view}
use certadillo.Console.Folders.{Folder}
use certadillo.Console.Folders.Tree.{Ends}
use certadillo.Console.Folders.Drawing.{tree_view}
use certadillo.Console.Folders.Drawing.Total.{tree_view-Ends}
use certadillo.Console.Drawn.{at_alerts}
use certadillo.Console.Drawn.Safety.{Drawn-render}

-- A certificate whose subject is markup.
abbrev hostile : Alert
hostile = record {
  severity = codes "high\" onclick=\"x";
  rule = codes "<script>";
  summary = codes "</table>";
  team = [];
}

Drawn-render_example :
    (out : Text) × (tags : List Text) × (render (alerts_view (hostile ∷ [])) ≡ some out)
    × (read_all (at_content []) out ≡ at_content tags)
    × (all is_allowed tags ≡ true)
Drawn-render_example = Drawn-render (at_alerts (hostile ∷ []))

script_refused : is_allowed (codes "script") ≡ false
unfolding is_allowed
script_refused = refl

handler_refused : is_allowed (codes "span class=\"\" onclick=\"\"") ≡ false
unfolding is_allowed
handler_refused = refl

abbrev root : Folder
root = record {
  id = 1;
  parent_id = none;
  name = "bank";
  path = codes "bank";
  apps = 0;
  settings = [];
}

tree_view-Ends_example : Ends (tree_view (λ n. codes "0") 1 (root ∷ []))
tree_view-Ends_example =
    tree_view-Ends (λ n. codes "0") (λ n. 0) 0 1 (root ∷ []) (((λ p e. cc), omega arith), tt)
      (omega arith)

abbrev web : Cert
web = record {
  id = "c1";
  common_name = codes "<tr>";
  serial = codes "01";
  location = [];
  sans = [];
  status = "active";
  source = "issued";
  hours_left = pos 5;
  days_left = pos 0;
  protocol = codes "acme";
  key = codes "ec";
  profile = [];
}

abbrev all_shown : Filter
all_shown = record { status = ""; source = ""; query = [] }

inventory_view-Shows_example :
    Shows is_row is_revoke (inventory_view (λ t. t) (λ n. codes "5") all_shown (web ∷ [])) 2 1
unfolding shown_certs can_revoke
inventory_view-Shows_example = inventory_view-Shows (λ t. t) (λ n. codes "5") all_shown (web ∷ [])

abbrev asked : String → Approval
asked status = record {
  id = "1";
  status = status;
  action = codes "app.create";
  payload = codes "{}";
  requested_by = codes "<button data-ok=\"1\">";
  decided_by = [];
}

approvals_view-Shows_example :
    Shows is_row is_decision (approvals_view (asked "approved" ∷ asked "pending" ∷ [])) 3 2
unfolding all_buttons
approvals_view-Shows_example = approvals_view-Shows (asked "approved") (asked "pending" ∷ [])
