-- ===== src/Console/Overview.antt =====
-- The overview of src/certadillo/web/static/console.js: `loadOverview`.
pub mod Safety
use certadillo.Prelude.{
  List, String, [], codes, if◌then◌else◌, str_eq, take, ℕ, ◌++◌, ◌+◌, ◌/◌, ◌==◌, ◌∷◌,
}
use certadillo.Prelude.Int.{pos, ℤ}
use certadillo.Markup.{Text, Value, array, html, text}
use certadillo.Markup.Tags.{map_values, only}
use certadillo.Console.Cells.{has_rows, left_text, or_text, pill}
use certadillo.Console.Inventory.{Cert, left}

-- The reply to GET /api/v1/reports/summary; the share of automated issuance in thousandths.
pub record Summary : Type 0 where
  pub health : String
  pub active : ℕ
  pub renewal_critical : ℕ
  pub renewal_warning : ℕ
  pub expired : ℕ
  pub unmanaged : ℕ
  pub critical : ℕ
  pub warning : ℕ
  pub pending_approvals : ℕ
  pub automation_coverage : ℕ
  pub ssh_certificates : ℕ
  pub teams : ℕ

-- The name of the picture that goes with the health.
unfoldable pub mascot : Summary → String
mascot s =
    if str_eq s.health "critical"
    then "/static/dilly-rolled.svg"
    else if str_eq s.health "warning"
    then "/static/dilly-worried.svg"
    else "/static/dilly.svg"

-- `Math.round(share * 100)` of a share in thousandths.
abbrev pub percent : ℕ → ℕ
percent share = (share + 5) / 10

abbrev plural : ℕ → Text
plural n = if n == 1 then [] else codes "s"

-- `#bubble`; `digits` is `String` of a whole number.
unfoldable pub bubble : (ℤ → Text) → Summary → Text
bubble digits s =
    if str_eq s.health "critical"
    then codes "I've rolled up. "
      ++ digits (pos s.critical)
      ++ codes " critical alert"
      ++ plural s.critical
      ++ codes " need someone now; start with the list below."
    else if str_eq s.health "warning"
    then digits (pos s.warning)
      ++ codes " thing"
      ++ plural s.warning
      ++ codes " to look at soon. Nothing is broken yet."
    else codes "All quiet. "
      ++ digits (pos s.active)
      ++ codes " active certificates, "
      ++ digits (pos (percent s.automation_coverage))
      ++ codes "% issued through automation."

-- A number of the overview, with its class.
pub record Kpi : Type 0 where
  pub label : Text
  pub value : Text
  pub class : Text

abbrev plain_kpi : Text → Text → Kpi
plain_kpi label value = record { label = label; value = value; class = [] }

-- A number that is marked unless it is 0.
abbrev marked_kpi : (ℤ → Text) → Text → ℕ → Text → Kpi
marked_kpi digits label n class = record {
  label = label;
  value = digits (pos n);
  class = if n == 0 then [] else class;
}

unfoldable pub kpis : (ℤ → Text) → Summary → List Kpi
kpis digits s =
    plain_kpi (codes "Active certificates") (digits (pos s.active))
    ∷ marked_kpi digits (codes "Renewal overdue (critical)") s.renewal_critical (codes "crit")
    ∷ marked_kpi digits (codes "Renewal window open") s.renewal_warning (codes "warn")
    ∷ marked_kpi digits (codes "Expired, still deployed") s.expired (codes "crit")
    ∷ marked_kpi digits (codes "Unmanaged (no owner)") s.unmanaged (codes "warn")
    ∷ marked_kpi digits (codes "Critical alerts") s.critical (codes "crit")
    ∷ plain_kpi (codes "Pending approvals") (digits (pos s.pending_approvals))
    ∷ plain_kpi (codes "Automated issuance")
        (digits (pos (percent s.automation_coverage)) ++ codes "%")
    ∷ plain_kpi (codes "SSH certificates") (digits (pos s.ssh_certificates))
    ∷ plain_kpi (codes "Teams") (digits (pos s.teams))
    ∷ []

pub record Alert : Type 0 where
  pub severity : Text
  pub rule : Text
  pub summary : Text
  pub team : Text

unfoldable pub kpi_view : Kpi → Value
kpi_view k = html (codes "<div class=\"kpi ") (
    (text k.class, codes "\"><b>")
    ∷ (text k.value, codes "</b><span>")
    ∷ (text k.label, codes "</span></div>")
    ∷ [])

-- `#kpis`.
unfoldable pub kpis_view : (ℤ → Text) → Summary → Value
kpis_view digits s = html (codes "") ((array (map_values kpi_view (kpis digits s)), codes "") ∷ [])

unfoldable pub alert_row : Alert → Value
alert_row x = html (codes "<tr><td>") (
    (pill x.severity, codes "</td><td><b>")
    ∷ (text x.rule, codes "</b><br>")
    ∷ (text x.summary, codes "</td><td>")
    ∷ (text (or_text x.team (codes "unowned")), codes "</td></tr>")
    ∷ [])

-- `#alerts`.
unfoldable pub alerts_view : List Alert → Value
alerts_view alerts =
    if has_rows alerts
    then (html (codes "<table><tr><th>Severity</th><th>Alert</th><th>Owner</th></tr>")
        ((array (map_values alert_row (take 25 alerts)), codes "</table>") ∷ []))
    else (only (codes "No open alerts."))

unfoldable pub expiring_row : (ℤ → Text) → Cert → Value
expiring_row digits x = html (codes "<tr><td>") (
    (text x.common_name, codes "</td><td>")
    ∷ (text (or_text x.location (codes x.source)), codes "</td><td class=\"num\">")
    ∷ (text (left_text digits (left x)), codes "</td></tr>")
    ∷ [])

-- `#expiring`.
unfoldable pub expiring_view : (ℤ → Text) → List Cert → Value
expiring_view digits rows =
    if has_rows rows
    then (html (codes "<table><tr><th>Name</th><th>Location</th><th class=\"num\">Left</th></tr>")
        ((array (map_values (expiring_row digits) (take 25 rows)), codes "</table>") ∷ []))
    else (only (codes "Nothing is inside its renewal window."))
