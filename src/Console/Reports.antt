-- ===== src/Console/Reports.antt =====
-- The reports of src/certadillo/web/static/console.js: `loadReports`.
pub mod Safety
use certadillo.Prelude.{Bool, List, Option, [], codes, if◌then◌else◌, none, some, take, ◌∷◌}
use certadillo.Words.{join}
use certadillo.Markup.{Text, Value, array, html, text}
use certadillo.Markup.Tags.{map_values}
use certadillo.Console.Cells.{pill}
use certadillo.Markup.Allowed.{same_text}

-- A certificate authority; `signer` is "offline" for one that signs at a ceremony.
pub record Ca : Type 0 where
  pub name : Text
  pub subject : Text
  pub is_root : Bool
  pub signer : Text
  pub not_after : Text
  pub crl_number : Text

-- The health of the key of an authority.
pub record KeyHealth : Type 0 where
  pub ca : Text
  pub ok : Bool
  pub problems : List Text

-- `health[name]`: of two entries for an authority the later one.
unfoldable pub health_of : List KeyHealth → Option KeyHealth → Text → Option KeyHealth
health_of [] found name = found
health_of (k ∷ keys) found name =
    health_of keys (if same_text k.ca name then some k else found) name

unfoldable pub offline_mark : Value
offline_mark =
    html (codes "")
      ((pill (codes "offline"), codes " <span class=\"muted\">signed at the ceremony</span>") ∷ [])

unfoldable pub problems_mark : List Text → Value
problems_mark problems = html (codes "") (
    (pill (codes "critical"), codes " <span class=\"err\">")
    ∷ (text (join (codes "; ") problems), codes "</span>")
    ∷ [])

abbrev pub health_mark : Option KeyHealth → Value
health_mark none = text []
health_mark (some h) = if h.ok then pill (codes "ok") else problems_mark h.problems

unfoldable pub ca_row : List KeyHealth → Ca → Value
ca_row keys c = html (codes "<tr><td>") (
    (text c.name, codes "<br><span class=\"muted\">")
    ∷ (text c.subject, codes "</span></td><td>")
    ∷ (text (if c.is_root then codes "root" else codes "issuing"), codes "</td><td>")
    ∷ (
      if same_text c.signer (codes "offline") then (offline_mark) else (text c.signer),
      codes "</td>\n      <td>",
    )
    ∷ (health_mark (health_of keys none c.name), codes "</td><td>")
    ∷ (text (take 10 c.not_after), codes "</td><td class=\"num\">")
    ∷ (text c.crl_number, codes "</td></tr>")
    ∷ [])

-- `#cas`.
unfoldable pub cas_view : List KeyHealth → List Ca → Value
cas_view keys cas =
    html
      (codes
        "<table><tr><th>CA</th><th>Role</th><th>Key</th><th>Health</th><th>Expires</th><th class=\"num\">CRL #</th></tr>")
      ((array (map_values (ca_row keys) (cas)), codes "</table>") ∷ [])

pub record CryptoCa : Type 0 where
  pub ca : Text
  pub algorithm : Text
  pub signer : Text
  pub not_after : Text
  pub outlives_cutoff : Bool

-- The reply to GET /api/v1/reports/crypto.
pub record CryptoReport : Type 0 where
  pub active_certificates : Text
  pub quantum_vulnerable : Text
  pub pqc_signed : Text
  pub past_deprecation : Text
  pub authorities : List CryptoCa
  pub recommendations : List Text

unfoldable pub crypto_row : CryptoCa → Value
crypto_row c = html (codes "<tr><td>") (
    (text c.ca, codes "</td><td>")
    ∷ (text c.algorithm, codes "</td><td>")
    ∷ (text c.signer, codes "</td><td>")
    ∷ (text (take 10 c.not_after), codes "</td><td>")
    ∷ (
      if c.outlives_cutoff then (pill (codes "warning")) else (pill (codes "ok")),
      codes "</td></tr>",
    )
    ∷ [])

unfoldable pub recommendation_row : Text → Value
recommendation_row x = html (codes "<li>") ((text x, codes "</li>") ∷ [])

-- `#crypto`.
unfoldable pub crypto_view : CryptoReport → Value
crypto_view r = html (codes "<div class=\"kpis\"><div class=\"kpi\"><b>") (
    (
      text r.active_certificates,
      codes "</b><span>Active certificates</span></div><div class=\"kpi warn\"><b>",
    )
    ∷ (
      text r.quantum_vulnerable,
      codes "</b><span>RSA/ECC (quantum-vulnerable)</span></div><div class=\"kpi\"><b>",
    )
    ∷ (text r.pqc_signed, codes "</b><span>PQC-signed</span></div><div class=\"kpi\"><b>")
    ∷ (
      text r.past_deprecation,
      codes
          "</b><span>Valid past 2030</span></div></div>\n  <table><tr><th>CA</th><th>Algorithm</th><th>Key custody</th><th>Expires</th><th>Outlives 2035 cutoff</th></tr>",
    )
    ∷ (
      array (map_values crypto_row (r.authorities)),
      codes "</table>\n  <h2 class=\"recs-title\">Recommendations</h2><ul>",
    )
    ∷ (array (map_values recommendation_row (r.recommendations)), codes "</ul>")
    ∷ [])
