-- ===== src/Console/Audit.antt =====
-- The audit trail of src/certadillo/web/static/console.js: `loadAudit`.
pub mod Safety
use certadillo.Prelude.{
  Bool, List, Option, [], codes, if◌then◌else◌, length, ltb, none, some, take, ℕ, ◌++◌, ◌==◌, ◌∷◌,
}
use certadillo.Prelude.Int.{pos, ℤ}
use certadillo.Markup.{Text, Value, array, html, text}
use certadillo.Markup.Tags.{map_values, only}
use certadillo.Console.Cells.{has_rows, pill, replace_first, when}

-- Where audit events are sent to.
pub record Sink : Type 0 where
  pub sink : Text
  pub behind : Text
  pub oldest_unsent : Text
  pub failures : ℕ
  pub last_error : Text

-- An event; `details` is what `JSON.stringify` makes of them.
pub record AuditEvent : Type 0 where
  pub ts : Text
  pub actor : Text
  pub action : Text
  pub target : Text
  pub details : Text

-- The reply to GET /api/v1/audit/verify.
pub record Verified : Type 0 where
  pub valid : Bool
  pub events : Text
  pub head : Text
  pub broken_at : Text

-- `failures || ""`.
abbrev pub failures_text : (ℤ → Text) → ℕ → Text
failures_text digits n = if n == 0 then [] else digits (pos n)

unfoldable pub sink_row : (ℤ → Text) → Sink → Value
sink_row digits r = html (codes "<tr><td>") (
    (text r.sink, codes "</td><td class=\"num\">")
    ∷ (text r.behind, codes "</td><td>")
    ∷ (text (when r.oldest_unsent), codes "</td><td>")
    ∷ (if r.failures == 0 then (pill (codes "ok")) else (pill (codes "critical")), codes " ")
    ∷ (text (failures_text digits r.failures), codes "</td><td class=\"muted\">")
    ∷ (text r.last_error, codes "</td></tr>")
    ∷ [])

unfoldable pub sinks_table : (ℤ → Text) → List Sink → Value
sinks_table digits ship =
    html
      (codes
        "<table><tr><th>Sink</th><th class=\"num\">Behind</th><th>Oldest unsent</th><th>Failures</th><th>Last error</th></tr>")
      ((array (map_values (sink_row digits) (ship)), codes "</table>") ∷ [])

unfoldable pub key_note : Text → Value
key_note key_id =
    html (codes "<p class=\"muted\">Receivers verify records with the Ed25519 key <code>")
      ((text key_id, codes "</code>.</p>") ∷ [])

-- The key, unless it could not be loaded.
abbrev pub key_or : Option Text → Value
key_or none = text []
key_or (some key_id) = key_note key_id

-- `#audit-ship`.
unfoldable pub shipping_view : (ℤ → Text) → List Sink → Option Text → Value
shipping_view digits ship key = html (codes "") (
    (
      if has_rows ship
          then (sinks_table digits ship)
          else (only (
              codes
                "<p>No sinks configured. Set CERTADILLO_AUDIT_SHIP to send every event, signed, to a SIEM or an S3 Object Lock bucket.</p>")),
      codes "\n      ",
    )
    ∷ (key_or key, codes "")
    ∷ [])

-- `#audit-verify`.
unfoldable pub verified_view : Verified → Value
verified_view v =
    if v.valid
    then (html (codes "Hash chain verified over ")
        ((text v.events, codes " events. Head ") ∷ (text (take 16 v.head), codes "…") ∷ []))
    else (html (codes "<span class=\"err\">Hash chain broken at event ")
        ((text v.broken_at, codes ".</span>") ∷ []))

-- A target of more than 24 units is cut.
unfoldable pub short_target : Text → Text
short_target t = if ltb 24 (length t) then take 24 t ++ codes "…" else t

unfoldable pub audit_row : AuditEvent → Value
audit_row e = html (codes "<tr><td>") (
    (text (replace_first b'T' b' ' (take 19 e.ts)), codes "</td><td>")
    ∷ (text e.actor, codes "</td><td>")
    ∷ (text e.action, codes "</td><td>")
    ∷ (text (short_target e.target), codes "</td><td class=\"muted\">")
    ∷ (text (take 140 e.details), codes "</td></tr>")
    ∷ [])

-- `#audit`.
unfoldable pub audit_view : List AuditEvent → Value
audit_view rows =
    html
      (codes
        "<table><tr><th>Time (UTC)</th><th>Actor</th><th>Action</th><th>Target</th><th>Details</th></tr>")
      ((array (map_values audit_row (rows)), codes "</table>") ∷ [])
