-- ===== src/Console/Discovery.antt =====
-- The discovery of src/certadillo/web/static/console.js: the results of a scan, `loadFindings` and
-- `loadSources`.
pub mod Safety
use certadillo.Prelude.{
  Bool, List, Option, [], codes, false, if◌then◌else◌, none, some, take, true, ◌∷◌,
}
use certadillo.Words.{join, strip}
use certadillo.Markup.{Text, Value, array, html, text}
use certadillo.Markup.Tags.{map_values, only}
use certadillo.Console.Cells.{has_rows, is_set, or_text, pill, when}
use certadillo.Markup.Allowed.{same_text}

-- A target of a scan, with its error or the certificate that it shows, and the rules that it breaks.
pub record Scanned : Type 0 where
  pub target : Text
  pub error : Text
  pub common_name : Text
  pub is_new : Bool
  pub not_after : Text
  pub findings : List Text

unfoldable pub scan_error : Text → Value
scan_error error = html (codes "<span class=\"muted\">") ((text error, codes "</span>") ∷ [])

unfoldable pub scan_certificate : Scanned → Value
scan_certificate x = html (codes "") (
    (text x.common_name, codes " ")
    ∷ (
      if x.is_new then (pill (codes "new")) else (text []),
      codes "<br><span class=\"muted\">expires ",
    )
    ∷ (text (take 10 x.not_after), codes "</span>")
    ∷ [])

unfoldable pub broken_rule : Text → Value
broken_rule rule = html (codes "") ((pill rule, codes " ") ∷ [])

unfoldable pub scan_row : Scanned → Value
scan_row x = html (codes "<tr><td>") (
    (text x.target, codes "</td><td>")
    ∷ (if is_set x.error then (scan_error x.error) else (scan_certificate x), codes "</td><td>")
    ∷ (array (map_values broken_rule (x.findings)), codes "</td></tr>")
    ∷ [])

-- `#d-out`.
unfoldable pub scan_view : List Scanned → Value
scan_view rows =
    html (codes "<table><tr><th>Target</th><th>Result</th><th>Findings</th></tr>")
      ((array (map_values scan_row (rows)), codes "</table>") ∷ [])

-- What is known of a finding; which of it, its kind says.
pub record Detail : Type 0 where
  pub key_type : Text
  pub bits : Text
  pub comment : Text
  pub fingerprint : Text
  pub dns_names : List Text
  pub issuer : Text
  pub name : Text
  pub applications : List Text
  pub mode : Text
  pub owner : Text

pub record Finding : Type 0 where
  pub id : Text
  pub kind : Text
  pub location : Text
  pub first_seen : Text
  pub detail : Detail

-- `kind.startsWith("ssh_")`.
abbrev is_ssh : Text → Bool
is_ssh kind = elim (strip (codes "ssh_") kind) [ none ↦ false | some _ ↦ true ]

unfoldable pub comment_label : Text → Value
comment_label comment = html (codes "<span class=\"muted\">") ((text comment, codes "</span>") ∷ [])

unfoldable pub ssh_label : Detail → Value
ssh_label d = html (codes "") (
    (text d.key_type, codes " ")
    ∷ (text d.bits, codes " ")
    ∷ (if is_set d.comment then (comment_label d.comment) else (text []), codes "<br><code>")
    ∷ (text d.fingerprint, codes "</code>")
    ∷ [])

unfoldable pub public_label : Detail → Value
public_label d = html (codes "") (
    (text (join (codes ", ") d.dns_names), codes "<br><span class=\"muted\">")
    ∷ (text d.issuer, codes "</span>")
    ∷ [])

unfoldable pub untracked_label : Detail → Value
untracked_label d = html (codes "") (
    (text d.name, codes "<br><span class=\"muted\">apps: ")
    ∷ (text (or_text (join (codes ", ") d.applications) (codes "none linked")), codes "</span>")
    ∷ [])

unfoldable pub mode_label : Detail → Value
mode_label d = html (codes "mode ") ((text d.mode, codes " owner ") ∷ (text d.owner, codes "") ∷ [])

unfoldable pub label_of : Finding → Value
label_of f =
    if is_ssh f.kind
    then (ssh_label f.detail)
    else (if same_text f.kind (codes "unknown_public_cert")
        then (public_label f.detail)
        else (if same_text f.kind (codes "untracked_certificate")
            then (untracked_label f.detail)
            else (mode_label f.detail)))

unfoldable pub finding_row : Finding → Value
finding_row f = html (codes "<tr><td>") (
    (pill f.kind, codes "</td><td>")
    ∷ (text f.location, codes "</td><td>")
    ∷ (label_of f, codes "</td><td>")
    ∷ (text (when f.first_seen), codes "</td><td><button class=\"act\" data-ack=\"")
    ∷ (text f.id, codes "\">Acknowledge</button></td></tr>")
    ∷ [])

-- `#findings`.
unfoldable pub findings_view : List Finding → Value
findings_view rows =
    if has_rows rows
    then (html
        (codes "<table><tr><th>Kind</th><th>Where</th><th>What</th><th>Since</th><th></th></tr>")
        ((array (map_values finding_row (rows)), codes "</table>") ∷ []))
    else (only (codes "No open findings."))

-- A source with its last run; without a number `found` is `none`.
pub record Source : Type 0 where
  pub name : Text
  pub type : Text
  pub started_at : Text
  pub status : Text
  pub found : Option Text
  pub new_found : Text
  pub error : Text

unfoldable pub found_note : Text → Text → Value
found_note found new_found =
    html (codes "<span class=\"muted\">")
      ((text found, codes " found, ") ∷ (text new_found, codes " new</span>") ∷ [])

unfoldable pub error_note : Text → Value
error_note error = html (codes "<br><span class=\"err\">") ((text error, codes "</span>") ∷ [])

-- `last.found != null ? … : ""`.
abbrev pub found_or : Option Text → Text → Value
found_or none new_found = text []
found_or (some found) new_found = found_note found new_found

unfoldable pub source_row : Source → Value
source_row r = html (codes "<tr><td>") (
    (text r.name, codes "</td><td>")
    ∷ (text r.type, codes "</td><td>")
    ∷ (text (when r.started_at), codes "</td><td>")
    ∷ (if is_set r.status then (pill r.status) else (text []), codes " ")
    ∷ (found_or r.found r.new_found, codes "")
    ∷ (
      if is_set r.error then (error_note r.error) else (text []),
      codes "</td>\n      <td><button class=\"act\" data-src=\"",
    )
    ∷ (text r.name, codes "\">Run now</button></td></tr>")
    ∷ [])

-- `#sources`.
unfoldable pub sources_view : List Source → Value
sources_view rows =
    if has_rows rows
    then (html
        (codes
          "<table><tr><th>Source</th><th>Type</th><th>Last run</th><th>Result</th><th></th></tr>")
        ((array (map_values source_row (rows)), codes "</table>") ∷ []))
    else (only (
        codes
          "No scheduled sources configured (AWS ACM, Azure Key Vault, GCP Certificate Manager, Certificate Transparency)."))
