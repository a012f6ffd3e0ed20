-- ===== src/Console/Signing.antt =====
-- The code signing of src/certadillo/web/static/console.js: the tables of `loadSigning`.
pub mod Safety
use certadillo.Prelude.{List, String, [], codes, if◌then◌else◌, str_eq, take, ◌&&◌, ◌∷◌}
use certadillo.Markup.{Text, Value, array, html, text}
use certadillo.Markup.Tags.{map_values, only}
use certadillo.Console.Cells.{has_rows, is_set, pill, when}

pub record SigningKey : Type 0 where
  pub name : Text
  pub app : Text
  pub purpose : String
  pub signer : Text
  pub not_after : Text
  pub status : Text

-- A request to sign, with the name and the version of its artifact.
pub record SigningRequest : Type 0 where
  pub id : Text
  pub artifact : Text
  pub version : Text
  pub key : Text
  pub requested_by : Text
  pub created_at : Text
  pub digest_alg : Text
  pub digest : Text
  pub status : String
  pub approval_id : Text

unfoldable pub signing_key_row : SigningKey → Value
signing_key_row k = html (codes "<tr><td>") (
    (text k.name, codes "</td><td>")
    ∷ (text k.app, codes "</td><td>")
    ∷ (
      if str_eq k.purpose "release"
          then (only (codes "release <span class=\"muted\">(approver per signature)</span>"))
          else (text (codes "test")),
      codes "</td><td>",
    )
    ∷ (text k.signer, codes "</td><td>")
    ∷ (text (take 10 k.not_after), codes "</td><td>")
    ∷ (pill k.status, codes "</td></tr>")
    ∷ [])

-- `#sign-keys`.
unfoldable pub signing_keys_view : List SigningKey → Value
signing_keys_view keys =
    if has_rows keys
    then (html
        (codes
          "<table><tr><th>Key</th><th>App</th><th>Purpose</th><th>Held in</th><th>Certificate until</th><th>Status</th></tr>")
        ((array (map_values signing_key_row (keys)), codes "</table>") ∷ []))
    else (only (
        codes
          "No signing keys yet. Ask for one with POST /api/v1/signing/keys; an approver decides."))

unfoldable pub version_note : Text → Value
version_note version = html (codes " <span class=\"muted\">") ((text version, codes "</span>") ∷ [])

unfoldable pub approval_note : Text → Value
approval_note id =
    html (codes "<br><span class=\"muted\">approval #") ((text id, codes "</span>") ∷ [])

unfoldable pub signing_request_row : SigningRequest → Value
signing_request_row r = html (codes "<tr><td>") (
    (text r.id, codes "</td><td>")
    ∷ (text r.artifact, codes "")
    ∷ (if is_set r.version then (version_note r.version) else (text []), codes "</td><td>")
    ∷ (text r.key, codes "</td><td>")
    ∷ (text r.requested_by, codes "<br><span class=\"muted\">")
    ∷ (text (when r.created_at), codes "</span></td>\n        <td><code>")
    ∷ (text r.digest_alg, codes ":")
    ∷ (text (take 16 r.digest), codes "…</code></td><td>")
    ∷ (pill (codes r.status), codes "")
    ∷ (
      if str_eq r.status "pending" && is_set r.approval_id
          then (approval_note r.approval_id)
          else (text []),
      codes "</td></tr>",
    )
    ∷ [])

-- `#sign-reqs`.
unfoldable pub signing_requests_view : List SigningRequest → Value
signing_requests_view rows =
    if has_rows rows
    then (html
        (codes
          "<table><tr><th>#</th><th>Artifact</th><th>Key</th><th>Requested by</th><th>Digest</th><th>Status</th></tr>")
        ((array (map_values signing_request_row (rows)), codes "</table>") ∷ []))
    else (only (codes "No signing requests yet."))
