-- ===== src/Console/Onboard/Texts.antt =====
-- What the onboarding wizard of src/certadillo/web/static/console.js shows: the lists of
-- `loadOnboard`, `hint`, the state of an approval and the credentials.
pub mod Safety
use certadillo.Prelude.{
  Bool, List, Option, String, [], codes, if◌then◌else◌, none, some, str_eq, ℕ, ◌++◌, ◌==◌, ◌∷◌,
}
use certadillo.Prelude.Int.{pos, ℤ}
use certadillo.Markup.{Text, Value, array, html, text}
use certadillo.Markup.Tags.{map_values, only}
use certadillo.Console.Cells.{has_rows, pill}
use certadillo.Console.Onboard.{App}

pub record Team : Type 0 where
  pub id : Text
  pub name : Text
  pub apps : Text

-- The reply to GET /api/v1/profiles, an entry each; hours of 0 are none.
pub record Profile : Type 0 where
  pub key : Text
  pub description : Text
  pub max_validity_hours : ℕ
  pub max_validity_days : ℕ
  pub dual_control : Bool

-- `hint` of the chosen profile and environment; `digits` is `String` of a whole number.
unfoldable pub hint : (ℤ → Text) → Profile → String → Text
hint digits p environment =
    codes "Max validity "
    ++ (if p.max_validity_hours == 0
        then digits (pos p.max_validity_days) ++ codes "d"
        else digits (pos p.max_validity_hours) ++ codes "h")
    ++ codes "."
    ++ (if p.dual_control then codes " Every issuance needs a second approver." else [])
    ++ (if str_eq environment "prod"
        then codes " Production onboarding needs a second approver."
        else [])

unfoldable pub team_row : Team → Value
team_row t = html (codes "<option value=\"") (
    (text t.id, codes "\">")
    ∷ (text t.name, codes " (")
    ∷ (text t.apps, codes " apps)</option>")
    ∷ [])

-- `#ob-team`.
unfoldable pub teams_view : List Team → Value
teams_view teams =
    if has_rows teams
    then (html (codes "") ((array (map_values team_row (teams)), codes "") ∷ []))
    else (only (codes "<option value=\"\">no teams yet</option>"))

unfoldable pub profile_row : Profile → Value
profile_row p = html (codes "<option value=\"") (
    (text p.key, codes "\">")
    ∷ (text p.key, codes ": ")
    ∷ (text p.description, codes "</option>")
    ∷ [])

-- `#a-profile`.
unfoldable pub profiles_view : List Profile → Value
profiles_view profiles =
    html (codes "") ((array (map_values profile_row (profiles)), codes "") ∷ [])

abbrev approval_text : (ℤ → Text) → Option ℕ → Text
approval_text digits none = []
approval_text digits (some n) = if n == 0 then [] else digits (pos n)

-- `#ob-status`.
unfoldable pub waiting_view : (ℤ → Text) → App → Value
waiting_view digits a = html (codes "") (
    (text a.name, codes " is ")
    ∷ (pill (codes a.status), codes ". Approval #")
    ∷ (text (approval_text digits a.approval_id), codes " must be approved by someone other than ")
    ∷ (text (codes a.created_by), codes ".")
    ∷ [])

-- `#cred-out` for an API key; `base` is the address of the page.
unfoldable pub api_key_view : Text → Text → Value
api_key_view base key =
    html (codes "<label>API key (store it in your secrets manager)</label><pre>") (
      (
        text key,
        codes "</pre>\n  <label>CLI: request and auto-renew</label><pre>export CERTADILLO_SERVER=",
      )
      ∷ (text base, codes " CERTADILLO_API_KEY=")
      ∷ (
        text key,
        codes
            "\ncertadillo cert request --cn app.example --san app.example --out /etc/ssl/app\ncertadillo cert renew-if-due --dir /etc/ssl/app   # run from a systemd timer</pre>\n  <label>EST (devices, appliances)</label><pre>curl --cacert root.pem -u client:",
      )
      ∷ (text key, codes " -H 'Content-Type: application/pkcs10' \\\n  --data-binary @csr.b64 ")
      ∷ (text base, codes "/.well-known/est/simpleenroll</pre>")
      ∷ [])

pub record Eab : Type 0 where
  pub kid : Text
  pub hmac_key : Text
  pub example : Text

-- `#cred-out` for an external account binding.
unfoldable pub eab_view : Text → Eab → Value
eab_view base c =
    html (codes "<label>ACME External Account Binding (single use)</label><pre>kid:  ") (
      (text c.kid, codes "\nhmac: ")
      ∷ (text c.hmac_key, codes "</pre><label>certbot</label><pre>")
      ∷ (
        text c.example,
        codes
            "</pre>\n  <label>cert-manager ClusterIssuer</label><pre>spec:\n  acme:\n    server: ",
      )
      ∷ (text base, codes "/acme/directory\n    externalAccountBinding:\n      keyID: ")
      ∷ (
        text c.kid,
        codes
            "\n      keySecretRef: {name: certadillo-eab, key: secret}\n    privateKeySecretRef: {name: certadillo-acme-account}\n    solvers: [{http01: {ingress: {}}}]</pre>",
      )
      ∷ [])
