-- ===== src/Console/Requests.antt =====
-- The requests of src/certadillo/web/static/console.js, with their addresses and what they send.
-- `is_object` is whether `JSON.parse` reads an object out of a text. A text that may be missing is empty.
use certadillo.Prelude.{
  ℕ, String, Bool, List, [], ◌∷◌, ◌++◌, Option, none, some, codes, if◌then◌else◌,
}
use certadillo.Words.{is_space, trim, words_by}
use certadillo.Markup.{Text}
use certadillo.Markup.Allowed.{same_text}
use certadillo.Console.Cells.{is_set}
use certadillo.Console.Rules.{Rule}
use certadillo.Console.Encode.{encode_component}

-- What `JSON.stringify` gets. `parsed` is the object that a text says, `empty` the one without fields.
pub data Json : Type 0 where
  null : Json
  number : ℕ → Json
  truth : Bool → Json
  text : Text → Json
  texts : List Text → Json
  empty : Json
  parsed : Text → Json
  rules : List (String × Rule) → Json

-- A call of `api`, with the fields of its body.
pub record Call : Type 0 where
  pub method : String
  pub path : Text
  pub body : List (String × Json)

-- `bad_uri` is the URIError of `encodeURIComponent`, `not_object` the error of `parseJson` with the
-- name of the field.
pub data Prepared : Type 0 where
  ready : Call → Prepared
  not_object : String → Prepared
  bad_uri : Prepared

-- `value || null`.
abbrev pub text_or_null : Text → Json
text_or_null t = if is_set t then text t else null

abbrev pub number_or_null : Option ℕ → Json
number_or_null none = null
number_or_null (some n) = number n

-- `value.split(/\s+/).filter(Boolean)`.
unfoldable pub words : Text → List Text
unfolding words_by is_space
words t = words_by is_space [] t

abbrev post : Text → List (String × Json) → Prepared
post path body = ready (record { method = "POST"; path = path; body = body })

-- A call with an id in its path.
abbrev pub with_id : Option Text → String → String → String → List (String × Json) → Prepared
with_id none method before after body = bad_uri
with_id (some id) method before after body =
    ready (record { method = method; path = codes before ++ (id ++ codes after); body = body })

-- `parseJson` on a field, and the call that needs it.
unfoldable pub with_object : (Text → Bool) → String → Text → (Json → Prepared) → Prepared
unfolding trim
with_object is_object what t k =
    if is_set (trim t) then if is_object t then k (parsed t) else not_object what else k empty

unfoldable pub make_team_call : Text → Text → Text → Text → Text → Prepared
make_team_call name email chat hook cost_center = post (codes "/api/v1/teams") (
    ("name", text name)
    ∷ ("contact_email", text email)
    ∷ ("chat_channel", text_or_null chat)
    ∷ ("webhook_url", text_or_null hook)
    ∷ ("cost_center", text_or_null cost_center)
    ∷ [])

unfoldable pub make_app_call : ℕ → Text → Text → Text → Text → Text → Prepared
unfolding trim words
make_app_call team name environment profile class domains = post (codes "/api/v1/apps") (
    ("team_id", number team)
    ∷ ("name", text (trim name))
    ∷ ("environment", text environment)
    ∷ ("profile", text profile)
    ∷ ("data_classification", text class)
    ∷ ("allowed_domains", texts (words domains))
    ∷ [])

unfoldable pub show_app_call : Text → Prepared
unfolding encode_component
show_app_call id = with_id (encode_component id) "GET" "/api/v1/apps/" "" []

unfoldable pub make_credentials_call : Text → Prepared
unfolding encode_component
make_credentials_call id = with_id (encode_component id) "POST" "/api/v1/apps/" "/credentials" []

unfoldable pub make_eab_call : Text → Prepared
unfolding encode_component
make_eab_call id = with_id (encode_component id) "POST" "/api/v1/apps/" "/acme-eab" []

unfoldable pub revoke_call : Text → Text → Text → Prepared
unfolding encode_component
revoke_call id reason ticket =
    with_id (encode_component id) "POST" "/api/v1/certificates/" "/revoke"
      (("reason", text reason) ∷ ("change_ref", text_or_null ticket) ∷ [])

unfoldable pub approve_call : Text → Prepared
unfolding encode_component
approve_call id =
    with_id (encode_component id) "POST" "/api/v1/approvals/" "/approve" (("comment", null) ∷ [])

unfoldable pub reject_call : Text → Prepared
unfolding encode_component
reject_call id =
    with_id (encode_component id) "POST" "/api/v1/approvals/" "/reject" (("comment", null) ∷ [])

unfoldable pub scan_call : Text → Prepared
unfolding words
scan_call targets = post (codes "/api/v1/discovery/scan") (("targets", texts (words targets)) ∷ [])

unfoldable pub acknowledge_call : Text → Text → Prepared
unfolding encode_component
acknowledge_call id comment =
    with_id (encode_component id) "POST" "/api/v1/discovery/findings/" "/acknowledge"
      (("comment", text comment) ∷ [])

unfoldable pub run_source_call : Text → Prepared
unfolding encode_component
run_source_call name = with_id (encode_component name) "POST" "/api/v1/discovery/sources/" "/run" []

unfoldable pub make_target_call : (Text → Bool) → Text → Text → ℕ → Text → Text → Prepared
unfolding trim
make_target_call is_object name kind team config credential =
    with_object is_object "Configuration" config λ c. post (codes "/api/v1/targets") (
      ("name", text (trim name))
      ∷ ("kind", text kind)
      ∷ ("team_id", number team)
      ∷ ("config", c)
      ∷ ("credential_ref", text_or_null (trim credential))
      ∷ [])

unfoldable pub make_installation_call :
    (Text → Bool) → ℕ → ℕ → Text → Text → Text → Text → Text → Text → Text → Prepared
unfolding trim words
make_installation_call is_object app target common_name sans key_type key_location params endpoint
      auto_renew =
    with_object is_object "Placement" params λ placement. post (codes "/api/v1/installations") (
      ("app_id", number app)
      ∷ ("target_id", number target)
      ∷ ("common_name", text (trim common_name))
      ∷ ("sans", texts (words sans))
      ∷ ("key_type", text key_type)
      ∷ ("key_location", text key_location)
      ∷ ("params", placement)
      ∷ ("validate_endpoint", text_or_null (trim endpoint))
      ∷ ("auto_renew", truth (same_text auto_renew (codes "true")))
      ∷ [])

unfoldable pub push_call : Text → Prepared
unfolding encode_component
push_call id = with_id (encode_component id) "POST" "/api/v1/installations/" "/provision" []

unfoldable pub show_installation_call : Text → Prepared
unfolding encode_component
show_installation_call id = with_id (encode_component id) "GET" "/api/v1/installations/" "" []

unfoldable pub save_folder_call : Text → List (String × Rule) → Prepared
unfolding encode_component
save_folder_call id settings =
    with_id (encode_component id) "PUT" "/api/v1/folders/" "/settings"
      (("settings", rules settings) ∷ [])

unfoldable pub make_folder_call : Text → Option ℕ → List (String × Rule) → Prepared
unfolding trim
make_folder_call name parent settings = post (codes "/api/v1/folders") (
    ("name", text (trim name))
    ∷ ("parent_id", number_or_null parent)
    ∷ ("settings", rules settings)
    ∷ [])

unfoldable pub move_app_call : Text → Option ℕ → Prepared
unfolding encode_component
move_app_call id folder =
    with_id (encode_component id) "POST" "/api/v1/apps/" "/move"
      (("folder_id", number_or_null folder) ∷ [])

unfoldable pub show_policy_call : Text → Prepared
unfolding encode_component
show_policy_call id = with_id (encode_component id) "GET" "/api/v1/apps/" "/policy" []

unfoldable pub make_signing_key_call : Text → ℕ → Text → Text → Prepared
unfolding trim
make_signing_key_call name app purpose alg = post (codes "/api/v1/signing/keys") (
    ("name", text (trim name))
    ∷ ("app_id", number app)
    ∷ ("purpose", text purpose)
    ∷ ("alg", text alg)
    ∷ [])

unfoldable pub set_owner_call : Text → Text → Text → Prepared
unfolding encode_component
set_owner_call id owner note =
    with_id (encode_component id) "PUT" "/api/v1/ssh-keys/" "/owner"
      (("owner", text owner) ∷ ("note", text_or_null note) ∷ [])
