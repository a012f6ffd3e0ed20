-- ===== src/Console/Calls.antt =====
-- What src/certadillo/web/static/console.js sends to the API when a form is saved or a button pressed.
pub mod Endpoints
pub mod Reached
pub mod Saving
pub mod Unchanged
mod Tests
use certadillo.Prelude.{
  ℕ, String, Bool, true, false, List, [], ◌∷◌, ◌++◌, Option, none, some, codes, if◌then◌else◌,
}
use certadillo.Words.{is_space, trim, words_by}
use certadillo.Markup.{Text}
use certadillo.Markup.Allowed.{same_text}
use certadillo.Console.Cells.{is_set}
use certadillo.Console.Rules.{Rule}
use certadillo.Console.Encode.{encode_component}
use certadillo.Console.Requests.{
  Prepared, make_team_call, make_app_call, show_app_call, make_credentials_call, make_eab_call,
  revoke_call, approve_call, reject_call, scan_call, acknowledge_call, run_source_call,
  make_target_call, make_installation_call, push_call, show_installation_call, save_folder_call,
  make_folder_call, move_app_call, show_policy_call, make_signing_key_call, set_owner_call,
}

-- What the user asks for, with what the fields and the dialogs hold, and the ids that buttons keep.
pub data Action : Type 0 where
  make_team : (name email chat hook cost_center : Text) → Action
  make_app : (team : ℕ) → (name environment profile class domains : Text) → Action
  show_app make_credentials make_eab : (id : Text) → Action
  revoke : (id reason ticket : Text) → Action
  approve reject : (id : Text) → Action
  scan : (targets : Text) → Action
  acknowledge : (id comment : Text) → Action
  run_source : (name : Text) → Action
  make_target : (name kind : Text) → (team : ℕ) → (config credential : Text) → Action
  make_installation :
      (app target : ℕ)
      → (common_name sans key_type key_location params endpoint auto_renew : Text) → Action
  push show_installation : (id : Text) → Action
  save_folder : (id : Text) → (settings : List (String × Rule)) → Action
  make_folder : (name : Text) → (parent : Option ℕ) → (settings : List (String × Rule)) → Action
  move_app : (id : Text) → (folder : Option ℕ) → Action
  show_policy : (id : Text) → Action
  make_signing_key : (name : Text) → (app : ℕ) → (purpose alg : Text) → Action
  set_owner : (id owner note : Text) → Action

-- `is_object` is whether `JSON.parse` reads an object out of a text.
module _ (is_object : Text → Bool) where
  unfoldable pub call_of : Action → Prepared
  unfolding make_team_call make_app_call show_app_call make_credentials_call make_eab_call
      revoke_call approve_call reject_call scan_call acknowledge_call run_source_call
      make_target_call make_installation_call push_call show_installation_call save_folder_call
      make_folder_call move_app_call show_policy_call make_signing_key_call set_owner_call
  call_of (make_team name email chat hook cost_center) =
      make_team_call name email chat hook cost_center
  call_of (make_app team name environment profile class domains) =
      make_app_call team name environment profile class domains
  call_of (show_app id) = show_app_call id
  call_of (make_credentials id) = make_credentials_call id
  call_of (make_eab id) = make_eab_call id
  call_of (revoke id reason ticket) = revoke_call id reason ticket
  call_of (approve id) = approve_call id
  call_of (reject id) = reject_call id
  call_of (scan targets) = scan_call targets
  call_of (acknowledge id comment) = acknowledge_call id comment
  call_of (run_source name) = run_source_call name
  call_of (make_target name kind team config credential) =
      make_target_call is_object name kind team config credential
  call_of
        (make_installation app target common_name sans key_type key_location params endpoint
          auto_renew) =
      make_installation_call is_object app target common_name sans key_type key_location params
        endpoint auto_renew
  call_of (push id) = push_call id
  call_of (show_installation id) = show_installation_call id
  call_of (save_folder id settings) = save_folder_call id settings
  call_of (make_folder name parent settings) = make_folder_call name parent settings
  call_of (move_app id folder) = move_app_call id folder
  call_of (show_policy id) = show_policy_call id
  call_of (make_signing_key name app purpose alg) = make_signing_key_call name app purpose alg
  call_of (set_owner id owner note) = set_owner_call id owner note

-- A button that asks for a text first: without an answer, or with an empty one, nothing is sent.
unfoldable pub prompted : Option Text → (Text → Action) → Option Action
prompted none f = none
prompted (some answer) f = if is_set answer then some (f answer) else none

-- The address that `loadFindings` reads; `none` is the URIError.
unfoldable pub findings_path : Text → Option Text
unfolding encode_component
findings_path kind =
    if is_set kind
    then elim (encode_component kind) [
      | none ↦ none
      | some e ↦ some (codes "/api/v1/discovery/findings?kind=" ++ e)
    ]
    else some (codes "/api/v1/discovery/findings")
