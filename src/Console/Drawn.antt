-- ===== src/Console/Drawn.antt =====
-- The views of src/certadillo/web/static/console.js: the values that its calls of `render` write.
pub mod Safety
mod Tests
use certadillo.Prelude.{List, Option, String, some, ℕ, ◌≡◌}
use certadillo.Prelude.Int.{ℤ}
use certadillo.Markup.{Text, Value}
use certadillo.Console.Audit.{AuditEvent, Sink, Verified, audit_view, shipping_view, verified_view}
use certadillo.Console.Cells.{failure, options, refused, tabs_view}
use certadillo.Console.Discovery.{Finding, Scanned, Source, findings_view, scan_view, sources_view}
use certadillo.Console.Folders.{Folder}
use certadillo.Console.Folders.Drawing.{tree_view}
use certadillo.Console.Folders.Effective.{Effective, app_options, effective_view}
use certadillo.Console.Inventory.{Approval, Cert, Filter}
use certadillo.Console.Inventory.Table.{approvals_view, inventory_view}
use certadillo.Console.Issuers.{Issuer, issuers_view}
use certadillo.Console.Onboard.{App}
use certadillo.Console.Onboard.Texts.{
  Eab, Profile, Team, api_key_view, eab_view, profiles_view, teams_view, waiting_view,
}
use certadillo.Console.Overview.{Alert, Summary, alerts_view, expiring_view, kpis_view}
use certadillo.Console.Provisioning.{
  Installation, PushRun, Target, installs_view, runs_view, targets_view,
}
use certadillo.Console.Reports.{Ca, CryptoReport, KeyHealth, cas_view, crypto_view}
use certadillo.Console.Rules.{Rule}
use certadillo.Console.Rules.Table.{rules_view}
use certadillo.Console.Signing.{
  SigningKey, SigningRequest, signing_keys_view, signing_requests_view,
}
use certadillo.Console.SshKeys.{SshKey, ssh_keys_view}

-- What a call of `render` writes: a constructor for each, named for the element, and with what the API
-- has sent. `at_options` is for the lists of the forms, `at_refused` and `at_failure` for the errors.
pub data Drawn : Value → Type 1 where
  at_refused : (message : Text) → Drawn (refused message)
  at_failure : (message : Text) → Drawn (failure message)
  at_tabs : (tabs : List (Text × Text)) → Drawn (tabs_view tabs)
  at_kpis : (digits : ℤ → Text) (s : Summary) → Drawn (kpis_view digits s)
  at_alerts : (alerts : List Alert) → Drawn (alerts_view alerts)
  at_expiring : (digits : ℤ → Text) (rows : List Cert) → Drawn (expiring_view digits rows)
  at_inventory :
      (lower : Text → Text) (digits : ℤ → Text) (f : Filter) (inv : List Cert)
      → Drawn (inventory_view lower digits f inv)
  at_approvals : (rows : List Approval) → Drawn (approvals_view rows)
  at_teams : (teams : List Team) → Drawn (teams_view teams)
  at_profiles : (profiles : List Profile) → Drawn (profiles_view profiles)
  at_waiting : (digits : ℤ → Text) (a : App) → Drawn (waiting_view digits a)
  at_api_key : (base : Text) (key : Text) → Drawn (api_key_view base key)
  at_eab : (base : Text) (c : Eab) → Drawn (eab_view base c)
  at_scan : (rows : List Scanned) → Drawn (scan_view rows)
  at_findings : (rows : List Finding) → Drawn (findings_view rows)
  at_sources : (rows : List Source) → Drawn (sources_view rows)
  at_targets : (rows : List Target) → Drawn (targets_view rows)
  at_installs :
      (digits : ℤ → Text) (targets : List Target) (rows : List Installation)
      → Drawn (installs_view digits targets rows)
  at_runs : (common_name : Text) (runs : List PushRun) → Drawn (runs_view common_name runs)
  at_rules :
      (settings : List String) (digits : ℤ → Text) (rules : List (String × Rule))
      → Drawn (rules_view settings digits rules)
  at_app_options : (apps : List (Text × Text)) → Drawn (app_options apps)
  at_effective : (digits : ℤ → Text) (r : Effective) → Drawn (effective_view digits r)
  at_signing_keys : (keys : List SigningKey) → Drawn (signing_keys_view keys)
  at_signing_requests : (rows : List SigningRequest) → Drawn (signing_requests_view rows)
  at_issuers : (rows : List Issuer) → Drawn (issuers_view rows)
  at_ssh_keys :
      (lower : Text → Text) (digits : ℤ → Text) (query : Text) (keys : List SshKey)
      → Drawn (ssh_keys_view lower digits query keys)
  at_shipping :
      (digits : ℤ → Text) (ship : List Sink) (key : Option Text)
      → Drawn (shipping_view digits ship key)
  at_verified : (v : Verified) → Drawn (verified_view v)
  at_audit : (rows : List AuditEvent) → Drawn (audit_view rows)
  at_cas : (keys : List KeyHealth) (cas : List Ca) → Drawn (cas_view keys cas)
  at_crypto : (r : CryptoReport) → Drawn (crypto_view r)
  at_options :
      {A : Type 0} (value label : A → Text) (first : Text) (rows : List A)
      → Drawn (options value label first rows)
  at_tree :
      (digits : ℤ → Text) (fuel : ℕ) (fs : List Folder) {v : Value}
      → tree_view digits fuel fs ≡ some v
      → Drawn v
