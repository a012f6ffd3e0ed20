-- ===== src/Console/Drawn/Safety.antt =====
-- What a browser reads the views of console.js as.
use certadillo.Prelude.{List, [], all, refl, some, true, ◌∷◌, ◌≡◌}
use certadillo.Markup.{Text, Value, part, render}
use certadillo.Markup.Tags.{IsHtml, Safe, at_content, html-IsHtml, if-IsHtml, read_all}
use certadillo.Console.Allowed.{is_allowed}
use certadillo.Console.Audit.{audit_view, shipping_view, verified_view}
use certadillo.Console.Audit.Safety.{audit_view-Safe, shipping_view-Safe, verified_view-Safe}
use certadillo.Console.Cells.{failure, options, refused, tabs_view}
use certadillo.Console.Cells.Safety.{failure-Safe, options-Safe, refused-Safe, tabs_view-Safe}
use certadillo.Console.Discovery.{findings_view, scan_view, sources_view}
use certadillo.Console.Discovery.Safety.{findings_view-Safe, scan_view-Safe, sources_view-Safe}
use certadillo.Console.Drawn.{
  Drawn, at_alerts, at_api_key, at_app_options, at_approvals, at_audit, at_cas, at_crypto, at_eab,
  at_effective, at_expiring, at_failure, at_findings, at_installs, at_inventory, at_issuers,
  at_kpis, at_options, at_profiles, at_refused, at_rules, at_runs, at_scan, at_shipping,
  at_signing_keys, at_signing_requests, at_sources, at_ssh_keys, at_tabs, at_targets, at_teams,
  at_tree, at_verified, at_waiting,
}
use certadillo.Console.Folders.Drawing.Safety.{tree_view-Safe}
use certadillo.Console.Folders.Effective.{app_options, effective_view}
use certadillo.Console.Folders.Effective.Safety.{app_options-Safe, effective_view-Safe}
use certadillo.Console.Inventory.Table.{approvals_view, inventory_view}
use certadillo.Console.Inventory.Table.Safety.{approvals_view-Safe, inventory_view-Safe}
use certadillo.Console.Issuers.{issuers_view}
use certadillo.Console.Issuers.Safety.{issuers_view-Safe}
use certadillo.Console.Onboard.Texts.{
  api_key_view, eab_view, profiles_view, teams_view, waiting_view,
}
use certadillo.Console.Onboard.Texts.Safety.{
  api_key_view-Safe, eab_view-Safe, profiles_view-Safe, teams_view-Safe, waiting_view-Safe,
}
use certadillo.Console.Overview.{alerts_view, expiring_view, kpis_view}
use certadillo.Console.Overview.Safety.{alerts_view-Safe, expiring_view-Safe, kpis_view-Safe}
use certadillo.Console.Provisioning.{
  PushRun, installs_view, no_runs, push_run, runs_view, targets_view,
}
use certadillo.Console.Provisioning.Safety.{installs_view-Safe, runs_view-Safe, targets_view-Safe}
use certadillo.Console.Reports.{cas_view, crypto_view}
use certadillo.Console.Reports.Safety.{cas_view-Safe, crypto_view-Safe}
use certadillo.Console.Rules.Table.{rules_view}
use certadillo.Console.Rules.Table.Safety.{rules_view-Safe}
use certadillo.Console.Signing.{signing_keys_view, signing_requests_view}
use certadillo.Console.Signing.Safety.{signing_keys_view-Safe, signing_requests_view-Safe}
use certadillo.Console.SshKeys.{ssh_keys_view}
use certadillo.Console.SshKeys.Safety.{ssh_keys_view-Safe}

Drawn-Safe : {v : Value} → Drawn v → Safe is_allowed v
Drawn-Safe (at_refused message) = refused-Safe message
Drawn-Safe (at_failure message) = failure-Safe message
Drawn-Safe (at_tabs tabs) = tabs_view-Safe tabs
Drawn-Safe (at_kpis digits s) = kpis_view-Safe digits s
Drawn-Safe (at_alerts alerts) = alerts_view-Safe alerts
Drawn-Safe (at_expiring digits rows) = expiring_view-Safe digits rows
Drawn-Safe (at_inventory lower digits f inv) = inventory_view-Safe lower digits f inv
Drawn-Safe (at_approvals rows) = approvals_view-Safe rows
Drawn-Safe (at_teams teams) = teams_view-Safe teams
Drawn-Safe (at_profiles profiles) = profiles_view-Safe profiles
Drawn-Safe (at_waiting digits a) = waiting_view-Safe digits a
Drawn-Safe (at_api_key base key) = api_key_view-Safe base key
Drawn-Safe (at_eab base c) = eab_view-Safe base c
Drawn-Safe (at_scan rows) = scan_view-Safe rows
Drawn-Safe (at_findings rows) = findings_view-Safe rows
Drawn-Safe (at_sources rows) = sources_view-Safe rows
Drawn-Safe (at_targets rows) = targets_view-Safe rows
Drawn-Safe (at_installs digits targets rows) = installs_view-Safe digits targets rows
Drawn-Safe (at_runs common_name runs) = runs_view-Safe common_name runs
Drawn-Safe (at_rules settings digits rules) = rules_view-Safe settings digits rules
Drawn-Safe (at_app_options apps) = app_options-Safe apps
Drawn-Safe (at_effective digits r) = effective_view-Safe digits r
Drawn-Safe (at_signing_keys keys) = signing_keys_view-Safe keys
Drawn-Safe (at_signing_requests rows) = signing_requests_view-Safe rows
Drawn-Safe (at_issuers rows) = issuers_view-Safe rows
Drawn-Safe (at_ssh_keys lower digits query keys) = ssh_keys_view-Safe lower digits query keys
Drawn-Safe (at_shipping digits ship key) = shipping_view-Safe digits ship key
Drawn-Safe (at_verified v) = verified_view-Safe v
Drawn-Safe (at_audit rows) = audit_view-Safe rows
Drawn-Safe (at_cas keys cas) = cas_view-Safe keys cas
Drawn-Safe (at_crypto r) = crypto_view-Safe r
Drawn-Safe (at_options value label first rows) = options-Safe value label first rows
Drawn-Safe {v} (at_tree digits fuel fs e) = (tree_view-Safe digits fuel fs v e).0

runs_view-IsHtml : (common_name : Text) (runs : List PushRun) → IsHtml (runs_view common_name runs)
unfolding no_runs push_run
runs_view-IsHtml common_name [] = html-IsHtml _ _
runs_view-IsHtml common_name (r ∷ _) = html-IsHtml _ _

Drawn-IsHtml : {v : Value} → Drawn v → IsHtml v
unfolding refused failure tabs_view kpis_view alerts_view expiring_view inventory_view
    approvals_view teams_view profiles_view waiting_view api_key_view eab_view scan_view
    findings_view sources_view targets_view installs_view no_runs push_run rules_view app_options
    effective_view signing_keys_view signing_requests_view issuers_view ssh_keys_view shipping_view
    verified_view audit_view cas_view crypto_view options
Drawn-IsHtml (at_refused message) = html-IsHtml _ _
Drawn-IsHtml (at_failure message) = html-IsHtml _ _
Drawn-IsHtml (at_tabs tabs) = html-IsHtml _ _
Drawn-IsHtml (at_kpis digits s) = html-IsHtml _ _
Drawn-IsHtml (at_alerts alerts) = if-IsHtml _ _ _ (html-IsHtml _ _) (html-IsHtml _ _)
Drawn-IsHtml (at_expiring digits rows) = if-IsHtml _ _ _ (html-IsHtml _ _) (html-IsHtml _ _)
Drawn-IsHtml (at_inventory lower digits f inv) = html-IsHtml _ _
Drawn-IsHtml (at_approvals rows) = if-IsHtml _ _ _ (html-IsHtml _ _) (html-IsHtml _ _)
Drawn-IsHtml (at_teams teams) = if-IsHtml _ _ _ (html-IsHtml _ _) (html-IsHtml _ _)
Drawn-IsHtml (at_profiles profiles) = html-IsHtml _ _
Drawn-IsHtml (at_waiting digits a) = html-IsHtml _ _
Drawn-IsHtml (at_api_key base key) = html-IsHtml _ _
Drawn-IsHtml (at_eab base c) = html-IsHtml _ _
Drawn-IsHtml (at_scan rows) = html-IsHtml _ _
Drawn-IsHtml (at_findings rows) = if-IsHtml _ _ _ (html-IsHtml _ _) (html-IsHtml _ _)
Drawn-IsHtml (at_sources rows) = if-IsHtml _ _ _ (html-IsHtml _ _) (html-IsHtml _ _)
Drawn-IsHtml (at_targets rows) = if-IsHtml _ _ _ (html-IsHtml _ _) (html-IsHtml _ _)
Drawn-IsHtml (at_installs digits targets rows) = if-IsHtml _ _ _ (html-IsHtml _ _) (html-IsHtml _ _)
Drawn-IsHtml (at_runs common_name runs) = runs_view-IsHtml common_name runs
Drawn-IsHtml (at_rules settings digits rules) = html-IsHtml _ _
Drawn-IsHtml (at_app_options apps) = html-IsHtml _ _
Drawn-IsHtml (at_effective digits r) = html-IsHtml _ _
Drawn-IsHtml (at_signing_keys keys) = if-IsHtml _ _ _ (html-IsHtml _ _) (html-IsHtml _ _)
Drawn-IsHtml (at_signing_requests rows) = if-IsHtml _ _ _ (html-IsHtml _ _) (html-IsHtml _ _)
Drawn-IsHtml (at_issuers rows) = html-IsHtml _ _
Drawn-IsHtml (at_ssh_keys lower digits query keys) = html-IsHtml _ _
Drawn-IsHtml (at_shipping digits ship key) = html-IsHtml _ _
Drawn-IsHtml (at_verified v) = if-IsHtml _ _ _ (html-IsHtml _ _) (html-IsHtml _ _)
Drawn-IsHtml (at_audit rows) = html-IsHtml _ _
Drawn-IsHtml (at_cas keys cas) = html-IsHtml _ _
Drawn-IsHtml (at_crypto r) = html-IsHtml _ _
Drawn-IsHtml (at_options value label first rows) = html-IsHtml _ _
Drawn-IsHtml {v} (at_tree digits fuel fs e) = (tree_view-Safe digits fuel fs v e).1

-- Whatever the API sends, `render` takes each view without its TypeError. A browser reads what it
-- writes as tags that are all allowed: elements of tables, lists, texts and forms, with none of the
-- attributes that start a script or load something. It ends outside of a tag, so that the page goes on
-- as it would.
pub Drawn-render :
    {v : Value}
    → Drawn v
    → (out : Text) × (tags : List Text) × (render v ≡ some out)
      × (read_all (at_content []) out ≡ at_content tags)
      × (all is_allowed tags ≡ true)
unfolding Safe IsHtml part render
Drawn-render {v} d =
    let (out, e) = Drawn-IsHtml d in
    let (tags, fine, reads) = Drawn-Safe d [] refl in
    (out, tags, rw e refl, simp (← reads) (rw e refl), fine)
