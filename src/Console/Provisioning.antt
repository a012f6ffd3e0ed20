-- ===== src/Console/Provisioning.antt =====
-- The provisioning of src/certadillo/web/static/console.js: the tables of `loadProvisioning`, and
-- `showRuns`.
pub mod Safety
use certadillo.Prelude.{List, Option, [], codes, if◌then◌else◌, none, some, ℕ, ◌==◌, ◌∷◌}
use certadillo.Prelude.Int.{pos, ℤ}
use certadillo.Words.{join}
use certadillo.Markup.{Text, Value, array, html, text}
use certadillo.Markup.Tags.{map_values, only}
use certadillo.Console.Cells.{failure, has_rows, is_set, or_text, pill, when}
use certadillo.Markup.Allowed.{same_text}

-- A push target; without `allowed_dirs` these are `none`.
pub record Target : Type 0 where
  pub id : Text
  pub name : Text
  pub kind : Text
  pub host : Text
  pub api_server : Text
  pub region : Text
  pub allowed_dirs : Option (List Text)
  pub credential : Text
  pub status : Text

unfoldable pub dirs_note : List Text → Value
dirs_note dirs =
    html (codes "<br><span class=\"muted\">")
      ((text (join (codes ", ") dirs), codes "</span>") ∷ [])

abbrev pub dirs_or : Option (List Text) → Value
dirs_or none = text []
dirs_or (some dirs) = dirs_note dirs

unfoldable pub target_row : Target → Value
target_row x = html (codes "<tr><td>") (
    (text x.name, codes "</td><td>")
    ∷ (text x.kind, codes "</td><td>")
    ∷ (text (or_text x.host (or_text x.api_server x.region)), codes "")
    ∷ (dirs_or x.allowed_dirs, codes "</td><td>")
    ∷ (text (or_text x.credential (codes "none")), codes "</td><td>")
    ∷ (pill x.status, codes "</td></tr>")
    ∷ [])

-- `#targets`.
unfoldable pub targets_view : List Target → Value
targets_view rows =
    if has_rows rows
    then (html
        (codes
          "<table><tr><th>Name</th><th>Kind</th><th>Where</th><th>Credential</th><th>Status</th></tr>")
        ((array (map_values target_row (rows)), codes "</table>") ∷ []))
    else (only (codes "No push targets yet. An admin adds them with POST /api/v1/targets."))

pub record Installation : Type 0 where
  pub id : Text
  pub common_name : Text
  pub validate_endpoint : Text
  pub target_id : Text
  pub key_type : Text
  pub key_location : Text
  pub status : Text
  pub failures : ℕ
  pub last_error : Text
  pub next_attempt_at : Text

-- `(TARGETS[id] || {}).name || id`; of two targets with an id `TARGETS` holds the later one.
unfoldable pub target_name : List Target → Text → Text → Text
target_name [] name id = or_text name id
target_name (t ∷ ts) name id = target_name ts (if same_text t.id id then t.name else name) id

unfoldable pub checks_note : Text → Value
checks_note endpoint =
    html (codes "<br><span class=\"muted\">checks ") ((text endpoint, codes "</span>") ∷ [])

unfoldable pub failures_note : (ℤ → Text) → Installation → Value
failures_note digits i = html (codes "<br><span class=\"err\">") (
    (text (digits (pos i.failures)), codes " failure(s): ")
    ∷ (text i.last_error, codes "</span>")
    ∷ [])

unfoldable pub installation_row : (ℤ → Text) → List Target → Installation → Value
installation_row digits targets i = html (codes "<tr><td>") (
    (text i.common_name, codes "")
    ∷ (
      if is_set i.validate_endpoint then (checks_note i.validate_endpoint) else (text []),
      codes "</td><td>",
    )
    ∷ (text (target_name targets [] i.target_id), codes "</td><td>")
    ∷ (text i.key_type, codes "<br><span class=\"muted\">")
    ∷ (text i.key_location, codes "</span></td>\n        <td>")
    ∷ (pill i.status, codes "")
    ∷ (if i.failures == 0 then (text []) else (failures_note digits i), codes "</td><td>")
    ∷ (text (when i.next_attempt_at), codes "</td>\n        <td><button data-runs=\"")
    ∷ (text i.id, codes "\">Runs</button> <button class=\"primary act\" data-push=\"")
    ∷ (text i.id, codes "\">Push now</button></td></tr>")
    ∷ [])

-- `#installs`.
unfoldable pub installs_view : (ℤ → Text) → List Target → List Installation → Value
installs_view digits targets rows =
    if has_rows rows
    then (html
        (codes
          "<table><tr><th>Name</th><th>Target</th><th>Key</th><th>Status</th><th>Next renewal check</th><th></th></tr>")
        ((array (map_values (installation_row digits targets) (rows)), codes "</table>") ∷ []))
    else (only (codes "No installations yet."))

pub record PushRun : Type 0 where
  pub id : Text
  pub status : Text
  pub actor : Text
  pub started_at : Text
  pub steps : List Text
  pub error : Text

unfoldable pub step_row : Text → Value
step_row step = html (codes "<li>") ((text step, codes "</li>") ∷ [])

unfoldable pub push_run : Text → PushRun → Value
push_run common_name r = html (codes "<p><b>") (
    (text common_name, codes "</b> run #")
    ∷ (text r.id, codes " ")
    ∷ (pill r.status, codes " by ")
    ∷ (text r.actor, codes " at ")
    ∷ (text (when r.started_at), codes "</p><ol class=\"steps-list\">")
    ∷ (array (map_values step_row (r.steps)), codes "</ol>")
    ∷ (if is_set r.error then (failure r.error) else (text []), codes "")
    ∷ [])

unfoldable pub no_runs : Text → Value
no_runs common_name = html (codes "No runs yet for ") ((text common_name, codes ".") ∷ [])

-- `#run-detail`: the first of the runs.
abbrev pub runs_view : Text → List PushRun → Value
runs_view common_name [] = no_runs common_name
runs_view common_name (r ∷ _) = push_run common_name r
