-- ===== src/Console/Provisioning/Safety.antt =====
-- The tags of the provisioning of console.js.
use certadillo.Prelude.{List, Option, [], none, refl, some, ◌∷◌}
use certadillo.Prelude.Int.{ℤ}
use certadillo.Markup.{Text}
use certadillo.Markup.Tags.{
  Safe, by_text, by_value, done, html-Safe, if-Safe, map_values-Safe, read, read_all, text-Safe,
}
use certadillo.Console.Allowed.{is_allowed}
use certadillo.Console.Cells.Safety.{failure-Safe, pill-Safe}
use certadillo.Console.Provisioning.{
  Installation, PushRun, Target, checks_note, dirs_note, dirs_or, failures_note, installation_row,
  installs_view, no_runs, push_run, runs_view, step_row, target_row, targets_view,
}

pub dirs_note-Safe : (dirs : List Text) → Safe is_allowed (dirs_note dirs)
unfolding dirs_note read_all read is_allowed
dirs_note-Safe dirs = html-Safe is_allowed _ _ (λ _ h0. by_text refl (done _ refl h0))

pub dirs_or-Safe : (dirs : Option (List Text)) → Safe is_allowed (dirs_or dirs)
dirs_or-Safe none = text-Safe is_allowed []
dirs_or-Safe (some dirs) = dirs_note-Safe dirs

pub target_row-Safe : (x : Target) → Safe is_allowed (target_row x)
unfolding target_row read_all read is_allowed
target_row-Safe x = html-Safe is_allowed _ _ (λ _ h0. by_text refl (
    by_text refl (
      by_text refl (
        by_value _ refl (dirs_or-Safe x.allowed_dirs) h0 (λ _ h1.
          by_text refl (by_value _ refl (pill-Safe x.status) h1 (λ _ h2. done _ refl h2)))))))

pub targets_view-Safe : (rows : List Target) → Safe is_allowed (targets_view rows)
unfolding targets_view read_all read is_allowed
targets_view-Safe rows =
    if-Safe is_allowed _ _ _
      (html-Safe is_allowed _ _ (λ _ h0.
        by_value _ refl (map_values-Safe is_allowed _ _ target_row-Safe) h0
          (λ _ h1. done _ refl h1)))
      (html-Safe is_allowed _ _ (λ _ h0. done _ refl h0))

pub checks_note-Safe : (endpoint : Text) → Safe is_allowed (checks_note endpoint)
unfolding checks_note read_all read is_allowed
checks_note-Safe endpoint = html-Safe is_allowed _ _ (λ _ h0. by_text refl (done _ refl h0))

pub failures_note-Safe :
    (digits : ℤ → Text) (i : Installation) → Safe is_allowed (failures_note digits i)
unfolding failures_note read_all read is_allowed
failures_note-Safe digits i =
    html-Safe is_allowed _ _ (λ _ h0. by_text refl (by_text refl (done _ refl h0)))

pub installation_row-Safe :
    (digits : ℤ → Text) (targets : List Target) (i : Installation)
    → Safe is_allowed (installation_row digits targets i)
unfolding installation_row read_all read is_allowed
installation_row-Safe digits targets i = html-Safe is_allowed _ _ (λ _ h0. by_text refl (
    by_value _ refl
      (if-Safe is_allowed _ _ _ (checks_note-Safe i.validate_endpoint) (text-Safe is_allowed _)) h0
      (λ _ h1. by_text refl (
        by_text refl (
          by_text refl (
            by_value _ refl (pill-Safe i.status) h1 (λ _ h2.
              by_value _ refl
                (if-Safe is_allowed _ _ _ (text-Safe is_allowed _) (failures_note-Safe digits i)) h2
                (λ _ h3. by_text refl (by_text refl (by_text refl (done _ refl h3)))))))))))

pub installs_view-Safe :
    (digits : ℤ → Text) (targets : List Target) (rows : List Installation)
    → Safe is_allowed (installs_view digits targets rows)
unfolding installs_view read_all read is_allowed
installs_view-Safe digits targets rows =
    if-Safe is_allowed _ _ _
      (html-Safe is_allowed _ _ (λ _ h0.
        by_value _ refl (map_values-Safe is_allowed _ _ (installation_row-Safe digits targets)) h0
          (λ _ h1. done _ refl h1)))
      (html-Safe is_allowed _ _ (λ _ h0. done _ refl h0))

pub step_row-Safe : (step : Text) → Safe is_allowed (step_row step)
unfolding step_row read_all read is_allowed
step_row-Safe step = html-Safe is_allowed _ _ (λ _ h0. by_text refl (done _ refl h0))

pub push_run-Safe : (common_name : Text) (r : PushRun) → Safe is_allowed (push_run common_name r)
unfolding push_run read_all read is_allowed
push_run-Safe common_name r = html-Safe is_allowed _ _ (λ _ h0. by_text refl (
    by_text refl (
      by_value _ refl (pill-Safe r.status) h0 (λ _ h1. by_text refl (
        by_text refl (
          by_value _ refl (map_values-Safe is_allowed _ _ step_row-Safe) h1 (λ _ h2.
            by_value _ refl
              (if-Safe is_allowed _ _ _ (failure-Safe r.error) (text-Safe is_allowed _)) h2
              (λ _ h3. done _ refl h3))))))))

pub no_runs-Safe : (common_name : Text) → Safe is_allowed (no_runs common_name)
unfolding no_runs read_all read is_allowed
no_runs-Safe common_name = html-Safe is_allowed _ _ (λ _ h0. by_text refl (done _ refl h0))

pub runs_view-Safe :
    (common_name : Text) (runs : List PushRun) → Safe is_allowed (runs_view common_name runs)
runs_view-Safe common_name [] = no_runs-Safe common_name
runs_view-Safe common_name (r ∷ _) = push_run-Safe common_name r
