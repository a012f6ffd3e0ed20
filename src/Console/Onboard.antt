-- ===== src/Console/Onboard.antt =====
-- The onboarding wizard of src/certadillo/web/static/console.js. A reply of the API is what `api`
-- returns or throws. A click and the reply to the call that it makes are two events: replies may come
-- in any order, with clicks between them.
pub mod Steps
pub mod Texts
use certadillo.Markup.{Text}
use certadillo.Prelude.{
  ℕ, zero, suc, String, Bool, true, false, List, [], ◌∷◌, Option, none, some, str_eq, ◌==◌, ◌-◌,
  if◌then◌else◌,
}

pub data Reply {ℓ} (A : Type ℓ) : Type ℓ where
  replied : A → Reply A
  failed : String → Reply A

-- What the wizard reads of an application.
pub record App : Type 0 where
  pub id : ℕ
  pub status : String
  pub approval_id : Option ℕ
  pub created_by : String
  pub name : Text

-- The calls of `api` that are on their way: the two of `loadOnboard` count as one, for a tab that is
-- opened or after a team was made.
pub record Calls : Type 0 where
  pub loading : ℕ
  pub making_team : ℕ
  pub reloading : ℕ
  pub making_app : ℕ
  pub asking : ℕ

-- `OB`, the section that `step` shows, the line for errors, and the calls. `team` is 0 where the
-- source has null or no number.
pub record Wizard : Type 0 where
  pub team : ℕ
  pub app : Option App
  pub step : ℕ
  pub error : String
  pub calls : Calls

abbrev pub start : Wizard
start = record {
  team = 0;
  app = none;
  step = 1;
  error = "";
  calls = record { loading = 0; making_team = 0; reloading = 0; making_app = 0; asking = 0 };
}

unfoldable pub step_to : ℕ → Wizard → Wizard
step_to n w = record w { step = n; error = "" }

pub data Event : Type 0 where
  -- the tab is opened; the teams and profiles arrive, or an error, which is told elsewhere: here and
  -- below `none` is a reply without an error
  open_tab : Event
  loaded : Option String → Event
  -- "Create team", the reply to POST /api/v1/teams, and the teams and profiles that follow
  create_team : Event
  team_made : Option String → Event
  reloaded : Option String → Event
  -- "Next" with the value of the list of teams
  next1 : ℕ → Event
  back2 : Event
  -- "Next" of the second section, and a reply to POST /api/v1/apps
  next2 : Event
  app_made : Reply App → Event
  -- "Refresh", and a reply to GET /api/v1/apps/{id}
  refresh : Event
  answered : Reply App → Event

-- A button is pressed only where its section is shown.
abbrev pub on_step : ℕ → Wizard → Wizard → Wizard
on_step n w w' = if w.step == n then w' else w

-- A reply comes only to a call that is on its way; `w` is what is known of it before.
abbrev pub on_its_way : ℕ → Wizard → Wizard → Wizard
on_its_way zero w w' = w
on_its_way (suc n) w w' = w'

abbrev pub is_active : App → Bool
is_active a = str_eq a.status "active"

abbrev pub ask_for : Option App → Wizard → Wizard
ask_for none w = w
ask_for (some a) w = record w { calls = record w.calls { asking = suc w.calls.asking } }

-- `obStatus` up to its `await`: without an application it throws before the call.
unfoldable pub ask_status : Wizard → Wizard
ask_status w = ask_for w.app w

-- `obStatus` behind it; an error is not caught there and changes nothing.
unfoldable pub status : Reply App → Wizard → Wizard
unfolding step_to
status (failed e) w = w
status (replied a) w =
    let w' = record w { app = some a } in if is_active a then step_to 4 w' else w'

unfoldable pub created : Reply App → Wizard → Wizard
unfolding step_to ask_status
created (failed e) w = record w { error = e }
created (replied a) w =
    let w' = record w { app = some a } in
    if is_active a then step_to 4 w' else ask_status (step_to 3 w')

unfoldable pub chosen : ℕ → Wizard → Wizard
unfolding step_to
chosen zero w = record w { team = 0; error = "Pick or create a team first." }
chosen (suc n) w = step_to 2 (record w { team = suc n })

-- `loadOnboard` behind its `await`: for the tab, and after a team was made, where an error is shown.
unfoldable pub tab_loaded : Option String → Wizard → Wizard
unfolding step_to
tab_loaded (some e) w = w
tab_loaded none w = step_to 1 w

unfoldable pub team_loaded : Option String → Wizard → Wizard
unfolding step_to
team_loaded (some e) w = record w { error = e }
team_loaded none w = step_to 1 w

unfoldable pub team_created : Option String → Wizard → Wizard
team_created (some e) w = record w { error = e }
team_created none w = record w { calls = record w.calls { reloading = suc (w.calls.reloading) } }

unfoldable pub handle : Event → Wizard → Wizard
unfolding step_to ask_status status created chosen tab_loaded team_loaded team_created
handle open_tab w = record w { calls = record w.calls { loading = suc (w.calls.loading) } }
handle (loaded r) w =
    on_its_way w.calls.loading w
      (tab_loaded r (record w { calls = record w.calls { loading = w.calls.loading - 1 } }))
handle create_team w =
    on_step 1 w (record w { calls = record w.calls { making_team = suc (w.calls.making_team) } })
handle (team_made r) w =
    on_its_way w.calls.making_team w (
      team_created r
        (record w { calls = record w.calls { making_team = w.calls.making_team - 1 } }))
handle (reloaded r) w =
    on_its_way w.calls.reloading w
      (team_loaded r (record w { calls = record w.calls { reloading = w.calls.reloading - 1 } }))
handle (next1 value) w = on_step 1 w (chosen value w)
handle back2 w = on_step 2 w (step_to 1 w)
handle next2 w =
    on_step 2 w (record w { calls = record w.calls { making_app = suc (w.calls.making_app) } })
handle (app_made r) w =
    on_its_way w.calls.making_app w
      (created r (record w { calls = record w.calls { making_app = w.calls.making_app - 1 } }))
handle refresh w = on_step 3 w (ask_status w)
handle (answered r) w =
    on_its_way w.calls.asking w
      (status r (record w { calls = record w.calls { asking = w.calls.asking - 1 } }))

unfoldable pub run : List Event → Wizard → Wizard
unfolding handle
run [] w = w
run (e ∷ es) w = run es (handle e w)

-- The application whose credentials `#cred-api` and `#cred-eab` ask for; `none` is a TypeError.
unfoldable pub credentials_for : Wizard → Option ℕ
credentials_for w = elim w.app [ none ↦ none | some a ↦ some a.id ]
