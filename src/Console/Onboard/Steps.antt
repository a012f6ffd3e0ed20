-- ===== src/Console/Onboard/Steps.antt =====
-- Where the onboarding wizard of console.js can be, in whatever order its replies come.
use text.Mathlib.TextEquality.{eq_iff}
use certadillo.Prelude.{
  ℕ, zero, suc, ◌≤◌, ◌≡◌, ◌≢◌, refl, Bool, true, false, List, [], ◌∷◌, Option, none, some, arith,
  String, ◌⊎◌, inl, inr, In, ◌==◌, if◌then◌else◌,
}
use certadillo.Console.Onboard.{
  Reply, replied, failed, App, Calls, on_its_way, Wizard, start, Event, open_tab, loaded,
  create_team, team_made, reloaded, next1, back2, next2, app_made, refresh, answered, is_active,
  ask_for, ask_status, status, created, chosen, tab_loaded, team_loaded, team_created, step_to,
  handle, run, credentials_for,
}

abbrev has_app : Option App → Bool
has_app none = false
has_app (some a) = true

abbrev active_app : Option App → Bool
active_app none = false
active_app (some a) = is_active a

-- In the second section a team is chosen, from the third on there is an application, and in the third
-- it waits for an approver.
pub record IsPlaced (w : Wizard) : Type 0 where
  pub low : 1 ≤ w.step
  pub high : w.step ≤ 4
  pub team : w.step ≡ 2 → w.team ≢ 0
  pub made : 3 ≤ w.step → has_app w.app ≡ true
  pub waiting : w.step ≡ 3 → active_app w.app ≡ false

-- What one event makes of a wizard `w`: a wizard of that kind that is in the fourth section only if `w`
-- was or the event tells of an active application.
record IsNext (w : Wizard) (told : Bool) (w' : Wizard) : Type 0 where
  placed : IsPlaced w'
  active : w'.step ≡ 4 → (w.step ≡ 4) ⊎ (told ≡ true)

abbrev tells_reply : Reply App → Bool
tells_reply (failed e) = false
tells_reply (replied a) = is_active a

-- The event tells of an active application.
abbrev pub tells_active : Event → Bool
tells_active (app_made r) = tells_reply r
tells_active (answered r) = tells_reply r
tells_active _ = false

status-IsPlaced : (r : Reply App) (w : Wizard) → IsPlaced w → IsNext w (tells_reply r) (status r w)
unfolding status step_to
status-IsPlaced (failed e) w h = ground arith
status-IsPlaced (replied a) w h = ground arith

calls-IsPlaced : (w : Wizard) (c : Calls) → IsPlaced w → IsPlaced (record w { calls = c })
calls-IsPlaced w c h = ground arith

ask_for-IsNext : (o : Option App) (w : Wizard) → IsPlaced w → IsNext w false (ask_for o w)
ask_for-IsNext none w h = record { placed = h; active = λ e. inl e }
ask_for-IsNext (some a) w h = record { placed = calls-IsPlaced w _ h; active = λ e. inl e }

created-IsPlaced :
    (r : Reply App) (w : Wizard) → IsPlaced w → IsNext w (tells_reply r) (created r w)
unfolding created step_to ask_status
created-IsPlaced (failed e) w h = ground arith
created-IsPlaced (replied a) w h = ground arith

chosen-IsPlaced : (n : ℕ) (w : Wizard) → w.step ≡ 1 → IsPlaced w → IsNext w false (chosen n w)
unfolding chosen step_to
chosen-IsPlaced zero w s h = ground arith
chosen-IsPlaced (suc n) w s h = ground arith

tab_loaded-IsPlaced :
    (e : Option String) (w : Wizard) → IsPlaced w → IsNext w false (tab_loaded e w)
unfolding tab_loaded step_to
tab_loaded-IsPlaced none w h = ground arith
tab_loaded-IsPlaced (some e) w h = ground arith

team_loaded-IsPlaced :
    (e : Option String) (w : Wizard) → IsPlaced w → IsNext w false (team_loaded e w)
unfolding team_loaded step_to
team_loaded-IsPlaced none w h = ground arith
team_loaded-IsPlaced (some e) w h = ground arith

team_created-IsPlaced :
    (e : Option String) (w : Wizard) → IsPlaced w → IsNext w false (team_created e w)
unfolding team_created
team_created-IsPlaced none w h = ground arith
team_created-IsPlaced (some e) w h = ground arith

on_its_way-IsNext :
    (n : ℕ) (w w' : Wizard) (told : Bool)
    → IsPlaced w
    → IsNext w told w'
    → IsNext w told (on_its_way n w w')
on_its_way-IsNext zero w w' told h k = record { placed = h; active = λ e. inl e }
on_its_way-IsNext (suc n) w w' told h k = k

if-IsNext :
    (b : Bool) (w w' : Wizard) (told : Bool)
    → IsPlaced w
    → (b ≡ true → IsNext w told w')
    → IsNext w told (if b then w' else w)
if-IsNext true w w' told h k = k refl
if-IsNext false w w' told h k = record { placed = h; active = λ e. inl e }

from_calls :
    (w w' : Wizard) (c : Calls) (told : Bool)
    → IsNext (record w { calls = c }) told w'
    → IsNext w told w'
from_calls w w' c told k = record { placed = k.placed; active = k.active }

handle-IsNext : (e : Event) (w : Wizard) → IsPlaced w → IsNext w (tells_active e) (handle e w)
unfolding handle
handle-IsNext open_tab w h = record { placed = calls-IsPlaced w _ h; active = λ e. inl e }
handle-IsNext (loaded r) w h =
    on_its_way-IsNext w.calls.loading w _ false h
      (from_calls w _ _ false (tab_loaded-IsPlaced r _ (calls-IsPlaced w _ h)))
handle-IsNext create_team w h =
    if-IsNext (w.step == 1) w _ false h
      (λ _. record { placed = calls-IsPlaced w _ h; active = λ e. inl e })
handle-IsNext (team_made r) w h =
    on_its_way-IsNext w.calls.making_team w _ false h
      (from_calls w _ _ false (team_created-IsPlaced r _ (calls-IsPlaced w _ h)))
handle-IsNext (reloaded r) w h =
    on_its_way-IsNext w.calls.reloading w _ false h
      (from_calls w _ _ false (team_loaded-IsPlaced r _ (calls-IsPlaced w _ h)))
handle-IsNext (next1 n) w h =
    if-IsNext (w.step == 1) w _ false h (λ e. chosen-IsPlaced n w (ground arith) h)
handle-IsNext back2 w h = if-IsNext (w.step == 2) w _ false h (λ e. unfold step_to in ground arith)
handle-IsNext next2 w h =
    if-IsNext (w.step == 2) w _ false h
      (λ _. record { placed = calls-IsPlaced w _ h; active = λ e. inl e })
handle-IsNext (app_made r) w h =
    on_its_way-IsNext w.calls.making_app w _ (tells_reply r) h
      (from_calls w _ _ (tells_reply r) (created-IsPlaced r _ (calls-IsPlaced w _ h)))
handle-IsNext refresh w h =
    if-IsNext (w.step == 3) w _ false h (λ e. unfold ask_status in ask_for-IsNext w.app w h)
handle-IsNext (answered r) w h =
    on_its_way-IsNext w.calls.asking w _ (tells_reply r) h
      (from_calls w _ _ (tells_reply r) (status-IsPlaced r _ (calls-IsPlaced w _ h)))

-- An event of the list tells of an active application.
abbrev pub Told : List Event → Type 0
Told es = (e : Event) × In e es × (tells_active e ≡ true)

run-IsPlaced :
    (es : List Event) (w : Wizard)
    → IsPlaced w
    → IsPlaced (run es w) × ((run es w).step ≡ 4 → (w.step ≡ 4) ⊎ Told es)
unfolding run
run-IsPlaced [] w h = (h, λ e. inl e)
run-IsPlaced (x ∷ xs) w h =
    let n = handle-IsNext x w h in
    let (p, f) = run-IsPlaced xs (handle x w) n.placed in
    (
      p,
      λ e. elim (f e) [
        | inl s ↦ elim (n.active s) [ inl k ↦ inl k | inr t ↦ inr (x, inl refl, t) ]
        | inr (y, i, t) ↦ inr (y, inr i, t)
      ],
    )

app_of : (o : Option App) → has_app o ≡ true → (a : App) × (o ≡ some a)
app_of none h = cc
app_of (some a) h = (a, refl)

app_of_waiting :
    (o : Option App)
    → has_app o ≡ true
    → active_app o ≡ false
    → (a : App) × (o ≡ some a) × (a.status ≢ "active")
app_of_waiting none h k = cc
app_of_waiting (some a) h k = (a, refl, ground (arith, eq_iff a.status "active"))

-- In whatever order clicks and replies come, one of the four sections is shown; in the second a team is
-- chosen; in the third there is an application whose status is not active; in the fourth there is one
-- too, so that credentials are asked for without a TypeError, and some reply has told of an application
-- that is active.
pub run-start :
    (es : List Event)
    → let w = run es start in
      (1 ≤ w.step)
      × (w.step ≤ 4)
      × (w.step ≡ 2 → w.team ≢ 0)
      × (w.step ≡ 3 → (a : App) × (w.app ≡ some a) × (a.status ≢ "active"))
      × (w.step ≡ 4 → ((a : App) × (w.app ≡ some a) × (credentials_for w ≡ some a.id)) × Told es)
run-start es =
    let (p, told) = run-IsPlaced es start (ground arith) in
    (
      p.low,
      p.high,
      p.team,
      (λ s. app_of_waiting _ (p.made (omega (arith, s))) (p.waiting s)),
      λ s.
          let (a, e) = app_of _ (p.made (omega (arith, s))) in
          ((a, e, unfold credentials_for in rw e refl), elim (told s) [ inl k ↦ cc | inr t ↦ t ]),
    )
