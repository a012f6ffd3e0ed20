-- ===== src/Scene/Input.antt =====
-- The constructor of SceneView and its event handlers: `bindEvents`, `play`, `pause`, `togglePlay`,
-- `resize` and `buildScene` of kb-src/scenes-engine.js.
use certadillo.Prelude.{
  ℕ, zero, suc, ◌+◌, ◌-◌, ◌*◌, ◌/◌, min, max, String, Bool, true, false, List, [], ◌∷◌, Option,
  none, some, length, map, ltb, leb, if◌then◌else◌,
}
use certadillo.Prelude.Int.{ℤ, pos, ◌-ℤ◌, ◌+ℤ◌, scale, clamp}
use certadillo.Scene.Def.{Camera, Scene}
use certadillo.Scene.View.{Orbit, View, find_actor}
use certadillo.Scene.Settle.{◌>>=◌}
use certadillo.Scene.Moves.{go_to}
use certadillo.Scene.Frame.{pause, frame}

-- What the browser delivers: `frame now hidden` for an animation frame, and the user's events.
pub data Event : Type 0 where
  frame_at : ℕ → Bool → Event
  click_play click_next click_prev click_restart : Event
  choose_speed : ℕ → Event
  click_step : ℕ → Event
  click_zoom : Bool → Event
  pointer_down pointer_move : ℤ → ℤ → Event
  pointer_up double_click arrow_right arrow_left : Event
  resize_to : ℕ → Event
  intersect : Bool → Event

unfoldable pub play : Scene → Bool → View → Option View
unfolding go_to
play d reduced v =
    let on = record v { playing = true; button = "Pause" } in
    if v.running
    then some on
    else go_to d reduced (if leb (length d.steps) (v.step_index + 1) then 0 else v.step_index + 1)
        on

unfoldable pub toggle_play : Scene → Bool → View → Option View
unfolding play pause
toggle_play d reduced v = if v.playing then some (pause v) else play d reduced v

unfoldable pub go_next : Scene → Bool → View → Option View
unfolding go_to
go_next d reduced v = go_to d reduced (min (v.step_index + 1) (length d.steps - 1)) v

unfoldable pub go_prev : Scene → Bool → View → Option View
unfolding go_to
go_prev d reduced v = go_to d reduced (max (v.step_index - 1) 0) v

-- Zooming in takes 0.86 of the radius, out 1.16, between 8 and 30.
abbrev pub zoomed : Bool → ℕ → ℕ
zoomed closer r = max 800000 (min 3000000 (r * (if closer then 86 else 116) / 100))

abbrev drag_orbit : ℤ × ℤ → ℤ → ℤ → Orbit → Orbit
drag_orbit (x0, y0) x y o = record o {
  theta = o.theta -ℤ scale 600 (x -ℤ x0);
  phi = clamp 35000 145000 (pos o.phi -ℤ scale 500 (y -ℤ y0));
}

-- A move of the pointer turns the camera only while a button is held.
abbrev pub drag_to : Option (ℤ × ℤ) → ℤ → ℤ → View → View
drag_to none x y v = v
drag_to (some from) x y v = record v { orbit = drag_orbit from x y v.orbit; drag = some (x, y) }

-- The stage is 0.58 of its width high, rounded, between 300 and 560.
abbrev height_for : ℕ → ℕ
height_for w = max 300 (min 560 ((w * 58 + 50) / 100))

-- `clientWidth || 600`.
abbrev width_or : ℕ → ℕ
width_or zero = 600
width_or (suc w) = suc w

unfoldable pub handle : Scene → Bool → Event → View → Option View
unfolding frame toggle_play go_next go_prev play pause ◌-ℤ◌ scale clamp
handle d reduced (frame_at now hidden) v = frame d reduced hidden now v
handle d reduced click_play v = toggle_play d reduced v
handle d reduced click_next v = go_next d reduced (pause v)
handle d reduced click_prev v = go_prev d reduced (pause v)
handle d reduced click_restart v = go_to d reduced 0 v >>= play d reduced
handle d reduced (choose_speed s) v = some (record v { speed = s })
-- There is a button for each step, and a click elsewhere is none of a step.
handle d reduced (click_step i) v =
    if ltb i (length d.steps) then go_to d reduced i (pause v) else some v
handle d reduced (click_zoom closer) v =
    some (record v { orbit = record (v.orbit) { radius = zoomed closer v.orbit.radius } })
handle d reduced (pointer_down x y) v = some (record v { drag = some (x, y); user_moved = true })
handle d reduced (pointer_move x y) v = some (drag_to v.drag x y v)
handle d reduced pointer_up v = some (record v { drag = none })
handle d reduced double_click v = some (record v { orbit = v.home; user_moved = false })
handle d reduced arrow_right v = go_next d reduced v
handle d reduced arrow_left v = go_prev d reduced v
handle d reduced (resize_to w) v = some (record v { stage_height = height_for (width_or w) })
handle d reduced (intersect shown) v = some (record v { visible = shown })

abbrev pub home_of : Option Camera → Orbit
home_of none = record { theta = pos 0; phi = 102000; radius = 1700000 }
home_of (some c) = record {
  theta = scale 1000 c.theta;
  phi = c.phi * 1000;
  radius = c.radius * 1000;
}

-- `chainOffset`, or [1.1, 0].
abbrev pub offset_or : Option (ℤ × ℤ) → ℤ × ℤ
offset_or none = (pos 110, pos 0)
offset_or (some o) = o

-- The place of the chain, in hundredths: beside the actor `chainAt`, which is read with no test.
unfoldable pub beside : Scene → Option String → Option (ℤ × ℤ)
unfolding find_actor ◌+ℤ◌
beside d none = some (pos 0, pos 0)
beside d (some id) = do
  a ← find_actor d.actors id
  some (a.x +ℤ (offset_or d.chain_offset).0, a.z +ℤ (offset_or d.chain_offset).1)

abbrev pub chain_place_of : Scene → Option (ℤ × ℤ)
chain_place_of d = beside d d.chain_at

-- The place of Dilly, in ten-thousandths: at 0.78 of the way to the actor `dilly`.
unfoldable pub before : Scene → Option String → Option (Option (ℤ × ℤ))
unfolding find_actor ◌+ℤ◌ scale
before d none = some none
before d (some id) = do
  a ← find_actor d.actors id
  some (some (scale 78 a.x, scale 78 a.z +ℤ pos 100))

abbrev pub dilly_place_of : Scene → Option (Option (ℤ × ℤ))
dilly_place_of d = before d d.dilly

-- The fields as the constructor leaves them before its `goTo(0, false)`; `step_index`, which the
-- source starts at -1, is not read before that call writes it.
unfoldable pub blank : Scene → ℕ → ℕ → ℤ × ℤ → Option (ℤ × ℤ) → View
unfolding scale
blank d width now chain dilly = record {
  step_index = 0;
  playing = false;
  running = false;
  speed = 10;
  queue = [];
  packets = [];
  effects = [];
  chain = [];
  glow = map (λ a. (a.id, 0)) d.actors;
  pending_mood = none;
  mood = none;
  current_local = false;
  wait_local = none;
  read_time = 0;
  visible = true;
  user_moved = false;
  last = now;
  orbit = home_of d.camera;
  home = home_of d.camera;
  drag = none;
  stage_height = height_for (width_or width);
  button = "Play";
  panel = none;
  chain_place = chain;
  dilly_place = dilly;
}

unfoldable pub create : Scene → Bool → ℕ → ℕ → Option View
unfolding beside before blank go_to
create d reduced width now = do
  dilly ← dilly_place_of d
  chain ← chain_place_of d
  go_to d reduced 0 (blank d width now chain dilly)

-- Events in the order in which they are delivered.
unfoldable pub run : Scene → Bool → List Event → View → Option View
unfolding handle
run d reduced [] v = some v
run d reduced (e ∷ es) v = handle d reduced e v >>= run d reduced es
