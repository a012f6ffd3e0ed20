-- ===== src/Scene/Tests.antt =====
-- A small walkthrough in the form of kb-src/scenes-data.js, and what the engine does with it.
use certadillo.Prelude.{
  ℕ, ◌≡◌, refl, true, false, Bool, List, [], ◌∷◌, Option, none, some, length, map, arith, String,
  zero, suc, ◌+◌, ◌≤◌, ◌<◌, all,
}
use certadillo.Prelude.Int.{pos}
use certadillo.Markup.{Text, part}
use certadillo.Markup.Tags.{read_all, at_content}
use certadillo.Scene.Dom.{dom_view, step_buttons}
use certadillo.Scene.Laws.Dom.{is_stage_tag, dom_view-part}
use certadillo.Scene.Def.{happy, rolled, sign, Model, Effect, Move, Scene, Step, Actor, move, step}
use certadillo.Scene.View.{View, Packet, has_actor, pulse?, set_chain}
use certadillo.Scene.Settle.{◌>>=◌, panel_of, stores, blocks_before, mood_before}
use certadillo.Scene.Moves.{go_to}
use certadillo.Scene.Input.{Event, frame_at, click_play, click_next, arrow_left, create, blank, run}
use certadillo.Scene.Laws.Slides.{Course}
use certadillo.Scene.Laws.Playing.{slides}
use certadillo.Scene.Laws.SlideShow.{run-Turns, frames-Turns}
use certadillo.Scene.Laws.After.{After}
use certadillo.Scene.Laws.Sound.{IsSound, is_sound, IsSound-is_sound}
use certadillo.Scene.Laws.Chain.{length-set_chain}
use certadillo.Scene.Laws.Jumping.{Ok, Keeps, go_to-Keeps}
use certadillo.Scene.Laws.Safety.{run-create}
use certadillo.Scene.Laws.Displays.{Displays, run-create-Displays}
use certadillo.Scene.Laws.LocalSteps.{EndsAt, frames_after, go_to-EndsAt}
use certadillo.Scene.Laws.Stall.{IsStalled, frames-IsStalled}

abbrev actor_at : String → ℕ → Actor
actor_at id x = record {
  id = id;
  kind = Model.server;
  label = id;
  sub = none;
  x = pos x;
  z = pos 0;
  anchor_y = none;
  label_y = none;
  color = none;
}

abbrev ask : Move
ask = move "client" "ca" "CSR"

abbrev answer : Move
answer = record (move "ca" "client" "certificate") { effect = some Effect.store }

abbrev enroll : Step
enroll = step "1" "Enroll" "The client asks for a certificate." "POST /enroll" (ask ∷ answer ∷ [])

abbrev renew : Step
renew = step "2" "Renew" "It asks again." "" (answer ∷ [])

abbrev think : Move
think = record (move "ca" "ca" "sign") { local = true; effect = some sign }

abbrev note : Move
note = record (move "ca" "ca" "record") {
  local = true;
  effect = some Effect.store;
  dilly = some rolled;
}

abbrev signing : Step
signing = step "3" "Sign" "The authority signs." "" (think ∷ note ∷ [])

abbrev small : Scene
small = record {
  id = "small";
  title = "Enrollment";
  dilly = some "client";
  chain_at = some "ca";
  chain_offset = none;
  camera = none;
  platform_radius = none;
  actors = actor_at "client" 0 ∷ actor_at "ca" 500 ∷ [];
  steps = enroll ∷ renew ∷ signing ∷ [];
}

small-is_sound : is_sound small ≡ true
unfolding is_sound
small-is_sound = refl

small-IsSound : IsSound small
small-IsSound = IsSound-is_sound small small-is_sound

abbrev clicks : List Event
clicks = frame_at 10 false ∷ click_play ∷ frame_at 26 false ∷ click_next ∷ arrow_left ∷ []

run-create_example :
    (v : View) × ((create small false 800 0 >>= run small false clicks) ≡ some v) × Ok small v
run-create_example = run-create small false small-IsSound 800 0 clicks

run-Turns_example :
    (v : View) × ((create small false 800 0 >>= run small false clicks) ≡ some v)
    × Course 3 clicks (record { at = 0; playing = false }) (slides v)
run-Turns_example = run-Turns small false small-IsSound 800 0 clicks

abbrev two_frames : List Event
two_frames = frame_at 60 false ∷ frame_at 90 true ∷ []

frames-Turns_example :
    (v w : View) × ((create small false 800 0 >>= run small false clicks) ≡ some v)
    × (run small false two_frames v ≡ some w)
    × (v.step_index ≤ w.step_index)
    × (w.step_index ≤ v.step_index + 2)
    × (w.step_index < 3)
    × (v.playing ≡ false → w.step_index ≡ v.step_index)
frames-Turns_example =
    frames-Turns small false small-IsSound 800 0 clicks two_frames (refl, (refl, tt))

run-create-Displays_example :
    (v : View) × ((create small false 800 0 >>= run small false clicks) ≡ some v) × Displays small v
run-create-Displays_example =
    run-create-Displays small false 800 0 clicks small-IsSound
      (record { near = omega arith; far = omega arith; high = omega arith; low = omega arith })

abbrev idle : View
unfolding blank
idle = blank small 800 0 (pos 0, pos 0) none

go_to-Keeps_example : Keeps small (go_to small true 1 idle)
go_to-Keeps_example = go_to-Keeps small true 1 idle small-IsSound (omega arith)

length-set_chain_example : length (set_chain 3 idle).chain ≡ 3
length-set_chain_example = length-set_chain 3 idle

go_to-EndsAt_example :
    After
      (EndsAt 2
        (blocks_before 2 small.steps + stores (think ∷ note ∷ []))
        (mood_before 3 small.steps happy))
      (go_to small false 2 idle >>= run small false (frames_after 362 idle.last))
unfolding has_actor idle
go_to-EndsAt_example =
    go_to-EndsAt small false 2 362 signing think (note ∷ []) idle refl refl
      ((refl, (refl, refl)), ((refl, (refl, refl)), tt)) refl refl (omega arith) (omega arith)

-- The first envelope has 1 ms left to fly.
abbrev late : Packet
late = record { move = ask; t = 14990; dur = 15000 }

abbrev landing : View
landing = record (idle) { packets = late ∷ []; queue = answer ∷ []; running = true }

abbrev later : List (ℕ × Bool)
later = (32, false) ∷ (48, true) ∷ (64, false) ∷ []

frames-IsStalled_example :
    After
      (IsStalled 0 [])
      (run small false (map (λ t. frame_at t.0 t.1) ((16, false) ∷ later)) landing)
unfolding has_actor idle
frames-IsStalled_example =
    frames-IsStalled small false 16 later late answer [] landing refl (refl, refl) (refl, refl) refl
      refl refl refl (omega arith)

-- Frames that are 50 ms apart.
abbrev frames : ℕ → ℕ → List Event
frames zero now = []
frames (suc n) now = frame_at now false ∷ frames n (now + 50)

abbrev state : Option View → Option (ℕ × Bool × ℕ × ℕ × ℕ)
state none = none
state (some v) = some (v.step_index, v.running, length v.packets, length v.queue, length v.chain)

-- A second before the first envelope arrives, and a minute later: the answer has left the queue, no
-- envelope is in flight, nothing has been stored, and a move is still counted as running.
flies :
    state (create small false 800 0 >>= run small false (frames 10 50)) ≡ some (0, true, 1, 1, 0)
unfolding create run pulse?
flies = refl

stays :
    state (create small false 800 0 >>= run small false (frames 1200 50)) ≡ some (0, true, 0, 0, 0)
unfolding create run pulse?
stays = refl

dom_view-part_example :
    (tags : List Text) × (read_all (at_content []) (part (dom_view small)) ≡ at_content tags)
    × (all is_stage_tag tags ≡ true)
    × (length (step_buttons 0 (enroll ∷ renew ∷ signing ∷ []))
        ≡ length ((panel_of small 1 renew).marks))
dom_view-part_example = dom_view-part small 1 renew
