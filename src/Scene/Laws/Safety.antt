-- ===== src/Scene/Laws/Safety.antt =====
-- Throws and the invariant under frames and events: `loop` and `bindEvents` of
-- kb-src/scenes-engine.js.
use certadillo.Prelude.{
  ℕ, ◌+◌, ◌-◌, ◌*◌, ◌<◌, min, ◌≡◌, refl, sym, subst, Bool, true, false, not, ◌&&◌, ◌||◌, List, [],
  ◌∷◌, Option, none, some, length, arith, ltb, leb, ltb→lt, ◌==◌, Option-cases, inl, inr,
  if◌then◌else◌, String,
}
use certadillo.Prelude.Int.{ℤ, pos, ◌+ℤ◌, scale}
use certadillo.Scene.Def.{Actor, Scene}
use certadillo.Scene.View.{View, has_actor, find_actor}
use certadillo.Scene.Settle.{◌>>=◌}
use certadillo.Scene.Moves.{has_target}
use certadillo.Scene.Frame.{
  wait_on, wait_for_local, age_effects, drop_blocks, pause, play_on, autoplay, end_frame, advance,
  frame,
}
use certadillo.Scene.Input.{
  Event, frame_at, click_play, click_next, click_prev, click_restart, choose_speed, click_step,
  click_zoom, pointer_down, pointer_move, pointer_up, double_click, arrow_right, arrow_left,
  resize_to, intersect, offset_or, play, toggle_play, go_next, go_prev, handle, run, create, blank,
  beside, before, drag_to,
}
use certadillo.Scene.Laws.After.{After-some, After-if, After-bind}
use certadillo.Scene.Laws.Due.{length-drop_blocks}
use certadillo.Scene.Laws.Sound.{IsSound, NamedOk}
use certadillo.Scene.Laws.Jumping.{Inv, Ok, Keeps, start_next-Keeps, go_to-Keeps}
use certadillo.Scene.Laws.Running.{move_packets-Keeps}

play_target : (i n : ℕ) → i < n → (if leb n (i + 1) then 0 else i + 1) < n
play_target i n h = ground arith

find_actor_lem :
    (ls : List Actor) (id : String)
    → has_actor ls id ≡ true
    → (a : Actor) × (find_actor ls id ≡ some a)
unfolding has_actor find_actor
find_actor_lem [] id h = cc
find_actor_lem (a ∷ rest) id h = elim (Option-cases (find_actor rest id)) [
  | inl missed ↦ (a, ground (arith, find_actor_lem rest id))
  | inr (b, found) ↦ (b, rw found)
]

beside_lem : (d : Scene) (a : Option String) → NamedOk d a → (p : ℤ × ℤ) × (beside d a ≡ some p)
unfolding beside
beside_lem d none h = (_, refl)
beside_lem d (some id) h =
    let (a, e) = find_actor_lem d.actors id (unfold has_target in ground arith) in
    ((a.x +ℤ (offset_or d.chain_offset).0, a.z +ℤ (offset_or d.chain_offset).1), rw e refl)

before_lem :
    (d : Scene) (a : Option String) → NamedOk d a → (p : Option (ℤ × ℤ)) × (before d a ≡ some p)
unfolding before
before_lem d none h = (_, refl)
before_lem d (some id) h =
    let (a, e) = find_actor_lem d.actors id (unfold has_target in ground arith) in
    (some (scale 78 a.x, scale 78 a.z +ℤ pos 100), rw e refl)

module _ (d : Scene) (r : Bool) (ok : IsSound d) where
  wait_on-Keeps : (sdt : ℕ) (w : Option ℕ) (v : View) → Ok d v → Keeps d (wait_on d r sdt w v)
  unfolding wait_on
  wait_on-Keeps sdt none v h = h
  wait_on-Keeps sdt (some w) v h =
      After-if (Ok d) v.current_local _ _
        (λ _.
          After-if (Ok d) (w - sdt == 0) _ _
            (λ _.
              start_next-Keeps d r v.queue (record v { wait_local = none; current_local = false })
                h)
            (λ _. h))
        (λ _. h)

  play_on-Keeps : (v : View) → Ok d v → Keeps d (play_on d r v)
  unfolding play_on pause
  play_on-Keeps v h =
      After-if (Ok d) (ltb (v.step_index + 1) (length d.steps)) _ _
        (λ e. go_to-Keeps d r (v.step_index + 1) v ok (ltb→lt _ _ e)) (λ _. h)

  autoplay-Keeps : (sdt : ℕ) (v : View) → Ok d v → Keeps d (autoplay d r sdt v)
  unfolding autoplay
  autoplay-Keeps sdt v h =
      After-if (Ok d) (v.playing && not v.running && length v.packets == 0) _ _
        (λ _.
          After-if (Ok d) (v.read_time - sdt == 0) _ _
            (λ _. play_on-Keeps (record v { read_time = v.read_time - sdt }) h) (λ _. h))
        (λ _. h)

  aged-Ok :
      (dt : ℕ) (v : View)
      → Ok d v
      → Ok d (record v { effects = age_effects dt v.effects; chain = drop_blocks dt v.chain })
  aged-Ok dt v h =
      subst (Inv d v.step_index v.queue v.packets) (sym (length-drop_blocks dt v.chain)) h

  pub advance-Keeps : (dt : ℕ) (v : View) → Ok d v → Keeps d (advance d r dt v)
  unfolding advance end_frame wait_for_local
  advance-Keeps dt v h =
      After-bind (Ok d) (Ok d) _ _ (move_packets-Keeps d r (dt * v.speed) _ h) λ moved h1.
        After-bind (Ok d) (Ok d) _ _ (wait_on-Keeps (dt * v.speed) moved.wait_local moved h1)
          λ waited h2. autoplay-Keeps (dt * v.speed) _ (aged-Ok dt waited h2)

  frame-Keeps : (hidden : Bool) (now : ℕ) (v : View) → Ok d v → Keeps d (frame d r hidden now v)
  unfolding frame
  frame-Keeps hidden now v h =
      After-if (Ok d) (not v.visible || hidden) _ _ (λ _. h)
        (λ _. advance-Keeps (min 50 (now - v.last)) (record v { last = now }) h)

  play-Keeps : (v : View) → Ok d v → Keeps d (play d r v)
  unfolding play
  play-Keeps v h =
      After-if (Ok d) v.running _ _ (λ _. h)
        (λ _.
          go_to-Keeps d r (if leb (length d.steps) (v.step_index + 1) then 0 else v.step_index + 1)
            (record v { playing = true; button = "Pause" }) ok
            (play_target v.step_index (length d.steps) h.on_step))

  toggle_play-Keeps : (v : View) → Ok d v → Keeps d (toggle_play d r v)
  unfolding toggle_play pause
  toggle_play-Keeps v h = After-if (Ok d) v.playing _ _ (λ _. h) (λ _. play-Keeps v h)

  go_next-Keeps : (v : View) → Ok d v → Keeps d (go_next d r v)
  unfolding go_next
  go_next-Keeps v h = go_to-Keeps d r _ v ok (omega (arith, h.on_step))

  go_prev-Keeps : (v : View) → Ok d v → Keeps d (go_prev d r v)
  unfolding go_prev
  go_prev-Keeps v h = go_to-Keeps d r _ v ok (omega (arith, h.on_step))

  Ok-drag_to : (from : Option (ℤ × ℤ)) (x y : ℤ) (v : View) → Ok d v → Ok d (drag_to from x y v)
  Ok-drag_to none x y v h = h
  Ok-drag_to (some p) x y v h = h

  pub handle-Keeps : (e : Event) (v : View) → Ok d v → Keeps d (handle d r e v)
  unfolding handle pause
  handle-Keeps (frame_at now hidden) v h = frame-Keeps hidden now v h
  handle-Keeps click_play v h = toggle_play-Keeps v h
  handle-Keeps click_next v h = go_next-Keeps (pause v) h
  handle-Keeps click_prev v h = go_prev-Keeps (pause v) h
  handle-Keeps click_restart v h =
      After-bind (Ok d) (Ok d) _ _ (go_to-Keeps d r 0 v ok ok.steps_some) play-Keeps
  handle-Keeps (choose_speed s) v h = h
  handle-Keeps (click_step i) v h =
      After-if (Ok d) (ltb i (length d.steps)) _ _
        (λ e. go_to-Keeps d r i (pause v) ok (ltb→lt _ _ e)) (λ _. h)
  handle-Keeps (click_zoom closer) v h = h
  handle-Keeps (pointer_down x y) v h = h
  handle-Keeps (pointer_move x y) v h = Ok-drag_to v.drag x y v h
  handle-Keeps pointer_up v h = h
  handle-Keeps double_click v h = h
  handle-Keeps arrow_right v h = go_next-Keeps v h
  handle-Keeps arrow_left v h = go_prev-Keeps v h
  handle-Keeps (resize_to w) v h = h
  handle-Keeps (intersect shown) v h = h

  pub run-Keeps : (es : List Event) (v : View) → Ok d v → Keeps d (run d r es v)
  unfolding run
  run-Keeps [] v h = h
  run-Keeps (e ∷ es) v h = After-bind (Ok d) (Ok d) _ _ (handle-Keeps e v h) (run-Keeps es)

  -- In a sound scene the constructor returns, and so does every later run of events: none of them
  -- throws. After it the step exists, what is queued or in flight is between actors that are there,
  -- the chain has a block for each event that the earlier steps store, and no more than one for each
  -- event that those and the current step store.
  pub run-create :
      (width now : ℕ) (es : List Event)
      → (v : View) × ((create d r width now >>= run d r es) ≡ some v) × Ok d v
  unfolding create
  run-create width now es =
      let (chain, ec) = beside_lem d d.chain_at ok.chain_ok in
      let (dilly, ed) = before_lem d d.dilly ok.dilly_ok in
      After-some (Ok d) _ (
        rw (ed, ec)
          (After-bind (Ok d) (Ok d) _ _
            (go_to-Keeps d r 0 (blank d width now chain dilly) ok ok.steps_some) (run-Keeps es)))
