-- ===== src/Scene/Laws/Showing.antt =====
-- The panel and the camera under frames and events: `loop` and `bindEvents` of
-- kb-src/scenes-engine.js.
use certadillo.Prelude.{
  ℕ, ◌+◌, ◌-◌, ◌*◌, min, refl, Bool, not, ◌&&◌, ◌||◌, true, List, [], ◌∷◌, Option, none, some,
  length, ltb, ◌==◌, arith, Bool-cases, inl, inr,
}
use certadillo.Prelude.Int.{ℤ, clamp_bounds}
use certadillo.Scene.Def.{Scene}
use certadillo.Scene.View.{View}
use certadillo.Scene.Frame.{
  wait_on, wait_for_local, pause, play_on, autoplay, end_frame, advance, frame, turn, fade, aged,
  show_mood, move_packets,
}
use certadillo.Scene.Input.{
  Event, frame_at, click_play, click_next, click_prev, click_restart, choose_speed, click_step,
  click_zoom, pointer_down, pointer_move, pointer_up, double_click, arrow_right, arrow_left,
  resize_to, intersect, drag_to, zoomed, home_of, play, toggle_play, go_next, go_prev, handle, run,
  create, blank, chain_place_of, dilly_place_of,
}
use certadillo.Scene.Laws.Shown.{InRange, Shows, go_to-Shows, Steady-Shows}
use certadillo.Scene.Laws.Steady.{
  Whenever, Whenever-bind, Whenever-if, core, always, move_packets-Steady, wait_on-Steady,
}

module _ (d : Scene) (r : Bool) where
  play_on-Shows : (v : View) → Shows d v → Whenever (Shows d) (play_on d r v)
  unfolding play_on pause
  play_on-Shows v h =
      Whenever-if (Shows d) (ltb (v.step_index + 1) (length d.steps)) _ _
        (λ e. go_to-Shows d r (v.step_index + 1) v h.camera h.back) (λ e. h)

  autoplay-Shows : (sdt : ℕ) (v : View) → Shows d v → Whenever (Shows d) (autoplay d r sdt v)
  unfolding autoplay
  autoplay-Shows sdt v h =
      Whenever-if (Shows d) (v.playing && not v.running && length v.packets == 0) _ _
        (λ e.
          Whenever-if (Shows d) (v.read_time - sdt == 0) _ _
            (λ e'. play_on-Shows (record v { read_time = v.read_time - sdt }) h) (λ e'. h))
        (λ e. h)

  Shows-turn : (dt : ℕ) (v : View) → Shows d v → Shows d (turn r dt v)
  Shows-turn dt v h = elim (Bool-cases (v.user_moved || r)) [
    | inl e ↦ simp e h
    | inr e ↦ simp e (record {
      step = h.step;
      there = h.there;
      shown = h.shown;
      camera = record {
        near = h.camera.near;
        far = h.camera.far;
        high = h.camera.high;
        low = h.camera.low;
      };
      back = h.back;
    })
  ]

  advance-Shows : (dt : ℕ) (v : View) → Shows d v → Whenever (Shows d) (advance d r dt v)
  unfolding advance end_frame wait_for_local
  advance-Shows dt v h =
      let t : View = turn r dt v in
      let faded : View = record t { glow = fade dt t.glow } in
      Whenever-bind (Shows d) (Shows d) (move_packets d r (dt * v.speed) faded) _
        (Steady-Shows d r (core t) _ (Shows-turn dt v h)
          (move_packets-Steady d r (core t) (dt * v.speed) faded refl))
        λ moved k.
          Whenever-bind (Shows d) (Shows d) (wait_on d r (dt * v.speed) moved.wait_local moved) _
            (Steady-Shows d r (core moved) _ k
              (wait_on-Steady d r (core moved) (dt * v.speed) moved.wait_local moved refl))
            λ waited j. autoplay-Shows (dt * v.speed) (show_mood d.dilly (aged dt waited)) j

  frame-Shows :
      (hidden : Bool) (now : ℕ) (v : View) → Shows d v → Whenever (Shows d) (frame d r hidden now v)
  unfolding frame
  frame-Shows hidden now v h =
      Whenever-if (Shows d) (not v.visible || hidden) _ _ (λ e. h)
        (λ e. advance-Shows (min 50 (now - v.last)) (record v { last = now }) h)

  play-Shows : (v : View) → Shows d v → Whenever (Shows d) (play d r v)
  unfolding play
  play-Shows v h =
      Whenever-if (Shows d) v.running _ _ (λ e. h)
        (λ e. go_to-Shows d r _ (record v { playing = true; button = "Pause" }) h.camera h.back)

  toggle_play-Shows : (v : View) → Shows d v → Whenever (Shows d) (toggle_play d r v)
  unfolding toggle_play pause
  toggle_play-Shows v h = Whenever-if (Shows d) v.playing _ _ (λ e. h) (λ e. play-Shows v h)

  Shows-drag_to :
      (from : Option (ℤ × ℤ)) (x y : ℤ) (v : View) → Shows d v → Shows d (drag_to from x y v)
  Shows-drag_to none x y v h = h
  Shows-drag_to (some p) x y v h =
      let (high, low) = clamp_bounds 35000 145000 _ (omega arith) in
      record {
        step = h.step;
        there = h.there;
        shown = h.shown;
        camera = record { near = h.camera.near; far = h.camera.far; high = high; low = low };
        back = h.back;
      }

  Shows-zoomed :
      (closer : Bool) (v : View)
      → Shows d v
      → Shows d (record v { orbit = record (v.orbit) { radius = zoomed closer v.orbit.radius } })
  Shows-zoomed closer v h = record {
    step = h.step;
    there = h.there;
    shown = h.shown;
    camera = record {
      near = omega arith;
      far = omega arith;
      high = h.camera.high;
      low = h.camera.low;
    };
    back = h.back;
  }

  handle-Shows : (e : Event) (v : View) → Shows d v → Whenever (Shows d) (handle d r e v)
  unfolding handle pause go_next go_prev
  handle-Shows (frame_at now hidden) v h = frame-Shows hidden now v h
  handle-Shows click_play v h = toggle_play-Shows v h
  handle-Shows click_next v h = go_to-Shows d r _ (pause v) h.camera h.back
  handle-Shows click_prev v h = go_to-Shows d r _ (pause v) h.camera h.back
  handle-Shows click_restart v h =
      Whenever-bind (Shows d) (Shows d) _ _ (go_to-Shows d r 0 v h.camera h.back) play-Shows
  handle-Shows (choose_speed s) v h = h
  handle-Shows (click_step i) v h =
      Whenever-if (Shows d) (ltb i (length d.steps)) _ _
        (λ e. go_to-Shows d r i (pause v) h.camera h.back) (λ e. h)
  handle-Shows (click_zoom closer) v h = Shows-zoomed closer v h
  handle-Shows (pointer_down x y) v h = h
  handle-Shows (pointer_move x y) v h = Shows-drag_to v.drag x y v h
  handle-Shows pointer_up v h = h
  handle-Shows double_click v h = record {
    step = h.step;
    there = h.there;
    shown = h.shown;
    camera = h.back;
    back = h.back;
  }
  handle-Shows arrow_right v h = go_to-Shows d r _ v h.camera h.back
  handle-Shows arrow_left v h = go_to-Shows d r _ v h.camera h.back
  handle-Shows (resize_to w) v h = h
  handle-Shows (intersect shown) v h = h

  pub run-Shows : (es : List Event) (v : View) → Shows d v → Whenever (Shows d) (run d r es v)
  unfolding run
  run-Shows [] v h = h
  run-Shows (e ∷ es) v h = Whenever-bind (Shows d) (Shows d) _ _ (handle-Shows e v h) (run-Shows es)

  pub create-Shows :
      (width now : ℕ) → InRange (home_of d.camera) → Whenever (Shows d) (create d r width now)
  unfolding create blank
  create-Shows width now h =
      Whenever-bind (λ o. Unit) (Shows d) (dilly_place_of d) _ (always (dilly_place_of d))
        λ dilly k.
          Whenever-bind (λ o. Unit) (Shows d) (chain_place_of d) _ (always (chain_place_of d))
            λ chain j. go_to-Shows d r 0 (blank d width now chain dilly) h h
