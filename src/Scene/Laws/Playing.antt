-- ===== src/Scene/Laws/Playing.antt =====
-- The engine of kb-src/scenes-engine.js as a slide show: `goTo`, `loop` and `bindEvents`.
use certadillo.Prelude.{
  ℕ, ◌+◌, ◌-◌, ◌*◌, min, max, ◌≡◌, refl, sym, subst, ap, ◌∙◌, Bool, true, false, not, ◌&&◌, ◌||◌,
  Option, none, some, length, ltb, ltb→lt, ◌==◌, get_elem?, arith,
}
use certadillo.Prelude.Int.{ℤ}
use certadillo.Scene.Def.{Scene}
use certadillo.Scene.View.{View, clear_packets}
use certadillo.Scene.Settle.{panel_of}
use certadillo.Scene.Moves.{go_to}
use certadillo.Scene.Frame.{
  wait_on, wait_for_local, pause, play_on, autoplay, end_frame, advance, frame, turn, fade, aged,
  show_mood, move_packets,
}
use certadillo.Scene.Input.{
  Event, frame_at, click_play, click_next, click_prev, click_restart, choose_speed, click_step,
  click_zoom, pointer_down, pointer_move, pointer_up, double_click, arrow_right, arrow_left,
  resize_to, intersect, drag_to, play, toggle_play, go_next, go_prev, handle,
}
use certadillo.Scene.Laws.Shown.{settle-Steady, with_panel}
use certadillo.Scene.Laws.Steady.{
  Whenever, Whenever-bind, Whenever-if, Core, core, always, core-pulse?, start_next-Steady,
  own_effect-Steady, move_packets-Steady, wait_on-Steady,
}
use certadillo.Scene.Laws.Slides.{
  Slides, Turns, stays, waits, turns, ends, pauses, resumes, plays, next, prev, restarts,
  restarts_on, chooses, misses, right, left, after,
}

-- The show that a view is at.
abbrev pub slides : View → Slides
slides v = record { at = v.step_index; playing = v.playing }

abbrev core_slides : Core → Slides
core_slides c = record { at = c.at; playing = c.playing }

-- Whenever the operation returns, the show is at `s`.
abbrev pub Leads : Slides → Option View → Type 0
Leads s = Whenever (λ w. slides w ≡ s)

module _ (d : Scene) (r : Bool) where
  pub go_to-Leads :
      (i : ℕ) (v : View) → Leads (record { at = i; playing = v.playing }) (go_to d r i v)
  unfolding go_to clear_packets
  go_to-Leads i v =
      let c : Core = record (core v) { at = i } in
      let s : Slides = record { at = i; playing = v.playing } in
      Whenever-bind (λ w. core w ≡ c) (λ w. slides w ≡ s) _ _
        (settle-Steady d r i (record (clear_packets v) { step_index = i }))
        λ w k.
          Whenever-bind (λ s. Unit) (λ w. slides w ≡ s) _ _ (always (get_elem? d.steps i))
            λ st _.
              let p = some (panel_of d i st) in
              let e' = with_panel p c in
              Whenever-bind (λ u. core u ≡ e') (λ w. slides w ≡ s) _ _
                (start_next-Steady d r e' st.moves _ (ap (with_panel p) k))
                λ u b.
                  Whenever-bind (λ x. core x ≡ e') (λ w. slides w ≡ s) _ _
                    (own_effect-Steady d r e' st st.moves u b)
                    λ x a. ap core_slides (core-pulse? st.actor x ∙ a)

  abbrev pub Moves : Event → Slides → Option View → Type 0
  Moves e s = Whenever (λ w. Turns (length d.steps) e s (slides w))

  led :
      {e : Event} {s t : Slides} (m : Option View)
      → Turns (length d.steps) e s t
      → Leads t m
      → Moves e s m
  led {e} {s} none h k = tt
  led {e} {s} (some w) h k = subst (Turns (length d.steps) e s) (sym k) h

  play_on-Moves :
      (now : ℕ) (hidden : Bool) (v : View)
      → v.playing ≡ true
      → Moves (frame_at now hidden) (slides v) (play_on d r v)
  unfolding play_on pause
  play_on-Moves now hidden v p =
      let s : Slides = record { at = v.step_index; playing = true } in
      let e : slides v ≡ s = ap (λ b. record { at = v.step_index; playing = b }) p in
      subst (λ x. Moves (frame_at now hidden) x (play_on d r v)) (sym e)
        (Whenever-if _ (ltb (v.step_index + 1) (length d.steps)) _ _
          (λ l. led (go_to d r (v.step_index + 1) v) (turns now hidden (ltb→lt _ _ l)) (
            subst
              (λ b.
                Leads (record { at = v.step_index + 1; playing = b })
                  (go_to d r (v.step_index + 1) v))
              p (go_to-Leads (v.step_index + 1) v)))
          (λ l. ends now hidden (ground arith)))

  autoplay-Moves :
      (now : ℕ) (hidden : Bool) (sdt : ℕ) (v : View)
      → Moves (frame_at now hidden) (slides v) (autoplay d r sdt v)
  unfolding autoplay
  autoplay-Moves now hidden sdt v =
      Whenever-if _ (v.playing && not v.running && length v.packets == 0) _ _
        (λ c.
          Whenever-if _ (v.read_time - sdt == 0) _ _
            (λ _.
              play_on-Moves now hidden (record v { read_time = v.read_time - sdt }) (ground arith))
            (λ _. waits now hidden))
        (λ _. waits now hidden)

  advance-Moves :
      (now : ℕ) (hidden : Bool) (dt : ℕ) (v : View)
      → Moves (frame_at now hidden) (slides v) (advance d r dt v)
  unfolding advance end_frame wait_for_local
  advance-Moves now hidden dt v =
      let t : View = turn r dt v in
      let faded : View = record t { glow = fade dt t.glow } in
      let Goal : View → Type 0 =
        λ w. Turns (length d.steps) (frame_at now hidden) (slides v) (slides w) in
      Whenever-bind (λ w. core w ≡ core t) Goal (move_packets d r (dt * v.speed) faded) _
        (move_packets-Steady d r (core t) (dt * v.speed) faded refl)
        λ moved k.
          Whenever-bind (λ w. core w ≡ core t) Goal
            (wait_on d r (dt * v.speed) moved.wait_local moved) _
            (wait_on-Steady d r (core t) (dt * v.speed) moved.wait_local moved k)
            λ waited j.
              subst
                (λ s.
                  Moves (frame_at now hidden) s
                    (autoplay d r (dt * v.speed) (show_mood d.dilly (aged dt waited))))
                (ap core_slides j)
                (autoplay-Moves now hidden (dt * v.speed) (show_mood d.dilly (aged dt waited)))

  frame-Moves :
      (hidden : Bool) (now : ℕ) (v : View)
      → Moves (frame_at now hidden) (slides v) (frame d r hidden now v)
  unfolding frame
  frame-Moves hidden now v =
      Whenever-if _ (not v.visible || hidden) _ _ (λ _. waits now hidden)
        (λ _. advance-Moves now hidden (min 50 (now - v.last)) (record v { last = now }))

  play-Moves : (v : View) → v.playing ≡ false → Moves click_play (slides v) (play d r v)
  unfolding play
  play-Moves v p =
      let s : Slides = record { at = v.step_index; playing = false } in
      let on : View = record v { playing = true; button = "Pause" } in
      subst (λ x. Moves click_play x (play d r v))
        (sym (ap (λ b. record { at = v.step_index; playing = b }) p))
        (Whenever-if _ v.running _ _ (λ _. resumes)
          (λ _.
            led (go_to d r (after (length d.steps) v.step_index) on) plays
              (go_to-Leads (after (length d.steps) v.step_index) on)))

  toggle_play-Moves : (v : View) → Moves click_play (slides v) (toggle_play d r v)
  unfolding toggle_play pause
  toggle_play-Moves v =
      Whenever-if _ v.playing _ _
        (λ p.
          subst
            (λ b.
              Turns (length d.steps) click_play (record { at = v.step_index; playing = b })
                (record { at = v.step_index; playing = false }))
            (sym p) pauses)
        (play-Moves v)

  -- "Restart" plays from the first step, and goes on at once if that has no moves to run.
  restart-Moves : (s : Slides) (v : View) → v.step_index ≡ 0 → Moves click_restart s (play d r v)
  unfolding play
  restart-Moves s v z =
      let on : View = record v { playing = true; button = "Pause" } in
      Whenever-if _ v.running _ _
        (λ _.
          subst (λ i. Turns (length d.steps) click_restart s (record { at = i; playing = true }))
            (sym z) restarts)
        (λ _. led (go_to d r (after (length d.steps) v.step_index) on) restarts_on (
          subst
            (λ i.
              Leads (record { at = after (length d.steps) i; playing = true })
                (go_to d r (after (length d.steps) v.step_index) on))
            z (go_to-Leads (after (length d.steps) v.step_index) on)))

  slides-drag_to :
      (from : Option (ℤ × ℤ)) (x y : ℤ) (v : View) → slides (drag_to from x y v) ≡ slides v
  slides-drag_to none x y v = refl
  slides-drag_to (some p) x y v = refl

  pub handle-Moves : (e : Event) (v : View) → Moves e (slides v) (handle d r e v)
  unfolding handle pause go_next go_prev
  handle-Moves (frame_at now hidden) v = frame-Moves hidden now v
  handle-Moves click_play v = toggle_play-Moves v
  handle-Moves click_next v = led _ next (go_to-Leads _ (pause v))
  handle-Moves click_prev v =
      let e : v.step_index - 1 ≡ max (v.step_index - 1) 0 = omega arith in
      led _
        (subst
          (λ i. Turns (length d.steps) click_prev (slides v) (record { at = i; playing = false })) e
          prev)
        (go_to-Leads _ (pause v))
  handle-Moves click_restart v =
      Whenever-bind (λ w. slides w ≡ record { at = 0; playing = v.playing }) _ _ _ (go_to-Leads 0 v)
        λ w k. restart-Moves (slides v) w (ap (λ (s : Slides). s.at) k)
  handle-Moves (choose_speed s) v = stays refl
  handle-Moves (click_step i) v =
      Whenever-if _ (ltb i (length d.steps)) _ _
        (λ l. led _ (chooses (ltb→lt _ _ l)) (go_to-Leads i (pause v))) (λ l. misses (ground arith))
  handle-Moves (click_zoom closer) v = stays refl
  handle-Moves (pointer_down x y) v = stays refl
  handle-Moves (pointer_move x y) v =
      subst (Turns (length d.steps) (pointer_move x y) (slides v))
        (sym (slides-drag_to v.drag x y v)) (stays refl)
  handle-Moves pointer_up v = stays refl
  handle-Moves double_click v = stays refl
  handle-Moves arrow_right v = led _ right (go_to-Leads _ v)
  handle-Moves arrow_left v =
      let e : v.step_index - 1 ≡ max (v.step_index - 1) 0 = omega arith in
      led _
        (subst
          (λ i.
            Turns (length d.steps) arrow_left (slides v) (record { at = i; playing = v.playing }))
          e left)
        (go_to-Leads _ v)
  handle-Moves (resize_to w) v = stays refl
  handle-Moves (intersect shown) v = stays refl
