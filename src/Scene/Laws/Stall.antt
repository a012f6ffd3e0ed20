-- ===== src/Scene/Laws/Stall.antt =====
-- What becomes of an envelope that `startNextMove` sends from within the callback of the `filter` in
-- `loop` of kb-src/scenes-engine.js.
use certadillo.Prelude.{
  ℕ, ◌+◌, ◌-◌, ◌*◌, ◌≤◌, min, ◌≡◌, refl, sym, subst, ◌∙◌, Bool, true, false, not, ◌||◌, List, [],
  ◌∷◌, map, Option, none, some, arith, le→leb,
}
use certadillo.Scene.Def.{Move, Scene}
use certadillo.Scene.View.{Packet, View, pulse}
use certadillo.Scene.Moves.{launch, start_next}
use certadillo.Scene.Frame.{
  reject_burst, arrive, filter_packets, move_packets, wait_on, wait_for_local, autoplay, show_mood,
  aged, end_frame, fade, turn, advance, frame,
}
use certadillo.Scene.Laws.Sound.{MoveOk}
use certadillo.Scene.Input.{frame_at, handle, run}
use certadillo.Scene.Laws.After.{After, After-of_some, After-if, After-bind}
use certadillo.Scene.Laws.Starting.{apply_move_lem}
use certadillo.Scene.Laws.Running.{Applied-reject_burst}

-- The moves `q` wait at step `i`, the code still counts a move as running, and nothing is in flight.
pub record IsStalled (i : ℕ) (q : List Move) (v : View) : Type 0 where
  pub at : v.step_index ≡ i
  pub waiting : v.queue ≡ q
  pub busy : v.running ≡ true
  pub nothing : v.packets ≡ []
  pub no_local : v.current_local ≡ false

module _ (d : Scene) (r : Bool) (i : ℕ) (q : List Move) where
  wait_on_lem : (sdt : ℕ) (w : Option ℕ) (v : View) → IsStalled i q v → wait_on d r sdt w v ≡ some v
  unfolding wait_on
  wait_on_lem sdt none v s = refl
  wait_on_lem sdt (some w) v s = simp s.no_local refl

  autoplay_lem : (sdt : ℕ) (v : View) → IsStalled i q v → autoplay d r sdt v ≡ some v
  unfolding autoplay
  autoplay_lem sdt v s = ground (arith, s.busy)

  IsStalled-faded :
      (dt : ℕ) {v : View}
      → IsStalled i q v
      → IsStalled i q (record (turn r dt v) { glow = fade dt v.glow })
  IsStalled-faded dt s = assumption

  IsStalled-shown :
      (dt : ℕ) {v : View} → IsStalled i q v → IsStalled i q (show_mood d.dilly (aged dt v))
  IsStalled-shown dt s = assumption

  IsStalled-packets : {v : View} → IsStalled i q v → IsStalled i q (record v { packets = [] })
  IsStalled-packets s = ground arith

  -- What `loop` does after the packets leaves a stalled view stalled.
  end_frame_lem :
      (dt sdt : ℕ) (v : View) → IsStalled i q v → After (IsStalled i q) (end_frame d r dt sdt v)
  unfolding end_frame wait_for_local
  end_frame_lem dt sdt v s =
      let t = IsStalled-shown dt s in
      After-of_some (IsStalled i q) _ (show_mood d.dilly (aged dt v))
        (rw (wait_on_lem sdt v.wait_local v s) (autoplay_lem sdt (show_mood d.dilly (aged dt v)) t))
        t

  pub still_packets :
      (sdt : ℕ) (v : View)
      → v.packets ≡ []
      → move_packets d r sdt v ≡ some (record v { packets = [] })
  unfolding move_packets filter_packets
  still_packets sdt v s = simp s refl

  advance_lem : (dt : ℕ) (v : View) → IsStalled i q v → After (IsStalled i q) (advance d r dt v)
  unfolding advance
  advance_lem dt v s =
      let faded : View = record (turn r dt v) { glow = fade dt v.glow } in
      rw (still_packets (dt * v.speed) faded s.nothing) (
        end_frame_lem dt (dt * v.speed) (record faded { packets = [] })
          (IsStalled-packets (IsStalled-faded dt s)))

  frame_lem :
      (hidden : Bool) (now : ℕ) (v : View)
      → IsStalled i q v
      → After (IsStalled i q) (frame d r hidden now v)
  unfolding frame
  frame_lem hidden now v s =
      After-if (IsStalled i q) (not v.visible || hidden) _ _ (λ _. assumption)
        (λ _. advance_lem (min 50 (now - v.last)) (record v { last = now }) (assumption))

  -- However many frames follow.
  pub frames_lem :
      (ts : List (ℕ × Bool)) (v : View)
      → IsStalled i q v
      → After (IsStalled i q) (run d r (map (λ t. frame_at t.0 t.1) ts) v)
  unfolding run handle
  frames_lem [] v s = s
  frames_lem (t ∷ ts) v s =
      After-bind (IsStalled i q) (IsStalled i q) _ _ (frame_lem t.1 t.0 v s) (frames_lem ts)

-- The view in which the next envelope has been sent.
abbrev sent_in : Bool → Move → List Move → View → View
sent_in r m q x = pulse m.from (launch r m (record x { queue = q; current_local = false }))

module _ (d : Scene) (r : Bool) where
  send_next :
      (m : Move) (q : List Move) (x : View)
      → MoveOk d m
      → m.local ≡ false
      → start_next d r (m ∷ q) x ≡ some (sent_in r m q x)
  unfolding start_next
  send_next m q x ok sent = simp (sent, ok.0, ok.1) refl

  IsStalled-sent_in :
      (m : Move) (q : List Move) (x : View) {i : ℕ}
      → x.step_index ≡ i
      → x.running ≡ true
      → IsStalled i q (record (sent_in r m q x) { packets = [] })
  unfolding pulse launch
  IsStalled-sent_in m q x at busy = ground arith

  module _ (p : Packet) (m : Move) (q : List Move) (v : View) (okp : MoveOk d p.move)
      (ok : MoveOk d m) (sent : m.local ≡ false) (next : v.queue ≡ m ∷ q)
      (busy : v.running ≡ true) where
    arrive_lem :
        (w : View) × (arrive d r p v ≡ some w)
        × IsStalled v.step_index q (record w { packets = [] })
    unfolding arrive
    arrive_lem =
        let (u, eu, b) = apply_move_lem d r p.move v okp in
        let a = Applied-reject_burst r p.move.kind b in
        let x : View = reject_burst r p.move.kind u in
        (
          sent_in r m q x,
          rw eu (
              subst (λ qs. start_next d r qs x ≡ some (sent_in r m q x)) (sym (a.same_queue ∙ next))
                (send_next m q x ok sent)),
          IsStalled-sent_in m q x a.same_step (a.same_running ∙ busy),
        )

  -- The one packet in flight arrives, and the next move in the queue flies too.
  landing_lem :
      (sdt : ℕ) (p : Packet) (m : Move) (q : List Move) (v : View)
      → MoveOk d p.move
      → MoveOk d m
      → m.local ≡ false
      → v.packets ≡ p ∷ []
      → v.queue ≡ m ∷ q
      → v.running ≡ true
      → p.dur ≤ p.t + sdt
      → After (IsStalled v.step_index q) (move_packets d r sdt v)
  unfolding move_packets filter_packets
  landing_lem sdt p m q v okp ok sent one next busy lands =
      let (w, ew, s) = arrive_lem (record p { t = p.t + sdt }) m q v okp ok sent next busy in
      After-of_some (IsStalled v.step_index q) _ (record w { packets = [] })
        (simp (one, le→leb _ _ lands, ew) refl) s

  advance_landing :
      (dt : ℕ) (p : Packet) (m : Move) (q : List Move) (v : View)
      → MoveOk d p.move
      → MoveOk d m
      → m.local ≡ false
      → v.packets ≡ p ∷ []
      → v.queue ≡ m ∷ q
      → v.running ≡ true
      → p.dur ≤ p.t + dt * v.speed
      → After (IsStalled v.step_index q) (advance d r dt v)
  unfolding advance
  advance_landing dt p m q v okp ok sent one next busy lands =
      After-bind (IsStalled v.step_index q) (IsStalled v.step_index q) _ _
        (landing_lem (dt * v.speed) p m q (record (turn r dt v) { glow = fade dt v.glow }) okp ok
          sent one next busy lands)
        (end_frame_lem d r v.step_index q dt (dt * v.speed))

  frame_landing :
      (now : ℕ) (p : Packet) (m : Move) (q : List Move) (v : View)
      → v.visible ≡ true
      → MoveOk d p.move
      → MoveOk d m
      → m.local ≡ false
      → v.packets ≡ p ∷ []
      → v.queue ≡ m ∷ q
      → v.running ≡ true
      → p.dur ≤ p.t + min 50 (now - v.last) * v.speed
      → After (IsStalled v.step_index q) (frame d r false now v)
  unfolding frame
  frame_landing now p m q v shown okp ok sent one next busy lands =
      After-if (IsStalled v.step_index q) (not v.visible || false) _ _ (λ h. absurd (ground arith))
        (λ _.
          advance_landing (min 50 (now - v.last)) p m q (record v { last = now }) okp ok sent one
            next busy lands)

  -- Once the one envelope in flight arrives in a frame while the next move in the queue is an
  -- envelope as well, the walkthrough stays at its step for every later sequence of frames: none of
  -- them throws, the rest of the queue keeps waiting, no envelope is in flight, and the code still
  -- counts a move as running, so that autoplay waits for it. Both moves are between actors that are
  -- there.
  pub frames-IsStalled :
      (now : ℕ) (ts : List (ℕ × Bool)) (p : Packet) (m : Move) (q : List Move) (v : View)
      → v.visible ≡ true
      → MoveOk d p.move
      → MoveOk d m
      → m.local ≡ false
      → v.packets ≡ p ∷ []
      → v.queue ≡ m ∷ q
      → v.running ≡ true
      → p.dur ≤ p.t + min 50 (now - v.last) * v.speed
      → After
          (IsStalled v.step_index q)
          (run d r (map (λ t. frame_at t.0 t.1) ((now, false) ∷ ts)) v)
  unfolding run handle
  frames-IsStalled now ts p m q v shown okp ok sent one next busy lands =
      After-bind (IsStalled v.step_index q) (IsStalled v.step_index q) _ _
        (frame_landing now p m q v shown okp ok sent one next busy lands)
        (frames_lem d r v.step_index q ts)
