-- ===== src/Scene/Laws/LocalSteps.antt =====
-- The end of a step of kb-src/scenes-engine.js with local moves.
use certadillo.Prelude.{
  ℕ, zero, suc, ◌+◌, ◌-◌, ◌*◌, ◌≤◌, ◌<◌, min, ◌≡◌, refl, sym, subst, ap, Bool, true, false, not,
  ◌||◌, List, [], ◌∷◌, Option, none, some, length, get_elem?, All, arith, lt-length_of_get_elem?,
  String,
}
use certadillo.Scene.Def.{happy, Mood, Move, Step, Scene}
use certadillo.Scene.View.{View, pulse, pulse?, set_chain, clear_packets}
use certadillo.Scene.Settle.{◌>>=◌, settle, stores, blocks_before, mood_or, mood_after, mood_before}
use certadillo.Scene.Moves.{own_effect, go_to, start_next}
use certadillo.Scene.Frame.{frame}
use certadillo.Scene.Input.{Event, frame_at, handle, run}
use certadillo.Scene.Laws.After.{After, After-some, After-if, After-bind}
use certadillo.Scene.Laws.Steady.{core, core-pulse?}
use certadillo.Scene.Laws.Jumping.{arrived_at}
use certadillo.Scene.Laws.Chain.{length-set_chain}
use certadillo.Scene.Laws.Due.{IsDue, IsDue-nil, mood_before-suc}
use certadillo.Scene.Laws.Waiting.{advance-Nears}
use certadillo.Scene.Laws.Ending.{
  IsLocal, IsWatched, IsEnded, Left, ended, acts, Left_timed, step_time, Nears, begin_local,
}

-- So many frames, the first 50 ms after `t` and each 50 ms after the one before.
abbrev pub frames_after : ℕ → ℕ → List Event
frames_after zero t = []
frames_after (suc n) t = frame_at (t + 50) false ∷ frames_after n (t + 50)

-- At that step, with nothing under way, so many blocks and that mood.
pub record EndsAt (i b : ℕ) (k : Mood) (v : View) : Type 0 where
  pub ended : IsEnded v
  pub at : v.step_index ≡ i
  pub blocks : length v.chain ≡ b
  pub mood : v.pending_mood ≡ some k

module _ (d : Scene) (r : Bool) (i : ℕ) (there : i < length d.steps) (b : ℕ) (k : Mood) where
  frame-Nears :
      (n t : ℕ) (v : View)
      → IsWatched i t (core v)
      → Left d b k (suc n) v
      → After (λ w. IsWatched i (t + 50) (core w) × Left d b k n w) (frame d r false (t + 50) v)
  unfolding frame
  frame-Nears n t v c l =
      After-if (λ w. IsWatched i (t + 50) (core w) × Left d b k n w) (not v.visible || false) _ _
        (λ e. absurd (ground (arith, c.seen)))
        (λ e.
          advance-Nears d r i (t + 50) there b k n (min 50 (t + 50 - v.last))
            (record v { last = t + 50 })
            (record { at = c.at; seen = c.seen; paused = c.paused; fast = c.fast; time = refl })
            (Left_timed d b k (suc n) v (t + 50) l) (step_time t v.last v.speed c.time c.fast))

  run-Left :
      (n t : ℕ) (v : View)
      → IsWatched i t (core v)
      → Left d b k n v
      → After (EndsAt i b k) (run d r (frames_after n t) v)
  unfolding run handle
  run-Left zero t v c (ended e u) =
      let (blocks, mood) = IsDue-nil b (length v.chain) k v.pending_mood u in
      record { ended = e; at = c.at; blocks = blocks; mood = mood }
  run-Left zero t v c (acts w q s u ls h) = absurd (omega arith)
  run-Left (suc n) t v c l =
      After-bind (EndsAt i b k) (λ w. IsWatched i (t + 50) (core w) × Left d b k n w)
        (frame d r false (t + 50) v) _ (frame-Nears n t v c l)
        λ w (cw, lw). run-Left n (t + 50) w cw lw

Left_pulse? :
    (d : Scene) (b : ℕ) (k : Mood) (n : ℕ) (a : Option String) (v : View)
    → Left d b k n v
    → Left d b k n (pulse? a v)
unfolding pulse? pulse
Left_pulse? d b k n none v l = l
Left_pulse? d b k n (some id) v (ended e u) =
    ended (record { free = e.free; still = e.still; over = e.over }) u
Left_pulse? d b k n (some id) v (acts w q s u ls h) =
    acts w q
      (record {
        waits = s.waits;
        acting = s.acting;
        waiting = s.waiting;
        still = s.still;
        busy = s.busy;
      })
      u ls h

-- A step with moves that are all local, between actors that are there, comes to its end: after
-- `goTo`, in a walkthrough that is in view, not playing and not at speed 0, 181 frames for each move,
-- 50 ms apart, are enough, at every speed. Nothing throws, the step stays, no move is under way, and all
-- that the moves leave behind is there: as many blocks more than the earlier steps store as the moves
-- of this one store, and the mood that the next step is settled with.
pub go_to-EndsAt :
    (d : Scene) (r : Bool) (i n : ℕ) (s : Step) (m : Move) (q : List Move) (v : View)
    → get_elem? d.steps i ≡ some s
    → s.moves ≡ m ∷ q
    → All (IsLocal d) (m ∷ q)
    → v.visible ≡ true
    → v.playing ≡ false
    → 1 ≤ v.speed
    → 181 * length (m ∷ q) ≤ n
    → After
        (EndsAt i (blocks_before i d.steps + stores (m ∷ q)) (mood_before (suc i) d.steps happy))
        (go_to d r i v >>= run d r (frames_after n v.last))
unfolding go_to settle own_effect set_chain clear_packets
go_to-EndsAt d r i n s m q v e split ls seen paused fast h =
    let there = lt-length_of_get_elem? d.steps i e in
    let b = blocks_before i d.steps + stores (m ∷ q) in
    let k = mood_before (suc i) d.steps happy in
    let x = arrived_at d i s v in
    let c : IsWatched i v.last (core x) = record {
      at = refl;
      seen = seen;
      paused = paused;
      fast = fast;
      time = refl;
    } in
    let due : IsDue b k (length x.chain) (m ∷ q) x.pending_mood = record {
      total =
          ap (λ l. l + stores (m ∷ q))
            (length-set_chain (blocks_before i d.steps)
              (record (clear_packets v) { step_index = i }));
      now = mood_or s.dilly (mood_before i d.steps happy);
      pending = refl;
      later = sym (
          subst (λ l. k ≡ mood_after l (mood_or s.dilly (mood_before i d.steps happy))) split
            (mood_before-suc i d.steps happy e));
    } in
    let (w, ew, (cw, lw)) =
      After-some (Nears d r i v.last there b k n) (start_next d r (m ∷ q) x)
        (begin_local d r i v.last there b k n m q x c refl refl ls due h) in
    let begun : start_next d r s.moves x ≡ some w =
      subst (λ l. start_next d r l x ≡ some w) (sym split) ew in
    let shown : own_effect d r s s.moves w ≡ some w =
      subst (λ l. own_effect d r s l w ≡ some w) (sym split) refl in
    let made : go_to d r i v ≡ some (pulse? s.actor w) = rw (e, begun, shown) refl in
    rw made (
      run-Left d r i there b k n v.last (pulse? s.actor w)
        (subst (IsWatched i v.last) (sym (core-pulse? s.actor w)) cw)
        (Left_pulse? d b k n s.actor w lw))
