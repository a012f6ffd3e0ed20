-- ===== src/Scene/Laws/Waiting.antt =====
-- One frame of kb-src/scenes-engine.js while a local move is waited for.
use certadillo.Prelude.{
  ℕ, suc, ◌+◌, ◌-◌, ◌*◌, ◌/◌, ◌≤◌, ◌<◌, ◌≡◌, refl, sym, subst, Bool, false, List, [], none, some,
  length, All, arith, ◌==◌,
}
use certadillo.Scene.Def.{Mood, Move, Scene}
use certadillo.Scene.View.{View}
use certadillo.Scene.Moves.{start_next}
use certadillo.Scene.Frame.{
  wait_on, wait_for_local, autoplay, show_mood, aged, end_frame, fade, turn, advance, drop_blocks,
}
use certadillo.Scene.Laws.After.{After, After-of_some, After-if, After-bind}
use certadillo.Scene.Laws.Steady.{core}
use certadillo.Scene.Laws.Due.{IsDue, length-drop_blocks}
use certadillo.Scene.Laws.Stall.{still_packets}
use certadillo.Scene.Laws.Ending.{
  IsLocal, IsWatched, IsActing, Left, ended, acts, wait_less, no_packets, Nears, begin_next,
}

module _ (d : Scene) (r : Bool) (i t : ℕ) (there : i < length d.steps) (b : ℕ) (k : Mood) where
  wait_once :
      (n sdt w : ℕ) (q : List Move) (v : View)
      → IsWatched i t (core v)
      → IsActing w q v
      → IsDue b k (length v.chain) q v.pending_mood
      → All (IsLocal d) q
      → 50 ≤ sdt
      → w / 50 + 1 + 181 * length q ≤ suc n
      → After (Nears d r i t there b k n) (wait_on d r sdt (some w) v)
  unfolding wait_on
  wait_once n sdt w q v c s due ls fast h =
      After-if (Nears d r i t there b k n) v.current_local _ _
        (λ _.
          After-if (Nears d r i t there b k n) (w - sdt == 0) _ _
            (λ _.
              let free : View = record v { wait_local = none; current_local = false } in
              subst (λ x. After (Nears d r i t there b k n) (start_next d r x free)) (sym s.waiting)
                (begin_next d r i t there b k n q free c s.still s.busy refl ls due (omega arith)))
            (λ e. (
              c,
              acts (w - sdt) q
                  (record {
                    waits = refl;
                    acting = s.acting;
                    waiting = s.waiting;
                    still = s.still;
                    busy = s.busy;
                  })
                  due ls (wait_less w sdt (181 * length q) n e fast h),
            )))
        (λ e. absurd (cc (e, s.acting)))

  wait_Left :
      (n sdt : ℕ) (v : View)
      → IsWatched i t (core v)
      → Left d b k (suc n) v
      → 50 ≤ sdt
      → After (Nears d r i t there b k n) (wait_for_local d r sdt v)
  unfolding wait_for_local
  wait_Left n sdt v c (ended e u) fast =
      subst (λ w. After (Nears d r i t there b k n) (wait_on d r sdt w v)) (sym e.free)
        (unfold wait_on in (c, ended e u))
  wait_Left n sdt v c (acts w q s u ls h) fast =
      subst (λ o. After (Nears d r i t there b k n) (wait_on d r sdt o v)) (sym s.waits)
        (wait_once n sdt w q v c s u ls fast h)

  aged-IsDue :
      (dt : ℕ) (v : View) {q : List Move}
      → IsDue b k (length v.chain) q v.pending_mood
      → IsDue b k (length (drop_blocks dt v.chain)) q v.pending_mood
  aged-IsDue dt v {q} u =
      subst (λ n. IsDue b k n q v.pending_mood) (sym (length-drop_blocks dt v.chain)) u

  Left_shown : (n dt : ℕ) (v : View) → Left d b k n v → Left d b k n (show_mood d.dilly (aged dt v))
  Left_shown n dt v (ended e u) =
      ended (record { free = e.free; still = e.still; over = e.over }) (aged-IsDue dt v u)
  Left_shown n dt v (acts w q s u ls h) =
      acts w q
        (record {
          waits = s.waits;
          acting = s.acting;
          waiting = s.waiting;
          still = s.still;
          busy = s.busy;
        })
        (aged-IsDue dt v u) ls h

  Left_moved :
      (n dt : ℕ) (v : View)
      → Left d b k n v
      → Left d b k n (record (turn r dt v) { glow = fade dt v.glow; packets = [] })
  Left_moved n dt v (ended e u) = ended (record { free = e.free; still = refl; over = e.over }) u
  Left_moved n dt v (acts w q s u ls h) =
      acts w q
        (record {
          waits = s.waits;
          acting = s.acting;
          waiting = s.waiting;
          still = refl;
          busy = s.busy;
        })
        u ls h

  paused_lem : (sdt : ℕ) (v : View) → v.playing ≡ false → autoplay d r sdt v ≡ some v
  unfolding autoplay
  paused_lem sdt v h = simp h refl

  end_frame-Nears :
      (n dt sdt : ℕ) (v : View)
      → IsWatched i t (core v)
      → Left d b k (suc n) v
      → 50 ≤ sdt
      → After (Nears d r i t there b k n) (end_frame d r dt sdt v)
  unfolding end_frame
  end_frame-Nears n dt sdt v c l fast =
      After-bind (Nears d r i t there b k n) (Nears d r i t there b k n) (wait_for_local d r sdt v)
        _ (wait_Left n sdt v c l fast)
        λ w (cw, lw).
          After-of_some (Nears d r i t there b k n) _ (show_mood d.dilly (aged dt w))
            (paused_lem sdt (show_mood d.dilly (aged dt w)) cw.paused) (cw, Left_shown n dt w lw)

  pub advance-Nears :
      (n dt : ℕ) (v : View)
      → IsWatched i t (core v)
      → Left d b k (suc n) v
      → 50 ≤ dt * v.speed
      → After (Nears d r i t there b k n) (advance d r dt v)
  unfolding advance
  advance-Nears n dt v c l fast =
      let faded : View = record (turn r dt v) { glow = fade dt v.glow } in
      let moved : View = record faded { packets = [] } in
      rw (still_packets d r i [] (dt * v.speed) faded (no_packets l)) (
        end_frame-Nears n dt (dt * v.speed) moved
          (record { at = c.at; seen = c.seen; paused = c.paused; fast = c.fast; time = c.time })
          (Left_moved (suc n) dt v l) fast)
