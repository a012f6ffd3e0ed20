-- ===== src/Scene/Laws/Ending.antt =====
-- Frames of kb-src/scenes-engine.js while local moves are made.
use certadillo.Prelude.{
  ℕ, suc, ◌+◌, ◌-◌, ◌*◌, ◌/◌, ◌≤◌, ◌<◌, min, ◌≡◌, refl, ◌∙◌, sym, subst, Bool, true, false, List,
  [], ◌∷◌, Option, none, some, length, get_elem?-some, All, arith, ◌==◌,
}
use certadillo.Scene.Def.{Mood, Move, Scene}
use certadillo.Scene.View.{View, pulse}
use certadillo.Scene.Settle.{reading_time}
use certadillo.Scene.Moves.{finish_moves, start_local, start_next}
use certadillo.Scene.Laws.Sound.{MoveOk}
use certadillo.Scene.Laws.After.{After, After-of_some}
use certadillo.Scene.Laws.Starting.{apply_move_lem}
use certadillo.Scene.Laws.Steady.{Whenever, Core, core, apply_move-Steady}
use certadillo.Scene.Laws.Due.{IsDue, IsDue-apply_move}

-- A local move between actors that are there.
abbrev pub IsLocal : Scene → Move → Type 0
IsLocal d m = (m.local ≡ true) × MoveOk d m

-- What the user has set: the walkthrough is in view, not playing, and not at speed 0; and the step
-- and the time of the last frame.
pub record IsWatched (i t : ℕ) (c : Core) : Type 0 where
  pub at : c.at ≡ i
  pub seen : c.visible ≡ true
  pub paused : c.playing ≡ false
  pub fast : 1 ≤ c.speed
  pub time : c.last ≡ t

-- A local move acts for `w` more ticks, and the moves `q` wait.
pub record IsActing (w : ℕ) (q : List Move) (v : View) : Type 0 where
  pub waits : v.wait_local ≡ some w
  pub acting : v.current_local ≡ true
  pub waiting : v.queue ≡ q
  pub still : v.packets ≡ []
  pub busy : v.running ≡ true

-- All moves have been made.
pub record IsEnded (v : View) : Type 0 where
  pub free : v.wait_local ≡ none
  pub still : v.packets ≡ []
  pub over : v.running ≡ false

-- In `n` more frames, 50 ms apart, all moves will have been made, and `b` blocks and the mood `k` will
-- be there.
pub data Left (d : Scene) (b : ℕ) (k : Mood) : ℕ → View → Type 0 where
  ended :
      {n : ℕ} {v : View} → IsEnded v → IsDue b k (length v.chain) [] v.pending_mood → Left d b k n v
  acts :
      {n : ℕ} {v : View} (w : ℕ) (q : List Move)
      → IsActing w q v
      → IsDue b k (length v.chain) q v.pending_mood
      → All (IsLocal d) q
      → w / 50 + 1 + 181 * length q ≤ n
      → Left d b k n v

pub wait_less :
    (w sdt l n : ℕ)
    → (w - sdt == 0) ≡ false
    → 50 ≤ sdt
    → w / 50 + 1 + l ≤ suc n
    → (w - sdt) / 50 + 1 + l ≤ n
wait_less w sdt l n e fast h = ground arith

pub no_packets : {d : Scene} {b : ℕ} {k : Mood} {n : ℕ} {v : View} → Left d b k n v → v.packets ≡ []
no_packets (ended e u) = e.still
no_packets (acts w q s u ls h) = s.still

pub step_time : (t last speed : ℕ) → last ≡ t → 1 ≤ speed → 50 ≤ min 50 (t + 50 - last) * speed
step_time t last speed h k = let e : min 50 (t + 50 - last) ≡ 50 = omega arith in rw e (omega arith)

of_Steady :
    (c : Core) (m : Option View) (v : View) → m ≡ some v → Whenever (λ w. core w ≡ c) m → core v ≡ c
of_Steady c m v e h = subst (Whenever (λ w. core w ≡ c)) e h

pub Left_timed :
    (d : Scene) (b : ℕ) (k : Mood) (n : ℕ) (v : View) (t : ℕ)
    → Left d b k n v
    → Left d b k n (record v { last = t })
Left_timed d b k n v t (ended e u) =
    ended (record { free = e.free; still = e.still; over = e.over }) u
Left_timed d b k n v t (acts w q s u ls h) =
    acts w q
      (record {
        waits = s.waits;
        acting = s.acting;
        waiting = s.waiting;
        still = s.still;
        busy = s.busy;
      })
      u ls h

module _ (d : Scene) (r : Bool) (i t : ℕ) (there : i < length d.steps) (b : ℕ) (k : Mood) where
  abbrev pub Nears : ℕ → View → Type 0
  Nears n v = IsWatched i t (core v) × Left d b k n v

  pub begin_local :
      (n : ℕ) (m : Move) (q : List Move) (v : View)
      → IsWatched i t (core v)
      → v.packets ≡ []
      → v.running ≡ true
      → All (IsLocal d) (m ∷ q)
      → IsDue b k (length v.chain) (m ∷ q) v.pending_mood
      → 181 * length (m ∷ q) ≤ n
      → After (Nears n) (start_next d r (m ∷ q) v)
  unfolding start_next start_local pulse
  begin_local n m q v c still busy ((here, ok), ls) due h =
      let x : View = pulse m.from (record v { queue = q }) in
      let (u, eu, a) = apply_move_lem d r m x ok in
      let same = of_Steady (core v) _ u eu (apply_move-Steady d r (core v) m x refl) in
      After-of_some (Nears n) _ (record u { wait_local = some 9000; current_local = true })
        (simp (here, eu) refl)
        (
          subst (IsWatched i t) (sym same) c,
          acts 9000 q
              (record {
                waits = refl;
                acting = refl;
                waiting = a.same_queue;
                still = a.same_packets ∙ still;
                busy = a.same_running ∙ busy;
              })
              (IsDue-apply_move d r m q x u b k eu a.blocks due) ls (omega arith),
        )

  pub begin_next :
      (n : ℕ) (q : List Move) (v : View)
      → IsWatched i t (core v)
      → v.packets ≡ []
      → v.running ≡ true
      → v.wait_local ≡ none
      → All (IsLocal d) q
      → IsDue b k (length v.chain) q v.pending_mood
      → 181 * length q ≤ n
      → After (Nears n) (start_next d r q v)
  unfolding start_next finish_moves
  begin_next n [] v c still busy free ls due h =
      let (s, e) = get_elem?-some d.steps v.step_index (omega (arith, c.at, there)) in
      After-of_some (Nears n) _
        (record v { queue = []; running = false; read_time = reading_time s }) (rw e refl)
        (c, ended (record { free = free; still = still; over = refl }) due)
  begin_next n (m ∷ q) v c still busy free ls due h = begin_local n m q v c still busy ls due h
