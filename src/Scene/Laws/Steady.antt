-- ===== src/Scene/Laws/Steady.antt =====
-- The moves and the frames of kb-src/scenes-engine.js, and the step, the panel, the camera and what
-- the user has set.
use certadillo.Prelude.{
  ℕ, ◌≡◌, refl, Bool, true, false, List, [], ◌∷◌, Option, none, some, String, if◌then◌else◌, ◌∙◌,
  Bool-cases, inl, inr, ◌+◌, ◌-◌, ◌&&◌, leb, ◌==◌, get_elem?,
}
use certadillo.Scene.Def.{
  Kind, Effect, check, sign, hsm, store, burn, unlock, Mood, Move, Step, Scene,
}
use certadillo.Scene.View.{Packet, Panel, Orbit, View, has_actor, pulse, pulse?, add_block}
use certadillo.Scene.Settle.{◌>>=◌}
use certadillo.Scene.Moves.{
  launch, burst, set_mood, target_of, has_target, ring_color, add_ring, bursts, show_effect,
  apply_effect, apply_move, finish_moves, start_local, start_next, own_effect,
}
use certadillo.Scene.Frame.{is_reject, reject_burst, arrive, filter_packets, move_packets, wait_on}

-- `P` of what an operation returns, if it returns.
abbrev pub Whenever {ℓ} : {A : Type ℓ} → (A → Type 0) → Option A → Type 0
Whenever P none = Unit
Whenever P (some v) = P v

module _ {A B : Type 0} (P : A → Type 0) (Q : B → Type 0) where
  pub Whenever-bind :
      (m : Option A) (f : A → Option B)
      → Whenever P m
      → ((a : A) → P a → Whenever Q (f a))
      → Whenever Q (m >>= f)
  Whenever-bind none f h k = tt
  Whenever-bind (some a) f h k = k a h

pub always : {A : Type 0} (m : Option A) → Whenever (λ (a : A). Unit) m
always none = tt
always (some a) = tt

module _ {A : Type 0} (P : A → Type 0) where
  pub Whenever-if :
      (c : Bool) (m k : Option A)
      → (c ≡ true → Whenever P m)
      → (c ≡ false → Whenever P k)
      → Whenever P (if c then m else k)
  Whenever-if true m k h j = h refl
  Whenever-if false m k h j = j refl

-- What a move and an arrival leave alone.
pub record Core : Type 0 where
  pub at : ℕ
  pub panel : Option Panel
  pub orbit : Orbit
  pub home : Orbit
  pub playing : Bool
  pub visible : Bool
  pub speed : ℕ
  pub last : ℕ

abbrev pub core : View → Core
core v = record {
  at = v.step_index;
  panel = v.panel;
  orbit = v.orbit;
  home = v.home;
  playing = v.playing;
  visible = v.visible;
  speed = v.speed;
  last = v.last;
}

-- Whenever the operation returns, it has left that alone.
abbrev pub Steady : Core → Option View → Type 0
Steady c = Whenever (λ w. core w ≡ c)

core-set_mood : (m : Option Mood) (v : View) → core (set_mood m v) ≡ core v
core-set_mood none v = refl
core-set_mood (some m) v = refl

pub core-pulse? : (a : Option String) (v : View) → core (pulse? a v) ≡ core v
unfolding pulse? pulse
core-pulse? none v = refl
core-pulse? (some id) v = refl

core-bursts : (r : Bool) (fx : Effect) (v : View) → core (bursts r fx v) ≡ core v
unfolding burst
core-bursts r check v = refl
core-bursts r sign v = refl
core-bursts r hsm v = refl
core-bursts r store v = refl
core-bursts r Effect.reject v = refl
core-bursts r burn v = refl
core-bursts r unlock v = refl

core-reject_burst : (r : Bool) (k : Option Kind) (v : View) → core (reject_burst r k v) ≡ core v
unfolding burst
core-reject_burst r k v = elim (Bool-cases (is_reject k)) [ inl e ↦ rw e refl | inr e ↦ rw e refl ]

module _ (d : Scene) (r : Bool) (c : Core) where
  show_effect-Steady :
      (fx : Effect) (to target : Option String) (v : View)
      → core v ≡ c
      → Steady c (show_effect d r fx to target v)
  unfolding show_effect add_block
  show_effect-Steady store to target v h = core-pulse? to (add_block r true v) ∙ h
  show_effect-Steady fx to target v h =
      Whenever-if (λ w. core w ≡ c) (has_target d target) _ _
        (λ e. core-bursts r fx (add_ring (ring_color fx) v) ∙ h) (λ e. tt)

  apply_effect-Steady :
      (dilly : Option Mood) (fx : Option Effect) (from to : Option String) (v : View)
      → core v ≡ c
      → Steady c (apply_effect d r dilly fx from to v)
  unfolding apply_effect
  apply_effect-Steady dilly none from to v h = core-set_mood dilly v ∙ h
  apply_effect-Steady dilly (some fx) from to v h =
      Whenever-bind (λ w. core w ≡ c) (λ w. core w ≡ c) _ _
        (show_effect-Steady fx to (target_of to from) (set_mood dilly v)
          (core-set_mood dilly v ∙ h))
        λ w k. core-pulse? (target_of to from) w ∙ k

  pub apply_move-Steady : (m : Move) (v : View) → core v ≡ c → Steady c (apply_move d r m v)
  unfolding apply_move
  apply_move-Steady m v h = apply_effect-Steady m.dilly m.effect (some m.from) (some m.to) v h

  pub start_next-Steady : (q : List Move) (v : View) → core v ≡ c → Steady c (start_next d r q v)
  unfolding start_next finish_moves start_local pulse launch
  start_next-Steady [] v h =
      Whenever-bind (λ s. Unit) (λ w. core w ≡ c) (get_elem? d.steps v.step_index) _ (always _)
        λ s k. h
  start_next-Steady (m ∷ ms) v h =
      Whenever-if (λ w. core w ≡ c) m.local _ _
        (λ e.
          Whenever-bind (λ w. core w ≡ c) (λ w. core w ≡ c) _ _
            (apply_move-Steady m (pulse m.from (record v { queue = ms })) h) λ w k. k)
        (λ e.
          Whenever-if (λ w. core w ≡ c) (has_actor d.actors m.from && has_actor d.actors m.to) _ _
            (λ e'. h)
            (λ e'.
              Whenever-bind (λ w. core w ≡ c) (λ w. core w ≡ c) _ _
                (start_next-Steady ms (record v { queue = ms; current_local = false }) h) λ w k. k))

  pub own_effect-Steady :
      (s : Step) (ms : List Move) (v : View) → core v ≡ c → Steady c (own_effect d r s ms v)
  unfolding own_effect
  own_effect-Steady s [] v h = apply_effect-Steady none s.effect s.actor s.actor v h
  own_effect-Steady s (_ ∷ _) v h = h

  arrive-Steady : (p : Packet) (v : View) → core v ≡ c → Steady c (arrive d r p v)
  unfolding arrive
  arrive-Steady p v h =
      Whenever-bind (λ w. core w ≡ c) (λ w. core w ≡ c) _ _ (apply_move-Steady p.move v h)
        λ w k.
          start_next-Steady (reject_burst r p.move.kind w).queue (reject_burst r p.move.kind w)
            (core-reject_burst r p.move.kind w ∙ k)

  filter_packets-Steady :
      (sdt : ℕ) (ps : List Packet) (v : View)
      → core v ≡ c
      → Whenever (λ o. core (o.1) ≡ c) (filter_packets d r sdt ps v)
  unfolding filter_packets
  filter_packets-Steady sdt [] v h = h
  filter_packets-Steady sdt (p ∷ ps) v h =
      Whenever-if (λ o. core (o.1) ≡ c) (leb p.dur (p.t + sdt)) _ _
        (λ e.
          Whenever-bind (λ w. core w ≡ c) (λ o. core (o.1) ≡ c) _ _
            (arrive-Steady (record p { t = p.t + sdt }) v h) (filter_packets-Steady sdt ps))
        (λ e.
          Whenever-bind (λ o. core (o.1) ≡ c) (λ o. core (o.1) ≡ c) _ _
            (filter_packets-Steady sdt ps v h) λ o k. k)

  pub move_packets-Steady : (sdt : ℕ) (v : View) → core v ≡ c → Steady c (move_packets d r sdt v)
  unfolding move_packets
  move_packets-Steady sdt v h =
      Whenever-bind (λ o. core (o.1) ≡ c) (λ w. core w ≡ c) _ _
        (filter_packets-Steady sdt v.packets v h) λ o k. k

  pub wait_on-Steady :
      (sdt : ℕ) (w : Option ℕ) (v : View) → core v ≡ c → Steady c (wait_on d r sdt w v)
  unfolding wait_on
  wait_on-Steady sdt none v h = h
  wait_on-Steady sdt (some w) v h =
      Whenever-if (λ w. core w ≡ c) v.current_local _ _
        (λ e.
          Whenever-if (λ w. core w ≡ c) (w - sdt == 0) _ _
            (λ e'.
              start_next-Steady v.queue (record v { wait_local = none; current_local = false }) h)
            (λ e'. h))
        (λ e. h)
