-- ===== src/Scene/Laws/Starting.antt =====
-- `applyEffect` and `startNextMove` of kb-src/scenes-engine.js in a sound scene: throws, the step,
-- the queue and the packets, and the blocks of the chain.
use certadillo.Prelude.{
  ℕ, ◌+◌, ◌≤◌, ◌<◌, ◌≡◌, refl, Bool, true, false, List, [], ◌∷◌, ◌++◌, String, Option, none, some,
  length, get_elem?-some, All, ◌⊎◌, ◌∙◌, append-nil, sym, arith, inl, inr, Bool-cases,
}
use certadillo.Scene.Def.{Effect, check, store, Mood, Move, Scene}
use certadillo.Scene.View.{Packet, View, pulse, pulse?, add_block}
use certadillo.Scene.Settle.{stores, store_count, reading_time}
use certadillo.Scene.Moves.{
  packet_of, launch, bursts, add_ring, ring_color, burst, set_mood, target_of, has_target,
  show_effect, apply_effect, apply_move, finish_moves, start_local, start_next,
}
use certadillo.Scene.Laws.Sound.{MoveOk}

-- The events that envelopes in flight will store.
unfoldable pub flying : List Packet → ℕ
unfolding stores
flying [] = 0
flying (p ∷ ps) = store_count p.move.effect + flying ps

pub flying-append : (ps qs : List Packet) → flying (ps ++ qs) ≡ flying ps + flying qs
unfolding flying
flying-append [] qs = omega arith
flying-append (p ∷ ps) qs = omega (arith, flying-append ps qs)

-- A view after an effect: more blocks, and nothing else that the moves are read from.
pub record Applied (v w : View) (n : ℕ) : Type 0 where
  pub same_step : w.step_index ≡ v.step_index
  pub same_queue : w.queue ≡ v.queue
  pub same_packets : w.packets ≡ v.packets
  pub same_running : w.running ≡ v.running
  pub blocks : length w.chain ≡ length v.chain + n

Applied-pulse? :
    (id : Option String) {v w : View} {n : ℕ} → Applied v w n → Applied v (pulse? id w) n
unfolding pulse?
Applied-pulse? none a = a
Applied-pulse? (some id) a = assumption

Applied-set_mood : (m : Option Mood) (v : View) → Applied v (set_mood m v) 0
Applied-set_mood none v = ground arith
Applied-set_mood (some m) v = ground arith

Applied-add_ring :
    (r : Bool) (fx : Effect) {v w : View}
    → Applied v w 0
    → Applied v (bursts r fx (add_ring (ring_color fx) w)) 0
unfolding burst
Applied-add_ring r check a = assumption
Applied-add_ring r _ a = assumption

Applied-add_block : (r : Bool) {v w : View} → Applied v w 0 → Applied v (add_block r true w) 1
unfolding add_block
Applied-add_block r a = ground arith

-- One effect whose target is there.
show_effect_lem :
    (d : Scene) (r : Bool) (fx : Effect) (to target : Option String) (v w : View)
    → has_target d target ≡ true
    → Applied v w 0
    → (u : View) × (show_effect d r fx to target w ≡ some u) × Applied v u (store_count (some fx))
unfolding show_effect
show_effect_lem d r store to target v w h a =
    (pulse? to (add_block r true w), refl, Applied-pulse? to (Applied-add_block r a))
show_effect_lem d r fx to target v w h a =
    (bursts r fx (add_ring (ring_color fx) w), ground arith, Applied-add_ring r fx a)

pub apply_effect_lem :
    (d : Scene) (r : Bool) (dilly : Option Mood) (fx : Option Effect) (from to : Option String)
    (v : View)
    → (fx ≡ none) ⊎ (has_target d (target_of to from) ≡ true)
    → (w : View) × (apply_effect d r dilly fx from to v ≡ some w) × Applied v w (store_count fx)
unfolding apply_effect
apply_effect_lem d r dilly none from to v h = (set_mood dilly v, refl, Applied-set_mood dilly v)
apply_effect_lem d r dilly (some fx) from to v h =
    let (w, shown, a) =
      show_effect_lem d r fx to (target_of to from) v (set_mood dilly v) (ground arith)
        (Applied-set_mood dilly v) in
    (pulse? (target_of to from) w, rw shown, Applied-pulse? _ a)

pub apply_move_lem :
    (d : Scene) (r : Bool) (m : Move) (v : View)
    → MoveOk d m
    → (w : View) × (apply_move d r m v ≡ some w) × Applied v w (store_count m.effect)
unfolding apply_move has_target
apply_move_lem d r m v h =
    apply_effect_lem d r m.dilly m.effect (some m.from) (some m.to) v (inr h.1)

-- A view after `startNextMove` on the queue `q`; `extra` is what it pushed on `this.packets`.
pub record Started (d : Scene) (q : List Move) (v w : View) : Type 0 where
  pub extra : List Packet
  pub same_step : w.step_index ≡ v.step_index
  pub pushed : w.packets ≡ v.packets ++ extra
  pub extra_ok : All (λ p. MoveOk d p.move) extra
  pub queue_ok : All (MoveOk d) w.queue
  pub grows : length v.chain ≤ length w.chain
  pub bound : length w.chain + stores w.queue + flying extra ≤ length v.chain + stores q

finish_moves_lem :
    (d : Scene) (v : View)
    → v.step_index < length d.steps
    → (w : View) × (finish_moves d v ≡ some w) × Started d [] v w
unfolding finish_moves
finish_moves_lem d v h =
    let (s, e) = get_elem?-some d.steps v.step_index h in
    (
      record v { queue = []; running = false; read_time = reading_time s },
      rw e,
      record {
        extra = [];
        same_step = refl;
        pushed = sym (append-nil v.packets);
        extra_ok = tt;
        queue_ok = tt;
        grows = omega arith;
        bound = unfold flying stores in omega arith;
      },
    )

start_local_lem :
    (d : Scene) (r : Bool) (m : Move) (q : List Move) (v : View)
    → MoveOk d m
    → All (MoveOk d) q
    → (w : View) × (start_local d r m (record v { queue = q }) ≡ some w) × Started d (m ∷ q) v w
unfolding start_local stores
start_local_lem d r m q v ok ms =
    let (u, e, a) = apply_move_lem d r m (pulse m.from (record v { queue = q })) ok in
    (
      record u { wait_local = some 9000; current_local = true },
      rw e,
      record {
        extra = [];
        same_step = a.same_step;
        pushed = a.same_packets ∙ sym (append-nil v.packets);
        extra_ok = tt;
        queue_ok = rw a.same_queue ms;
        grows = omega (arith, a.blocks);
        bound = unfold flying in rw a.same_queue (omega (arith, a.blocks));
      },
    )

-- `startNextMove` returns, and what it moves out of the queue is a block or a packet afterwards.
pub start_next_lem :
    (d : Scene) (r : Bool) (q : List Move) (v : View)
    → All (MoveOk d) q
    → v.step_index < length d.steps
    → (w : View) × (start_next d r q v ≡ some w) × Started d q v w
unfolding start_next
start_next_lem d r [] v ok h = finish_moves_lem d v h
start_next_lem d r (m ∷ q) v (ok, oks) h = elim (Bool-cases m.local) [
  | inl here ↦ let (w, e, s) = start_local_lem d r m q v ok oks in (w, simp here e, s)
  | inr sent ↦ (
    pulse m.from (launch r m (record v { queue = q; current_local = false })),
    simp (sent, ok.0, ok.1),
    record {
      extra = packet_of r m ∷ [];
      same_step = refl;
      pushed = refl;
      extra_ok = (ok, tt);
      queue_ok = oks;
      grows = omega arith;
      bound = unfold flying stores in omega arith;
    },
  )
]
