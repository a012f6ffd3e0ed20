-- ===== src/Scene/Laws/Running.antt =====
-- The packets of a frame and the invariant: `loop` of kb-src/scenes-engine.js.
use certadillo.Prelude.{
  ℕ, suc, ◌+◌, ◌-◌, ◌≤◌, ◌<◌, ◌≡◌, refl, sym, subst, ap, ◌∙◌, Bool, List, [], ◌∷◌, Option, none,
  some, length, All, arith, leb, Bool-cases, inl, inr,
}
use certadillo.Scene.Def.{Kind, Scene}
use certadillo.Scene.View.{Packet, View}
use certadillo.Scene.Settle.{◌>>=◌, stores, store_count, blocks_before}
use certadillo.Scene.Moves.{burst}
use certadillo.Scene.Frame.{reject_burst, arrive, filter_packets, move_packets}
use certadillo.Scene.Laws.Sound.{MoveOk}
use certadillo.Scene.Laws.Starting.{flying, Applied, apply_move_lem, start_next_lem}
use certadillo.Scene.Laws.Jumping.{Ok, Keeps}

-- After the filter has seen the packets `ps` in the view `v`.
abbrev Filtered : Scene → ℕ → ℕ → ℕ → Option (List Packet × View) → Type 0
Filtered d i lo hi none = ⊥
Filtered d i lo hi (some (kept, w)) =
    (w.step_index ≡ i)
    × All (λ p. MoveOk d p.move) kept
    × All (MoveOk d) w.queue
    × (lo ≤ length w.chain)
    × (length w.chain + stores w.queue + flying kept ≤ hi)

pub Applied-reject_burst :
    (r : Bool) (k : Option Kind) {v w : View} {n : ℕ}
    → Applied v w n
    → Applied v (reject_burst r k w) n
unfolding burst
Applied-reject_burst r none a = a
Applied-reject_burst r (some Kind.reject) a = assumption
Applied-reject_burst r (some _) a = a

module _ (d : Scene) (r : Bool) where
  -- A packet that arrives becomes the block that it stores, and the next move starts.
  arrive_lem :
      (p : Packet) (v : View)
      → MoveOk d p.move
      → All (MoveOk d) v.queue
      → v.step_index < length d.steps
      → (w : View) × (arrive d r p v ≡ some w)
        × (w.step_index ≡ v.step_index)
        × All (MoveOk d) w.queue
        × (length v.chain ≤ length w.chain)
        × (length w.chain + stores w.queue
            ≤ length v.chain + stores v.queue + store_count p.move.effect)
  unfolding arrive
  arrive_lem p v ok oks h =
      let (u, eu, b) = apply_move_lem d r p.move v ok in
      let a = Applied-reject_burst r p.move.kind b in
      let x : View = reject_burst r p.move.kind u in
      let (w, ew, s) =
        start_next_lem d r x.queue x (subst (All (MoveOk d)) (sym a.same_queue) oks)
          (omega (arith, a.same_step)) in
      (
        w,
        rw (eu, ew),
        s.same_step ∙ a.same_step,
        s.queue_ok,
        omega (arith, s.grows, a.blocks),
        omega (arith, s.bound, a.blocks, ap stores a.same_queue),
      )

  keep_lem :
      (p : Packet) (i lo hi : ℕ) (m : Option (List Packet × View))
      → MoveOk d p.move
      → Filtered d i lo (hi - store_count p.move.effect) m
      → store_count p.move.effect ≤ hi
      → Filtered d i lo hi (m >>= λ (kept, w). some (p ∷ kept, w))
  unfolding flying
  keep_lem p i lo hi none ok h k = h
  keep_lem p i lo hi (some (kept, w)) ok h k = (h.0, (ok, h.1), h.2, h.3, omega (arith, h.4))

  filter_packets_lem :
      (sdt : ℕ) (ps : List Packet) (v : View) (lo hi : ℕ)
      → All (λ p. MoveOk d p.move) ps
      → All (MoveOk d) v.queue
      → v.step_index < length d.steps
      → lo ≤ length v.chain
      → length v.chain + stores v.queue + flying ps ≤ hi
      → Filtered d v.step_index lo hi (filter_packets d r sdt ps v)
  unfolding filter_packets flying
  filter_packets_lem sdt [] v lo hi ok oks h l k = (refl, tt, oks, l, k)
  filter_packets_lem sdt (p ∷ ps) v lo hi (ok, okp) oks h l k =
      let moved : Packet = record p { t = p.t + sdt } in
      elim (Bool-cases (leb p.dur (p.t + sdt))) [
        | inl lands ↦
            let (w, ew, same, okq, grown, bound) = arrive_lem moved v ok oks h in
            rw (lands, ew)
              (subst (λ i. Filtered d i lo hi (filter_packets d r sdt ps w)) same
                (filter_packets_lem sdt ps w lo hi okp okq (omega arith) (omega arith)
                  (omega arith)))
        | inr flies ↦ rw flies (
            keep_lem moved v.step_index lo hi (filter_packets d r sdt ps v) ok
              (filter_packets_lem sdt ps v lo (hi - store_count p.move.effect) okp oks h l
                (omega arith))
              (omega arith))
      ]

  Filtered-Keeps :
      (i : ℕ) (m : Option (List Packet × View))
      → i < length d.steps
      → Filtered d i (blocks_before i d.steps) (blocks_before (suc i) d.steps) m
      → Keeps d (m >>= λ (kept, w). some (record w { packets = kept }))
  Filtered-Keeps i none h f = f
  Filtered-Keeps i (some (kept, w)) h f = record {
    on_step = omega (arith, f.0);
    queue_ok = f.2;
    packets_ok = f.1;
    low = subst (λ k. blocks_before k d.steps ≤ length w.chain) (sym f.0) f.3;
    high =
        subst (λ k. length w.chain + stores w.queue + flying kept ≤ blocks_before (suc k) d.steps)
          (sym f.0) f.4;
  }

  pub move_packets-Keeps : (sdt : ℕ) (v : View) → Ok d v → Keeps d (move_packets d r sdt v)
  unfolding move_packets
  move_packets-Keeps sdt v h =
      Filtered-Keeps v.step_index (filter_packets d r sdt v.packets v) h.on_step
        (filter_packets_lem sdt v.packets v _ _ h.packets_ok h.queue_ok h.on_step h.low h.high)
