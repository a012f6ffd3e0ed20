-- ===== src/Scene/Laws/Jumping.antt =====
-- The invariant of a walkthrough, and `goTo`: kb-src/scenes-engine.js.
use certadillo.Prelude.{
  ℕ, zero, suc, ◌+◌, ◌≤◌, ◌<◌, ◌≡◌, refl, sym, ap, subst, ◌∙◌, inl, inr, Bool, true, List, [], ◌∷◌,
  ◌++◌, String, Option, none, some, length, get_elem?, get_elem?-some, lt-length_of_get_elem?, All,
  All-append, All-get_elem?, arith,
}
use certadillo.Scene.Def.{happy, Move, Step, Scene}
use certadillo.Scene.View.{Packet, View, pulse?, set_chain, clear_packets}
use certadillo.Scene.Settle.{
  stores, store_count, step_stores, blocks_before, mood_or, mood_before, settle, panel_of,
}
use certadillo.Scene.Moves.{has_target, target_of, start_next, own_effect, go_to}
use certadillo.Scene.Laws.Chain.{length-set_chain}
use certadillo.Scene.Laws.After.{After, After-of_some}
use certadillo.Scene.Laws.Sound.{MoveOk, EffectOk, IsSound}
use certadillo.Scene.Laws.Starting.{
  flying, flying-append, Applied, apply_effect_lem, Started, start_next_lem,
}

-- Of the step `i`, queue, packets and chain length: the step exists, what is queued or in flight is
-- between actors that are there, the chain has a block for every event that the steps before `i`
-- store, and no more than one for every event that those and step `i` store.
pub record Inv (d : Scene) (i : ℕ) (q : List Move) (ps : List Packet) (n : ℕ) : Type 0 where
  pub on_step : i < length d.steps
  pub queue_ok : All (MoveOk d) q
  pub packets_ok : All (λ p. MoveOk d p.move) ps
  pub low : blocks_before i d.steps ≤ n
  pub high : n + stores q + flying ps ≤ blocks_before (suc i) d.steps

abbrev pub Ok : Scene → View → Type 0
Ok d v = Inv d v.step_index v.queue v.packets (length v.chain)

abbrev pub Keeps : Scene → Option View → Type 0
Keeps d = After (Ok d)

pub blocks_before-suc :
    (i : ℕ) (ss : List Step) {s : Step}
    → get_elem? ss i ≡ some s
    → blocks_before (suc i) ss ≡ blocks_before i ss + step_stores s
unfolding blocks_before
blocks_before-suc i [] e = cc
blocks_before-suc zero (x ∷ ss) e = ground arith
blocks_before-suc (suc i) (x ∷ ss) e = omega (arith, blocks_before-suc i ss e)

-- `startNextMove` keeps the invariant, given it for the queue that it works on.
pub start_next-Keeps :
    (d : Scene) (r : Bool) (q : List Move) (v : View)
    → Inv d v.step_index q v.packets (length v.chain)
    → Keeps d (start_next d r q v)
start_next-Keeps d r q v h =
    let (w, e, s) = start_next_lem d r q v h.queue_ok h.on_step in
    After-of_some (Ok d) _ w e (record {
      on_step = omega (arith, s.same_step, h.on_step);
      queue_ok = s.queue_ok;
      packets_ok =
          subst (All (λ p. MoveOk d p.move)) (sym s.pushed)
            (All-append _ v.packets s.extra h.packets_ok s.extra_ok);
      low =
          subst (λ i. blocks_before i d.steps ≤ length w.chain) (sym s.same_step)
            (omega (arith, h.low, s.grows));
      high =
          subst
            (λ i.
              length w.chain + stores w.queue + flying w.packets ≤ blocks_before (suc i) d.steps)
            (sym s.same_step)
            (omega (arith, ap flying s.pushed, flying-append v.packets s.extra, s.bound, h.high));
    })

has_target-target_of :
    (d : Scene) (a : Option String) → has_target d a ≡ true → has_target d (target_of a a) ≡ true
has_target-target_of d none h = h
has_target-target_of d (some id) h = h

-- The step's own effect does not throw, and adds its block only where there is no move.
own_effect_lem :
    (d : Scene) (r : Bool) (s : Step) (ms : List Move) (v : View)
    → EffectOk d s
    → (w : View) × (own_effect d r s ms v ≡ some w)
      × (n : ℕ) × Applied v w n
      × (n ≤ store_count s.effect)
unfolding own_effect
own_effect_lem d r s [] v h =
    let (w, shown, a) =
      apply_effect_lem d r none s.effect s.actor s.actor v
        (elim h [ inl e ↦ inl e | inr k ↦ inr (has_target-target_of d s.actor k) ]) in
    (w, shown, store_count s.effect, a, omega arith)
own_effect_lem d r s (m ∷ ms) v h = (v, refl, 0, ground arith, omega arith)

Ok-pulse? : (d : Scene) (id : Option String) (v : View) → Ok d v → Ok d (pulse? id v)
unfolding pulse?
Ok-pulse? d none v h = h
Ok-pulse? d (some id) v h = h

-- The view in which `goTo` starts the moves of the step `s`.
abbrev pub arrived_at : Scene → ℕ → Step → View → View
arrived_at d i s v =
    record (set_chain (blocks_before i d.steps) (record (clear_packets v) { step_index = i })) {
      pending_mood = some (mood_or s.dilly (mood_before i d.steps happy));
      queue = s.moves;
      running = true;
      panel = some (panel_of d i s);
    }

-- What has started and the step's own effect make up the events of the step.
Inv_at_step :
    (d : Scene) (i n : ℕ) (s : Step) (v w u : View)
    → get_elem? d.steps i ≡ some s
    → v.step_index ≡ i
    → v.packets ≡ []
    → length v.chain ≡ blocks_before i d.steps
    → Started d s.moves v w
    → Applied w u n
    → n ≤ store_count s.effect
    → Ok d u
Inv_at_step d i n s v w u e at empty chain st a le =
    let at_u : u.step_index ≡ i = a.same_step ∙ st.same_step ∙ at in
    let flight : u.packets ≡ st.extra =
      a.same_packets ∙ st.pushed ∙ ap (λ ps. ps ++ st.extra) empty in
    record {
      on_step = omega (arith, at_u, lt-length_of_get_elem? d.steps i e);
      queue_ok = subst (All (MoveOk d)) (sym a.same_queue) st.queue_ok;
      packets_ok = subst (All (λ p. MoveOk d p.move)) (sym flight) st.extra_ok;
      low =
          subst (λ k. blocks_before k d.steps ≤ length u.chain) (sym at_u)
            (omega (arith, chain, st.grows, a.blocks));
      high =
          subst
            (λ k.
              length u.chain + stores u.queue + flying u.packets ≤ blocks_before (suc k) d.steps)
            (sym at_u)
            (omega (
              arith,
              chain,
              st.bound,
              a.blocks,
              le,
              ap flying flight,
              ap stores a.same_queue,
              blocks_before-suc i d.steps e,
            ));
    }

-- `goTo` an existing step returns, from any view, with the invariant.
pub go_to-Keeps :
    (d : Scene) (r : Bool) (i : ℕ) (v : View)
    → IsSound d
    → i < length d.steps
    → Keeps d (go_to d r i v)
unfolding go_to settle
go_to-Keeps d r i v ok h =
    let (s, e) = get_elem?-some d.steps i h in
    let step_ok = All-get_elem? _ d.steps i ok.steps_ok e in
    let (w, ew, st) =
      start_next_lem d r s.moves (arrived_at d i s v) step_ok.0
        (unfold set_chain clear_packets in h) in
    let (u, eu, n, a, le) = own_effect_lem d r s s.moves w step_ok.1 in
    After-of_some (Ok d) _ (pulse? s.actor u) (rw (e, ew, eu)) (
      Ok-pulse? d s.actor u (
        Inv_at_step d i n s (arrived_at d i s v) w u e (unfold set_chain clear_packets in refl)
          (unfold set_chain clear_packets in refl)
          (length-set_chain (blocks_before i d.steps) (record (clear_packets v) { step_index = i }))
          st a le))
