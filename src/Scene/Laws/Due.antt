-- ===== src/Scene/Laws/Due.antt =====
-- What the moves of a step of kb-src/scenes-engine.js have still to leave behind: the blocks of the
-- events that they store, and Dilly's mood.
use certadillo.Prelude.{
  ℕ, zero, suc, ◌+◌, ◌≡◌, refl, ◌∙◌, ap, subst, Bool, true, List, [], ◌∷◌, Option, none, some,
  String, length, get_elem?, arith,
}
use certadillo.Scene.Def.{Effect, check, sign, hsm, store, burn, unlock, Mood, Move, Step, Scene}
use certadillo.Scene.View.{Block, View, pulse, pulse?, add_block}
use certadillo.Scene.Settle.{stores, store_count, mood_or, mood_after, mood_before}
use certadillo.Scene.Moves.{
  burst, set_mood, target_of, has_target, ring_color, add_ring, bursts, show_effect, apply_effect,
  apply_move,
}
use certadillo.Scene.Frame.{drop_blocks}
use certadillo.Scene.Laws.Steady.{Whenever, Whenever-bind, Whenever-if}

-- With the moves `q` ahead, so many blocks and that mood are due at the end: there are `n` blocks now,
-- and `o` is the mood that is pending.
pub record IsDue (blocks : ℕ) (mood : Mood) (n : ℕ) (q : List Move) (o : Option Mood) : Type 0 where
  pub total : n + stores q ≡ blocks
  pub now : Mood
  pub pending : o ≡ some now
  pub later : mood_after q now ≡ mood

abbrev pub Pends : Mood → View → Type 0
Pends m v = v.pending_mood ≡ some m

Pends-set_mood :
    (o : Option Mood) (m : Mood) (v : View) → Pends m v → Pends (mood_or o m) (set_mood o v)
Pends-set_mood none m v h = h
Pends-set_mood (some n) m v h = refl

pub pending-pulse? : (a : Option String) (v : View) → (pulse? a v).pending_mood ≡ v.pending_mood
unfolding pulse? pulse
pending-pulse? none v = refl
pending-pulse? (some id) v = refl

pub chain-pulse? : (a : Option String) (v : View) → (pulse? a v).chain ≡ v.chain
unfolding pulse? pulse
chain-pulse? none v = refl
chain-pulse? (some id) v = refl

pending-bursts : (r : Bool) (fx : Effect) (v : View) → (bursts r fx v).pending_mood ≡ v.pending_mood
unfolding burst
pending-bursts r check v = refl
pending-bursts r sign v = refl
pending-bursts r hsm v = refl
pending-bursts r store v = refl
pending-bursts r Effect.reject v = refl
pending-bursts r burn v = refl
pending-bursts r unlock v = refl

module _ (d : Scene) (r : Bool) (m : Mood) where
  show_effect-Pends :
      (fx : Effect) (to target : Option String) (v : View)
      → Pends m v
      → Whenever (Pends m) (show_effect d r fx to target v)
  unfolding show_effect add_block
  show_effect-Pends store to target v h = pending-pulse? to (add_block r true v) ∙ h
  show_effect-Pends fx to target v h =
      Whenever-if (Pends m) (has_target d target) _ _
        (λ e. pending-bursts r fx (add_ring (ring_color fx) v) ∙ h) (λ e. tt)

pub apply_effect-Pends :
    (d : Scene) (r : Bool) (m : Mood) (o : Option Mood) (fx : Option Effect)
    (from to : Option String) (v : View)
    → Pends m v
    → Whenever (Pends (mood_or o m)) (apply_effect d r o fx from to v)
unfolding apply_effect
apply_effect-Pends d r m o none from to v h = Pends-set_mood o m v h
apply_effect-Pends d r m o (some fx) from to v h =
    Whenever-bind (Pends (mood_or o m)) (Pends (mood_or o m)) _ _
      (show_effect-Pends d r (mood_or o m) fx to (target_of to from) (set_mood o v)
        (Pends-set_mood o m v h))
      λ w k. pending-pulse? (target_of to from) w ∙ k

-- A move that has been applied has left behind what is due of it.
pub IsDue-apply_move :
    (d : Scene) (r : Bool) (m : Move) (q : List Move) (v w : View) (b : ℕ) (mood : Mood)
    → apply_move d r m v ≡ some w
    → length w.chain ≡ length v.chain + store_count m.effect
    → IsDue b mood (length v.chain) (m ∷ q) v.pending_mood
    → IsDue b mood (length w.chain) q w.pending_mood
unfolding apply_move stores mood_after
IsDue-apply_move d r m q v w b mood e grown h = record {
  total = omega (arith, grown, h.total);
  now = mood_or m.dilly h.now;
  pending =
      subst (Whenever (Pends (mood_or m.dilly h.now))) e
        (apply_effect-Pends d r h.now m.dilly m.effect (some m.from) (some m.to) v h.pending);
  later = h.later;
}

pub mood_before-suc :
    (i : ℕ) (ss : List Step) (m : Mood) {s : Step}
    → get_elem? ss i ≡ some s
    → mood_before (suc i) ss m ≡ mood_after s.moves (mood_or s.dilly (mood_before i ss m))
unfolding mood_before
mood_before-suc i [] m e = cc
mood_before-suc zero (x ∷ ss) m e = ground arith
mood_before-suc (suc i) (x ∷ ss) m e = mood_before-suc i ss _ e

pub length-drop_blocks : (dt : ℕ) (c : List Block) → length (drop_blocks dt c) ≡ length c
unfolding drop_blocks
length-drop_blocks dt [] = refl
length-drop_blocks dt (b ∷ c) = ap suc (length-drop_blocks dt c)

pub IsDue-nil : (b n : ℕ) (k : Mood) (o : Option Mood) → IsDue b k n [] o → (n ≡ b) × (o ≡ some k)
unfolding stores mood_after
IsDue-nil b n k o u = (omega (arith, u.total), u.pending ∙ ap some u.later)
