-- ===== src/Scene/Laws/Sound.antt =====
-- When a scene of kb-src/scenes-data.js names only actors that stand on its platform.
use certadillo.Prelude.{
  ◌<◌, ◌≡◌, refl, ◌⊎◌, inl, inr, Bool, true, false, ◌&&◌, ◌||◌, List, [], ◌∷◌, Option, none, some,
  length, all, All, arith, ltb, ltb→lt, String,
}
use certadillo.Scene.Def.{Effect, Move, Step, Scene}
use certadillo.Scene.View.{has_actor}
use certadillo.Scene.Moves.{has_target}

-- Both ends of the move are there.
abbrev pub MoveOk : Scene → Move → Type 0
MoveOk d m = (has_actor d.actors m.from ≡ true) × (has_actor d.actors m.to ≡ true)

-- An effect of the step's own has its actor.
abbrev pub EffectOk : Scene → Step → Type 0
EffectOk d s = (s.effect ≡ none) ⊎ (has_target d s.actor ≡ true)

-- An actor that the scene names, if it names one.
abbrev pub NamedOk : Scene → Option String → Type 0
NamedOk d a = (a ≡ none) ⊎ (has_target d a ≡ true)

pub record IsSound (d : Scene) : Type 0 where
  pub chain_ok : NamedOk d d.chain_at
  pub dilly_ok : NamedOk d d.dilly
  pub steps_some : 0 < length d.steps
  pub steps_ok : All (λ s. All (MoveOk d) s.moves × EffectOk d s) d.steps

abbrev no_effect : Option Effect → Bool
no_effect none = true
no_effect (some _) = false

abbrev check_move : Scene → Move → Bool
check_move d m = has_actor d.actors m.from && has_actor d.actors m.to

abbrev named_ok : Scene → Option String → Bool
named_ok d none = true
named_ok d (some id) = has_target d (some id)

-- The same as a test.
unfoldable pub is_sound : Scene → Bool
unfolding has_actor has_target
is_sound d =
    named_ok d d.chain_at
    && named_ok d d.dilly
    && ltb 0 (length d.steps)
    && all (λ s. all (check_move d) s.moves && (no_effect s.effect || has_target d s.actor)) d.steps

moves_ok : (d : Scene) (ms : List Move) → all (check_move d) ms ≡ true → All (MoveOk d) ms
moves_ok d [] h = tt
moves_ok d (m ∷ ms) h = ((ground arith, ground arith), moves_ok d ms (ground arith))

effect_ok :
    (d : Scene) (s : Step) → (no_effect s.effect || has_target d s.actor) ≡ true → EffectOk d s
effect_ok d s h = ground arith

steps_are_ok :
    (d : Scene) (ss : List Step)
    → all (λ s. all (check_move d) s.moves && (no_effect s.effect || has_target d s.actor)) ss
      ≡ true
    → All (λ s. All (MoveOk d) s.moves × EffectOk d s) ss
steps_are_ok d [] h = tt
steps_are_ok d (s ∷ ss) h = (
  (moves_ok d s.moves (ground arith), effect_ok d s (ground arith)),
  steps_are_ok d ss (ground arith),
)

NamedOk-named_ok : (d : Scene) (a : Option String) → named_ok d a ≡ true → NamedOk d a
NamedOk-named_ok d none h = inl refl
NamedOk-named_ok d (some id) h = inr h

pub IsSound-is_sound : (d : Scene) → is_sound d ≡ true → IsSound d
unfolding is_sound
IsSound-is_sound d h = record {
  chain_ok = NamedOk-named_ok d d.chain_at (ground arith);
  dilly_ok = NamedOk-named_ok d d.dilly (ground arith);
  steps_some = ltb→lt 0 (length d.steps) (ground arith);
  steps_ok = steps_are_ok d d.steps (ground arith);
}
