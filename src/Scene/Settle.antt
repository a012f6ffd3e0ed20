-- ===== src/Scene/Settle.antt =====
-- `settle`, `goTo` and what they read of a step: kb-src/scenes-engine.js.
use Prim.Native.Char.{code}
use certadillo.Prelude.{
  ℕ, zero, suc, ◌+◌, ◌*◌, min, String, Bool, true, false, List, [], ◌∷◌, Option, none, some, length,
  get_elem?, ltb, leb, ◌==◌, if◌then◌else◌,
}
use certadillo.Scene.Def.{Effect, Mood, happy, Move, Step, Scene}
use certadillo.Scene.View.{Mark, Panel, View, set_chain}

-- `none` is an uncaught TypeError.
infixl 5 ◌>>=◌
abbrev pub ◌>>=◌ {ℓ κ} : {A : Type ℓ} {B : Type κ} → Option A → (A → Option B) → Option B
none >>= f = none
some a >>= f = f a

abbrev pub is_store : Option Effect → Bool
is_store (some Effect.store) = true
is_store _ = false

abbrev pub store_count : Option Effect → ℕ
store_count e = if is_store e then 1 else 0

-- How many of the moves store an event.
unfoldable pub stores : List Move → ℕ
stores [] = 0
stores (m ∷ ms) = store_count m.effect + stores ms

abbrev pub step_stores : Step → ℕ
step_stores s = stores s.moves + store_count s.effect

-- `blocks` after the first loop of `settle`.
unfoldable pub blocks_before : ℕ → List Step → ℕ
unfolding stores
blocks_before zero ss = 0
blocks_before (suc i) [] = 0
blocks_before (suc i) (s ∷ ss) = step_stores s + blocks_before i ss

abbrev pub mood_or : Option Mood → Mood → Mood
mood_or none m = m
mood_or (some n) m = n

unfoldable pub mood_after : List Move → Mood → Mood
mood_after [] m = m
mood_after (x ∷ xs) m = mood_after xs (mood_or x.dilly m)

-- `mood` after the second loop of `settle`.
unfoldable pub mood_before : ℕ → List Step → Mood → Mood
unfolding mood_after
mood_before zero ss m = m
mood_before (suc i) [] m = m
mood_before (suc i) (s ∷ ss) m = mood_before i ss (mood_after s.moves (mood_or s.dilly m))

unfoldable pub settle : Scene → ℕ → View → Option View
unfolding blocks_before mood_before set_chain
settle d index v = do
  s ← get_elem? d.steps index
  some (record (set_chain (blocks_before index d.steps) v) {
    pending_mood = some (mood_or s.dilly (mood_before index d.steps happy));
  })

-- The length of a text in UTF-16 units.
unfoldable pub utf16_length : String → ℕ
utf16_length String.[] = 0
utf16_length (String.◌∷◌ c s) = (if leb 0x10000 (code c) then 2 else 1) + utf16_length s

-- 2.6 s and 0.018 s for each unit of the body, 0.35 of that for the payload, at most 9 s.
unfoldable pub reading_time : Step → ℕ
unfolding utf16_length
reading_time s = min 90000 (26000 + utf16_length s.body * 180 + utf16_length s.payload * 63)

unfoldable pub marks_from : ℕ → ℕ → List Step → List Mark
marks_from i index [] = []
marks_from i index (s ∷ ss) =
    record { on = i == index; done = ltb i index } ∷ marks_from (suc i) index ss

abbrev is_blank : String → Bool
is_blank String.[] = true
is_blank (String.◌∷◌ _ _) = false

unfoldable pub panel_of : Scene → ℕ → Step → Panel
unfolding marks_from
panel_of d index s = record {
  phase = s.phase;
  number = index + 1;
  total = length d.steps;
  title = s.title;
  body = s.body;
  payload = s.payload;
  payload_hidden = is_blank s.payload;
  marks = marks_from 0 index d.steps;
}
