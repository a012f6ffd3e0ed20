-- ===== src/Scene/View.antt =====
-- The state that a SceneView of kb-src/scenes-engine.js keeps, and the small methods on it.
-- Durations are in ticks of a tenth of a millisecond, heights of blocks in thousandths, angles and
-- distances of the camera in hundred-thousandths, so that the source's decimals are whole numbers.
use certadillo.Prelude.{
  ℕ, zero, suc, ◌+◌, ◌*◌, ◌%◌, String, Bool, false, not, ◌&&◌, ◌||◌, List, [], ◌∷◌, Option, none,
  some, length, str_eq, ltb, ◌==◌, if◌then◌else◌,
}
use certadillo.Prelude.Int.{ℤ}
use certadillo.Scene.Def.{Actor, Kind, request, response, secret, local, Mood, Move}

-- An envelope in flight: what `spawnPacket` pushes, without its drawing.
pub record Packet : Type 0 where
  pub move : Move
  pub t : ℕ
  pub dur : ℕ

pub data FxKind : Type 0 where
  line ring spark : FxKind

pub record Fx : Type 0 where
  pub kind : FxKind
  pub color : ℕ
  pub life : ℕ

-- A block of the audit chain; `drop` is the height at which a falling block lands.
pub record Block : Type 0 where
  pub y : ℕ
  pub drop : Option ℕ
  pub gold : Bool

pub record Orbit : Type 0 where
  pub theta : ℤ
  pub phi : ℕ
  pub radius : ℕ

-- The classes that `goTo` toggles on one button of the step list.
pub record Mark : Type 0 where
  pub on : Bool
  pub done : Bool

-- The texts that `goTo` writes under the stage.
pub record Panel : Type 0 where
  pub phase : String
  pub number : ℕ
  pub total : ℕ
  pub title : String
  pub body : String
  pub payload : String
  pub payload_hidden : Bool
  pub marks : List Mark

-- `chain` has its top at the head; an array of the source that is pushed to keeps its order.
pub record View : Type 0 where
  pub step_index : ℕ
  pub playing : Bool
  pub running : Bool
  pub speed : ℕ  -- in tenths
  pub queue : List Move
  pub packets : List Packet
  pub effects : List Fx
  pub chain : List Block
  pub glow : List (String × ℕ)
  pub pending_mood : Option Mood
  pub mood : Option Mood
  pub current_local : Bool
  pub wait_local : Option ℕ
  pub read_time : ℕ
  pub visible : Bool
  pub user_moved : Bool
  pub last : ℕ  -- milliseconds
  pub orbit : Orbit
  pub home : Orbit
  pub drag : Option (ℤ × ℤ)
  pub stage_height : ℕ
  pub button : String
  pub panel : Option Panel
  pub chain_place : ℤ × ℤ
  pub dilly_place : Option (ℤ × ℤ)

-- `COLORS`.
abbrev pub red : ℕ
red = 0xe5484d

abbrev pub gold : ℕ
gold = 0xf2b233

abbrev pub violet : ℕ
violet = 0x8b5cf6

abbrev pub green : ℕ
green = 0x22c55e

-- `COLORS[kind]`.
unfoldable pub color_of : Kind → ℕ
color_of request = 0x14b8a6
color_of response = gold
color_of secret = violet
color_of Kind.reject = red
color_of local = 0x3b82f6

-- Whether `this.actors[id]` is there: `buildScene` files every actor under its id.
unfoldable pub has_actor : List Actor → String → Bool
has_actor [] id = false
has_actor (a ∷ rest) id = str_eq a.id id || has_actor rest id

-- `this.actors[id]`: a later actor takes the place of an earlier one with its id.
unfoldable pub find_actor : List Actor → String → Option Actor
find_actor [] id = none
find_actor (a ∷ rest) id = elim (find_actor rest id) [
  | none ↦ if str_eq a.id id then some a else none
  | some b ↦ some b
]

-- A glow of 1 is 100000.
abbrev pub full_glow : ℕ
full_glow = 100000

set_glow : String → List (String × ℕ) → List (String × ℕ)
set_glow id [] = []
set_glow id ((k, g) ∷ gs) = (k, if str_eq k id then full_glow else g) ∷ set_glow id gs

unfoldable pub pulse : String → View → View
unfolding set_glow
pulse id v = record v { glow = set_glow id v.glow }

-- `pulse` of a property that may be undefined.
unfoldable pub pulse? : Option String → View → View
unfolding pulse
pulse? none v = v
pulse? (some id) v = pulse id v

-- What `addBlock` pushes on a chain; `falls` is `animate && !REDUCED`.
unfoldable pub new_block : Bool → List Block → Block
new_block falls c =
    let rest : ℕ = 140 + length c * 270 in
    let odd = length c % 2 == 1 in
    if falls
    then record { y = rest + 1500; drop = some rest; gold = odd }
    else record { y = rest; drop = none; gold = odd }

unfoldable pub add_block : Bool → Bool → View → View
add_block reduced animate v = record v {
  chain = new_block (animate && not reduced) v.chain ∷ v.chain;
}

-- The first loop of `setChain`.
unfoldable pub shrink : ℕ → List Block → List Block
shrink n [] = []
shrink n (b ∷ c) = let rest = shrink n c in if ltb n (suc (length c)) then rest else b ∷ c

-- The second loop of `setChain`; each round adds a block, so `n` rounds are enough.
unfoldable pub grow : ℕ → ℕ → List Block → List Block
unfolding new_block
grow zero n c = c
grow (suc rounds) n c =
    let more = grow rounds n (new_block false c ∷ c) in if ltb (length c) n then more else c

unfoldable pub set_chain : ℕ → View → View
unfolding shrink grow
set_chain n v = record v { chain = grow n n (shrink n v.chain) }

unfoldable pub clear_packets : View → View
clear_packets v = record v { packets = []; effects = [] }
