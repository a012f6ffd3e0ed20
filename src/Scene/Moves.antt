-- ===== src/Scene/Moves.antt =====
-- How the moves of a step are started and what an arrival does: `startNextMove`, `spawnPacket`,
-- `applyEffect`, `burst`, `goTo` of kb-src/scenes-engine.js.
use certadillo.Prelude.{
  ℕ, zero, suc, ◌*◌, Bool, true, false, ◌&&◌, List, [], ◌∷◌, ◌++◌, String, Option, none, some,
  get_elem?, replicate, if◌then◌else◌,
}
use certadillo.Scene.Def.{
  Kind, request, Effect, check, sign, hsm, store, burn, unlock, Mood, Move, Step, Scene,
}
use certadillo.Scene.View.{
  Packet, line, ring, spark, Fx, View, red, gold, violet, green, color_of, has_actor, pulse, pulse?,
  add_block, clear_packets,
}
use certadillo.Scene.Settle.{◌>>=◌, settle, reading_time, panel_of}

abbrev kind_or : Option Kind → Kind
kind_or none = request
kind_or (some k) = k

-- `m.dur || 1.5`, for durations in hundredths of a second.
abbrev dur_or : Option ℕ → ℕ
dur_or none = 15000
dur_or (some zero) = 15000
dur_or (some (suc n)) = suc n * 100

abbrev pub packet_of : Bool → Move → Packet
packet_of reduced m = record { move = m; t = 0; dur = if reduced then 100 else dur_or m.dur }

abbrev path_line : Move → Fx
path_line m = record { kind = line; color = color_of (kind_or m.kind); life = 9990000 }

-- `spawnPacket` for two actors that are there.
unfoldable pub launch : Bool → Move → View → View
unfolding color_of
launch reduced m v = record v {
  packets = v.packets ++ packet_of reduced m ∷ [];
  effects = v.effects ++ path_line m ∷ [];
}

unfoldable pub burst : Bool → ℕ → View → View
burst reduced color v = record v {
  effects =
      v.effects
      ++ replicate (if reduced then 0 else 16)
          (record { kind = spark; color = color; life = 10000 });
}

abbrev pub set_mood : Option Mood → View → View
set_mood none v = v
set_mood (some m) v = record v { pending_mood = some m }

-- `m.to || m.from`.
abbrev pub target_of : Option String → Option String → Option String
target_of (some id) from = some id
target_of none from = from

unfoldable pub has_target : Scene → Option String → Bool
unfolding has_actor
has_target d none = false
has_target d (some id) = has_actor d.actors id

abbrev pub ring_color : Effect → ℕ
ring_color check = green
ring_color sign = gold
ring_color hsm = gold
ring_color store = green
ring_color Effect.reject = red
ring_color burn = red
ring_color unlock = violet

abbrev pub add_ring : ℕ → View → View
add_ring c v = record v {
  effects = v.effects ++ record { kind = ring; color = c; life = 12000 } ∷ [];
}

abbrev pub bursts : Bool → Effect → View → View
bursts reduced burn v = burst reduced red v
bursts reduced sign v = burst reduced gold v
bursts reduced hsm v = burst reduced gold v
bursts reduced _ v = v

-- The part of `applyEffect` for one effect. A ring is put at the target's anchor, and reading that
-- of an undefined target throws; `store` alone needs no target.
unfoldable pub show_effect :
    Scene → Bool → Effect → Option String → Option String → View → Option View
unfolding has_target burst add_block
show_effect d reduced store to target v = some (pulse? to (add_block reduced true v))
show_effect d reduced fx to target v =
    if has_target d target then some (bursts reduced fx (add_ring (ring_color fx) v)) else none

-- All calls pass `arrived` true. The target glows if it is there.
unfoldable pub apply_effect :
    Scene → Bool → Option Mood → Option Effect → Option String → Option String → View → Option View
unfolding show_effect
apply_effect d reduced dilly none from to v = some (set_mood dilly v)
apply_effect d reduced dilly (some fx) from to v = do
  shown ← show_effect d reduced fx to (target_of to from) (set_mood dilly v)
  some (pulse? (target_of to from) shown)

unfoldable pub apply_move : Scene → Bool → Move → View → Option View
unfolding apply_effect
apply_move d reduced m v = apply_effect d reduced m.dilly m.effect (some m.from) (some m.to) v

unfoldable pub finish_moves : Scene → View → Option View
finish_moves d v = do
  s ← get_elem? d.steps v.step_index
  some (record v { queue = []; running = false; read_time = reading_time s })

-- A local move acts at once and then holds the next one back for 0.9 s.
unfoldable pub start_local : Scene → Bool → Move → View → Option View
unfolding apply_move pulse
start_local d reduced m v = do
  done ← apply_move d reduced m (pulse m.from v)
  some (record done { wait_local = some 9000; current_local = true })

-- `startNextMove` on the queue. A move between actors that are not both there is skipped by the
-- call of `startNextMove` in `spawnPacket`, and its sender glows after that call.
unfoldable pub start_next : Scene → Bool → List Move → View → Option View
unfolding finish_moves start_local launch has_actor pulse
start_next d reduced [] v = finish_moves d v
start_next d reduced (m ∷ ms) v =
    let freed = record v { queue = ms; current_local = false } in
    let skipped = start_next d reduced ms freed >>= λ w. some (pulse m.from w) in
    if m.local
    then start_local d reduced m (record v { queue = ms })
    else if has_actor d.actors m.from && has_actor d.actors m.to
    then some (pulse m.from (launch reduced m freed))
    else skipped

-- A step's own effect plays only if its list of moves, `ms`, is empty.
unfoldable pub own_effect : Scene → Bool → Step → List Move → View → Option View
unfolding apply_effect
own_effect d reduced s [] v = apply_effect d reduced none s.effect s.actor s.actor v
own_effect d reduced s (_ ∷ _) v = some v

-- `goTo`; its second argument reaches only `startNextMove`, which takes none.
unfoldable pub go_to : Scene → Bool → ℕ → View → Option View
unfolding settle start_next own_effect clear_packets panel_of
go_to d reduced index v = do
  settled ← settle d index (record (clear_packets v) { step_index = index })
  s ← get_elem? d.steps index
  begun ←
      start_next d reduced s.moves
        (record settled { queue = s.moves; running = true; panel = some (panel_of d index s) })
  shown ← own_effect d reduced s s.moves begun
  some (pulse? s.actor shown)
