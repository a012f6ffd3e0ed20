-- ===== src/Scene/Frame.antt =====
-- One animation frame: `loop` of kb-src/scenes-engine.js, without the drawing.
use certadillo.Prelude.{
  ℕ, ◌+◌, ◌-◌, ◌*◌, min, max, String, Bool, true, false, not, ◌&&◌, ◌||◌, List, [], ◌∷◌, Option,
  none, some, length, ltb, leb, ◌==◌, if◌then◌else◌,
}
use certadillo.Prelude.Int.{pos, ◌+ℤ◌}
use certadillo.Scene.Def.{Kind, Mood, Scene}
use certadillo.Scene.View.{Packet, Fx, Block, Orbit, View, red}
use certadillo.Scene.Settle.{◌>>=◌}
use certadillo.Scene.Moves.{burst, apply_move, start_next, go_to}

abbrev pub is_reject : Option Kind → Bool
is_reject (some Kind.reject) = true
is_reject _ = false

-- A glow falls by 0.7 a second; `dt` is in milliseconds.
unfoldable pub fade : ℕ → List (String × ℕ) → List (String × ℕ)
fade dt [] = []
fade dt ((k, g) ∷ gs) = (k, g - dt * 70) ∷ fade dt gs

abbrev pub reject_burst : Bool → Option Kind → View → View
reject_burst reduced kind v = if is_reject kind then burst reduced red v else v

-- What the callback of the packets' `filter` does for a packet that has arrived.
unfoldable pub arrive : Scene → Bool → Packet → View → Option View
unfolding apply_move burst start_next
arrive d reduced p v = do
  applied ← apply_move d reduced p.move v
  let seen = reject_burst reduced p.move.kind applied
  start_next d reduced seen.queue seen

-- `this.packets.filter(…)` over the array as it is when the frame begins: the packets that stay, and
-- the view. What the callback pushes goes to the end of that array, which the filter has measured
-- before and does not reach.
unfoldable pub filter_packets : Scene → Bool → ℕ → List Packet → View → Option (List Packet × View)
unfolding arrive
filter_packets d reduced sdt [] v = some ([], v)
filter_packets d reduced sdt (p ∷ ps) v =
    let moved : Packet = record p { t = p.t + sdt } in
    let landed = arrive d reduced moved v >>= filter_packets d reduced sdt ps in
    let flying = filter_packets d reduced sdt ps v >>= λ (kept, w). some (moved ∷ kept, w) in
    if leb moved.dur moved.t then landed else flying

-- `this.packets = this.packets.filter(…)`: the array that the callback pushed to is replaced.
unfoldable pub move_packets : Scene → Bool → ℕ → View → Option View
unfolding filter_packets
move_packets d reduced sdt v = do
  (kept, w) ← filter_packets d reduced sdt v.packets v
  some (record w { packets = kept })

unfoldable pub wait_on : Scene → Bool → ℕ → Option ℕ → View → Option View
unfolding start_next
wait_on d reduced sdt none v = some v
wait_on d reduced sdt (some w) v =
    let over =
      start_next d reduced v.queue (record v { wait_local = none; current_local = false }) in
    let waiting = some (record v { wait_local = some (w - sdt) }) in
    if v.current_local then if w - sdt == 0 then over else waiting else some v

unfoldable pub wait_for_local : Scene → Bool → ℕ → View → Option View
unfolding wait_on
wait_for_local d reduced sdt v = wait_on d reduced sdt v.wait_local v

-- The effects lose `dt` of life, and go when none is left.
unfoldable pub age_effects : ℕ → List Fx → List Fx
age_effects dt [] = []
age_effects dt (fx ∷ fxs) =
    let left = fx.life - dt * 10 in
    let rest = age_effects dt fxs in if left == 0 then rest else record fx { life = left } ∷ rest

abbrev fall : ℕ → Block → Block
fall dt b = elim b.drop [
  | none ↦ b
  | some low ↦
      let y = max low (b.y - dt * 4) in
      record b { y = y; drop = if y == low then none else some low }
]

unfoldable pub drop_blocks : ℕ → List Block → List Block
drop_blocks dt [] = []
drop_blocks dt (b ∷ bs) = fall dt b ∷ drop_blocks dt bs

-- Only with a Dilly in the scene. `this.mood` follows `this.pendingMood`.
abbrev followed : Option String → Option Mood → Option Mood → Option Mood
followed (some _) (some m) old = some m
followed _ _ old = old

abbrev pub show_mood : Option String → View → View
show_mood dilly v = record v { mood = followed dilly v.pending_mood v.mood }

unfoldable pub pause : View → View
pause v = record v { playing = false; button = "Play" }

-- The reading time is over: the next step, or the end.
unfoldable pub play_on : Scene → Bool → View → Option View
unfolding go_to pause
play_on d reduced v =
    if ltb (v.step_index + 1) (length d.steps)
    then go_to d reduced (v.step_index + 1) v
    else some (pause v)

unfoldable pub autoplay : Scene → Bool → ℕ → View → Option View
unfolding play_on
autoplay d reduced sdt v =
    let left = v.read_time - sdt in
    let read = record v { read_time = left } in
    if v.playing && not v.running && length v.packets == 0
    then if left == 0 then play_on d reduced read else some read
    else some v

-- The camera turns by itself until the user moves it.
abbrev turned_by : Bool → ℕ → Orbit → Orbit
turned_by still dt o = if still then o else record o { theta = o.theta +ℤ pos (dt * 3) }

abbrev pub turn : Bool → ℕ → View → View
turn reduced dt v = record v { orbit = turned_by (v.user_moved || reduced) dt v.orbit }

abbrev pub aged : ℕ → View → View
aged dt v = record v { effects = age_effects dt v.effects; chain = drop_blocks dt v.chain }

-- The body of `loop` behind its guard, for a time step in milliseconds: up to the packets, and from
-- there on.
unfoldable pub end_frame : Scene → Bool → ℕ → ℕ → View → Option View
unfolding wait_for_local autoplay age_effects drop_blocks
end_frame d reduced dt sdt v = do
  waited ← wait_for_local d reduced sdt v
  autoplay d reduced sdt (show_mood d.dilly (aged dt waited))

unfoldable pub advance : Scene → Bool → ℕ → View → Option View
unfolding move_packets end_frame fade ◌+ℤ◌
advance d reduced dt v = do
  let turned = turn reduced dt v
  moved ← move_packets d reduced (dt * v.speed) (record turned { glow = fade dt turned.glow })
  end_frame d reduced dt (dt * v.speed) moved

-- `loop(now)`. A frame's time is not before the one of the frame before it. `hidden` is
-- `document.hidden`.
unfoldable pub frame : Scene → Bool → Bool → ℕ → View → Option View
unfolding advance
frame d reduced hidden now v =
    let dt = min 50 (now - v.last) in
    let timed = record v { last = now } in
    if not v.visible || hidden then some timed else advance d reduced dt timed
