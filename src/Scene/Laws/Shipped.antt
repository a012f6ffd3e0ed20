-- ===== src/Scene/Laws/Shipped.antt =====
-- The walkthroughs that kb-src/scenes-data.js registers.
use certadillo.Prelude.{ℕ, ◌≡◌, refl, Bool, true, List, [], ◌∷◌, some, all, All, arith}
use certadillo.Scene.Def.{Scene}
use certadillo.Scene.Data.{defs}
use certadillo.Scene.View.{View}
use certadillo.Scene.Settle.{◌>>=◌}
use certadillo.Scene.Input.{Event, create, run}
use certadillo.Scene.Laws.Sound.{is_sound, IsSound-is_sound}
use certadillo.Scene.Laws.Jumping.{Ok}
use certadillo.Scene.Laws.Safety.{run-create}

pub all_sound : all is_sound defs ≡ true
unfolding is_sound
all_sound = refl

-- What running a scene means, for every setting, stage width, start and sequence of events.
abbrev pub Runs : Scene → Type 0
Runs d =
    (r : Bool) (width now : ℕ) (es : List Event)
    → (v : View) × ((create d r width now >>= run d r es) ≡ some v) × Ok d v

each-Runs : (ds : List Scene) → all is_sound ds ≡ true → All Runs ds
each-Runs [] h = tt
each-Runs (d ∷ ds) h = (
  (λ r width now es. run-create d r (IsSound-is_sound d (ground arith)) width now es),
  each-Runs ds (ground arith),
)

-- Each of the walkthroughs that scenes-data.js registers starts and runs through every sequence of
-- events, with and without reduced motion, and none throws. Afterwards the step exists and the chain
-- has at least a block for each event that the earlier steps store, and at most one for each event
-- that those and the current step store.
pub defs_run : All Runs defs
defs_run = each-Runs defs all_sound
