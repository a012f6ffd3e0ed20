-- ===== src/Scene/Laws/Displays.antt =====
-- The panel and the camera of a walkthrough of kb-src/scenes-engine.js at every time.
use certadillo.Prelude.{
  ℕ, zero, suc, ◌+◌, ◌<◌, ◌≡◌, refl, Bool, ◌&&◌, true, List, [], ◌∷◌, Option, some, length,
  get_elem?, ltb, leb, ◌==◌, arith, subst, all, All,
}
use certadillo.Prelude.Int.{scale}
use certadillo.Scene.Def.{Step, Scene}
use certadillo.Scene.View.{Panel, Orbit, View}
use certadillo.Scene.Settle.{◌>>=◌, marks_from, panel_of}
use certadillo.Scene.Input.{Event, home_of, run, create}
use certadillo.Scene.Laws.Sound.{IsSound}
use certadillo.Scene.Laws.Safety.{run-create}
use certadillo.Scene.Laws.Shipped.{all_sound}
use certadillo.Scene.Data.{defs}
use certadillo.Scene.Laws.Sound.{is_sound, IsSound-is_sound}
use certadillo.Scene.Laws.Shown.{InRange, Shows}
use certadillo.Scene.Laws.Showing.{run-Shows, create-Shows}
use certadillo.Scene.Laws.Steady.{Whenever, Whenever-bind}

marks_from_lem :
    (i index : ℕ) (ss : List Step) (j : ℕ)
    → j < length ss
    → get_elem? (marks_from i index ss) j
      ≡ some (record { on = i + j == index; done = ltb (i + j) index })
unfolding marks_from
marks_from_lem i index [] j h = absurd (omega arith)
marks_from_lem i index (s ∷ ss) zero h = let e : i + 0 ≡ i = omega arith in rw e refl
marks_from_lem i index (s ∷ ss) (suc j) h =
    let e : i + suc j ≡ suc i + j = omega arith in
    rw e (marks_from_lem (suc i) index ss j (omega arith))

-- The panel has the texts of the step and its number, each button of the list of steps is marked as
-- the step, as done or not at all, and the camera is in its range.
pub record Displays (d : Scene) (v : View) : Type 0 where
  pub step : Step
  pub panel : Panel
  pub there : get_elem? d.steps v.step_index ≡ some step
  pub written : v.panel ≡ some panel
  pub texts : (panel.title ≡ step.title) × (panel.body ≡ step.body) × (panel.payload ≡ step.payload)
  pub counts : (panel.number ≡ v.step_index + 1) × (panel.total ≡ length d.steps)
  pub marked :
      (j : ℕ)
      → j < length d.steps
      → get_elem? panel.marks j
        ≡ some (record { on = j == v.step_index; done = ltb j v.step_index })
  pub camera : InRange v.orbit

marked_at :
    (index : ℕ) (ss : List Step) (j : ℕ)
    → j < length ss
    → get_elem? (marks_from 0 index ss) j ≡ some (record { on = j == index; done = ltb j index })
marked_at index ss j h =
    let e : 0 + j ≡ j = omega arith in
    subst
      (λ k.
        get_elem? (marks_from 0 index ss) j ≡ some (record { on = k == index; done = ltb k index }))
      e (marks_from_lem 0 index ss j h)

Displays-Shows : (d : Scene) (v : View) → Shows d v → Displays d v
unfolding panel_of
Displays-Shows d v h = record {
  step = h.step;
  panel = panel_of d v.step_index h.step;
  there = h.there;
  written = h.shown;
  texts = (refl, refl, refl);
  counts = (refl, refl);
  marked = λ j l. marked_at v.step_index d.steps j l;
  camera = h.camera;
}

of_Whenever : (P : View → Type 0) (m : Option View) (v : View) → m ≡ some v → Whenever P m → P v
of_Whenever P m v e h = subst (Whenever P) e h

-- In a sound scene whose own camera is in range, after the constructor and every sequence of frames
-- and events the panel has the texts and the number of the step, exactly the button of the step is
-- on and those of the earlier steps are done, and the camera is between 8 and 30 from the scene, at
-- an angle between 0.35 and 1.45 from the vertical.
pub run-create-Displays :
    (d : Scene) (r : Bool) (width now : ℕ) (es : List Event)
    → IsSound d
    → InRange (home_of d.camera)
    → (v : View) × ((create d r width now >>= run d r es) ≡ some v) × Displays d v
run-create-Displays d r width now es ok camera =
    let (v, e, inv) = run-create d r ok width now es in
    (
      v,
      e,
      Displays-Shows d v (
          of_Whenever (Shows d) _ v e (
            Whenever-bind (Shows d) (Shows d) _ _ (create-Shows d r width now camera)
              (run-Shows d r es))),
    )

abbrev in_range : Orbit → Bool
in_range o = leb 800000 o.radius && leb o.radius 3000000 && leb 35000 o.phi && leb o.phi 145000

InRange-in_range : (o : Orbit) → in_range o ≡ true → InRange o
InRange-in_range o h = record {
  near = ground arith;
  far = ground arith;
  high = ground arith;
  low = ground arith;
}

-- What it means for a scene, for every setting, stage width, start and sequence of events.
abbrev pub AlwaysDisplays : Scene → Type 0
AlwaysDisplays d =
    (r : Bool) (width now : ℕ) (es : List Event)
    → (v : View) × ((create d r width now >>= run d r es) ≡ some v) × Displays d v

each-AlwaysDisplays :
    (ds : List Scene)
    → all is_sound ds ≡ true
    → all (λ d. in_range (home_of d.camera)) ds ≡ true
    → All AlwaysDisplays ds
each-AlwaysDisplays [] h k = tt
each-AlwaysDisplays (d ∷ ds) h k = (
  (λ r width now es.
      run-create-Displays d r width now es (IsSound-is_sound d (ground arith))
        (InRange-in_range (home_of d.camera) (ground arith))),
  each-AlwaysDisplays ds (ground arith) (ground arith),
)

all-in_range : all (λ (d : Scene). in_range (home_of d.camera)) defs ≡ true
unfolding scale
all-in_range = refl

-- That holds of each of the walkthroughs that scenes-data.js registers: whatever the frames and
-- events, the panel has the texts and the number of the step, the buttons of the list are marked as
-- the step and as done up to it, and the camera is in range.
pub defs-AlwaysDisplays : All AlwaysDisplays defs
defs-AlwaysDisplays = each-AlwaysDisplays defs all_sound all-in_range
