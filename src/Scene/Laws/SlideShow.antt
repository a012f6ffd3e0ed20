-- ===== src/Scene/Laws/SlideShow.antt =====
-- Runs of kb-src/scenes-engine.js as runs of a slide show.
use certadillo.Prelude.{
  ℕ, ◌+◌, ◌≤◌, ◌<◌, ◌≡◌, subst, ap, Bool, true, false, List, [], ◌∷◌, Option, none, some, length,
  All,
}
use certadillo.Scene.Def.{Scene}
use certadillo.Scene.View.{View}
use certadillo.Scene.Settle.{◌>>=◌}
use certadillo.Scene.Input.{Event, run, create, blank, chain_place_of, dilly_place_of}
use certadillo.Scene.Laws.After.{After-some}
use certadillo.Scene.Laws.Sound.{IsSound}
use certadillo.Scene.Laws.Jumping.{Ok}
use certadillo.Scene.Laws.Safety.{run-Keeps, run-create}
use certadillo.Scene.Laws.Steady.{Whenever, Whenever-bind, always}
use certadillo.Scene.Laws.Slides.{Slides, Turns, Course, stop, go_on, is_frame, Course-Frames}
use certadillo.Scene.Laws.Playing.{slides, Leads, go_to-Leads, handle-Moves}

Whenever-some :
    {A : Type 0} (P : A → Type 0) {m : Option A} {a : A} → m ≡ some a → Whenever P m → P a
Whenever-some P e h = subst (Whenever P) e h

Whenever-map :
    {A : Type 0} (P Q : A → Type 0)
    → ((a : A) → P a → Q a)
    → (m : Option A) → Whenever P m
    → Whenever Q m
Whenever-map P Q f none h = tt
Whenever-map P Q f (some a) h = f a h

module _ (d : Scene) (r : Bool) where
  run-Course :
      (es : List Event) (v : View)
      → Whenever (λ w. Course (length d.steps) es (slides v) (slides w)) (run d r es v)
  unfolding run
  run-Course [] v = stop
  run-Course (e ∷ es) v =
      Whenever-bind (λ w. Turns (length d.steps) e (slides v) (slides w))
        (λ w. Course (length d.steps) (e ∷ es) (slides v) (slides w)) _ _ (handle-Moves d r e v)
        λ w t. Whenever-map _ _ (λ x. go_on t) (run d r es w) (run-Course es w)

  create-Leads : (width now : ℕ) → Leads (record { at = 0; playing = false }) (create d r width now)
  unfolding create blank
  create-Leads width now =
      let Goal : View → Type 0 = λ w. slides w ≡ record { at = 0; playing = false } in
      Whenever-bind (λ o. Unit) Goal (dilly_place_of d) _ (always (dilly_place_of d))
        λ dilly k.
          Whenever-bind (λ o. Unit) Goal (chain_place_of d) _ (always (chain_place_of d))
            λ chain j. go_to-Leads d r 0 (blank d width now chain dilly)

  -- In a sound scene every run of events after the constructor returns, and is a run of the slide
  -- show: it begins at the first step, not playing, and each event does to the step and to whether it
  -- plays what it may do in a show of so many steps.
  pub run-Turns :
      IsSound d
      → (width now : ℕ) (es : List Event)
      → (v : View) × ((create d r width now >>= run d r es) ≡ some v)
        × Course (length d.steps) es (record { at = 0; playing = false }) (slides v)
  run-Turns ok width now es =
      let (v, e, _) = run-create d r ok width now es in
      (
        v,
        e,
        Whenever-some _ e (
            Whenever-bind (λ w. slides w ≡ record { at = 0; playing = false })
              (λ w. Course (length d.steps) es (record { at = 0; playing = false }) (slides w)) _ _
              (create-Leads width now)
              λ w k.
                subst (λ s. Whenever (λ u. Course (length d.steps) es s (slides u)) (run d r es w))
                  k (run-Course es w)),
      )

  -- In a sound scene, wherever events have led, frames alone do not go back a step, and go on by at
  -- most one for each frame, never past the last step, and not at all while it does not play.
  pub frames-Turns :
      IsSound d
      → (width now : ℕ) (es fs : List Event) → All (λ e. is_frame e ≡ true) fs
      → (v w : View) × ((create d r width now >>= run d r es) ≡ some v)
        × (run d r fs v ≡ some w)
        × (v.step_index ≤ w.step_index)
        × (w.step_index ≤ v.step_index + length fs)
        × (w.step_index < length d.steps)
        × (v.playing ≡ false → w.step_index ≡ v.step_index)
  frames-Turns ok width now es fs h =
      let (v, e, inv) = run-create d r ok width now es in
      let (w, e', _) = After-some (Ok d) _ (run-Keeps d r ok fs v inv) in
      let f = Course-Frames (Whenever-some _ e' (run-Course fs v)) h in
      (v, w, e, e', f.low, f.high, f.inside inv.on_step, λ p. ap (λ (s : Slides). s.at) (f.still p))
