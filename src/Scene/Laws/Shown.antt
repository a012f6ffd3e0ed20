-- ===== src/Scene/Laws/Shown.antt =====
-- What a walkthrough shows under its stage, and where its camera can be, after `goTo` of
-- kb-src/scenes-engine.js.
use certadillo.Prelude.{ℕ, ap, ◌≤◌, ◌≡◌, refl, ◌∙◌, Bool, Option, none, some, get_elem?, subst, sym}
use certadillo.Scene.Def.{Step, Scene}
use certadillo.Scene.View.{Panel, Orbit, View, clear_packets, set_chain}
use certadillo.Scene.Settle.{settle, panel_of}
use certadillo.Scene.Moves.{go_to}
use certadillo.Scene.Laws.Steady.{
  Whenever, Whenever-bind, Core, core, Steady, always, core-pulse?, start_next-Steady,
  own_effect-Steady,
}

-- Between 8 and 30 away from the scene, at an angle between 0.35 and 1.45 from the vertical.
pub record InRange (o : Orbit) : Type 0 where
  pub near : 800000 ≤ o.radius
  pub far : o.radius ≤ 3000000
  pub high : 35000 ≤ o.phi
  pub low : o.phi ≤ 145000

-- The panel shows the step, the button of the step is on, those of the earlier steps are done, and
-- the camera is in its range.
pub record IsShown (d : Scene) (at : ℕ) (p : Option Panel) (orbit home : Orbit) : Type 0 where
  pub step : Step
  pub there : get_elem? d.steps at ≡ some step
  pub shown : p ≡ some (panel_of d at step)
  pub camera : InRange orbit
  pub back : InRange home

abbrev pub Shows : Scene → View → Type 0
Shows d v = IsShown d v.step_index v.panel v.orbit v.home

abbrev pub CoreShows : Scene → Core → Type 0
CoreShows d c = IsShown d c.at c.panel c.orbit c.home

found : {A : Type 0} (m : Option A) → Whenever (λ a. m ≡ some a) m
found none = tt
found (some a) = refl

abbrev pub with_panel : Option Panel → Core → Core
with_panel p c = record c { panel = p }

module _ (d : Scene) (r : Bool) where
  pub settle-Steady : (i : ℕ) (v : View) → Steady (core v) (settle d i v)
  unfolding settle set_chain
  settle-Steady i v =
      Whenever-bind (λ s. Unit) (λ w. core w ≡ core v) (get_elem? d.steps i) _ (always _)
        λ s k. refl

  pub go_to-Shows :
      (i : ℕ) (v : View) → InRange v.orbit → InRange v.home → Whenever (Shows d) (go_to d r i v)
  unfolding go_to clear_packets
  go_to-Shows i v o h =
      let c : Core = record (core v) { at = i } in
      Whenever-bind (λ w. core w ≡ c) (Shows d) _ _
        (settle-Steady i (record (clear_packets v) { step_index = i }))
        λ w k.
          Whenever-bind (λ s. get_elem? d.steps i ≡ some s) (Shows d) _ _
            (found (get_elem? d.steps i))
            λ s e.
              let p = some (panel_of d i s) in
              let e' = with_panel p c in
              Whenever-bind (λ u. core u ≡ e') (Shows d) _ _
                (start_next-Steady d r e' s.moves _ (ap (with_panel p) k))
                λ u b.
                  Whenever-bind (λ x. core x ≡ e') (Shows d) _ _
                    (own_effect-Steady d r e' s s.moves u b)
                    λ x a.
                      subst (CoreShows d) (sym (core-pulse? s.actor x ∙ a))
                        (record { step = s; there = e; shown = refl; camera = o; back = h })

  pub Steady-Shows :
      (c : Core) (m : Option View) → CoreShows d c → Steady c m → Whenever (Shows d) m
  Steady-Shows c none s h = tt
  Steady-Shows c (some w) s h = subst (CoreShows d) (sym h) s
