-- ===== src/Scene/Laws/Mounting.antt =====
-- The registry of walkthroughs, filled by kb-src/scenes-data.js: `register` and `mount` of
-- kb-src/scenes-engine.js.
use certadillo.Prelude.{
  ℕ, String, Bool, true, ◌≡◌, refl, sym, ◌∙◌, none, subst, List, [], ◌∷◌, Option, some, All,
}
use certadillo.Scene.Def.{Scene}
use certadillo.Scene.View.{View}
use certadillo.Scene.Data.{defs}
use certadillo.Scene.Settle.{◌>>=◌}
use certadillo.Scene.Input.{create, run}
use certadillo.Scene.Mount.{mounted, register_all, find_scene, mount}
use certadillo.Scene.Laws.Jumping.{Ok}
use certadillo.Scene.Laws.Shipped.{Runs, defs_run}
use certadillo.Scene.Laws.Displays.{Displays, AlwaysDisplays, defs-AlwaysDisplays}

abbrev registry : List (String × Scene)
registry = register_all defs []

-- Mounting by the id of the scene gives the view that the constructor makes of that very scene.
abbrev pub Mounts : List (String × Scene) → Scene → Type 0
Mounts ds d =
    (r : Bool) (width now : ℕ)
    → (v : View) × (create d r width now ≡ some v)
      × (mount ds true r width now d.id ≡ mounted v)
      × Displays d v
      × Ok d v

run_none : (d : Scene) (r : Bool) (m : Option View) → (m >>= run d r []) ≡ m
unfolding run
run_none d r none = refl
run_none d r (some v) = refl

mount_found_lem :
    (ds : List (String × Scene)) (d : Scene)
    → find_scene d.id ds ≡ some d
    → Runs d
    → AlwaysDisplays d
    → Mounts ds d
unfolding mount
mount_found_lem ds d found runs shows r width now =
    let (v, e, ok) = runs r width now [] in
    let (w, e', shown) = shows r width now [] in
    let made = sym (run_none d r (create d r width now)) ∙ e in
    let same : w ≡ v = cc in (v, made, rw (found, made) refl, subst (Displays d) same shown, ok)

Found : List Scene → Type 0
Found = All (λ d. find_scene d.id registry ≡ some d)

defs-Found : Found defs
unfolding Found find_scene register_all
defs-Found = (
  refl,
  (
    refl,
    (
      refl,
      (
        refl,
        (refl, (refl, (refl, (refl, (refl, (refl, (refl, (refl, (refl, (refl, (refl, tt))))))))))),
      ),
    ),
  ),
)

Found-Mounts :
    (ds : List Scene) → Found ds → All Runs ds → All AlwaysDisplays ds → All (Mounts registry) ds
unfolding Found
Found-Mounts [] f h k = tt
Found-Mounts (d ∷ ds) (f, fs) (h, hs) (k, ks) =
    (mount_found_lem registry d f h k, Found-Mounts ds fs hs ks)

-- Once scenes-data.js has run and three.js has loaded, `mount` of the id of each of its walkthroughs
-- returns the view that the constructor makes of that walkthrough: no later one has taken its place,
-- the constructor does not throw, and the panel has the texts of the walkthrough's own step.
pub defs-Mounts : All (Mounts (register_all defs [])) defs
defs-Mounts = Found-Mounts defs defs-Found defs_run defs-AlwaysDisplays
