-- ===== src/Scene/Mount.antt =====
-- `window.CertadilloScenes`: kb-src/scenes-engine.js.
use certadillo.Prelude.{
  ℕ, String, Bool, List, [], ◌∷◌, Option, none, some, str_eq, if◌then◌else◌, is_inherited,
}
use certadillo.Scene.Def.{Scene}
use certadillo.Scene.View.{View}
use certadillo.Scene.Input.{create}

-- What `mount` returns, or the reason for `null`: a text in the container, or no such scene.
pub data Mounted : Type 0 where
  mounted : View → Mounted
  no_three no_scene not_started : Mounted

-- `register` files a scene under its id, in place of one filled in before.
unfoldable pub register : Scene → List (String × Scene) → List (String × Scene)
register d [] = (d.id, d) ∷ []
register d ((k, e) ∷ ds) = if str_eq k d.id then (k, d) ∷ ds else (k, e) ∷ register d ds

unfoldable pub register_all : List Scene → List (String × Scene) → List (String × Scene)
unfolding register
register_all [] ds = ds
register_all (d ∷ more) ds = register_all more (register d ds)

unfoldable pub find_scene : String → List (String × Scene) → Option Scene
find_scene id [] = none
find_scene id ((k, d) ∷ ds) = if str_eq k id then some d else find_scene id ds

-- The `try` turns a throw of the constructor into a text.
abbrev started : Option View → Mounted
started none = not_started
started (some v) = mounted v

-- For an id that `defs` inherits the constructor throws: what it gets has no steps.
abbrev mount_found : Option Scene → Bool → Bool → ℕ → ℕ → Mounted
mount_found none inherited reduced width now = if inherited then not_started else no_scene
mount_found (some d) inherited reduced width now = started (create d reduced width now)

-- `three` is whether three.js has loaded.
unfoldable pub mount : List (String × Scene) → Bool → Bool → ℕ → ℕ → String → Mounted
unfolding find_scene create is_inherited
mount ds three reduced width now id =
    if three then mount_found (find_scene id ds) (is_inherited id) reduced width now else no_three
