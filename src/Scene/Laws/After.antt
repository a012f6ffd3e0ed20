-- ===== src/Scene/Laws/After.antt =====
-- What an operation of kb-src/scenes-engine.js returns, and a property of it.
use certadillo.Prelude.{◌≡◌, refl, sym, subst, Bool, true, false, Option, none, some, if◌then◌else◌}
use certadillo.Scene.View.{View}
use certadillo.Scene.Settle.{◌>>=◌}

-- No TypeError, and `P` afterwards.
abbrev pub After : (View → Type 0) → Option View → Type 0
After P none = ⊥
After P (some v) = P v

module _ (P : View → Type 0) where
  pub After-of_some : (m : Option View) (w : View) → m ≡ some w → P w → After P m
  After-of_some m w e h = subst (After P) (sym e) h

  pub After-some : (m : Option View) → After P m → (v : View) × (m ≡ some v) × P v
  After-some none h = absurd h
  After-some (some v) h = (v, refl, h)

  pub After-if :
      (c : Bool) (m k : Option View)
      → (c ≡ true → After P m)
      → (c ≡ false → After P k)
      → After P (if c then m else k)
  After-if true m k h j = h refl
  After-if false m k h j = j refl

  pub After-bind :
      (Q : View → Type 0) (m : Option View) (f : View → Option View)
      → After Q m
      → ((v : View) → Q v → After P (f v))
      → After P (m >>= f)
  After-bind Q none f h k = absurd h
  After-bind Q (some v) f h k = k v h
