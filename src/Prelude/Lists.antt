-- ===== src/Prelude/Lists.antt =====
-- Lists measured and indexed by native numbers, and predicates on their members.
use Prim.Native.Nat.{ℕ, zero, suc, ◌+◌, ◌<◌, ◌≤◌}
use mathlib.Core.Path.{◌≡◌, refl, sym, ap, ◌∙◌}
use mathlib.Core.Bool.{Bool, true, false, ◌&&◌}
use mathlib.Core.List.{List, [], ◌∷◌, ◌++◌}
use mathlib.Core.Option.{Option, none, some}
use native.Mathlib.Omega.{arith}
use mathlib.Core.Logic.{◌⊎◌, inl, inr}
use certadillo.Prelude.Tests.{Bool-cases, if◌then◌else◌}

module _ {ℓ} {A : Type ℓ} where
  abbrev pub length : List A → ℕ
  length [] = 0
  length (x ∷ xs) = suc (length xs)

  abbrev pub get_elem? : List A → ℕ → Option A
  get_elem? [] i = none
  get_elem? (x ∷ xs) zero = some x
  get_elem? (x ∷ xs) (suc i) = get_elem? xs i

  abbrev pub take : ℕ → List A → List A
  take zero xs = []
  take (suc n) [] = []
  take (suc n) (x ∷ xs) = x ∷ take n xs

  abbrev pub replicate : ℕ → A → List A
  replicate zero x = []
  replicate (suc n) x = x ∷ replicate n x

  abbrev pub all : (A → Bool) → List A → Bool
  all p [] = true
  all p (x ∷ xs) = p x && all p xs

  -- `Array.prototype.filter` with a test that has no effect.
  abbrev pub filter : (A → Bool) → List A → List A
  filter p [] = []
  filter p (x ∷ xs) = let rest = filter p xs in if p x then x ∷ rest else rest

  pub length-append : (xs ys : List A) → length (xs ++ ys) ≡ length xs + length ys
  length-append [] ys = omega arith
  length-append (x ∷ xs) ys = omega (arith, length-append xs ys)

  pub get_elem?-some : (xs : List A) (i : ℕ) → i < length xs → (x : A) × (get_elem? xs i ≡ some x)
  get_elem?-some [] i h = elim h [ ]
  get_elem?-some (x ∷ xs) zero h = (x, refl)
  get_elem?-some (x ∷ xs) (suc i) h = get_elem?-some xs i (omega arith)

  pub length-le_of_get_elem? : (xs : List A) (i : ℕ) → get_elem? xs i ≡ none → length xs ≤ i
  length-le_of_get_elem? [] i e = omega arith
  length-le_of_get_elem? (x ∷ xs) zero e = cc
  length-le_of_get_elem? (x ∷ xs) (suc i) e = omega (arith, length-le_of_get_elem? xs i e)

  pub lt-length_of_get_elem? :
      (xs : List A) (i : ℕ) {x : A} → get_elem? xs i ≡ some x → i < length xs
  lt-length_of_get_elem? [] i h = cc
  lt-length_of_get_elem? (x ∷ xs) zero h = omega arith
  lt-length_of_get_elem? (x ∷ xs) (suc i) h = omega (arith, lt-length_of_get_elem? xs i h)

module _ {ℓ κ} {A : Type ℓ} (P : A → Type κ) where
  abbrev pub All : List A → Type κ
  All [] = Unit
  All (x ∷ xs) = P x × All xs

  pub All-append : (xs ys : List A) → All xs → All ys → All (xs ++ ys)
  All-append [] ys hx hy = hy
  All-append (x ∷ xs) ys (p, hx) hy = (p, All-append xs ys hx hy)

  pub All-get_elem? : (xs : List A) (i : ℕ) {x : A} → All xs → get_elem? xs i ≡ some x → P x
  All-get_elem? [] i h e = cc
  All-get_elem? (y ∷ xs) zero (p, h) e = ground arith
  All-get_elem? (y ∷ xs) (suc i) (p, h) e = All-get_elem? xs i h e

module _ {ℓ κ ν} {A : Type ℓ} {P : A → Type κ} {Q : A → Type ν} where
  -- What the test adds to what holds of all members.
  pub All-filter :
      (p : A → Bool) (xs : List A)
      → ((x : A) → P x → p x ≡ true → Q x)
      → All P xs
      → All Q (filter p xs)
  All-filter p [] k h = tt
  All-filter p (x ∷ xs) k (h, hs) = elim (Bool-cases (p x)) [
    | inl e ↦ rw e (k x h e, All-filter p xs k hs)
    | inr e ↦ rw e (All-filter p xs k hs)
  ]

module _ {ℓ} {A : Type ℓ} where
  pub All-every : (P : A → Type 0) (xs : List A) → ((x : A) → P x) → All P xs
  All-every P [] h = tt
  All-every P (x ∷ xs) h = (h x, All-every P xs h)

-- Membership, by cases.
abbrev pub In : {A : Type 0} → A → List A → Type 0
In x [] = ⊥
In x (y ∷ ys) = (x ≡ y) ⊎ In x ys

module _ {A : Type 0} where
  pub In-append_left : (x : A) (xs ys : List A) → In x xs → In x (xs ++ ys)
  In-append_left x [] ys h = absurd h
  In-append_left x (z ∷ xs) ys (inl e) = inl e
  In-append_left x (z ∷ xs) ys (inr h) = inr (In-append_left x xs ys h)

  pub In-append_right : (x : A) (xs ys : List A) → In x ys → In x (xs ++ ys)
  In-append_right x [] ys h = h
  In-append_right x (z ∷ xs) ys h = inr (In-append_right x xs ys h)

  pub In-append : (x : A) (xs ys : List A) → In x (xs ++ ys) → In x xs ⊎ In x ys
  In-append x [] ys h = inr h
  In-append x (z ∷ xs) ys (inl e) = inl (inl e)
  In-append x (z ∷ xs) ys (inr h) = elim (In-append x xs ys h) [
    | inl k ↦ inl (inr k)
    | inr k ↦ inr k
  ]

module _ {A : Type 0} (p : A → Bool) (x : A) where
  filter_case :
      (y : A) (ys : List A) (b : Bool)
      → p y ≡ b
      → (In x ys × (p x ≡ true)) ⊎ ((b ≡ true) × (x ≡ y))
      → In x (y ∷ ys) × (p x ≡ true)
  filter_case y ys b e (inl (i, q)) = (inr i, q)
  filter_case y ys b e (inr (h, k)) = (inl k, ap p k ∙ e ∙ h)

  In-if :
      (y : A) (b : Bool) (ys : List A)
      → In x (if b then y ∷ ys else ys)
      → In x ys ⊎ ((b ≡ true) × (x ≡ y))
  In-if y true ys (inl k) = inr (refl, k)
  In-if y true ys (inr k) = inl k
  In-if y false ys k = inl k

  -- What passes a test is a member that passes it.
  pub In-filter : (xs : List A) → In x (filter p xs) → In x xs × (p x ≡ true)
  In-filter [] h = absurd h
  In-filter (y ∷ ys) h = elim (In-if y (p y) (filter p ys) h) [
    | inl k ↦ filter_case y ys (p y) refl (inl (In-filter ys k))
    | inr k ↦ filter_case y ys (p y) refl (inr k)
  ]

  to_if :
      (y : A) (b : Bool) (ys : List A)
      → (In x ys ⊎ ((b ≡ true) × (x ≡ y)))
      → In x (if b then y ∷ ys else ys)
  to_if y true ys (inl k) = inr k
  to_if y true ys (inr k) = inl k.1
  to_if y false ys (inl k) = k
  to_if y false ys (inr k) = cc (k.0)

  pub filter-In : (xs : List A) → In x xs → p x ≡ true → In x (filter p xs)
  filter-In [] h e = h
  filter-In (y ∷ ys) (inl k) e = to_if y (p y) (filter p ys) (inr (ap p (sym k) ∙ e, k))
  filter-In (y ∷ ys) (inr k) e = to_if y (p y) (filter p ys) (inl (filter-In ys k e))
