-- ===== src/Console/Encode/Units.antt =====
-- Which units an encoded text has, and which texts can be encoded.
use certadillo.Prelude.{
  ℕ, ◌/◌, ◌%◌, ◌≡◌, refl, true, false, List, [], ◌∷◌, ◌++◌, Option, none, some, arith,
  if◌then◌else◌, All, All-append, ◌<◌, Bool-cases, inl, inr, ◌⊎◌, subst, sym,
}
use certadillo.Markup.{Text}
use certadillo.Console.Encode.{
  is_unreserved, hex, percent_byte, percent_bytes, utf8, is_high, is_low, pair_of, prefixed,
  encode_after, encode_component,
}

-- A unit that can stand in a part of an address: it ends neither the part nor the path.
abbrev pub IsInside : ℕ → Type 0
IsInside c = (c ≡ b'%') ⊎ (is_unreserved c ≡ true)

hex-IsInside : (n : ℕ) → n < 16 → IsInside (hex n)
unfolding is_unreserved
hex-IsInside n h = inr (ground arith)

percent_bytes-IsInside : (bs : List ℕ) → All IsInside (percent_bytes bs)
unfolding percent_bytes percent_byte
percent_bytes-IsInside [] = tt
percent_bytes-IsInside (b ∷ bs) = (
  inl refl,
  (
    hex-IsInside (b / 16 % 16) (omega arith),
    (hex-IsInside (b % 16) (omega arith), percent_bytes-IsInside bs),
  ),
)

prefixed-some :
    (t : Text) (o : Option Text) {e : Text}
    → prefixed t o ≡ some e
    → (u : Text) × (o ≡ some u) × (e ≡ t ++ u)
prefixed-some t none h = cc
prefixed-some t (some u) h = (u, refl, cc)

prefixed-IsInside :
    (t : Text) (o : Option Text) (e : Text)
    → All IsInside t
    → ((u : Text) → o ≡ some u → All IsInside u)
    → prefixed t o ≡ some e
    → All IsInside e
prefixed-IsInside t o e h k p =
    let (u, eu, ee) = prefixed-some t o p in
    subst (All IsInside) (sym ee) (All-append IsInside t u h (k u eu))

encode_after-IsInside :
    (o : Option ℕ) (t : Text) (e : Text) → encode_after o t ≡ some e → All IsInside e
unfolding encode_after
encode_after-IsInside none [] e h = let same : [] ≡ e = cc in subst (All IsInside) same tt
encode_after-IsInside (some c) [] e h = cc
encode_after-IsInside (some h) (c ∷ t) e p = elim (Bool-cases (is_low c)) [
  | inl l ↦
      prefixed-IsInside _ _ e (percent_bytes-IsInside _) (encode_after-IsInside none t) (rw l at p)
  | inr l ↦ cc
]
encode_after-IsInside none (c ∷ t) e p = elim (Bool-cases (is_unreserved c)) [
  | inl u ↦ prefixed-IsInside (c ∷ []) _ e (inr u, tt) (encode_after-IsInside _ t) (rw u at p)
  | inr u ↦ elim (Bool-cases (is_high c)) [
    | inl g ↦ encode_after-IsInside (some c) t e (ground arith)
    | inr g ↦ elim (Bool-cases (is_low c)) [
      | inl l ↦ absurd (ground arith)
      | inr l ↦
          prefixed-IsInside (percent_bytes (utf8 c))
            (encode_after (if is_high c then some c else none) t) e
            (percent_bytes-IsInside (utf8 c))
            (encode_after-IsInside (if is_high c then some c else none) t) (ground arith)
    ]
  ]
]

pub encode_component-IsInside : (t e : Text) → encode_component t ≡ some e → All IsInside e
unfolding encode_component
encode_component-IsInside t e h = encode_after-IsInside none t e h

-- A text without a half of a surrogate pair that stands alone.
pub data WellFormed : Text → Type 0 where
  blank : WellFormed []
  unit :
      {c : ℕ} {t : Text} → is_high c ≡ false → is_low c ≡ false → WellFormed t → WellFormed (c ∷ t)
  pair :
      {h l : ℕ} {t : Text}
      → is_high h ≡ true
      → is_low l ≡ true
      → WellFormed t
      → WellFormed (h ∷ l ∷ t)

prefixed-Ends :
    (t : Text) (o : Option Text) → (u : Text) × (o ≡ some u) → (e : Text) × (prefixed t o ≡ some e)
prefixed-Ends t o (u, h) = (t ++ u, rw h refl)

encode-Ends : (t : Text) → WellFormed t → (e : Text) × (encode_after none t ≡ some e)
unfolding encode_after
encode-Ends [] blank = ([], refl)
encode-Ends (c ∷ t) (unit nh nl w) =
    let ih = encode-Ends t w in
    rw (nh, nl)
      (elim (Bool-cases (is_unreserved c)) [
        | inl u ↦ rw u (prefixed-Ends (c ∷ []) (encode_after none t) ih)
        | inr u ↦ rw u (prefixed-Ends (percent_bytes (utf8 c)) (encode_after none t) ih)
      ])
encode-Ends (h ∷ l ∷ t) (pair ih il w) =
    let not_plain : is_unreserved h ≡ false = unfold is_unreserved in ground arith in
    rw (not_plain, ih, il)
      (prefixed-Ends (percent_bytes (utf8 (pair_of h l))) (encode_after none t) (encode-Ends t w))

-- A text without such halves is encoded, and none of the units of what it becomes ends a part of an
-- address, its path or its query: each is a % or stays as it is when it is encoded.
pub encode_component_lem :
    (t : Text) → WellFormed t → (e : Text) × (encode_component t ≡ some e) × All IsInside e
unfolding encode_component
encode_component_lem t w = let (e, h) = encode-Ends t w in (e, h, encode_after-IsInside none t e h)
