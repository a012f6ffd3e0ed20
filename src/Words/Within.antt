-- ===== src/Words/Within.antt =====
-- What `includes` of the scripts finds, without its search.
use certadillo.Prelude.{
  ℕ, ◌≡◌, refl, ap, ◌∙◌, true, inl, inr, List, [], ◌∷◌, ◌++◌, some, Option-cases, arith,
}
use certadillo.Words.{strip, has_word}

-- The text `w` stands somewhere in `t`.
pub record Within (w t : List ℕ) : Type 0 where
  pub before : List ℕ
  pub after : List ℕ
  pub split : t ≡ before ++ (w ++ after)

strip_sound : (w t r : List ℕ) → strip w t ≡ some r → t ≡ w ++ r
unfolding strip
strip_sound [] t r e = cc
strip_sound (a ∷ w) [] r e = cc
strip_sound (a ∷ w) (b ∷ t) r e = ground (arith, strip_sound w t r)

strip-append : (w r : List ℕ) → strip w (w ++ r) ≡ some r
unfolding strip
strip-append [] r = refl
strip-append (a ∷ w) r = ground (arith, strip-append w r)

found_here : (w t r : List ℕ) → strip w t ≡ some r → has_word w t ≡ true
unfolding has_word
found_here w [] r e = ground arith
found_here w (c ∷ t) r e = ground arith

pub has_word-Within : (w t : List ℕ) → has_word w t ≡ true → Within w t
unfolding has_word
has_word-Within w [] h = elim (Option-cases (strip w [])) [
  | inl m ↦ absurd (ground arith)
  | inr (r, m) ↦ record { before = []; after = r; split = strip_sound w [] r m }
]
has_word-Within w (c ∷ t) h = elim (Option-cases (strip w (c ∷ t))) [
  | inl m ↦
      let k = has_word-Within w t (ground arith) in
      record { before = c ∷ k.before; after = k.after; split = ap (λ x. c ∷ x) k.split }
  | inr (r, m) ↦ record { before = []; after = r; split = strip_sound w (c ∷ t) r m }
]

later_word : (c : ℕ) (w t : List ℕ) → has_word w t ≡ true → has_word w (c ∷ t) ≡ true
unfolding has_word
later_word c w t h = elim (Option-cases (strip w (c ∷ t))) [
  | inl m ↦ ground arith
  | inr (r, m) ↦ ground arith
]

within_found : (before w after : List ℕ) → has_word w (before ++ (w ++ after)) ≡ true
within_found [] w after = found_here w (w ++ after) after (strip-append w after)
within_found (c ∷ before) w after =
    later_word c w (before ++ (w ++ after)) (within_found before w after)

pub Within-has_word : (w t : List ℕ) → Within w t → has_word w t ≡ true
Within-has_word w t k = ap (has_word w) k.split ∙ within_found k.before w k.after
