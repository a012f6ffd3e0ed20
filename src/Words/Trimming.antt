-- ===== src/Words/Trimming.antt =====
-- Texts that `trim` leaves as they are.
use mathlib.Core.List.{reverse-append, reverse-reverse}
use certadillo.Prelude.{
  ℕ, Bool, false, List, [], ◌∷◌, ◌++◌, reverse, ◌≡◌, refl, sym, ◌∙◌, ap, All, append_assoc,
}
use certadillo.Words.{is_space, trim_start, trim, join, IsWord}

-- A text whose last unit is no space.
pub record Ends (t : List ℕ) : Type 0 where
  pub front : List ℕ
  pub last : ℕ
  pub split : t ≡ front ++ last ∷ []
  pub no_space : is_space last ≡ false

trim_start_cons : (c : ℕ) (t : List ℕ) → is_space c ≡ false → trim_start (c ∷ t) ≡ c ∷ t
unfolding trim_start
trim_start_cons c t h = rw h

reverse-snoc : (t : List ℕ) (c : ℕ) → reverse (t ++ c ∷ []) ≡ c ∷ reverse t
reverse-snoc t c = reverse-append t (c ∷ [])

-- Nothing is trimmed from a text that begins and ends with units that are no spaces.
pub trim-eq_self : (t : List ℕ) → trim_start t ≡ t → Ends t → trim t ≡ t
unfolding trim
trim-eq_self t starts e =
    rw
      (
        starts,
        e.split,
        reverse-snoc e.front e.last,
        trim_start_cons e.last (reverse e.front) e.no_space,
        ← reverse-snoc e.front e.last,
      )
      (reverse-reverse (e.front ++ e.last ∷ []))

Ends-append : (s t : List ℕ) → Ends t → Ends (s ++ t)
Ends-append s t e = record {
  front = s ++ e.front;
  last = e.last;
  split = ap (λ u. s ++ u) e.split ∙ sym (append_assoc s e.front (e.last ∷ []));
  no_space = e.no_space;
}

module _ (sep : ℕ → Bool) (spaces : (c : ℕ) → sep c ≡ false → is_space c ≡ false) where
  Ends-word : (c : ℕ) (w : List ℕ) → All (λ x. sep x ≡ false) (c ∷ w) → Ends (c ∷ w)
  Ends-word c [] (h, hs) = record { front = []; last = c; split = refl; no_space = spaces c h }
  Ends-word c (d ∷ w) (h, hs) = Ends-append (c ∷ []) (d ∷ w) (Ends-word d w hs)

  Ends-join :
      (glue : List ℕ) (w : List ℕ) (ws : List (List ℕ))
      → All (IsWord sep) (w ∷ ws)
      → Ends (join glue (w ∷ ws))
  unfolding join
  Ends-join glue [] [] h = absurd (h.0.0 refl)
  Ends-join glue (c ∷ w) [] h = Ends-word c w h.0.1
  Ends-join glue w (v ∷ ws) h =
      Ends-append w (glue ++ join glue (v ∷ ws))
        (Ends-append glue (join glue (v ∷ ws)) (Ends-join glue v ws h.1))

  starts-join :
      (glue : List ℕ) (w : List ℕ) (ws : List (List ℕ))
      → All (IsWord sep) (w ∷ ws)
      → trim_start (join glue (w ∷ ws)) ≡ join glue (w ∷ ws)
  unfolding join
  starts-join glue [] ws h = absurd (h.0.0 refl)
  starts-join glue (c ∷ w) [] h = trim_start_cons c w (spaces c h.0.1.0)
  starts-join glue (c ∷ w) (v ∷ ws) h = trim_start_cons c _ (spaces c h.0.1.0)

  -- Words that are joined are not trimmed.
  pub trim-join :
      (glue : List ℕ) (w : List ℕ) (ws : List (List ℕ))
      → All (IsWord sep) (w ∷ ws)
      → trim (join glue (w ∷ ws)) ≡ join glue (w ∷ ws)
  trim-join glue w ws h = trim-eq_self _ (starts-join glue w ws h) (Ends-join glue w ws h)
