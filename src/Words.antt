-- ===== src/Words.antt =====
-- Texts as the JavaScript sources cut them: `trim`, and `split` at a class of units with empty parts
-- left out. A text is the list of its UTF-16 units.
pub mod Trimming
pub mod Within
use certadillo.Prelude.{
  ℕ, Bool, true, false, ◌||◌, ◌&&◌, List, [], ◌∷◌, ◌++◌, reverse, Option, none, some, ◌≡◌, ◌≢◌,
  refl, sym, ◌∙◌, ap, All, append_assoc, append-nil, leb, ◌==◌, if◌then◌else◌,
}

-- What `\s` and `trim` take for white space.
unfoldable pub is_space : ℕ → Bool
is_space c =
    (leb 9 c && leb c 13)
    || c == 32
    || c == 0xa0
    || c == 0x1680
    || (leb 0x2000 c && leb c 0x200a)
    || c == 0x2028
    || c == 0x2029
    || c == 0x202f
    || c == 0x205f
    || c == 0x3000
    || c == 0xfeff

unfoldable pub trim_start : List ℕ → List ℕ
unfolding is_space
trim_start [] = []
trim_start (c ∷ t) = let rest = trim_start t in if is_space c then rest else c ∷ t

-- `trim()`: nothing before the first and behind the last unit that is no space.
unfoldable pub trim : List ℕ → List ℕ
unfolding trim_start
trim t = reverse (trim_start (reverse (trim_start t)))

abbrev pub push_word : List ℕ → List (List ℕ) → List (List ℕ)
push_word [] ws = ws
push_word (a ∷ w) ws = (a ∷ w) ∷ ws

-- `split(/[…]+/).filter(Boolean)`: the parts between runs of separators. The second argument is the
-- part that is being read.
unfoldable pub words_by : (ℕ → Bool) → List ℕ → List ℕ → List (List ℕ)
words_by sep w [] = push_word w []
words_by sep w (c ∷ t) =
    let closed = push_word w (words_by sep [] t) in
    let longer = words_by sep (w ++ c ∷ []) t in if sep c then closed else longer

-- The rest of `t` behind `w`, if `t` begins with it.
unfoldable pub strip : List ℕ → List ℕ → Option (List ℕ)
strip [] t = some t
strip (a ∷ w) [] = none
strip (a ∷ w) (b ∷ t) = let rest = strip w t in if a == b then rest else none

-- `text.indexOf(w) >= 0`, and `text.includes(w)`.
unfoldable pub has_word : List ℕ → List ℕ → Bool
unfolding strip
has_word w [] = elim (strip w []) [ none ↦ false | some _ ↦ true ]
has_word w (c ∷ t) =
    let later = has_word w t in elim (strip w (c ∷ t)) [ none ↦ later | some _ ↦ true ]

-- `join`.
unfoldable pub join : List ℕ → List (List ℕ) → List ℕ
join glue [] = []
join glue (w ∷ []) = w
join glue (w ∷ v ∷ ws) = w ++ (glue ++ join glue (v ∷ ws))

-- A part that the separators leave whole.
abbrev pub IsWord : (ℕ → Bool) → List ℕ → Type 0
IsWord sep w = (w ≢ []) × All (λ c. sep c ≡ false) w

module _ (sep : ℕ → Bool) where
  words_by-append :
      (w t rest : List ℕ)
      → All (λ c. sep c ≡ false) t
      → words_by sep w (t ++ rest) ≡ words_by sep (w ++ t) rest
  unfolding words_by
  words_by-append w [] rest h = rw append-nil
  words_by-append w (c ∷ t) rest (h, hs) = rw h (
      words_by-append (w ++ c ∷ []) t rest hs
      ∙ ap (λ x. words_by sep x rest) (append_assoc w (c ∷ []) t))

  words_by-glue :
      (glue rest : List ℕ)
      → All (λ c. sep c ≡ true) glue
      → words_by sep [] (glue ++ rest) ≡ words_by sep [] rest
  unfolding words_by
  words_by-glue [] rest h = refl
  words_by-glue (c ∷ glue) rest (h, hs) = rw h (words_by-glue glue rest hs)

  words_by_sep :
      (w : List ℕ) (c : ℕ) (t : List ℕ)
      → sep c ≡ true
      → words_by sep w (c ∷ t) ≡ push_word w (words_by sep [] t)
  unfolding words_by
  words_by_sep w c t h = rw h

  push_word_ne : (w : List ℕ) (ws : List (List ℕ)) → w ≢ [] → push_word w ws ≡ w ∷ ws
  push_word_ne [] ws h = absurd (h refl)
  push_word_ne (a ∷ w) ws h = refl

  -- Cutting what has been joined with separators gives the parts back.
  pub words_by-join :
      (g : ℕ) (glue : List ℕ) (ws : List (List ℕ))
      → sep g ≡ true
      → All (λ c. sep c ≡ true) glue
      → All (IsWord sep) ws
      → words_by sep [] (join (g ∷ glue) ws) ≡ ws
  unfolding join
  words_by-join g glue [] h k a = unfold words_by in refl
  words_by-join g glue (w ∷ []) h k (a, u) =
      ap (words_by sep []) (sym (append-nil w))
      ∙ words_by-append [] w [] a.1
      ∙ (unfold words_by in push_word_ne w [] a.0)
  words_by-join g glue (w ∷ v ∷ ws) h k (a, b) =
      words_by-append [] w _ a.1
      ∙ words_by_sep w g _ h
      ∙ push_word_ne w _ a.0
      ∙ ap (λ x. w ∷ x) (words_by-glue glue _ k ∙ words_by-join g glue (v ∷ ws) h k b)
