-- ===== src/Markup/Inert.antt =====
-- How a browser reads what the `html` tag of console.js makes of a template and its values.
use certadillo.Prelude.{ℕ, [], ◌∷◌, ◌++◌, ◌≡◌, ◌≢◌, refl, ap, ◌∙◌, append_assoc, arith}
use certadillo.Markup.Lexer.{State, content, tag, quoted, apostrophed, lex, lex_all, lex_all-append}
use certadillo.Markup.{
  Text, esc_unit, esc_text, Value, text, missing, safe, array, Values, nil, cons, part, parts,
  Holes, fill, html,
}

esc_unit_lem : (s : State) (c : ℕ) → s ≢ tag → lex_all s (esc_unit c) ≡ s
unfolding lex_all lex esc_unit
esc_unit_lem content c h = ground arith
esc_unit_lem tag c h = absurd (h refl)
esc_unit_lem quoted c h = ground arith
esc_unit_lem apostrophed c h = ground arith

-- Whatever the text, its escaped form ends in the state in which it begins, within content and
-- within the quotes of an attribute.
pub lex_all-esc_text : (s : State) (t : Text) → s ≢ tag → lex_all s (esc_text t) ≡ s
unfolding esc_text
lex_all-esc_text s [] h = unfold lex_all in refl
lex_all-esc_text s (c ∷ t) h = rw (lex_all-append, esc_unit_lem s c h) (lex_all-esc_text s t h)

-- A value fits a state: a string anywhere but in the open of a tag, markup where it leaves the
-- state, an array if all its elements fit.
unfoldable mutual
  pub Fits : State → Value → Type 0
  Fits s (text t) = s ≢ tag
  Fits s missing = Unit
  Fits s (safe t) = lex_all s t ≡ s
  Fits s (array vs) = FitsAll s vs

  pub FitsAll : State → Values → Type 0
  FitsAll s nil = Unit
  FitsAll s (cons v vs) = Fits s v × FitsAll s vs

mutual
  unfolding Fits part lex_all

  lex_part : (s : State) (v : Value) → Fits s v → lex_all s (part v) ≡ s
  lex_part s (text t) h = lex_all-esc_text s t h
  lex_part s missing h = refl
  lex_part s (safe t) h = h
  lex_part s (array vs) h = lex_parts s vs h

  lex_parts : (s : State) (vs : Values) → FitsAll s vs → lex_all s (parts vs) ≡ s
  lex_parts s nil h = refl
  lex_parts s (cons v vs) h =
      lex_all-append s (part v) (parts vs)
      ∙ ap (λ x. lex_all x (parts vs)) (lex_part s v h.0)
      ∙ lex_parts s vs h.1

-- Every value of a template fits the state in which its place is read.
unfoldable pub FitsHoles : State → Text → Holes → Type 0
unfolding Fits lex_all
FitsHoles s first [] = Unit
FitsHoles s first ((v, t) ∷ more) = Fits (lex_all s first) v × FitsHoles (lex_all s first) t more

-- The strings of a template alone.
unfoldable pub strings_of : Text → Holes → Text
strings_of first [] = first
strings_of first ((v, t) ∷ more) = first ++ strings_of t more

fill-append :
    (out first : Text) (holes : Holes) → fill (out ++ first) holes ≡ out ++ fill first holes
unfolding fill
fill-append out first [] = refl
fill-append out first ((v, t) ∷ more) =
    rw (append_assoc out first (part v ++ t)) (fill-append out (first ++ (part v ++ t)) more)

-- The first value and the strings round it come before the rest.
pub fill-cons :
    (first t : Text) (v : Value) (more : Holes)
    → fill first ((v, t) ∷ more) ≡ first ++ (part v ++ fill t more)
unfolding fill
fill-cons first t v more =
    fill-append first (part v ++ t) more ∙ ap (λ u. first ++ u) (fill-append (part v) t more)

lex_fill :
    (s : State) (first : Text) (holes : Holes)
    → FitsHoles s first holes
    → lex_all s (fill first holes) ≡ lex_all s (strings_of first holes)
unfolding FitsHoles strings_of
lex_fill s first [] h = unfold fill in refl
lex_fill s first ((v, t) ∷ more) (fits, rest) =
    rw
      (fill-cons, lex_all-append, lex_all-append, lex_part (lex_all s first) v fits, lex_all-append)
      (lex_fill (lex_all s first) t more rest)

-- After a template of the `html` tag whose values fit their places, a browser's reader is where it would
-- be after the strings of the template alone: inside the same tag or quote, or in none.
pub html-inert :
    (s : State) (first : Text) (holes : Holes)
    → FitsHoles s first holes
    → (out : Text) × (html first holes ≡ safe out)
      × (lex_all s out ≡ lex_all s (strings_of first holes))
unfolding html
html-inert s first holes h = (fill first holes, refl, lex_fill s first holes h)
