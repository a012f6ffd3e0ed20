-- ===== src/Markup/Decode.antt =====
-- How a browser reads the character references that `escText` of console.js writes, as a reader with
-- a buffer that knows nothing of the escaping: `&`, a name, `;`.
use certadillo.Prelude.{
  ℕ, Bool, true, false, ◌&&◌, [], ◌∷◌, ◌++◌, Option, none, some, ◌≡◌, refl, ap, ◌∙◌, arith, codes,
  ◌==◌, if◌then◌else◌,
}
use certadillo.Markup.{Text, esc_unit, esc_text}

abbrev same : Text → Text → Bool
same [] [] = true
same (a ∷ s) (b ∷ t) = a == b && same s t
same _ _ = false

-- The unit that a reference stands for; an unknown one stays as it is.
unfoldable pub resolve : Text → Text
resolve b =
    if same b (codes "amp")
    then b'&' ∷ []
    else if same b (codes "lt")
    then b'<' ∷ []
    else if same b (codes "gt")
    then b'>' ∷ []
    else if same b (codes "quot")
    then b'"' ∷ []
    else if same b (codes "#39")
    then b'\'' ∷ []
    else if same b (codes "#96")
    then b'`' ∷ []
    else b'&' ∷ b ++ b';' ∷ []

-- The second argument is what has been read of a reference.
unfoldable pub decode : Text → Option Text → Text
unfolding resolve
decode [] none = []
decode [] (some b) = b'&' ∷ b
decode (c ∷ t) none =
    let opened = decode t (some []) in
    let plain = c ∷ decode t none in if c == b'&' then opened else plain
decode (c ∷ t) (some b) =
    let closed = resolve b ++ decode t none in
    let longer = decode t (some (b ++ c ∷ [])) in if c == b';' then closed else longer

decode-esc_unit : (c : ℕ) (t : Text) → decode (esc_unit c ++ t) none ≡ c ∷ decode t none
unfolding decode esc_unit
decode-esc_unit c t = ground arith

-- The page shows exactly the text that was escaped.
pub decode-esc_text : (t : Text) → decode (esc_text t) none ≡ t
unfolding esc_text
decode-esc_text [] = unfold decode in refl
decode-esc_text (c ∷ t) = decode-esc_unit c (esc_text t) ∙ ap (λ u. c ∷ u) (decode-esc_text t)
