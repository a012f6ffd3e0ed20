-- ===== src/Markup/Counts.antt =====
-- How many tags of a kind a browser reads a template of console.js as.
use certadillo.Prelude.{
  ℕ, suc, ◌+◌, Bool, true, false, List, [], ◌∷◌, ◌≡◌, refl, sym, ap, ◌∙◌, arith, some,
  if◌then◌else◌,
}
use certadillo.Markup.{Text, Value, text, array, part, Holes, fill, html, render}
use certadillo.Markup.Inert.{fill-cons}
use certadillo.Markup.Tags.{
  Reader, in_tag, at_content, IsHtml, read_all, read_all-append, read-esc_text, map_values,
}

-- How many of the tags are counted.
unfoldable pub count : (Text → Bool) → List Text → ℕ
count p [] = 0
count p (t ∷ ts) = let rest = count p ts in if p t then suc rest else rest

unfoldable pub sum {ℓ} : {A : Type ℓ} → (A → ℕ) → List A → ℕ
sum f [] = 0
sum f (x ∷ xs) = f x + sum f xs

module _ (p : Text → Bool) where
  -- Read in content, the value closes `n` tags that are counted, and leaves the reader in content.
  unfoldable pub Adds : Value → ℕ → Type 0
  Adds v n =
      (ts : List Text)
      → (us : List Text) × (read_all (at_content ts) (part v) ≡ at_content us)
        × (count p us ≡ n + count p ts)

  -- The rest of a template can be read, and comes to `n` tags more than `base`.
  pub data Counts (n : ℕ) (base : List Text) : Reader → Holes → Type 0 where
    done :
        {r : Reader} (us : List Text)
        → r ≡ at_content us
        → count p us ≡ n + count p base
        → Counts n base r []
    by_text :
        {r : Reader} {t s : Text} {more : Holes}
        → in_tag r.state ≡ false
        → Counts n base (read_all r s) more
        → Counts n base r ((text t, s) ∷ more)
    by_value :
        {r : Reader} {v : Value} {s : Text} {more : Holes} (m : ℕ) (ts : List Text)
        → r ≡ at_content ts
        → Adds v m
        → ((us : List Text)
            → count p us ≡ m + count p ts
            → Counts n base (read_all (at_content us) s) more)
        → Counts n base r ((v, s) ∷ more)

  Counts-fill :
      (n : ℕ) (base : List Text) (r : Reader) (first : Text) (holes : Holes)
      → Counts n base (read_all r first) holes
      → (us : List Text) × (read_all r (fill first holes) ≡ at_content us)
        × (count p us ≡ n + count p base)
  unfolding fill part Adds
  Counts-fill n base r first [] (done us e h) = (us, e, h)
  Counts-fill n base r first ((text t, s) ∷ more) (by_text out d) =
      rw (fill-cons, read_all-append, read_all-append, read-esc_text (read_all r first) t out)
        (Counts-fill n base (read_all r first) s more d)
  Counts-fill n base r first ((v, s) ∷ more) (by_value m ts e adds d) =
      let (us, ev, k) = adds ts in
      rw (fill-cons, read_all-append, e, read_all-append, ev)
        (Counts-fill n base (at_content us) s more (d us k))

  pub html-Adds :
      (n : ℕ) (first : Text) (holes : Holes)
      → ((ts : List Text) → Counts n ts (read_all (at_content ts) first) holes)
      → Adds (html first holes) n
  unfolding html part Adds
  html-Adds n first holes d ts = Counts-fill n ts (at_content ts) first holes (d ts)

  pub text-Adds : (t : Text) → Adds (text t) 0
  unfolding part Adds
  text-Adds t ts = (ts, read-esc_text (at_content ts) t refl, omega arith)

  pub if-Adds :
      (c : Bool) (v w : Value) (m n : ℕ)
      → Adds v m
      → Adds w n
      → Adds (if c then v else w) (if c then m else n)
  if-Adds true v w m n h k = h
  if-Adds false v w m n h k = k

  pub map_values-Adds {ℓ} :
      {A : Type ℓ} (f : A → Value) (g : A → ℕ) (xs : List A)
      → ((x : A) → Adds (f x) (g x))
      → Adds (array (map_values f xs)) (sum g xs)
  unfolding map_values sum part Adds read_all
  map_values-Adds f g [] h ts = (ts, refl, omega arith)
  map_values-Adds f g (x ∷ xs) h ts =
      let (us, e, k) = h x ts in
      let (ws, e', k') = map_values-Adds f g xs h us in
      (ws, rw (read_all-append, e) e', omega (arith, k, k'))

module _ (p q : Text → Bool) where
  -- What a browser counts in the markup that `render` writes.
  abbrev pub Shows : Value → ℕ → ℕ → Type 0
  Shows v m n =
      (out : Text) × (tags : List Text) × (render v ≡ some out)
      × (read_all (at_content []) out ≡ at_content tags)
      × (count p tags ≡ m)
      × (count q tags ≡ n)

  pub Adds-Shows : (v : Value) (m n : ℕ) → IsHtml v → Adds p v m → Adds q v n → Shows v m n
  unfolding Adds IsHtml part render count
  Adds-Shows v m n (out, e) h k =
      let (us, read_us, c) = h [] in
      let (ws, read_ws, c') = k [] in
      let same : us ≡ ws = ap (λ (r : Reader). r.tags) (sym read_us ∙ read_ws) in
      let few : count q ws ≡ n = omega (arith, c') in
      (out, us, rw e refl, simp (← read_us) (rw e refl), omega (arith, c), ap (count q) same ∙ few)
