-- ===== src/Markup/Tags.antt =====
-- How a browser reads markup into tags, as far as the templates of console.js use it: each tag with
-- its attributes, the values of these left out. It knows nothing of the escaping.
use certadillo.Prelude.{
  ℕ, Bool, true, false, List, [], ◌∷◌, ◌++◌, reverse, ◌≡◌, refl, ◌==◌, all, arith, if◌then◌else◌,
}
use certadillo.Markup.Lexer.{State, content, tag, quoted, apostrophed}
use certadillo.Markup.{
  Text, esc_unit, esc_text, Value, text, missing, safe, array, Values, nil, cons, part, Holes, fill,
  html,
}
use certadillo.Markup.Inert.{fill-cons}

-- What has been read: the tag that is open, backwards, and the tags that are closed, the last first.
pub record Reader : Type 0 where
  pub state : State
  pub opened : Text
  pub tags : List Text

abbrev keep_unit : ℕ → State → Reader → Reader
keep_unit c s r = record { state = s; opened = c ∷ r.opened; tags = r.tags }

abbrev move : State → Reader → Reader
move s r = record { state = s; opened = r.opened; tags = r.tags }

abbrev close : Reader → Reader
close r = record { state = content; opened = []; tags = reverse r.opened ∷ r.tags }

abbrev read_in : State → ℕ → Reader → Reader
read_in content c r = if c == b'<' then move tag r else r
read_in tag c r =
    if c == b'>'
    then close r
    else if c == b'"'
    then keep_unit c quoted r
    else if c == b'\''
    then keep_unit c apostrophed r
    else keep_unit c tag r
read_in quoted c r = if c == b'"' then keep_unit c tag r else r
read_in apostrophed c r = if c == b'\'' then keep_unit c tag r else r

unfoldable pub read : Reader → ℕ → Reader
read r c = read_in r.state c r

unfoldable pub read_all : Reader → Text → Reader
unfolding read
read_all r [] = r
read_all r (c ∷ t) = read_all (read r c) t

pub read_all-append : (r : Reader) (t u : Text) → read_all r (t ++ u) ≡ read_all (read_all r t) u
unfolding read_all
read_all-append r [] u = refl
read_all-append r (c ∷ t) u = read_all-append (read r c) t u

abbrev pub in_tag : State → Bool
in_tag tag = true
in_tag _ = false

read-esc_unit :
    (s : State) (o : Text) (ts : List Text) (c : ℕ)
    → in_tag s ≡ false
    → read_all (record { state = s; opened = o; tags = ts }) (esc_unit c)
      ≡ record { state = s; opened = o; tags = ts }
unfolding read_all read esc_unit
read-esc_unit content o ts c h = ground arith
read-esc_unit tag o ts c h = cc
read-esc_unit quoted o ts c h = ground arith
read-esc_unit apostrophed o ts c h = ground arith

pub read-esc_text : (r : Reader) (t : Text) → in_tag r.state ≡ false → read_all r (esc_text t) ≡ r
unfolding esc_text
read-esc_text r [] h = unfold read_all in refl
read-esc_text r (c ∷ t) h =
    rw (read_all-append, read-esc_unit r.state r.opened r.tags c h) (read-esc_text r t h)

abbrev pub at_content : List Text → Reader
at_content ts = record { state = content; opened = []; tags = ts }

module _ (ok : Text → Bool) where
  -- Read in content, the value leaves the reader in content, and closes tags that are `ok` alone.
  unfoldable pub Safe : Value → Type 0
  Safe v =
      (ts : List Text)
      → all ok ts ≡ true
      → (us : List Text) × (all ok us ≡ true) × (read_all (at_content ts) (part v) ≡ at_content us)

  -- The rest of a template can be read: texts outside of the open of a tag, safe values in content.
  pub data Reads : Reader → Holes → Type 0 where
    done : {r : Reader} (ts : List Text) → r ≡ at_content ts → all ok ts ≡ true → Reads r []
    by_text :
        {r : Reader} {t s : Text} {more : Holes}
        → in_tag r.state ≡ false
        → Reads (read_all r s) more
        → Reads r ((text t, s) ∷ more)
    by_value :
        {r : Reader} {v : Value} {s : Text} {more : Holes} (ts : List Text)
        → r ≡ at_content ts
        → Safe v
        → all ok ts ≡ true
        → ((us : List Text) → all ok us ≡ true → Reads (read_all (at_content us) s) more)
        → Reads r ((v, s) ∷ more)
    -- a word or nothing, as in `${locked ? html`checked` : ""}`, also in the open of a tag
    by_word :
        (c : Bool) (m : Text) {r : Reader} {s : Text} {more : Holes}
        → Reads (read_all (read_all r m) s) more
        → Reads (read_all r s) more
        → Reads r ((if c then html m [] else text [], s) ∷ more)

  -- Where the reader ends.
  unfoldable Ends : Reader → Type 0
  Ends r = (us : List Text) × (all ok us ≡ true) × (r ≡ at_content us)

  Reads-fill :
      (r : Reader) (first : Text) (holes : Holes)
      → Reads (read_all r first) holes
      → Ends (read_all r (fill first holes))
  unfolding fill html Ends part Safe
  Reads-fill r first [] (done ts e h) = (ts, h, e)
  Reads-fill r first ((text t, s) ∷ more) (by_text out d) =
      rw (fill-cons, read_all-append, read_all-append, read-esc_text (read_all r first) t out)
        (Reads-fill (read_all r first) s more d)
  Reads-fill r first ((v, s) ∷ more) (by_value ts e safe_v h d) =
      let (us, k, ev) = safe_v ts h in
      rw (fill-cons, read_all-append, e, read_all-append, ev)
        (Reads-fill (at_content us) s more (d us k))
  Reads-fill r first ((_, s) ∷ more) (by_word true m with_word without) =
      rw (fill-cons, read_all-append, read_all-append)
        (Reads-fill (read_all (read_all r first) m) s more with_word)
  Reads-fill r first ((_, s) ∷ more) (by_word false m with_word without) =
      rw (fill-cons, read_all-append) (Reads-fill (read_all r first) s more without)

  pub html-Safe :
      (first : Text) (holes : Holes)
      → ((ts : List Text) → all ok ts ≡ true → Reads (read_all (at_content ts) first) holes)
      → Safe (html first holes)
  unfolding html part Safe Ends
  html-Safe first holes d ts h = Reads-fill (at_content ts) first holes (d ts h)

  pub text-Safe : (t : Text) → Safe (text t)
  unfolding part Safe
  text-Safe t ts h = (ts, h, read-esc_text (at_content ts) t refl)

  pub missing-Safe : Safe missing
  unfolding part Safe read_all
  missing-Safe ts h = (ts, h, refl)

  pub if-Safe : (c : Bool) (v w : Value) → Safe v → Safe w → Safe (if c then v else w)
  if-Safe true v w h k = h
  if-Safe false v w h k = k

  pub nil-Safe : Safe (array nil)
  unfolding part Safe read_all
  nil-Safe ts h = (ts, h, refl)

  pub cons-Safe : (v : Value) (vs : Values) → Safe v → Safe (array vs) → Safe (array (cons v vs))
  unfolding part Safe
  cons-Safe v vs h k ts g =
      let (us, gu, e) = h ts g in let (ws, gw, e') = k us gu in (ws, gw, rw (read_all-append, e) e')

-- `html` of a string that has no value in it.
abbrev pub only : Text → Value
only t = html t []

-- `rows.map(f)`.
unfoldable pub map_values {ℓ} : {A : Type ℓ} → (A → Value) → List A → Values
map_values f [] = nil
map_values f (x ∷ xs) = cons (f x) (map_values f xs)

pub map_values-Safe {ℓ} :
    {A : Type ℓ} (ok : Text → Bool) (f : A → Value) (xs : List A)
    → ((x : A) → Safe ok (f x))
    → Safe ok (array (map_values f xs))
unfolding map_values
map_values-Safe ok f [] h = nil-Safe ok
map_values-Safe ok f (x ∷ xs) h =
    cons-Safe ok (f x) (map_values f xs) (h x) (map_values-Safe ok f xs h)

-- What the `html` tag has made.
unfoldable pub IsHtml : Value → Type 0
IsHtml v = (t : Text) × (v ≡ safe t)

pub html-IsHtml : (first : Text) (holes : Holes) → IsHtml (html first holes)
unfolding html IsHtml
html-IsHtml first holes = (fill first holes, refl)

pub if-IsHtml : (c : Bool) (v w : Value) → IsHtml v → IsHtml w → IsHtml (if c then v else w)
if-IsHtml true v w h k = h
if-IsHtml false v w h k = k
