-- ===== src/Console/Rules/Adding.antt =====
-- The button of console.js that adds a rule.
use text.Mathlib.TextEquality.{eq_iff}
use certadillo.Prelude.{
  String, true, false, List, [], ◌∷◌, ◌++◌, map, Option, none, some, ◌≡◌, refl, ◌⊎◌, inl, inr, All,
  arith, Bool-cases,
}
use certadillo.Console.Rules.{
  Row, field_of, is_setting, selected, has_row, unused, key_or, redrawn, add_row,
}

-- The row can stand in the table as it is.
abbrev pub Fits : List String → Row → Type 0
Fits settings r = (is_setting r.key settings ≡ true) × (field_of r.raw ≡ r.raw)

redrawn_lem :
    (settings : List String) (rows : List Row)
    → All (Fits settings) rows
    → map (redrawn settings) rows ≡ rows
redrawn_lem settings [] h = refl
redrawn_lem settings (r ∷ rows) ((k, f), hs) = rw (k, f, redrawn_lem settings rows hs) refl

-- A setting that has no row, or no setting is without one.
abbrev FoundIn : List String → List Row → Option String → Type 0
FoundIn settings rows (some k) = (is_setting k settings ≡ true) × (has_row k rows ≡ false)
FoundIn settings rows none = All (λ k. has_row k rows ≡ true) settings

found_more :
    (k : String) (settings : List String) (rows : List Row) (o : Option String)
    → has_row k rows ≡ true
    → FoundIn settings rows o
    → FoundIn (k ∷ settings) rows o
found_more k settings rows none e h = (e, h)
found_more k settings rows (some j) e (i, n) = (ground arith, n)

first_setting : (k : String) (settings : List String) → is_setting k (k ∷ settings) ≡ true
first_setting k settings = ground (arith, eq_iff k k)

unused_lem :
    (settings : List String) (rows : List Row) → FoundIn settings rows (unused settings rows)
unfolding unused
unused_lem [] rows = tt
unused_lem (k ∷ settings) rows = elim (Bool-cases (has_row k rows)) [
  | inl e ↦ rw e (found_more k settings rows (unused settings rows) e (unused_lem settings rows))
  | inr e ↦ rw e (first_setting k settings, e)
]

-- An empty row for one of the settings has come at the end: for one that had no row, or for the
-- first, where each had one.
abbrev pub Added : String → List String → List Row → List Row → Type 0
Added first more rows out =
    (key : String) × (out ≡ rows ++ record { key = key; raw = []; locked = false } ∷ [])
    × (is_setting key (first ∷ more) ≡ true)
    × ((has_row key rows ≡ false)
        ⊎ ((key ≡ first) × All (λ k. has_row k rows ≡ true) (first ∷ more)))

added_lem :
    (first : String) (more : List String) (rows : List Row)
    → All (Fits (first ∷ more)) rows
    → (o : Option String) → FoundIn (first ∷ more) rows o
    → Added first more rows (
        map (redrawn (first ∷ more)) rows
        ++ record {
          key = selected (first ∷ more) (key_or o (first ∷ more));
          raw = [];
          locked = false;
        }
          ∷ [])
added_lem first more rows h none all_there = (
  first,
  rw (redrawn_lem (first ∷ more) rows h, first_setting first more) refl,
  first_setting first more,
  inr (refl, all_there),
)
added_lem first more rows h (some k) (there, new) =
    (k, rw (redrawn_lem (first ∷ more) rows h, there) refl, there, inl new)

-- A click keeps the rows that the table can hold, and adds an empty row that is not locked: for a
-- setting that has no row, or, where each of them has one, for the first. There are settings.
pub add_row_lem :
    (first : String) (more : List String) (rows : List Row)
    → All (Fits (first ∷ more)) rows
    → Added first more rows (add_row (first ∷ more) rows)
unfolding add_row
add_row_lem first more rows h =
    added_lem first more rows h (unused (first ∷ more) rows) (unused_lem (first ∷ more) rows)
