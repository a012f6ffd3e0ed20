-- ===== src/Console/Rules/Reading.antt =====
-- What the editor of console.js reads out of its rows, and which row it complains about.
use text.Mathlib.TextEquality.{eq_iff}
use certadillo.Prelude.{
  String, Bool, true, false, List, [], ◌∷◌, ◌++◌, Option, none, some, ◌≡◌, refl, ap, ◌∙◌, sym, All,
  arith, str_eq, if◌then◌else◌, inl, inr, ◌⊎◌,
}
use certadillo.Prelude.Int.{ℤ}
use certadillo.Markup.{Text}
use certadillo.Console.Rules.{Rule, Row, RuleError, Result, ok, err, put_rule, read_row, read_rules}

-- The rule of a key.
unfoldable pub find_rule : String → List (String × Rule) → Option Rule
find_rule key [] = none
find_rule key ((k, r) ∷ out) = if str_eq k key then some r else find_rule key out

abbrev rule_of : Result Rule → Option Rule
rule_of (ok r) = some r
rule_of (err e) = none

abbrev later_or : Option Rule → Option Rule → Option Rule
later_or (some r) old = some r
later_or none old = old

module _ (lower : Text → Text) (whole : Text → Option ℤ) where
  -- What the last row of a key says.
  unfoldable pub last_rule : String → List Row → Option Rule
  last_rule key [] = none
  last_rule key (r ∷ rows) =
      later_or (last_rule key rows)
        (if str_eq r.key key then rule_of (read_row lower whole r) else none)

  -- The row can be read.
  abbrev pub Reads : Row → Type 0
  Reads r = (rule : Rule) × (read_row lower whole r ≡ ok rule)

  -- All rows are read, and each key has the rule of its last row; or the error is that of the first
  -- row that cannot be read.
  abbrev pub ReadsAs : List Row → Result (List (String × Rule)) → Type 0
  ReadsAs rows (ok out) = All Reads rows × ((key : String) → find_rule key out ≡ last_rule key rows)
  ReadsAs rows (err e) =
      (before : List Row) × (r : Row) × (after : List Row) × (rows ≡ before ++ r ∷ after)
      × All Reads before
      × (read_row lower whole r ≡ err e)

later_or_lem :
    (last : Option Rule) (c : Bool) (rule : Rule) (old : Option Rule)
    → later_or last (if c then some rule else old)
      ≡ later_or (later_or last (if c then some rule else none)) old
later_or_lem (some l) c rule old = refl
later_or_lem none true rule old = refl
later_or_lem none false rule old = refl

later_or-none : (last : Option Rule) → later_or last none ≡ last
later_or-none none = refl
later_or-none (some r) = refl

Result-cases :
    {A : Type 0} (o : Result A) → ((a : A) × (o ≡ ok a)) ⊎ ((e : RuleError) × (o ≡ err e))
Result-cases (ok a) = inl (a, refl)
Result-cases (err e) = inr (e, refl)

find_rule-put_rule :
    (key k : String) (rule : Rule) (out : List (String × Rule))
    → find_rule key (put_rule k rule out) ≡ (if str_eq k key then some rule else find_rule key out)
unfolding find_rule put_rule
find_rule-put_rule key k rule [] = refl
find_rule-put_rule key k rule ((j, r) ∷ out) =
    ground (arith, eq_iff j k, eq_iff j key, eq_iff k key, find_rule-put_rule key k rule out)

module _ (lower : Text → Text) (whole : Text → Option ℤ) where
  -- The same for rows that are read after `old`.
  abbrev ReadsOn : List (String × Rule) → List Row → Result (List (String × Rule)) → Type 0
  ReadsOn old rows (ok out) =
      All (Reads lower whole) rows
      × ((key : String)
          → find_rule key out ≡ later_or (last_rule lower whole key rows) (find_rule key old))
  ReadsOn old rows (err e) =
      (before : List Row) × (r : Row) × (after : List Row) × (rows ≡ before ++ r ∷ after)
      × All (Reads lower whole) before
      × (read_row lower whole r ≡ err e)

  read_on :
      (r : Row) (rows : List Row) (old : List (String × Rule)) (rule : Rule)
      (o : Result (List (String × Rule)))
      → read_row lower whole r ≡ ok rule
      → ReadsOn (put_rule r.key rule old) rows o
      → ReadsOn old (r ∷ rows) o
  unfolding last_rule
  read_on r rows old rule (ok out) e (reads, found) = (
    ((rule, e), reads),
    λ key.
        found key
        ∙ ap (later_or (last_rule lower whole key rows)) (find_rule-put_rule key r.key rule old)
        ∙ later_or_lem (last_rule lower whole key rows) (str_eq r.key key) rule (find_rule key old)
        ∙ ap
            (λ o.
              later_or
                (later_or (last_rule lower whole key rows) (if str_eq r.key key then o else none))
                (find_rule key old))
            (sym (ap rule_of e)),
  )
  read_on r rows old rule (err x) e (before, bad, after, split, reads, error) =
      (r ∷ before, bad, after, ap (λ l. r ∷ l) split, ((rule, e), reads), error)

  read_rules-ReadsOn :
      (rows : List Row) (old : List (String × Rule))
      → ReadsOn old rows (read_rules lower whole rows old)
  unfolding read_rules last_rule
  read_rules-ReadsOn [] old = (tt, λ key. refl)
  read_rules-ReadsOn (r ∷ rows) old = elim (Result-cases (read_row lower whole r)) [
    | inl (rule, e) ↦ rw e (
        read_on r rows old rule (read_rules lower whole rows (put_rule r.key rule old)) e
          (read_rules-ReadsOn rows (put_rule r.key rule old)))
    | inr (x, e) ↦ rw e ([], r, rows, refl, tt, e)
  ]

  ReadsAs-ReadsOn :
      (rows : List Row) (o : Result (List (String × Rule)))
      → ReadsOn [] rows o
      → ReadsAs lower whole rows o
  unfolding find_rule
  ReadsAs-ReadsOn rows (ok out) (reads, found) =
      (reads, λ key. found key ∙ later_or-none (last_rule lower whole key rows))
  ReadsAs-ReadsOn rows (err e) h = h

  -- If every row of the editor can be read, each key has the rule of its last row, and no other key
  -- has one. Otherwise nothing is saved, and the error is that of the first row that cannot be read.
  pub read_rules-ReadsAs :
      (rows : List Row) → ReadsAs lower whole rows (read_rules lower whole rows [])
  read_rules-ReadsAs rows =
      ReadsAs-ReadsOn rows (read_rules lower whole rows []) (read_rules-ReadsOn rows [])
