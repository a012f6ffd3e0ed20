-- ===== src/Kb/Laws/Paging.antt =====
-- The pager of kb-src/kb-app.js.
use certadillo.Prelude.{
  ℕ, zero, suc, ◌+◌, ◌≤◌, ◌<◌, ◌≡◌, Bool, true, false, List, Option, none, some, get_elem?,
  get_elem?-some, length, arith, Option-cases, Bool-cases, inl, inr, lt-length_of_get_elem?,
  length-le_of_get_elem?,
}
use native.Mathlib.Decide.{ℕ_discrete}
use certadillo.Kb.Page.{Page}
use certadillo.Kb.Pager.{is_hidden, prev_from, next_from, next_of}

-- All pages from `j` up to, and without, `k` are hidden.
abbrev pub HiddenBetween : List Page → ℕ → ℕ → Type 0
HiddenBetween ps j k = (i : ℕ) → j ≤ i → i < k → is_hidden ps i ≡ true

-- What the link before `i` is: the nearest page below that is shown, or none if none is.
pub data PrevOf (ps : List Page) (i : ℕ) : Option ℕ → Type 0 where
  no_prev : HiddenBetween ps 0 i → PrevOf ps i none
  prev_at :
      (j : ℕ) → j < i → is_hidden ps j ≡ false → HiddenBetween ps (suc j) i → PrevOf ps i (some j)

-- What the link behind `i` is.
pub data NextOf (ps : List Page) (i : ℕ) : Option ℕ → Type 0 where
  no_next : HiddenBetween ps (suc i) (length ps) → NextOf ps i none
  next_at :
      (j : ℕ)
      → i < j
      → j < length ps
      → is_hidden ps j ≡ false
      → HiddenBetween ps (suc i) j
      → NextOf ps i (some j)

HiddenBetween-suc :
    (ps : List Page) (j k : ℕ)
    → is_hidden ps k ≡ true
    → HiddenBetween ps j k
    → HiddenBetween ps j (suc k)
HiddenBetween-suc ps j k h b i l u = elim (ℕ_discrete i k) [
  | yes e ↦ rw e h
  | no e ↦ b i l (omega arith)
]

HiddenBetween-pred :
    (ps : List Page) (j k : ℕ)
    → is_hidden ps j ≡ true
    → HiddenBetween ps (suc j) k
    → HiddenBetween ps j k
HiddenBetween-pred ps j k h b i l u = elim (ℕ_discrete i j) [
  | yes e ↦ rw e h
  | no e ↦ b i (omega arith) u
]

PrevOf-suc :
    (ps : List Page) (i : ℕ) (o : Option ℕ)
    → is_hidden ps i ≡ true
    → PrevOf ps i o
    → PrevOf ps (suc i) o
PrevOf-suc ps i _ h (no_prev b) = no_prev (HiddenBetween-suc ps 0 i h b)
PrevOf-suc ps i _ h (prev_at j l s b) =
    prev_at j (omega arith) s (HiddenBetween-suc ps (suc j) i h b)

NextOf-pred :
    (ps : List Page) (i : ℕ) (o : Option ℕ)
    → is_hidden ps (suc i) ≡ true
    → NextOf ps (suc i) o
    → NextOf ps i o
NextOf-pred ps i _ h (no_next b) = no_next (HiddenBetween-pred ps (suc i) (length ps) h b)
NextOf-pred ps i _ h (next_at j l u s b) =
    next_at j (omega arith) u s (HiddenBetween-pred ps (suc i) j h b)

is_hidden_lem :
    (ps : List Page) (i : ℕ) {p : Page}
    → get_elem? ps i ≡ some p
    → (b : Bool) → p.hidden ≡ b
    → is_hidden ps i ≡ b
is_hidden_lem ps i e b h = rw (e, is_hidden) h

pub prev_from-PrevOf : (ps : List Page) (i : ℕ) → i ≤ length ps → PrevOf ps i (prev_from ps i)
unfolding prev_from
prev_from-PrevOf ps zero h = no_prev (λ i l u. absurd (omega arith))
prev_from-PrevOf ps (suc i) h =
    let (p, e) = get_elem?-some ps i h in
    let ih = prev_from-PrevOf ps i (omega arith) in
    elim (Bool-cases p.hidden) [
      | inl hid ↦
          rw (e, prev_from)
            (simp hid (PrevOf-suc ps i (prev_from ps i) (is_hidden_lem ps i e true hid) ih))
      | inr shown ↦
          rw (e, prev_from)
            (simp shown (
              prev_at i (omega arith) (is_hidden_lem ps i e false shown)
                (λ k l u. absurd (omega arith))))
    ]

next_from-NextOf :
    (rounds : ℕ) (ps : List Page) (i : ℕ)
    → length ps ≤ suc i + rounds
    → NextOf ps i (next_from rounds ps i)
unfolding next_from
next_from-NextOf zero ps i h = no_next (λ k l u. absurd (omega arith))
next_from-NextOf (suc rounds) ps i h =
    let ih = next_from-NextOf rounds ps (suc i) (omega arith) in
    elim (Option-cases (get_elem? ps (suc i))) [
      | inl out ↦
          rw (out, next_from)
            (no_next (λ k l u. absurd (omega (arith, length-le_of_get_elem? ps (suc i) out))))
      | inr (p, e) ↦ elim (Bool-cases p.hidden) [
        | inl hid ↦
            rw (e, next_from)
              (simp hid (
                NextOf-pred ps i (next_from rounds ps (suc i)) (is_hidden_lem ps (suc i) e true hid)
                  ih))
        | inr shown ↦
            rw (e, next_from)
              (simp shown (
                next_at (suc i) (omega arith) (lt-length_of_get_elem? ps (suc i) e)
                  (is_hidden_lem ps (suc i) e false shown) (λ k l u. absurd (omega arith))))
      ]
    ]

-- The pager of the page at `i` leads to the nearest pages before and behind it that are not hidden,
-- and shows no link on a side where all are hidden; the rounds of the second loop are enough.
pub pager_lem :
    (ps : List Page) (i : ℕ)
    → i < length ps
    → PrevOf ps i (prev_from ps i) × NextOf ps i (next_of ps i)
unfolding next_of
pager_lem ps i h =
    (prev_from-PrevOf ps i (omega arith), next_from-NextOf (length ps) ps i (omega arith))
