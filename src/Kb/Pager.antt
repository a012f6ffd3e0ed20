-- ===== src/Kb/Pager.antt =====
-- The links to the previous and the next page, in `render` of kb-src/kb-app.js. A page's `index` is
-- its place in the list.
use certadillo.Prelude.{
  ℕ, zero, suc, Bool, false, List, Option, none, some, get_elem?, length, if◌then◌else◌,
}
use certadillo.Kb.Page.{Page}

-- `pages[i].hidden`, for a page that is there.
abbrev pub is_hidden : List Page → ℕ → Bool
is_hidden ps i = elim (get_elem? ps i) [ none ↦ false | some p ↦ p.hidden ]

-- `while (prev && prev.hidden) prev = pages[prev.index - 1];` below the place `i`.
unfoldable pub prev_from : List Page → ℕ → Option ℕ
prev_from ps zero = none
prev_from ps (suc i) =
    let lower = prev_from ps i in
    elim (get_elem? ps i) [ none ↦ none | some p ↦ if p.hidden then lower else some i ]

-- `while (next && next.hidden) next = pages[next.index + 1];` above the place `i`, in at most
-- `rounds` rounds.
unfoldable pub next_from : ℕ → List Page → ℕ → Option ℕ
next_from zero ps i = none
next_from (suc rounds) ps i =
    let higher = next_from rounds ps (suc i) in
    elim (get_elem? ps (suc i)) [ none ↦ none | some p ↦ if p.hidden then higher else some (suc i) ]

-- There are as many rounds as pages.
unfoldable pub next_of : List Page → ℕ → Option ℕ
unfolding next_from
next_of ps i = next_from (length ps) ps i
