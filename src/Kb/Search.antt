-- ===== src/Kb/Search.antt =====
-- The search box of kb-src/kb-app.js. A text is the list of its UTF-16 units, in lower case.
use certadillo.Prelude.{
  ℕ, zero, suc, ◌+◌, ◌-◌, ◌*◌, Bool, not, List, [], ◌∷◌, map, filter, take, Option, none, some,
  length, ltb, ◌==◌, if◌then◌else◌,
}
use certadillo.Words.{is_space, trim, words_by, strip, has_word}
use certadillo.Kb.Page.{Page}

-- `text.split(w).length - 1`: how often `w`, which is not empty, occurs side by side. The second
-- argument is how many units of an occurrence are still to be passed.
unfoldable pub occurrences : List ℕ → ℕ → List ℕ → ℕ
unfolding strip
occurrences w skip [] = 0
occurrences w (suc skip) (c ∷ t) = occurrences w skip t
occurrences w zero (c ∷ t) =
    let here = 1 + occurrences w (length w - 1) t in
    let later = occurrences w 0 t in elim (strip w (c ∷ t)) [ none ↦ later | some _ ↦ here ]

-- What the words that occur add, and how many words do not occur: the score of the source is the
-- first number less a thousand for each of the second.
unfoldable pub score : Page → List (List ℕ) → ℕ × ℕ
unfolding occurrences has_word
score p [] = (0, 0)
score p (w ∷ ws) =
    let (gained, missed) = score p ws in
    let n = occurrences w 0 p.words in
    (n + (if has_word w p.title_words then 20 else 0) + gained, (if n == 0 then 1 else 0) + missed)

pub record Hit : Type 0 where
  pub page : Page
  pub gained : ℕ
  pub missed : ℕ

-- `score > 0`.
abbrev pub is_hit : Hit → Bool
is_hit h = ltb (h.missed * 1000) h.gained

-- `b.score - a.score > 0`, that is, `b` before `a`.
abbrev pub outranks : Hit → Hit → Bool
outranks b a = ltb (a.gained + b.missed * 1000) (b.gained + a.missed * 1000)

-- `sort` keeps the order of hits with one score.
unfoldable pub place : Hit → List Hit → List Hit
place h [] = h ∷ []
place h (k ∷ ks) = if outranks h k then h ∷ k ∷ ks else k ∷ place h ks

unfoldable pub rank : List Hit → List Hit → List Hit
unfolding place
rank [] sorted = sorted
rank (h ∷ hs) sorted = rank hs (place h sorted)

abbrev pub hit_of : List (List ℕ) → Page → Hit
hit_of ws p = record { page = p; gained = (score p ws).0; missed = (score p ws).1 }

-- The hits that are listed, for the words of a query: the best eight of the pages that are not hidden.
unfoldable pub hits : List Page → List (List ℕ) → List Hit
unfolding score rank
hits ps ws = take 8 (rank (filter is_hit (map (hit_of ws) (filter (λ p. not p.hidden) ps))) [])

-- `search`: `none` hides the list. The words are `q.split(/\s+/)` of a query that is trimmed. `lower` is `toLowerCase`.
unfoldable pub search_pages : (List ℕ → List ℕ) → List Page → List ℕ → Option (List Hit)
unfolding trim words_by hits
search_pages lower ps q =
    let query = lower (trim q) in
    if ltb (length query) 2 then none else some (hits ps (words_by is_space [] query))
