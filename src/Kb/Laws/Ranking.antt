-- ===== src/Kb/Laws/Ranking.antt =====
-- The search results of kb-src/kb-app.js.
use certadillo.Prelude.{
  ℕ, zero, suc, ◌≤◌, ◌≡◌, refl, true, false, not, List, [], ◌∷◌, map, filter, take, length, All,
  arith, Bool-cases, inl, inr, All-filter, All-every,
}
use certadillo.Kb.Page.{Page}
use certadillo.Kb.Search.{Hit, is_hit, outranks, place, rank, hit_of, hits}

-- No hit outranks one that stands before it.
abbrev pub IsRanked : List Hit → Type 0
IsRanked [] = Unit
IsRanked (h ∷ hs) = All (λ k. outranks k h ≡ false) hs × IsRanked hs

module _ (P : Hit → Type 0) where
  All-place : (h : Hit) (hs : List Hit) → P h → All P hs → All P (place h hs)
  unfolding place
  All-place h [] p ps = (p, tt)
  All-place h (k ∷ ks) p (q, ps) = elim (Bool-cases (outranks h k)) [
    | inl e ↦ rw e (p, (q, ps))
    | inr e ↦ rw e (q, All-place h ks p ps)
  ]

  All-rank : (hs sorted : List Hit) → All P hs → All P sorted → All P (rank hs sorted)
  unfolding rank
  All-rank [] sorted ps qs = qs
  All-rank (h ∷ hs) sorted (p, ps) qs = All-rank hs (place h sorted) ps (All-place h sorted p qs)

  All-take : (n : ℕ) (hs : List Hit) → All P hs → All P (take n hs)
  All-take zero hs ps = tt
  All-take (suc n) [] ps = tt
  All-take (suc n) (h ∷ hs) (p, ps) = (p, All-take n hs ps)

above_trans :
    (h k : Hit) (ks : List Hit)
    → outranks h k ≡ true
    → All (λ x. outranks x k ≡ false) ks
    → All (λ x. outranks x h ≡ false) ks
above_trans h k [] e a = tt
above_trans h k (x ∷ ks) e (b, a) = (ground arith, above_trans h k ks e a)

place-IsRanked : (h : Hit) (hs : List Hit) → IsRanked hs → IsRanked (place h hs)
unfolding place
place-IsRanked h [] r = (tt, tt)
place-IsRanked h (k ∷ ks) (a, r) = elim (Bool-cases (outranks h k)) [
  | inl e ↦ rw e ((ground arith, above_trans h k ks e a), (a, r))
  | inr e ↦ rw e (All-place (λ x. outranks x k ≡ false) h ks e a, place-IsRanked h ks r)
]

pub rank-IsRanked : (hs sorted : List Hit) → IsRanked sorted → IsRanked (rank hs sorted)
unfolding rank
rank-IsRanked [] sorted r = r
rank-IsRanked (h ∷ hs) sorted r = rank-IsRanked hs (place h sorted) (place-IsRanked h sorted r)

take-IsRanked : (n : ℕ) (hs : List Hit) → IsRanked hs → IsRanked (take n hs)
take-IsRanked zero hs r = tt
take-IsRanked (suc n) [] r = tt
take-IsRanked (suc n) (h ∷ hs) (a, r) =
    (All-take (λ k. outranks k h ≡ false) n hs a, take-IsRanked n hs r)

-- The hit of a page that is not hidden, with its score for these words above 0.
pub record IsListed (ws : List (List ℕ)) (h : Hit) : Type 0 where
  pub shown : h.page.hidden ≡ false
  pub scored : h ≡ hit_of ws h.page
  pub positive : is_hit h ≡ true

All-map_hit :
    (ws : List (List ℕ)) (ps : List Page)
    → All (λ p. p.hidden ≡ false) ps
    → All (λ h. (h.page.hidden ≡ false) × (h ≡ hit_of ws h.page)) (map (hit_of ws) ps)
All-map_hit ws [] hs = tt
All-map_hit ws (p ∷ ps) (h, hs) = ((h, refl), All-map_hit ws ps hs)

All-IsListed :
    (ws : List (List ℕ)) (ps : List Page)
    → All (IsListed ws) (filter is_hit (map (hit_of ws) (filter (λ p. not p.hidden) ps)))
All-IsListed ws ps =
    All-filter is_hit _ (λ h k e. record { shown = k.0; scored = k.1; positive = e })
      (All-map_hit ws _ (
        All-filter {P = λ p. Unit {0}} (λ p. not p.hidden) ps (λ p u e. ground arith)
          (All-every (λ p. Unit) ps (λ p. tt))))

length-take_le : (n : ℕ) (hs : List Hit) → length (take n hs) ≤ n
length-take_le zero hs = omega arith
length-take_le (suc n) [] = omega arith
length-take_le (suc n) (h ∷ hs) = omega (arith, length-take_le n hs)

-- The search lists at most eight hits, none behind one that it outranks, each of a page that is not
-- hidden and whose score for the words of the query is above 0.
pub hits_lem :
    (ps : List Page) (ws : List (List ℕ))
    → (length (hits ps ws) ≤ 8) × IsRanked (hits ps ws) × All (IsListed ws) (hits ps ws)
unfolding hits
hits_lem ps ws =
    let found = filter is_hit (map (hit_of ws) (filter (λ (p : Page). not p.hidden) ps)) in
    (
      length-take_le 8 (rank found []),
      take-IsRanked 8 (rank found []) (rank-IsRanked found [] tt),
      All-take (IsListed ws) 8 (rank found [])
          (All-rank (IsListed ws) found [] (All-IsListed ws ps) tt),
    )
