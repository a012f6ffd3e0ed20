-- ===== src/Kb/Laws/Listing.antt =====
-- What the search of kb-src/kb-app.js leaves out.
use certadillo.Prelude.{
  ℕ, zero, suc, ◌≡◌, refl, ◌⊎◌, inl, inr, true, false, not, List, [], ◌∷◌, map, filter, take,
  length, All, In, filter-In, subst, sym, Bool-cases, ap,
}
use certadillo.Kb.Page.{Page}
use certadillo.Kb.Search.{Hit, is_hit, outranks, place, rank, hit_of, hits}
use certadillo.Kb.Laws.Ranking.{IsRanked, rank-IsRanked}

In-map : {A B : Type 0} (f : A → B) (x : A) (xs : List A) → In x xs → In (f x) (map f xs)
In-map f x [] h = h
In-map f x (y ∷ ys) (inl e) = inl (ap f e)
In-map f x (y ∷ ys) (inr h) = inr (In-map f x ys h)

In-place : (x h : Hit) (hs : List Hit) → (x ≡ h) ⊎ In x hs → In x (place h hs)
unfolding place
In-place x h [] i = i
In-place x h (k ∷ ks) i = elim (Bool-cases (outranks h k)) [
  | inl e ↦ rw e i
  | inr e ↦ rw e (elim i [
    | inl same ↦ inr (In-place x h ks (inl same))
    | inr later ↦ elim later [ inl first ↦ inl first | inr rest ↦ inr (In-place x h ks (inr rest)) ]
  ])
]

In-rank : (x : Hit) (hs sorted : List Hit) → In x hs ⊎ In x sorted → In x (rank hs sorted)
unfolding rank
In-rank x [] sorted (inl h) = absurd h
In-rank x [] sorted (inr h) = h
In-rank x (h ∷ hs) sorted (inl (inl e)) =
    In-rank x hs (place h sorted) (inr (In-place x h sorted (inl e)))
In-rank x (h ∷ hs) sorted (inl (inr i)) = In-rank x hs (place h sorted) (inl i)
In-rank x (h ∷ hs) sorted (inr i) =
    In-rank x hs (place h sorted) (inr (In-place x h sorted (inr i)))

-- A hit is among the first `n`, or there are `n` and it outranks none of them.
abbrev Placed : ℕ → Hit → List Hit → Type 0
Placed n x hs = In x hs ⊎ ((length hs ≡ n) × All (λ h. outranks x h ≡ false) hs)

All-In : (P : Hit → Type 0) (x : Hit) (hs : List Hit) → All P hs → In x hs → P x
All-In P x [] a i = absurd i
All-In P x (h ∷ hs) (p, ps) (inl e) = subst P (sym e) p
All-In P x (h ∷ hs) (p, ps) (inr i) = All-In P x hs ps i

take-Placed : (n : ℕ) (x : Hit) (hs : List Hit) → IsRanked hs → In x hs → Placed n x (take n hs)
take-Placed zero x hs r i = inr (refl, tt)
take-Placed (suc n) x [] r i = absurd i
take-Placed (suc n) x (h ∷ hs) (a, r) (inl e) = inl (inl e)
take-Placed (suc n) x (h ∷ hs) (a, r) (inr i) = elim (take-Placed n x hs r i) [
  | inl k ↦ inl (inr k)
  | inr (e, b) ↦ inr (ap suc e, (All-In (λ k. outranks k h ≡ false) x hs a i, b))
]

-- A page that is not hidden and whose score is above 0 is listed, or eight hits are, and the page
-- outranks none of them.
pub In-hits :
    (ps : List Page) (ws : List (List ℕ)) (p : Page)
    → In p ps
    → p.hidden ≡ false
    → is_hit (hit_of ws p) ≡ true
    → In (hit_of ws p) (hits ps ws)
      ⊎ ((length (hits ps ws) ≡ 8) × All (λ h. outranks (hit_of ws p) h ≡ false) (hits ps ws))
unfolding hits
In-hits ps ws p i shown scored =
    let visible = filter (λ (q : Page). not q.hidden) ps in
    let found = filter is_hit (map (hit_of ws) visible) in
    take-Placed 8 (hit_of ws p) (rank found []) (rank-IsRanked found [] tt) (
      In-rank (hit_of ws p) found [] (
        inl (
          filter-In is_hit (hit_of ws p) (map (hit_of ws) visible)
            (In-map (hit_of ws) p visible
              (filter-In (λ (q : Page). not q.hidden) p ps i (simp shown refl)))
            scored)))
