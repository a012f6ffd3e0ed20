-- ===== src/Console/Folders/Tree.antt =====
-- The end and the lines of the tree of policy folders of console.js.
use certadillo.Prelude.{
  ℕ, zero, suc, ◌+◌, ◌≤◌, ◌<◌, ◌≡◌, refl, true, List, [], ◌∷◌, ◌++◌, Option, none, some, All,
  All-filter, arith, ==_iff, ap, In, filter-In, In-append_left, In-append_right, subst, inl, inr,
  ◌∙◌,
}
use certadillo.Console.Folders.{Folder, Line, same_id, kids, ◌>>=◌, map_nodes, node, tree}

-- A folder lies deeper than the one that holds it, and no folder lies deeper than `height`: no
-- folder is above itself.
abbrev pub Lies : (ℕ → ℕ) → ℕ → Folder → Type 0
Lies level height f =
    ((p : ℕ) → f.parent_id ≡ some p → level p < level f.id) × (level f.id ≤ height)

-- There is a result.
abbrev pub Ends {ℓ} : {A : Type ℓ} → Option A → Type ℓ
Ends {A} o = (a : A) × (o ≡ some a)

map_nodes_total :
    (nd : Folder → Option (List Line)) (ks : List Folder)
    → All (λ f. Ends (nd f)) ks
    → Ends (map_nodes nd ks)
unfolding map_nodes
map_nodes_total nd [] h = ([], refl)
map_nodes_total nd (f ∷ ks) ((here, e), hs) =
    let (rest, r) = map_nodes_total nd ks hs in (here ++ rest, rw (e, r) refl)

same_id_refl : (p : ℕ) → same_id (some p) (some p) ≡ true
same_id_refl p = ground arith

pub some_inj : {A : Type 0} (a b : A) → some a ≡ some b → a ≡ b
some_inj a b e = cc

pub bind_some :
    {A B : Type 0} (m : Option A) (k : A → Option B) {b : B}
    → (m >>= k) ≡ some b
    → (a : A) × (m ≡ some a) × (k a ≡ some b)
bind_some none k e = cc
bind_some (some a) k e = (a, refl, e)

parent_of_same : (o : Option ℕ) (p : ℕ) → same_id o (some p) ≡ true → o ≡ some p
parent_of_same none p h = cc
parent_of_same (some a) p h = ap some ((==_iff a p).0 h)

module _ (level : ℕ → ℕ) (height : ℕ) (fs : List Folder) (ok : All (Lies level height) fs) where
  node_total :
      (fuel depth : ℕ) (f : Folder)
      → level f.id ≤ height
      → height < level f.id + fuel
      → Ends (node fuel fs depth f)
  unfolding node kids
  node_total zero depth f h k = absurd (omega arith)
  node_total (suc fuel) depth f h k =
      let (below, e) = map_nodes_total (node fuel fs (depth + 1)) (kids fs (some f.id)) (
        All-filter {P = Lies level height} (λ g. same_id g.parent_id (some f.id)) fs
          (λ g l s.
            node_total fuel (depth + 1) g l.1
              (omega (arith, l.0 f.id (parent_of_same g.parent_id f.id s))))
          ok) in
      (record { depth = depth; folder = f } ∷ below, rw e refl)

  -- The tree ends, also as the recursion of the page that has no fuel, if no folder is above itself.
  tree_total : (fuel : ℕ) → height < fuel → Ends (tree fuel fs)
  unfolding tree kids
  tree_total fuel h = map_nodes_total (node fuel fs 0) (kids fs none) (
      All-filter {P = Lies level height} (λ g. same_id g.parent_id none) fs
        (λ g l s. node_total fuel 0 g l.1 (omega arith)) ok)

-- A folder that the folders above it lead to from the top level.
pub data IsRooted (fs : List Folder) : Folder → Type 0 where
  top : (f : Folder) → In f fs → f.parent_id ≡ none → IsRooted fs f
  within : (f p : Folder) → IsRooted fs p → In f fs → f.parent_id ≡ some p.id → IsRooted fs f

map_nodes-In :
    (nd : Folder → Option (List Line)) (ks : List Folder) (out : List Line) (f : Folder)
    → map_nodes nd ks ≡ some out
    → In f ks
    → (ls : List Line) × (nd f ≡ some ls) × ((l : Line) → In l ls → In l out)
unfolding map_nodes
map_nodes-In nd [] out f e i = absurd i
map_nodes-In nd (k ∷ ks) out f e i =
    let (here, eh, e') = bind_some (nd k) _ e in
    let (rest, er, e'') = bind_some (map_nodes nd ks) _ e' in
    elim i [
      | inl same ↦ (
        here,
        ap nd same ∙ eh,
        λ l h. subst (In l) (some_inj _ _ e'') (In-append_left l here rest h),
      )
      | inr later ↦
          let (ls, el, sub) = map_nodes-In nd ks rest f er later in
          (ls, el, λ l h. subst (In l) (some_inj _ _ e'') (In-append_right l here rest (sub l h)))
    ]

-- The lines of the folder and of what it holds stand in the tree.
abbrev Stands : List Folder → List Line → Folder → Type 0
Stands fs out f =
    (n : ℕ) × (depth : ℕ) × (ls : List Line) × (node n fs depth f ≡ some ls)
    × ((l : Line) → In l ls → In l out)

Stands-below :
    (fs : List Folder) (out : List Line) (f p : Folder)
    → Stands fs out p
    → In f fs
    → f.parent_id ≡ some p.id
    → Stands fs out f
unfolding node kids
Stands-below fs out f p (zero, depth, ls, e, sub) i par = cc
Stands-below fs out f p (suc n, depth, ls, e, sub) i par =
    let (below, eb, e') = bind_some (map_nodes (node n fs (depth + 1)) (kids fs (some p.id))) _ e in
    let (ls', el, sub') =
      map_nodes-In (node n fs (depth + 1)) (kids fs (some p.id)) below f eb
        (filter-In (λ g. same_id g.parent_id (some p.id)) f fs i (rw par (same_id_refl p.id))) in
    (n, depth + 1, ls', el, λ l h. sub l (subst (In l) (some_inj _ _ e') (inr (sub' l h))))

rooted-Stands :
    (fuel : ℕ) (fs : List Folder) (out : List Line)
    → tree fuel fs ≡ some out
    → (f : Folder) → IsRooted fs f
    → Stands fs out f
unfolding tree kids
rooted-Stands fuel fs out e f (top _ i par) =
    let (ls, el, sub) =
      map_nodes-In (node fuel fs 0) (kids fs none) out f e
        (filter-In (λ g. same_id g.parent_id none) f fs i (rw par refl)) in
    (fuel, 0, ls, el, sub)
rooted-Stands fuel fs out e f (within _ p r i par) =
    Stands-below fs out f p (rooted-Stands fuel fs out e p r) i par

line_of :
    (n : ℕ) (fs : List Folder) (depth : ℕ) (f : Folder) (ls : List Line)
    → node n fs depth f ≡ some ls
    → In (record { depth = depth; folder = f }) ls
unfolding node
line_of zero fs depth f ls e = cc
line_of (suc n) fs depth f ls e =
    let (below, eb, e') = bind_some (map_nodes (node n fs (depth + 1)) (kids fs (some f.id))) _ e in
    subst (In (record { depth = depth; folder = f })) (some_inj _ _ e') (inl refl)

-- If no folder is above itself, the tree ends, with fuel for one call more than the greatest depth,
-- and it shows every folder that the folders above it lead to from the top level.
pub tree_lem :
    (level : ℕ → ℕ) (height fuel : ℕ) (fs : List Folder)
    → All (Lies level height) fs
    → height < fuel
    → (out : List Line) × (tree fuel fs ≡ some out)
      × ((f : Folder) → IsRooted fs f → (depth : ℕ) × In (record { depth = depth; folder = f }) out)
tree_lem level height fuel fs ok h =
    let (out, e) = tree_total level height fs ok fuel h in
    (
      out,
      e,
      λ f r.
          let (n, depth, ls, el, sub) = rooted-Stands fuel fs out e f r in
          (depth, sub _ (line_of n fs depth f ls el)),
    )
