-- ===== src/Console/Folders/Drawing/Total.antt =====
-- When the markup of the policy tree of console.js is finished.
use certadillo.Prelude.{ℕ, zero, suc, ◌+◌, ◌<◌, refl, List, [], ◌∷◌, Option, some, All}
use certadillo.Prelude.Int.{ℤ}
use certadillo.Markup.{Text, Value, nil, cons}
use certadillo.Console.Folders.{Folder, Line, ◌>>=◌, kids, map_nodes, node, tree}
use certadillo.Console.Folders.Tree.{Lies, Ends, bind_some, tree_lem}
use certadillo.Console.Folders.Drawing.{map_items, node_view, tree_view}

Ends-bind :
    {A B : Type 0} (m : Option A) (k : A → Option B)
    → Ends m
    → ((a : A) → Ends (k a))
    → Ends (m >>= k)
Ends-bind m k (a, e) h = let (b, e') = h a in (b, rw e e')

map_items-Ends :
    (nd : Folder → Option (List Line)) (nv : Folder → Option Value)
    → ((f : Folder) → Ends (nd f) → Ends (nv f))
    → (ks : List Folder) → Ends (map_nodes nd ks)
    → Ends (map_items nv ks)
unfolding map_nodes map_items
map_items-Ends nd nv h [] (out, e) = (nil, refl)
map_items-Ends nd nv h (f ∷ ks) (out, e) =
    let (here, eh, e') = bind_some (nd f) _ e in
    let (rest, er, e'') = bind_some (map_nodes nd ks) _ e' in
    let (v, ev) = h f (here, eh) in
    let (vs, evs) = map_items-Ends nd nv h ks (rest, er) in (cons v vs, rw (ev, evs) refl)

node_view-Ends :
    (digits : ℤ → Text) (fuel depth : ℕ) (fs : List Folder) (f : Folder)
    → Ends (node fuel fs depth f)
    → Ends (node_view digits fuel fs f)
unfolding node node_view
node_view-Ends digits zero depth fs f (out, e) = cc
node_view-Ends digits (suc fuel) depth fs f (out, e) =
    let (below, eb, e') =
      bind_some (map_nodes (node fuel fs (depth + 1)) (kids fs (some f.id))) _ e in
    let (vs, ev) =
      map_items-Ends (node fuel fs (depth + 1)) (node_view digits fuel fs)
        (node_view-Ends digits fuel (depth + 1) fs) _ (below, eb) in
    Ends-bind _ _ (vs, ev) (λ v. (_, refl))

-- If no folder is above itself, the markup of the tree is finished, with fuel for one call more than
-- the greatest depth.
pub tree_view-Ends :
    (digits : ℤ → Text) (level : ℕ → ℕ) (height fuel : ℕ) (fs : List Folder)
    → All (Lies level height) fs
    → height < fuel
    → Ends (tree_view digits fuel fs)
unfolding tree tree_view
tree_view-Ends digits level height fuel [] ok h = (_, refl)
tree_view-Ends digits level height fuel (f ∷ fs) ok h =
    let (out, e, _) = tree_lem level height fuel (f ∷ fs) ok h in
    let (vs, ev) =
      map_items-Ends (node fuel (f ∷ fs) 0) (node_view digits fuel (f ∷ fs))
        (node_view-Ends digits fuel 0 (f ∷ fs)) _ (out, e) in
    Ends-bind _ _ (vs, ev) (λ v. (_, refl))
