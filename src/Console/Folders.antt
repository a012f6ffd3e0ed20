-- ===== src/Console/Folders.antt =====
-- The tree of policy folders in src/certadillo/web/static/console.js: `kids` and `node` of
-- `loadPolicy`.
pub mod Tree
pub mod Effective
pub mod Drawing
use certadillo.Markup.{Text}
use certadillo.Console.Rules.{Rule}
use certadillo.Prelude.{
  ℕ, zero, suc, ◌+◌, String, Bool, true, false, List, [], ◌∷◌, ◌++◌, filter, Option, none, some,
  ◌==◌, if◌then◌else◌,
}

-- `settings` are the entries of the rules that the folder sets.
pub record Folder : Type 0 where
  pub id : ℕ
  pub parent_id : Option ℕ
  pub name : String
  pub path : Text
  pub apps : ℕ
  pub settings : List (String × Rule)

-- `f.parent_id === id`.
abbrev pub same_id : Option ℕ → Option ℕ → Bool
same_id none none = true
same_id (some a) (some b) = a == b
same_id _ _ = false

unfoldable pub kids : List Folder → Option ℕ → List Folder
kids fs id = filter (λ f. same_id f.parent_id id) fs

-- A line of the tree: how deep it is indented, and its folder.
pub record Line : Type 0 where
  pub depth : ℕ
  pub folder : Folder

infixl 5 ◌>>=◌
abbrev pub ◌>>=◌ {ℓ κ} : {A : Type ℓ} {B : Type κ} → Option A → (A → Option B) → Option B
none >>= f = none
some a >>= f = f a

-- `ks.map(node)`, for a `node` that calls itself at most so deep; the lines in the order in which
-- they stand on the page.
module _ (node : Folder → Option (List Line)) where
  unfoldable pub map_nodes : List Folder → Option (List Line)
  map_nodes [] = some []
  map_nodes (f ∷ ks) = do here ← node f; rest ← map_nodes ks; some (here ++ rest)

-- `node`; `none` means that the fuel ran out.
unfoldable pub node : ℕ → List Folder → ℕ → Folder → Option (List Line)
unfolding map_nodes kids
node zero fs depth f = none
node (suc fuel) fs depth f = map_nodes (node fuel fs (depth + 1)) (kids fs (some f.id)) >>= λ below.
    some (record { depth = depth; folder = f } ∷ below)

-- `kids(null).map(node)`.
unfoldable pub tree : ℕ → List Folder → Option (List Line)
unfolding node
tree fuel fs = map_nodes (node fuel fs 0) (kids fs none)
