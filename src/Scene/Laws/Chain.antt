-- ===== src/Scene/Laws/Chain.antt =====
-- The audit chain on the stage: `setChain`, `addBlock` and `settle` of kb-src/scenes-engine.js.
use certadillo.Prelude.{ℕ, zero, suc, ◌+◌, ◌≤◌, min, ◌≡◌, false, List, [], ◌∷◌, ◌++◌, length, arith}
use certadillo.Scene.Def.{Move}
use certadillo.Scene.View.{Block, View, new_block, shrink, grow, set_chain}
use certadillo.Scene.Settle.{stores}

pub length-shrink : (n : ℕ) (c : List Block) → length (shrink n c) ≡ min n (length c)
unfolding shrink
length-shrink n [] = omega arith
length-shrink n (b ∷ c) = ground (arith, length-shrink n c)

pub length-grow :
    (rounds n : ℕ) (c : List Block)
    → length c ≤ n
    → n ≤ length c + rounds
    → length (grow rounds n c) ≡ n
unfolding grow
length-grow zero n c h k = omega arith
length-grow (suc rounds) n c h k = ground (arith, length-grow rounds n (new_block false c ∷ c))

-- Both loops of `setChain` end, with the chain at the length asked for.
pub length-set_chain : (n : ℕ) (v : View) → length (set_chain n v).chain ≡ n
unfolding set_chain
length-set_chain n v =
    length-grow n n (shrink n v.chain) (omega (arith, length-shrink n v.chain)) (omega arith)

pub stores-append : (ms ns : List Move) → stores (ms ++ ns) ≡ stores ms + stores ns
unfolding stores
stores-append [] ns = omega arith
stores-append (m ∷ ms) ns = omega (arith, stores-append ms ns)
