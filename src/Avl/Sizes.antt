-- ===== src/Avl/Sizes.antt =====
-- How many nodes a balanced tree of a height has at least: the bound on the height that the loops
-- of lib/avl.bpf.h rest on.
use ghost_userspace_o.Base.{
  ℕ, zero, suc, ◌+◌, ◌≤◌, ◌≡◌, ap, inl, inr, ◌⊎◌, ◌∷◌, length, length-append, arith,
}
use Prim.Native.Nat.{max}
use ghost_userspace_o.Base.Int.{ℤ}
use ghost_userspace_o.Avl.Tree.{Tree, leaf, node, inorder, height}
use ghost_userspace_o.Avl.Held.{Bal, Level}

-- The fewest nodes of a balanced tree of a height.
unfoldable pub min_nodes : ℕ → ℕ
min_nodes zero = 0
min_nodes (suc zero) = 1
min_nodes (suc (suc h)) = suc (min_nodes (suc h) + min_nodes h)

min_nodes-suc : (h : ℕ) → min_nodes h ≤ min_nodes (suc h)
unfolding min_nodes
min_nodes-suc zero = omega arith
min_nodes-suc (suc zero) = omega arith
min_nodes-suc (suc (suc h)) = omega (arith, min_nodes-suc h, min_nodes-suc (suc h))

near : (g h : ℕ) → g ≤ h → h ≤ suc g → (g ≡ h) ⊎ (h ≡ suc g)
near g h p q = ground arith

-- From the two subtrees, whichever is the higher.
min_nodes-node : (g h : ℕ) → g ≤ h → h ≤ suc g → min_nodes (suc h) ≤ suc (min_nodes g + min_nodes h)
unfolding min_nodes
min_nodes-node zero zero p q = omega arith
min_nodes-node (suc g) zero p q = absurd (omega arith)
min_nodes-node zero (suc zero) p q = omega arith
min_nodes-node zero (suc (suc h)) p q = absurd (omega arith)
min_nodes-node (suc g) (suc h) p q = elim (near g h (omega arith) (omega arith)) [
  | inl e ↦ omega (arith, min_nodes-suc h, ap (λ k. min_nodes (suc k)) e)
  | inr e ↦ omega (arith, ap min_nodes e)
]

heights : (b : ℤ) (g h : ℕ) → Level b g h → (g ≡ h) ⊎ ((h ≡ suc g) ⊎ (g ≡ suc h))
heights b g h (inl (p, q)) = inl q
heights b g h (inr (inl (p, q))) = inr (inl q)
heights b g h (inr (inr (p, q))) = inr (inr q)

-- The node above two trees of such heights.
min_nodes-above :
    (g h m n : ℕ)
    → (g ≡ h) ⊎ ((h ≡ suc g) ⊎ (g ≡ suc h))
    → min_nodes g ≤ m
    → min_nodes h ≤ n
    → min_nodes (suc (max g h)) ≤ m + suc n
min_nodes-above g h m n (inl p) u v =
    let e : max g h ≡ h = omega arith in
    omega (arith, ap (λ k. min_nodes (suc k)) e, min_nodes-node g h (omega arith) (omega arith))
min_nodes-above g h m n (inr (inl p)) u v =
    let e : max g h ≡ h = omega arith in
    omega (arith, ap (λ k. min_nodes (suc k)) e, min_nodes-node g h (omega arith) (omega arith))
min_nodes-above g h m n (inr (inr p)) u v =
    let e : max g h ≡ g = omega arith in
    omega (arith, ap (λ k. min_nodes (suc k)) e, min_nodes-node h g (omega arith) (omega arith))

pub min_nodes-le : (b : ℕ → ℤ) (t : Tree) → Bal b t → min_nodes (height t) ≤ length (inorder t)
unfolding min_nodes
min_nodes-le b leaf k = omega arith
min_nodes-le b (node s e t) (l, j, k) = omega (
  arith,
  length-append {0} (inorder s) (e ∷ inorder t),
  min_nodes-above (height s) (height t) (length (inorder s)) (length (inorder t))
      (heights (b e) (height s) (height t) l) (min_nodes-le b s j) (min_nodes-le b t k),
)
