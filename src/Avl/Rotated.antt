-- ===== src/Avl/Rotated.antt =====
-- What a rotation of lib/avl.bpf.h does to the tree that the nodes hold.
pub mod Right
pub mod Left
pub mod Double
pub mod Choice
pub mod Tied
use ghost_userspace_o.Base.{
  ℕ, zero, suc, ◌+◌, ◌≤◌, ◌≡◌, ◌≢◌, Bool, true, false, ap, ◌∙◌, ◌⊎◌, inl, inr, ◌==◌, ◌++◌, count,
  update, arith, refl,
}
use ghost_userspace_o.Avl.{Nodes, update_id}
use ghost_userspace_o.Avl.Rotate.{is_level}
use ghost_userspace_o.Avl.Tree.{Tree, leaf, node, inorder, height, root_id}
use ghost_userspace_o.Avl.Held.{Kids, Up, Bal, once, count-node, once_self}
use ghost_userspace_o.ArrList.Links.{update_miss}

-- The nodes other than those of a tree keep what the trees are made of.
pub record Kept (n n' : Nodes) (e : ℕ) : Type 0 where
  pub left : n.left_id e ≡ n'.left_id e
  pub right : n.right_id e ≡ n'.right_id e
  pub parent : n.parent_id e ≡ n'.parent_id e
  pub balance : n.balance e ≡ n'.balance e

-- A rotation that keeps the height or loses one level.
abbrev pub Lost : Bool → ℕ → ℕ → Type 0
Lost true g h = g ≡ h
Lost false g h = suc g ≡ h

-- The nodes n' hold a tree in the place of t, with the root `str`, whose parent is still to be
-- written; `level` tells whether the height is kept.
pub record Rotated (n : Nodes) (t : Tree) (level : Bool) (parent : ℕ) (n' : Nodes) (str : ℕ)
    : Type 0 where
  pub tree : Tree
  pub same : inorder tree ≡ inorder t
  pub root : root_id tree ≡ suc str
  pub kids : Kids n'.left_id n'.right_id tree (suc str)
  pub up : Up (update n'.parent_id str parent) parent tree
  pub bal : Bal n'.balance tree
  pub lost : Lost level (height tree) (height t)
  pub kept : (e : ℕ) → count e (inorder t) ≡ 0 → Kept n n' e
  pub keys : n'.key ≡ n.key
  pub orphan : n'.is_orphan ≡ n.is_orphan
  pub orphans : n'.orphan_ids ≡ n.orphan_ids

pub once-ne : (x e : ℕ) → once x e ≡ 0 → x ≢ e
once-ne x e h p = omega (arith, once_self e, ap (λ i. once i e) p)

pub update_id-miss : (f : ℕ → ℕ) (id v e : ℕ) → id ≢ suc e → update_id f id v e ≡ f e
update_id-miss f zero v e ne = refl
update_id-miss f (suc i) v e ne = update_miss f i e v (λ p. ne (ap suc p))
