-- ===== src/Avl/Rotated/Tied.antt =====
-- A rotation and its tie to the parent, as the loops of insert and delete make them: a subtree
-- with a child two levels higher than the other becomes a balanced one in its place.
use ghost_userspace_o.Base.{ℕ, suc, ◌+◌, ◌≤◌, ◌≡◌, Bool, true, false, count, arith}
use ghost_userspace_o.Avl.{Nodes}
use ghost_userspace_o.Avl.Rotate.{is_level, rotate_up, relink}
use ghost_userspace_o.Avl.Tree.{Tree, node, Place, inorder, height, above_id}
use ghost_userspace_o.Avl.Held.{Kids, Up, Bal, KidsAt, UpAt, BalAt, around, count-node, once_self}
use ghost_userspace_o.Avl.Rotated.{Lost}
use ghost_userspace_o.Avl.Rotated.Choice.{rotate_up_left-Rotated, rotate_up_right-Rotated}
use ghost_userspace_o.Avl.Spot.{Spot, Rest}
use ghost_userspace_o.Avl.Relinked.{relink-Spot}

-- What the loops go on with.
pub record Tied (n : Nodes) (c : Place) (t : Tree) (level : Bool) (h : ℕ) (n' : Nodes) (root : ℕ)
    : Type 0 where
  pub tree : Tree
  pub same : inorder tree ≡ inorder t
  pub lost : Lost level (height tree) (height t)
  pub spot : Spot n' root c tree h
  pub rest : Rest n n'

-- The subtree before the rotation; the balance of its root does not count.
pub record Tilted (n : Nodes) (root : ℕ) (c : Place) (a : Tree) (x : ℕ) (b : Tree) (h : ℕ)
    : Type 0 where
  pub kids_at : KidsAt n.left_id n.right_id root c (suc x)
  pub kids : Kids n.left_id n.right_id (node a x b) (suc x)
  pub up_at : UpAt n.parent_id c
  pub up : Up n.parent_id (above_id c) (node a x b)
  pub bal_at : BalAt n.balance c h
  pub bal_left : Bal n.balance a
  pub bal_right : Bal n.balance b
  pub distinct : (e : ℕ) → around e c + count e (inorder (node a x b)) ≤ 1

pub rotate_left_heavy :
    (n : Nodes) (root : ℕ) (c : Place) (a : Tree) (z : ℕ) (b : Tree) (x : ℕ) (t : Tree) (h : ℕ)
    → Tilted n root c (node a z b) x t h
    → height (node a z b) ≡ suc (suc (height t))
    → Tied n c
        (node (node a z b) x t)
        (is_level (n.balance z))
        h
        (relink (rotate_up true n x z) root x (above_id c)).0
        (relink (rotate_up true n x z) root x (above_id c)).1
rotate_left_heavy n root c a z b x t h s p =
    let r =
      rotate_up_left-Rotated n a z b x t (above_id c) s.kids s.up s.bal_left s.bal_right
        (λ e. omega (arith, s.distinct e)) p in
    let (spot, rest) =
      relink-Spot n root x c (node (node a z b) x t) (is_level (n.balance z))
        (rotate_up true n x z).0 (rotate_up true n x z).1 h s.kids_at s.up_at s.bal_at s.distinct
        (λ w. omega (arith, count-node x (node a z b) x t, once_self x)) r in
    record { tree = r.tree; same = r.same; lost = r.lost; spot = spot; rest = rest }

pub rotate_right_heavy :
    (n : Nodes) (root : ℕ) (c : Place) (t : Tree) (x : ℕ) (a : Tree) (z : ℕ) (b : Tree) (h : ℕ)
    → Tilted n root c t x (node a z b) h
    → height (node a z b) ≡ suc (suc (height t))
    → Tied n c
        (node t x (node a z b))
        (is_level (n.balance z))
        h
        (relink (rotate_up false n x z) root x (above_id c)).0
        (relink (rotate_up false n x z) root x (above_id c)).1
rotate_right_heavy n root c t x a z b h s p =
    let r =
      rotate_up_right-Rotated n t x a z b (above_id c) s.kids s.up s.bal_right s.bal_left
        (λ e. omega (arith, s.distinct e)) p in
    let (spot, rest) =
      relink-Spot n root x c (node t x (node a z b)) (is_level (n.balance z))
        (rotate_up false n x z).0 (rotate_up false n x z).1 h s.kids_at s.up_at s.bal_at s.distinct
        (λ w. omega (arith, count-node x t x (node a z b), once_self x)) r in
    record { tree = r.tree; same = r.same; lost = r.lost; spot = spot; rest = rest }
