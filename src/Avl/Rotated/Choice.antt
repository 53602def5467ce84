-- ===== src/Avl/Rotated/Choice.antt =====
-- The choice of a rotation in avl_tree_insert and avl_tree_delete: whichever it is, the subtree
-- is rotated as it should be.
use ghost_userspace_o.Base.{
  ℕ, suc, ◌≤◌, ◌≡◌, ◌≢◌, true, false, refl, sym, subst, ◌∙◌, inl, inr, count, update, arith,
}
use ghost_userspace_o.Base.Int.{ℤ, pos, negsuc, leb_ℤ}
use mathlib.Core.List.{append_assoc}
use ghost_userspace_o.Avl.{Nodes}
use ghost_userspace_o.Avl.Rotate.{
  is_level, below_of, above_of, rotate_up, rotate_left, rotate_right, rotate_right_left_at,
  rotate_left_right_at,
}
use ghost_userspace_o.Avl.Tree.{Tree, leaf, node, inorder, height}
use ghost_userspace_o.Avl.Held.{Kids, Up, Bal, once, once_self}
use ghost_userspace_o.Avl.Rotated.{Rotated, once-ne}
use ghost_userspace_o.Avl.Rotated.Right.{rotate_right-Rotated}
use ghost_userspace_o.Avl.Rotated.Left.{rotate_left-Rotated}
use ghost_userspace_o.Avl.Rotated.Double.{double_levels, total, joined-Rotated}
use ghost_userspace_o.ArrList.Links.{update_miss, update_at}

regroup_left :
    (a : Tree) (z : ℕ) (b : Tree) (y : ℕ) (c : Tree) (x : ℕ) (d : Tree)
    → inorder (node (node a z b) y (node c x d)) ≡ inorder (node (node a z (node b y c)) x d)
regroup_left a z b y c x d = simp (append_assoc) refl

regroup_right :
    (a : Tree) (x : ℕ) (b : Tree) (y : ℕ) (c : Tree) (z : ℕ) (d : Tree)
    → inorder (node (node a x b) y (node c z d)) ≡ inorder (node a x (node (node b y c) z d))
regroup_right a x b y c z d = simp (append_assoc) refl

-- Three writes to a map, read at each of the places and elsewhere.
three_writes :
    (f : ℕ → ℤ) (i j k : ℕ) (u v w : ℤ)
    → i ≢ j
    → i ≢ k
    → j ≢ k
    → (update (update (update f i u) j v) k w i ≡ u)
      × (update (update (update f i u) j v) k w j ≡ v)
      × (update (update (update f i u) j v) k w k ≡ w)
      × ((e : ℕ) → i ≢ e → j ≢ e → k ≢ e → f e ≡ update (update (update f i u) j v) k w e)
three_writes f i j k u v w ij ik jk =
    let g = update f i u in
    let h = update g j v in
    (
      update_miss h k i w (λ e. ik (sym e))
          ∙ update_miss g j i v (λ e. ij (sym e))
          ∙ update_at f i u,
      update_miss h k j w (λ e. jk (sym e)) ∙ update_at g j v,
      update_at h k w,
      λ e p q r. sym (update_miss h k e w r ∙ update_miss g j e v q ∙ update_miss f i e u p),
    )

left_right-Rotated :
    (n : Nodes) (t1 : Tree) (z : ℕ) (t2 : Tree) (y : ℕ) (t3 : Tree) (x : ℕ) (t4 : Tree) (parent : ℕ)
    → Kids n.left_id n.right_id (node (node t1 z (node t2 y t3)) x t4) (suc x)
    → Up n.parent_id parent (node (node t1 z (node t2 y t3)) x t4)
    → n.balance z ≡ pos 1
    → height (node t2 y t3) ≡ suc (height t1)
    → Bal n.balance t1
    → Bal n.balance (node t2 y t3)
    → Bal n.balance t4
    → ((e : ℕ) → count e (inorder (node (node t1 z (node t2 y t3)) x t4)) ≤ 1)
    → height (node t1 z (node t2 y t3)) ≡ suc (suc (height t4))
    → Rotated n
        (node (node t1 z (node t2 y t3)) x t4)
        (is_level (n.balance z))
        parent
        (rotate_up true n x z).0
        (rotate_up true n x z).1
unfolding rotate_up rotate_left_right_at
left_right-Rotated n t1 z t2 y t3 x t4 parent (i, (j, k1, (jy, k2, k3)), k4)
      (u, (uz, u1, (uy, u2, u3)), u4) p q b1 (v, b2, b3) b4 d h =
    let low = below_of (n.balance y) in
    let high = above_of (n.balance y) in
    let b' : ℕ → ℤ = update (update (update n.balance x high) y (pos 0)) z low in
    let same = regroup_left t1 z t2 y t3 x t4 in
    let d' : ((e : ℕ) → count e (inorder (node (node t1 z t2) y (node t3 x t4))) ≤ 1) =
      λ e. subst (λ xs. count e xs ≤ 1) (sym same) (d e) in
    let tot = total n z y x b' t1 t2 t3 t4 in
    let one_y : once y y ≡ 1 = once_self y in
    let one_z : once z z ≡ 1 = once_self z in
    let (wx, wy, wz, ws) =
      three_writes n.balance x y z high (pos 0) low (once-ne x y (omega (arith, tot y, d' y)))
        (once-ne x z (omega (arith, tot z, d' z))) (once-ne y z (omega (arith, tot z, d' z))) in
    let (lz, lx, ly, lh) =
      double_levels (n.balance y) (height t1) (height t2) (height t3) (height t4) v (omega arith)
        (omega arith) in
    rw (p, jy)
      (joined-Rotated n z y x b' t1 t2 t3 t4 (node (node t1 z (node t2 y t3)) x t4) parent
        (k1, k2, k3, k4) (u1, u2, u3, u4) (b1, b2, b3, b4) (rw (wz) lz, rw (wx) lx, rw (wy) ly)
        (λ e a b c. ws e c b a) d' same (omega arith))

right_left-Rotated :
    (n : Nodes) (t1 : Tree) (x : ℕ) (t2 : Tree) (y : ℕ) (t3 : Tree) (z : ℕ) (t4 : Tree) (parent : ℕ)
    → Kids n.left_id n.right_id (node t1 x (node (node t2 y t3) z t4)) (suc x)
    → Up n.parent_id parent (node t1 x (node (node t2 y t3) z t4))
    → n.balance z ≡ negsuc 0
    → height (node t2 y t3) ≡ suc (height t4)
    → Bal n.balance t1
    → Bal n.balance (node t2 y t3)
    → Bal n.balance t4
    → ((e : ℕ) → count e (inorder (node t1 x (node (node t2 y t3) z t4))) ≤ 1)
    → height (node (node t2 y t3) z t4) ≡ suc (suc (height t1))
    → Rotated n
        (node t1 x (node (node t2 y t3) z t4))
        (is_level (n.balance z))
        parent
        (rotate_up false n x z).0
        (rotate_up false n x z).1
unfolding rotate_up rotate_right_left_at
right_left-Rotated n t1 x t2 y t3 z t4 parent (i, k1, (j, (jy, k2, k3), k4))
      (u, u1, (uz, (uy, u2, u3), u4)) p q b1 (v, b2, b3) b4 d h =
    let low = below_of (n.balance y) in
    let high = above_of (n.balance y) in
    let b' : ℕ → ℤ = update (update (update n.balance x low) y (pos 0)) z high in
    let same = regroup_right t1 x t2 y t3 z t4 in
    let d' : ((e : ℕ) → count e (inorder (node (node t1 x t2) y (node t3 z t4))) ≤ 1) =
      λ e. subst (λ xs. count e xs ≤ 1) (sym same) (d e) in
    let tot = total n x y z b' t1 t2 t3 t4 in
    let one_y : once y y ≡ 1 = once_self y in
    let one_z : once z z ≡ 1 = once_self z in
    let (wx, wy, wz, ws) =
      three_writes n.balance x y z low (pos 0) high (once-ne x y (omega (arith, tot y, d' y)))
        (once-ne x z (omega (arith, tot z, d' z))) (once-ne y z (omega (arith, tot z, d' z))) in
    let (lx, lz, ly, lh) =
      double_levels (n.balance y) (height t1) (height t2) (height t3) (height t4) v (omega arith)
        (omega arith) in
    rw (p, jy)
      (joined-Rotated n x y z b' t1 t2 t3 t4 (node t1 x (node (node t2 y t3) z t4)) parent
        (k1, k2, k3, k4) (u1, u2, u3, u4) (b1, b2, b3, b4) (rw (wx) lx, rw (wz) lz, rw (wy) ly) ws
        d' same (omega arith))

pub rotate_up_left-Rotated :
    (n : Nodes) (t1 : Tree) (z : ℕ) (t : Tree) (x : ℕ) (t4 : Tree) (parent : ℕ)
    → Kids n.left_id n.right_id (node (node t1 z t) x t4) (suc x)
    → Up n.parent_id parent (node (node t1 z t) x t4)
    → Bal n.balance (node t1 z t)
    → Bal n.balance t4
    → ((e : ℕ) → count e (inorder (node (node t1 z t) x t4)) ≤ 1)
    → height (node t1 z t) ≡ suc (suc (height t4))
    → Rotated n
        (node (node t1 z t) x t4)
        (is_level (n.balance z))
        parent
        (rotate_up true n x z).0
        (rotate_up true n x z).1
unfolding rotate_up rotate_right
rotate_up_left-Rotated n t1 z t x t4 parent k u (inl (p, q), b1, b) b4 d h =
    let c : leb_ℤ (n.balance z) (pos 0) ≡ true = rw (p) refl in
    rw (c) (rotate_right-Rotated n t1 z t x t4 parent k u (inl (p, q), b1, b) b4 d h c)
rotate_up_left-Rotated n t1 z t x t4 parent k u (inr (inr (p, q)), b1, b) b4 d h =
    let c : leb_ℤ (n.balance z) (pos 0) ≡ true = rw (p) refl in
    rw (c) (rotate_right-Rotated n t1 z t x t4 parent k u (inr (inr (p, q)), b1, b) b4 d h c)
rotate_up_left-Rotated n t1 z leaf x t4 parent k u (inr (inl (p, q)), b1, b) b4 d h =
    absurd (omega arith)
rotate_up_left-Rotated n t1 z (node t2 y t3) x t4 parent k u (inr (inl (p, q)), b1, b) b4 d h =
    left_right-Rotated n t1 z t2 y t3 x t4 parent k u p q b1 b b4 d h

pub rotate_up_right-Rotated :
    (n : Nodes) (t1 : Tree) (x : ℕ) (t : Tree) (z : ℕ) (t4 : Tree) (parent : ℕ)
    → Kids n.left_id n.right_id (node t1 x (node t z t4)) (suc x)
    → Up n.parent_id parent (node t1 x (node t z t4))
    → Bal n.balance (node t z t4)
    → Bal n.balance t1
    → ((e : ℕ) → count e (inorder (node t1 x (node t z t4))) ≤ 1)
    → height (node t z t4) ≡ suc (suc (height t1))
    → Rotated n
        (node t1 x (node t z t4))
        (is_level (n.balance z))
        parent
        (rotate_up false n x z).0
        (rotate_up false n x z).1
unfolding rotate_up rotate_left
rotate_up_right-Rotated n t1 x t z t4 parent k u (inl (p, q), b, b4) b1 d h =
    let c : leb_ℤ (pos 0) (n.balance z) ≡ true = rw (p) refl in
    rw (c) (rotate_left-Rotated n t1 x t z t4 parent k u (inl (p, q), b, b4) b1 d h c)
rotate_up_right-Rotated n t1 x t z t4 parent k u (inr (inl (p, q)), b, b4) b1 d h =
    let c : leb_ℤ (pos 0) (n.balance z) ≡ true = rw (p) refl in
    rw (c) (rotate_left-Rotated n t1 x t z t4 parent k u (inr (inl (p, q)), b, b4) b1 d h c)
rotate_up_right-Rotated n t1 x leaf z t4 parent k u (inr (inr (p, q)), b, b4) b1 d h =
    absurd (omega arith)
rotate_up_right-Rotated n t1 x (node t2 y t3) z t4 parent k u (inr (inr (p, q)), b, b4) b1 d h =
    right_left-Rotated n t1 x t2 y t3 z t4 parent k u p q b1 b b4 d h
