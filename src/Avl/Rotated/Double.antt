-- ===== src/Avl/Rotated/Double.antt =====
-- __avl_rotate_left_right and __avl_rotate_right_left: both put `y` on top, `lo` to its left and
-- `hi` to its right.
use ghost_userspace_o.Base.{
  ℕ, suc, ◌+◌, ◌≤◌, ◌≡◌, ◌≢◌, false, refl, sym, ap, subst, ◌∙◌, inl, inr, count, update, arith,
}
use Prim.Native.Nat.{max}
use ghost_userspace_o.Base.Int.{ℤ, pos}
use ghost_userspace_o.Avl.{Nodes, update_id}
use ghost_userspace_o.Avl.Rotate.{below_of, above_of}
use ghost_userspace_o.Avl.Tree.{Tree, node, inorder, height}
use ghost_userspace_o.Avl.Held.{
  Kids, Up, Bal, Level, once, count-node, once_self, Kids-frame, Up-frame, Up-reparent, Bal-frame,
}
use ghost_userspace_o.Avl.Held.Around.{root_id-other, Kids-root_id}
use ghost_userspace_o.Avl.Rotated.{Rotated, once-ne, update_id-miss}
use ghost_userspace_o.ArrList.Links.{update_miss, update_at}

pub double_levels :
    (b : ℤ) (g h k m : ℕ)
    → Level b h k
    → max h k ≡ m
    → g ≡ m
    → Level (below_of b) g h
      × Level (above_of b) k m
      × Level (pos 0) (suc (max g h)) (suc (max k m))
      × (suc (suc (max (suc (max g h)) (suc (max k m)))) ≡ suc (suc (suc m)))
double_levels b g h k m (inl (p, q)) e f =
    rw (p) (inl (refl, omega arith), inl (refl, omega arith), inl (refl, omega arith), omega arith)
double_levels b g h k m (inr (inl (p, q))) e f =
    rw (p)
      (inr (inr (refl, omega arith)), inl (refl, omega arith), inl (refl, omega arith), omega arith)
double_levels b g h k m (inr (inr (p, q))) e f =
    rw (p)
      (inl (refl, omega arith), inr (inl (refl, omega arith)), inl (refl, omega arith), omega arith)

module _ (n : Nodes) (lo y hi : ℕ) (b' : ℕ → ℤ) where
  -- What both rotations make, but for the order of the writes to the balances.
  abbrev pub joined : Nodes
  joined = record n {
    left_id = update (update n.left_id y (suc lo)) hi (n.right_id y);
    right_id = update (update n.right_id lo (n.left_id y)) y (suc hi);
    parent_id =
        update_id
          (update (update_id (update n.parent_id lo (suc y)) (n.left_id y) (suc lo)) hi (suc y))
          (n.right_id y) (suc hi);
    balance = b';
  }

  abbrev pub new_tree : Tree → Tree → Tree → Tree → Tree
  new_tree t1 t2 t3 t4 = node (node t1 lo t2) y (node t3 hi t4)

  pub total :
      (t1 t2 t3 t4 : Tree) (e : ℕ)
      → count e (inorder (new_tree t1 t2 t3 t4))
        ≡ count e (inorder t1)
          + (once lo e + count e (inorder t2))
          + (once y e + (count e (inorder t3) + (once hi e + count e (inorder t4))))
  total t1 t2 t3 t4 e = omega (
    arith,
    count-node e (node t1 lo t2) y (node t3 hi t4),
    count-node e t1 lo t2,
    count-node e t3 hi t4,
  )

  -- The writes to the ids, at the nodes that they are not to.
  same_left : (e : ℕ) → y ≢ e → hi ≢ e → n.left_id e ≡ joined.left_id e
  same_left e p q = sym (
      update_miss (update n.left_id y (suc lo)) hi e (n.right_id y) q
      ∙ update_miss n.left_id y e (suc lo) p)

  same_right : (e : ℕ) → lo ≢ e → y ≢ e → n.right_id e ≡ joined.right_id e
  same_right e p q = sym (
      update_miss (update n.right_id lo (n.left_id y)) y e (suc hi) q
      ∙ update_miss n.right_id lo e (n.left_id y) p)

  same_parent :
      (e : ℕ)
      → lo ≢ e
      → hi ≢ e
      → n.left_id y ≢ suc e
      → n.right_id y ≢ suc e
      → n.parent_id e ≡ joined.parent_id e
  same_parent e p q s t =
      let f = update n.parent_id lo (suc y) in
      let g = update_id f (n.left_id y) (suc lo) in
      sym (
        update_id-miss (update g hi (suc y)) (n.right_id y) (suc hi) e t
        ∙ update_miss g hi e (suc y) q
        ∙ update_id-miss f (n.left_id y) (suc lo) e s
        ∙ update_miss n.parent_id lo e (suc y) p)

  -- The roots of the two inner subtrees, and the two nodes beside `y`.
  parent_of_2 :
      (e : ℕ) → hi ≢ e → n.right_id y ≢ suc e → n.left_id y ≡ suc e → joined.parent_id e ≡ suc lo
  parent_of_2 e q t h =
      let f = update n.parent_id lo (suc y) in
      let g = update_id f (n.left_id y) (suc lo) in
      update_id-miss (update g hi (suc y)) (n.right_id y) (suc hi) e t
      ∙ update_miss g hi e (suc y) q
      ∙ ap (λ i. update_id f i (suc lo) e) h
      ∙ update_at f e (suc lo)

  parent_of_3 : (e : ℕ) → n.right_id y ≡ suc e → joined.parent_id e ≡ suc hi
  parent_of_3 e h =
      let f = update n.parent_id lo (suc y) in
      let g = update (update_id f (n.left_id y) (suc lo)) hi (suc y) in
      ap (λ i. update_id g i (suc hi) e) h ∙ update_at g e (suc hi)

  parent_of_lo :
      lo ≢ hi → n.left_id y ≢ suc lo → n.right_id y ≢ suc lo → joined.parent_id lo ≡ suc y
  parent_of_lo q s t =
      let f = update n.parent_id lo (suc y) in
      let g = update_id f (n.left_id y) (suc lo) in
      update_id-miss (update g hi (suc y)) (n.right_id y) (suc hi) lo t
      ∙ update_miss g hi lo (suc y) (λ w. q (sym w))
      ∙ update_id-miss f (n.left_id y) (suc lo) lo s
      ∙ update_at n.parent_id lo (suc y)

  parent_of_hi : n.right_id y ≢ suc hi → joined.parent_id hi ≡ suc y
  parent_of_hi t =
      let f = update n.parent_id lo (suc y) in
      let g = update_id f (n.left_id y) (suc lo) in
      update_id-miss (update g hi (suc y)) (n.right_id y) (suc hi) hi t ∙ update_at g hi (suc y)

  -- Both rotations, of the trees that they move.
  pub joined-Rotated :
      (t1 t2 t3 t4 t : Tree) (parent : ℕ)
      → Kids n.left_id n.right_id t1 (n.left_id lo)
        × Kids n.left_id n.right_id t2 (n.left_id y)
        × Kids n.left_id n.right_id t3 (n.right_id y)
        × Kids n.left_id n.right_id t4 (n.right_id hi)
      → Up n.parent_id (suc lo) t1
        × Up n.parent_id (suc y) t2
        × Up n.parent_id (suc y) t3
        × Up n.parent_id (suc hi) t4
      → Bal n.balance t1 × Bal n.balance t2 × Bal n.balance t3 × Bal n.balance t4
      → Level (b' lo) (height t1) (height t2)
        × Level (b' hi) (height t3) (height t4)
        × Level (b' y) (suc (max (height t1) (height t2))) (suc (max (height t3) (height t4)))
      → ((e : ℕ) → lo ≢ e → y ≢ e → hi ≢ e → n.balance e ≡ b' e)
      → ((e : ℕ) → count e (inorder (new_tree t1 t2 t3 t4)) ≤ 1)
      → inorder (new_tree t1 t2 t3 t4) ≡ inorder t
      → suc (height (new_tree t1 t2 t3 t4)) ≡ height t
      → Rotated n t false parent joined y
  joined-Rotated t1 t2 t3 t4 t parent (k1, k2, k3, k4) (u1, u2, u3, u4) (b1, b2, b3, b4)
        (vlo, vhi, vy) bs d same lost =
      let l = n.left_id in
      let r = n.right_id in
      let m = joined in
      let up : ℕ → ℕ = update m.parent_id y parent in
      let tot = total t1 t2 t3 t4 in
      let id2 = Kids-root_id l r t2 (l y) k2 in
      let id3 = Kids-root_id l r t3 (r y) k3 in
      let one_lo : once lo lo ≡ 1 = once_self lo in
      let one_y : once y y ≡ 1 = once_self y in
      let one_hi : once hi hi ≡ 1 = once_self hi in
      let not_lo : ((e : ℕ)
          → once y e
              + once hi e
              + count e (inorder t1)
              + count e (inorder t2)
              + count e (inorder t3)
              + count e (inorder t4)
            ≢ 0
          → lo ≢ e) =
        λ e w. once-ne lo e (omega (arith, tot e, d e)) in
      let not_y : ((e : ℕ)
          → once lo e
              + once hi e
              + count e (inorder t1)
              + count e (inorder t2)
              + count e (inorder t3)
              + count e (inorder t4)
            ≢ 0
          → y ≢ e) =
        λ e w. once-ne y e (omega (arith, tot e, d e)) in
      let not_hi : ((e : ℕ)
          → once lo e
              + once y e
              + count e (inorder t1)
              + count e (inorder t2)
              + count e (inorder t3)
              + count e (inorder t4)
            ≢ 0
          → hi ≢ e) =
        λ e w. once-ne hi e (omega (arith, tot e, d e)) in
      let not_2 : ((e : ℕ)
          → once lo e
              + once hi e
              + count e (inorder t1)
              + count e (inorder t3)
              + count e (inorder t4)
            ≢ 0
          → l y ≢ suc e) =
        λ e w v. root_id-other t2 e (omega (arith, tot e, d e)) (sym id2 ∙ v) in
      let not_3 : ((e : ℕ)
          → once lo e
              + once hi e
              + count e (inorder t1)
              + count e (inorder t2)
              + count e (inorder t4)
            ≢ 0
          → r y ≢ suc e) =
        λ e w v. root_id-other t3 e (omega (arith, tot e, d e)) (sym id3 ∙ v) in
      let ids : ((e : ℕ)
          → count e (inorder t1)
              + count e (inorder t2)
              + count e (inorder t3)
              + count e (inorder t4)
            ≢ 0
          → (l e ≡ m.left_id e) × (r e ≡ m.right_id e)) =
        λ e w. (
          same_left e (not_y e (omega arith)) (not_hi e (omega arith)),
          same_right e (not_lo e (omega arith)) (not_y e (omega arith)),
        ) in
      let parents : ((e : ℕ)
          → count e (inorder t1)
              + count e (inorder t2)
              + count e (inorder t3)
              + count e (inorder t4)
            ≢ 0
          → l y ≢ suc e
          → r y ≢ suc e
          → n.parent_id e ≡ up e) =
        λ e w o o'.
          same_parent e (not_lo e (omega arith)) (not_hi e (omega arith)) o o'
          ∙ sym (update_miss m.parent_id y e parent (not_y e (omega arith))) in
      let balances : ((e : ℕ)
          → count e (inorder t1)
              + count e (inorder t2)
              + count e (inorder t3)
              + count e (inorder t4)
            ≢ 0
          → n.balance e ≡ b' e) =
        λ e w. bs e (not_lo e (omega arith)) (not_y e (omega arith)) (not_hi e (omega arith)) in
      record {
        tree = new_tree t1 t2 t3 t4;
        same = same;
        root = refl;
        kids = (
          refl,
          (
            update_miss (update l y (suc lo)) hi y (r y) (not_hi y (omega arith))
                ∙ update_at l y (suc lo),
            subst (Kids m.left_id m.right_id t1)
                (same_left lo (not_y lo (omega arith)) (not_hi lo (omega arith)))
                (Kids-frame l r m.left_id m.right_id t1 (l lo) (λ e w. ids e (omega arith)) k1),
            subst (Kids m.left_id m.right_id t2)
                (sym (
                  update_miss (update r lo (l y)) y lo (suc hi) (not_y lo (omega arith))
                  ∙ update_at r lo (l y)))
                (Kids-frame l r m.left_id m.right_id t2 (l y) (λ e w. ids e (omega arith)) k2),
          ),
          (
            update_at (update r lo (l y)) y (suc hi),
            subst (Kids m.left_id m.right_id t3) (sym (update_at (update l y (suc lo)) hi (r y)))
                (Kids-frame l r m.left_id m.right_id t3 (r y) (λ e w. ids e (omega arith)) k3),
            subst (Kids m.left_id m.right_id t4)
                (same_right hi (not_lo hi (omega arith)) (not_y hi (omega arith)))
                (Kids-frame l r m.left_id m.right_id t4 (r hi) (λ e w. ids e (omega arith)) k4),
          ),
        );
        up = (
          update_at m.parent_id y parent,
          (
            update_miss m.parent_id y lo parent (not_y lo (omega arith))
                ∙ parent_of_lo (not_lo hi (omega arith)) (not_2 lo (omega arith))
                    (not_3 lo (omega arith)),
            Up-frame n.parent_id up (suc lo) t1
                (λ e w. parents e (omega arith) (not_2 e (omega arith)) (not_3 e (omega arith))) u1,
            Up-reparent n.parent_id up (suc y) (suc lo) t2
                (λ e w o. parents e (omega arith) (λ v. o (sym id2 ∙ v)) (not_3 e (omega arith)))
                (λ e w.
                  let here : count e (inorder t2) ≢ 0 = λ q. root_id-other t2 e q w in
                  update_miss m.parent_id y e parent (not_y e (omega arith))
                  ∙ parent_of_2 e (not_hi e (omega arith)) (not_3 e (omega arith)) (id2 ∙ w))
                (λ e. omega (arith, tot e, d e)) u2,
          ),
          (
            update_miss m.parent_id y hi parent (not_y hi (omega arith))
                ∙ parent_of_hi (not_3 hi (omega arith)),
            Up-reparent n.parent_id up (suc y) (suc hi) t3
                (λ e w o. parents e (omega arith) (not_2 e (omega arith)) (λ v. o (sym id3 ∙ v)))
                (λ e w.
                  let here : count e (inorder t3) ≢ 0 = λ q. root_id-other t3 e q w in
                  update_miss m.parent_id y e parent (not_y e (omega arith))
                  ∙ parent_of_3 e (id3 ∙ w))
                (λ e. omega (arith, tot e, d e)) u3,
            Up-frame n.parent_id up (suc hi) t4
                (λ e w. parents e (omega arith) (not_2 e (omega arith)) (not_3 e (omega arith))) u4,
          ),
        );
        bal = (
          vy,
          (
            vlo,
            Bal-frame n.balance b' t1 (λ e w. balances e (omega arith)) b1,
            Bal-frame n.balance b' t2 (λ e w. balances e (omega arith)) b2,
          ),
          (
            vhi,
            Bal-frame n.balance b' t3 (λ e w. balances e (omega arith)) b3,
            Bal-frame n.balance b' t4 (λ e w. balances e (omega arith)) b4,
          ),
        );
        lost = lost;
        kept = λ e w.
            let q = tot e in
            let c : count e (inorder (new_tree t1 t2 t3 t4)) ≡ 0 = ap (count e) same ∙ w in
            let lo≢e : lo ≢ e = once-ne lo e (omega arith) in
            let y≢e : y ≢ e = once-ne y e (omega arith) in
            let hi≢e : hi ≢ e = once-ne hi e (omega arith) in
            let no2 : count e (inorder t2) ≡ 0 = omega arith in
            let no3 : count e (inorder t3) ≡ 0 = omega arith in
            record {
              left = same_left e y≢e hi≢e;
              right = same_right e lo≢e y≢e;
              parent =
                  same_parent e lo≢e hi≢e (λ v. root_id-other t2 e no2 (sym id2 ∙ v))
                    (λ v. root_id-other t3 e no3 (sym id3 ∙ v));
              balance = bs e lo≢e y≢e hi≢e;
            };
        keys = refl;
        orphan = refl;
        orphans = refl;
      }
