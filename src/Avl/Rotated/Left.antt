-- ===== src/Avl/Rotated/Left.antt =====
-- __avl_rotate_left, of a right child that is two levels higher than the left one.
use ghost_userspace_o.Base.{
  ℕ, suc, ◌+◌, ◌≤◌, ◌≡◌, ◌≢◌, true, refl, sym, ap, subst, ◌∙◌, inl, inr, ◌∷◌, count, update,
  if◌then◌else◌, arith,
}
use Prim.Native.Nat.{max}
use ghost_userspace_o.Base.Int.{ℤ, pos, negsuc, leb_ℤ}
use mathlib.Core.List.{append_assoc}
use ghost_userspace_o.Avl.{Nodes, update_id}
use ghost_userspace_o.Avl.Rotate.{is_level, rotate_left}
use ghost_userspace_o.Avl.Tree.{Tree, node, inorder, height, root_id}
use ghost_userspace_o.Avl.Held.{
  Kids, Up, Bal, Level, once, count-node, once_self, Kids-frame, Up-frame, Up-reparent, Bal-frame,
}
use ghost_userspace_o.Avl.Held.Around.{root_id-other, Kids-root_id}
use ghost_userspace_o.Avl.Rotated.{Lost, Rotated, once-ne, update_id-miss}
use ghost_userspace_o.ArrList.Links.{update_miss, update_at}

clash : (b : ℤ) → b ≡ negsuc 0 → leb_ℤ (pos 0) b ≡ true → ⊥
clash b p c = ground arith

levels :
    (b : ℤ) (k h g : ℕ)
    → leb_ℤ (pos 0) b ≡ true
    → Level b h g
    → suc (max h g) ≡ suc (suc k)
    → Level (if is_level b then pos 1 else pos 0) k h
      × Level (if is_level b then negsuc 0 else pos 0) (suc (max k h)) g
      × Lost (is_level b) (suc (max (suc (max k h)) g)) (suc (max k (suc (max h g))))
levels b k h g c (inl (p, q)) e =
    rw (p) (inr (inl (refl, omega arith)), inr (inr (refl, omega arith)), omega arith)
levels b k h g c (inr (inl (p, q))) e =
    rw (p) (inl (refl, omega arith), inl (refl, omega arith), omega arith)
levels b k h g c (inr (inr (p, q))) e = absurd (clash b p c)

-- The nodes of the rotated tree and those beside it.
module _ (t1 : Tree) (x : ℕ) (t23 : Tree) (z : ℕ) (t4 : Tree)
    (d : (e : ℕ) → count e (inorder (node t1 x (node t23 z t4))) ≤ 1) where
  total :
      (e : ℕ)
      → count e (inorder (node t1 x (node t23 z t4)))
        ≡ count e (inorder t1)
          + (once x e + count e (inorder t23))
          + (once z e + count e (inorder t4))
  total e = omega (arith, count-node e t1 x (node t23 z t4), count-node e t23 z t4)

  other_x :
      (e : ℕ)
      → once z e + count e (inorder t1) + count e (inorder t23) + count e (inorder t4) ≢ 0
      → x ≢ e
  other_x e h = once-ne x e (omega (arith, total e, d e))

  other_z :
      (e : ℕ)
      → once x e + count e (inorder t1) + count e (inorder t23) + count e (inorder t4) ≢ 0
      → z ≢ e
  other_z e h = once-ne z e (omega (arith, total e, d e))

  other_23 :
      (e : ℕ)
      → once z e + once x e + count e (inorder t1) + count e (inorder t4) ≢ 0
      → root_id t23 ≢ suc e
  other_23 e h = root_id-other t23 e (omega (arith, total e, d e))

pub rotate_left-Rotated :
    (n : Nodes) (t1 : Tree) (x : ℕ) (t23 : Tree) (z : ℕ) (t4 : Tree) (parent : ℕ)
    → Kids n.left_id n.right_id (node t1 x (node t23 z t4)) (suc x)
    → Up n.parent_id parent (node t1 x (node t23 z t4))
    → Bal n.balance (node t23 z t4)
    → Bal n.balance t1
    → ((e : ℕ) → count e (inorder (node t1 x (node t23 z t4))) ≤ 1)
    → height (node t23 z t4) ≡ suc (suc (height t1))
    → leb_ℤ (pos 0) (n.balance z) ≡ true
    → Rotated n (node t1 x (node t23 z t4)) (is_level (n.balance z)) parent (rotate_left n x z).0 z
unfolding rotate_left
rotate_left-Rotated n t1 x t23 z t4 parent (i, k1, (j, k23, k4)) (p, u1, (q, u23, u4)) (v, b23, b4)
      b1 d h c =
    let ox = other_x t1 x t23 z t4 d in
    let oz = other_z t1 x t23 z t4 d in
    let o23 = other_23 t1 x t23 z t4 d in
    let zz : once z z ≡ 1 = once_self z in
    let xx : once x x ≡ 1 = once_self x in
    let l = n.left_id in
    let r = n.right_id in
    let l' : ℕ → ℕ = update l z (suc x) in
    let r' : ℕ → ℕ = update r x (l z) in
    let up : ℕ → ℕ = update (update (update_id n.parent_id (l z) (suc x)) x (suc z)) z parent in
    let vx : ℤ = if is_level (n.balance z) then pos 1 else pos 0 in
    let vz : ℤ = if is_level (n.balance z) then negsuc 0 else pos 0 in
    let m = (rotate_left n x z).0 in
    let b' = m.balance in
    let id23 = Kids-root_id l r t23 (l z) k23 in
    let left : ((e : ℕ) → z ≢ e → l e ≡ l' e) = λ e o. sym (update_miss l z e (suc x) o) in
    let right : ((e : ℕ) → x ≢ e → r e ≡ r' e) = λ e o. sym (update_miss r x e (l z) o) in
    let parents₀ : ((e : ℕ) → x ≢ e → root_id t23 ≢ suc e → n.parent_id e ≡ m.parent_id e) =
      λ e o o'. sym (
        update_miss (update_id n.parent_id (l z) (suc x)) x e (suc z) o
        ∙ update_id-miss n.parent_id (l z) (suc x) e (λ w. o' (sym id23 ∙ w))) in
    let parents : ((e : ℕ) → x ≢ e → z ≢ e → root_id t23 ≢ suc e → n.parent_id e ≡ up e) =
      λ e o o' o''. parents₀ e o o'' ∙ sym (update_miss m.parent_id z e parent o') in
    let balances : ((e : ℕ) → x ≢ e → z ≢ e → n.balance e ≡ b' e) = λ e o o'.
      sym (update_miss (update n.balance x vx) z e vz o' ∙ update_miss n.balance x e vx o) in
    let (levelx, levelz, lost) = levels (n.balance z) (height t1) (height t23) (height t4) c v h in
    let zx : z ≢ x = oz x (omega arith) in
    let xz : x ≢ z = ox z (omega arith) in
    let bx : b' x ≡ vx = update_miss (update n.balance x vx) z x vz zx ∙ update_at n.balance x vx in
    let bz : b' z ≡ vz = update_at (update n.balance x vx) z vz in
    let rootx : ((e : ℕ) → root_id t23 ≡ suc e → up e ≡ suc x) = λ e w.
      let here : count e (inorder t23) ≢ 0 = λ y. root_id-other t23 e y w in
      update_miss m.parent_id z e parent (oz e (omega arith))
      ∙ update_miss (update_id n.parent_id (l z) (suc x)) x e (suc z) (ox e (omega arith))
      ∙ ap (λ i. update_id n.parent_id i (suc x) e) (id23 ∙ w)
      ∙ update_at n.parent_id e (suc x) in
    record {
      tree = node (node t1 x t23) z t4;
      same = append_assoc (inorder t1) (x ∷ inorder t23) (z ∷ inorder t4);
      root = refl;
      kids = (
        refl,
        (
          update_at l z (suc x),
          subst (Kids l' r' t1) (left x zx) (
              Kids-frame l r l' r' t1 (l x)
                (λ e w. (left e (oz e (omega arith)), right e (ox e (omega arith)))) k1),
          subst (Kids l' r' t23) (sym (update_at r x (l z))) (
              Kids-frame l r l' r' t23 (l z)
                (λ e w. (left e (oz e (omega arith)), right e (ox e (omega arith)))) k23),
        ),
        subst (Kids l' r' t4) (right z xz) (
            Kids-frame l r l' r' t4 (r z)
              (λ e w. (left e (oz e (omega arith)), right e (ox e (omega arith)))) k4),
      );
      up = (
        update_at m.parent_id z parent,
        (
          update_miss m.parent_id z x parent zx
              ∙ update_at (update_id n.parent_id (l z) (suc x)) x (suc z),
          Up-frame n.parent_id up (suc x) t1
              (λ e w. parents e (ox e (omega arith)) (oz e (omega arith)) (o23 e (omega arith))) u1,
          Up-reparent n.parent_id up (suc z) (suc x) t23
              (λ e w. parents e (ox e (omega arith)) (oz e (omega arith))) rootx
              (λ e. omega (arith, total t1 x t23 z t4 d e, d e)) u23,
        ),
        Up-frame n.parent_id up (suc z) t4
            (λ e w. parents e (ox e (omega arith)) (oz e (omega arith)) (o23 e (omega arith))) u4,
      );
      bal = (
        rw (bz) levelz,
        (
          rw (bx) levelx,
          Bal-frame n.balance b' t1 (λ e w. balances e (ox e (omega arith)) (oz e (omega arith)))
              b1,
          Bal-frame n.balance b' t23 (λ e w. balances e (ox e (omega arith)) (oz e (omega arith)))
              b23,
        ),
        Bal-frame n.balance b' t4 (λ e w. balances e (ox e (omega arith)) (oz e (omega arith))) b4,
      );
      lost = lost;
      kept = λ e w.
          let s = total t1 x t23 z t4 d e in
          let x≢e : x ≢ e = once-ne x e (omega arith) in
          let z≢e : z ≢ e = once-ne z e (omega arith) in
          record {
            left = left e z≢e;
            right = right e x≢e;
            parent = parents₀ e x≢e (root_id-other t23 e (omega arith));
            balance = balances e x≢e z≢e;
          };
      keys = refl;
      orphan = refl;
      orphans = refl;
    }
