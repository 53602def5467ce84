-- ===== src/Avl/Deleted/Unlink.antt =====
-- The case of two children in avl_tree_delete (lib/avl.bpf.h): the next node takes the place.
use ghost_userspace_o.Base.{
  ℕ, suc, ◌+◌, ◌≤◌, ◌≡◌, ◌≢◌, Bool, refl, sym, ap, subst, ◌∙◌, count, update, arith,
}
use Prim.Native.Nat.{pred}
use ghost_userspace_o.ArrList.Links.{update_miss, update_at}
use ghost_userspace_o.Avl.{Nodes}
use ghost_userspace_o.Avl.Rotate.{relink_child}
use ghost_userspace_o.Avl.Delete.{Unlinked, returned, unlinked, replace_by_next, hang_left}
use ghost_userspace_o.Avl.Tree.{Tree, node, Place, inorder, plug, above_id}
use ghost_userspace_o.Avl.Held.{
  Kids, Up, KidsAt, UpAt, around, once, once_self, Kids-frame, Up-frame, Up-reparent,
}
use ghost_userspace_o.Avl.Held.Around.{
  KidsAt-frame, UpAt-frame, Kids-plug, Up-plug, root_id-other, above_id-other,
}
use ghost_userspace_o.Avl.Rotated.{once-ne}
use ghost_userspace_o.Avl.Spot.{Rest}
use ghost_userspace_o.Avl.Relinked.{Relinked, relink_child-Relinked}

-- What is around e, its left subtree a, and the subtree b that m has got to its right.
pub record Joint (n : Nodes) (root : ℕ) (c : Place) (a : Tree) (e m : ℕ) (b : Tree) : Type 0 where
  pub kids_at : KidsAt n.left_id n.right_id root c (suc e)
  pub kids_left : Kids n.left_id n.right_id a (n.left_id e)
  pub kids_right : Kids n.left_id n.right_id b (n.right_id m)
  pub up_at : UpAt n.parent_id c
  pub up_left : Up n.parent_id (suc e) a
  pub up_right : Up n.parent_id (suc m) b
  pub parent : n.parent_id e ≡ above_id c
  pub distinct :
      (i : ℕ) → around i c + count i (inorder a) + (count i (inorder b) + once e i + once m i) ≤ 1

-- The whole with m in the place of e.
pub record Joined (n : Nodes) (t : Tree) (n' : Nodes) (root : ℕ) : Type 0 where
  pub kids : Kids n'.left_id n'.right_id t root
  pub up : Up n'.parent_id 0 t
  pub balances : n'.balance ≡ n.balance
  pub rest : Rest n n'

-- Nothing is missing, and of the result P holds.
abbrev pub Unlinks : (Nodes → ℕ → ℕ → Bool → Type 0) → Unlinked → Type 0
Unlinks P (returned n root) = ⊥
Unlinks P (unlinked n root x_id left) = P n root x_id left

pub replace_by_next-Joined :
    (n : Nodes) (root : ℕ) (c : Place) (a : Tree) (y : ℕ) (a' : Tree) (e m : ℕ) (b : Tree)
    (x_id : ℕ) (left : Bool)
    → Joint n root c (node a y a') e m b
    → Unlinks
        (λ n' root' x fl.
          Joined n (plug c (node (node a y a') m b)) n' root' × (x ≡ x_id) × (fl ≡ left))
        (replace_by_next n root e m x_id left)
unfolding hang_left
replace_by_next-Joined n root c a y a' e m b x_id left s =
    let t = node a y a' in
    let out = relink_child n root e (above_id c) (suc m) in
    let one_e : once e e ≡ 1 = once_self e in
    let one_m : once m m ≡ 1 = once_self m in
    let y_in : count y (inorder t) ≢ 0 = λ w. root_id-other t y w refl in
    let lk : Relinked n c (suc m) out.0 out.1 =
      relink_child-Relinked n root e c (suc m) s.kids_at (λ i. omega (arith, s.distinct i))
        (omega (arith, s.distinct e)) in
    let l' : ℕ → ℕ = update out.0.left_id m (suc y) in
    let p₁ : ℕ → ℕ = update out.0.parent_id m (above_id c) in
    let p' : ℕ → ℕ = update p₁ y (suc m) in
    let child : n.left_id e ≡ suc y = s.kids_left.0 in
    let child' : out.0.left_id e ≡ suc y =
      sym (lk.left e (above_id-other c e (omega (arith, s.distinct e)))) ∙ child in
    let not_m : ((i : ℕ) → around i c + count i (inorder t) + count i (inorder b) ≢ 0 → m ≢ i) =
      λ i w. once-ne m i (omega (arith, s.distinct i)) in
    let not_y : ((i : ℕ) → around i c + count i (inorder b) + once m i ≢ 0 → y ≢ i) =
      λ i w q. root_id-other t i (omega (arith, s.distinct i)) (ap suc q) in
    let away : ((i : ℕ)
        → count i (inorder t) + count i (inorder b) + once m i ≢ 0
        → above_id c ≢ suc i) =
      λ i w. above_id-other c i (omega (arith, s.distinct i)) in
    let lefts : ((i : ℕ) → above_id c ≢ suc i → m ≢ i → n.left_id i ≡ l' i) =
      λ i q w. lk.left i q ∙ sym (update_miss out.0.left_id m i (suc y) w) in
    let parents : ((i : ℕ) → m ≢ i → y ≢ i → n.parent_id i ≡ p' i) = λ i q w.
      ap (λ f. f i) (sym lk.parents)
      ∙ sym (update_miss p₁ y i (suc m) w ∙ update_miss out.0.parent_id m i (above_id c) q) in
    let kids : Kids l' out.0.right_id (node t m b) (suc m) = (
      refl,
      subst (Kids l' out.0.right_id t) (child ∙ sym (update_at out.0.left_id m (suc y))) (
          Kids-frame n.left_id n.right_id l' out.0.right_id t (n.left_id e)
            (λ i w. (
              lefts i (away i (omega arith)) (not_m i (omega arith)),
              lk.right i (away i (omega arith)),
            ))
            s.kids_left),
      subst (Kids l' out.0.right_id b) (lk.right m (away m (omega arith))) (
          Kids-frame n.left_id n.right_id l' out.0.right_id b (n.right_id m)
            (λ i w. (
              lefts i (away i (omega arith)) (not_m i (omega arith)),
              lk.right i (away i (omega arith)),
            ))
            s.kids_right),
    ) in
    let up : Up p' (above_id c) (node t m b) = (
      update_miss p₁ y m (suc m) (not_y m (omega arith)) ∙ update_at out.0.parent_id m (above_id c),
      Up-reparent n.parent_id p' (suc e) (suc m) t
          (λ i w q. parents i (not_m i (omega arith)) (λ v. q (ap suc v)))
          (λ i w. ap p' (ap pred (sym w)) ∙ update_at p₁ y (suc m))
          (λ i. omega (arith, s.distinct i)) s.up_left,
      Up-frame n.parent_id p' (suc m) b
          (λ i w. parents i (not_m i (omega arith)) (not_y i (omega arith))) s.up_right,
    ) in
    rw (s.parent, child')
      (
        record {
          kids =
              Kids-plug l' out.0.right_id out.1 c (node t m b) (suc m)
                (KidsAt-frame out.0.left_id out.0.right_id l' out.0.right_id out.1 c (suc m)
                  (λ i w.
                    (sym (update_miss out.0.left_id m i (suc y) (not_m i (omega arith))), refl))
                  lk.kids_at)
                kids;
          up =
              Up-plug p' c (node t m b)
                (UpAt-frame n.parent_id p' c
                  (λ i w. parents i (not_m i (omega arith)) (not_y i (omega arith))) s.up_at)
                up;
          balances = lk.balances;
          rest = record { keys = lk.rest.keys; orphan = lk.rest.orphan; orphans = lk.rest.orphans };
        },
        refl,
        refl,
      )
