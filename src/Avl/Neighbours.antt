-- ===== src/Avl/Neighbours.antt =====
-- avl_next_node and avl_prev_node of lib/avl.bpf.h: the neighbours in the order.
use ghost_userspace_o.Base.{
  ℕ, suc, ◌≡◌, ◌≤◌, refl, sym, ap, subst, ◌∙◌, count, count-append, List, [], ◌∷◌, ◌++◌, arith,
}
use mathlib.Core.List.{append_assoc}
use ghost_userspace_o.ArrList.{id_to_elem}
use ghost_userspace_o.ArrList.Links.{first_id, last_id}
use ghost_userspace_o.Avl.{Nodes, AvlTree, next_node, prev_node, max_avl_height}
use ghost_userspace_o.Avl.Tree.{
  node, inorder, height, before, after, place_of, inorder-plug, height-plug, plug_height,
}
use ghost_userspace_o.Avl.Held.{once, once_self}
use ghost_userspace_o.Avl.Spot.{Holds}
use ghost_userspace_o.Avl.Invariant.{IsAvl}
use ghost_userspace_o.Avl.Deleted.Next.{Holds-Spot}
use ghost_userspace_o.Avl.Deleted.Unlinked.{next_node-first, prev_node-last}

abbrev rest_of : List ℕ → List ℕ
rest_of [] = []
rest_of (x ∷ xs) = xs

-- A list of distinct nodes is cut in two at a node in one way.
suc_eq : (i j : ℕ) → suc i ≡ suc j → i ≡ j
suc_eq i j p = omega arith

cut_once :
    (e : ℕ) (ys zs ys' zs' : List ℕ)
    → ys ++ (e ∷ zs) ≡ ys' ++ (e ∷ zs')
    → count e ys ≡ 0
    → count e ys' ≡ 0
    → (ys ≡ ys') × (zs ≡ zs')
cut_once e [] zs [] zs' p h k = (refl, ap rest_of p)
cut_once e [] zs (y ∷ ys') zs' p h k =
    absurd (omega (arith, once_self e, ap (λ i. once i e) (suc_eq e y (ap (λ l. first_id l 0) p))))
cut_once e (y ∷ ys) zs [] zs' p h k =
    absurd (omega (arith, once_self e, ap (λ i. once i e) (suc_eq y e (ap (λ l. first_id l 0) p))))
cut_once e (y ∷ ys) zs (y' ∷ ys') zs' p h k =
    let (a, b) = cut_once e ys zs ys' zs' (ap rest_of p) (omega arith) (omega arith) in
    let c : y ≡ y' = suc_eq y y' (ap (λ l. first_id l 0) p) in
    (ap (λ i. i ∷ ys) c ∙ ap (λ l. y' ∷ l) a, b)

-- Of a tree and orphans that satisfy IsAvl (Avl/Invariant) that reads ys, then e, then zs, the
-- next node of e is the first of zs and the previous one the last of ys, and there is none where
-- the list is empty.
pub neighbours-in_order :
    (n : Nodes) (t : AvlTree) (ys : List ℕ) (e : ℕ) (zs os : List ℕ)
    → IsAvl n t (ys ++ (e ∷ zs)) os
    → (next_node n e ≡ id_to_elem (first_id zs 0)) × (prev_node n e ≡ id_to_elem (last_id 0 ys))
neighbours-in_order n t ys e zs os s =
    let k = s.in_tree in
    let one : once e e ≡ 1 = once_self e in
    let tot = count-append e ys (e ∷ zs) in
    let (c, a, b, p) = place_of e k.tree (λ z. omega (arith, tot, ap (count e) k.same)) in
    let l = before c ++ inorder a in
    let r = inorder b ++ after c in
    let cut : ys ++ (e ∷ zs) ≡ l ++ (e ∷ r) =
      sym k.same ∙ ap inorder (sym p) ∙ inorder-plug c (node a e b) ∙ simp (append_assoc) refl in
    let (y, z) =
      cut_once e ys zs l r cut (omega (arith, tot, s.distinct e))
        (omega (arith, tot, s.distinct e, ap (count e) cut, count-append e l (e ∷ r))) in
    let v = node a e b in
    let spot =
      Holds-Spot n t.root c v (subst (Holds n t.root) (sym p) k.holds)
        (λ i. omega (arith, s.distinct i, ap (count i) k.same, ap (λ w. count i (inorder w)) p)) in
    let low : plug_height c (height v) ≤ max_avl_height =
      omega (arith, k.low, ap height p, height-plug c v) in
    (
      next_node-first n t.root c a e b spot low ∙ ap (λ l. id_to_elem (first_id l 0)) (sym z),
      prev_node-last n t.root c a e b spot low ∙ ap (λ l. id_to_elem (last_id 0 l)) (sym y),
    )
