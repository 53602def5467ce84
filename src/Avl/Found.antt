-- ===== src/Avl/Found.antt =====
-- avl_tree_lookup of lib/avl.bpf.h.
use ghost_userspace_o.Base.{
  ℕ, zero, suc, ◌≤◌, ◌<◌, ◌≡◌, ◌≢◌, refl, sym, ap, subst, ◌∙◌, inl, inr, Bool-cases, ltb, ◌==◌,
  ==_iff, count, Option, some, none, List, ◌∷◌, arith,
}
use ghost_userspace_o.Avl.{Nodes, AvlTree, lookup_from, lookup, max_avl_height}
use ghost_userspace_o.Avl.Tree.{Tree, leaf, node, inorder, height, split_count}
use ghost_userspace_o.Avl.Held.{Kids, count-node, once_self}
use ghost_userspace_o.Avl.Keys.{Sorted, Sorted-split, Sorted-Under, Over-at, Under-at}
use ghost_userspace_o.Avl.Invariant.{IsAvl}

-- A node of the key, or that there is none of it.
abbrev pub Finds : Nodes → ℕ → List ℕ → Option ℕ → Type 0
Finds n key xs none = (e : ℕ) → count e xs ≢ 0 → n.key e ≢ key
Finds n key xs (some x) = (count x xs ≢ 0) × (n.key x ≡ key)

-- What is found in a subtree is found in the whole, if the rest has not the key.
module _ (n : Nodes) (key : ℕ) (a : Tree) (x : ℕ) (b : Tree) where
  up_left :
      (r : Option ℕ)
      → Finds n key (inorder a) r
      → n.key x ≢ key
      → ((e : ℕ) → count e (inorder b) ≢ 0 → n.key e ≢ key)
      → Finds n key (inorder (node a x b)) r
  up_left none f p g = λ e w. elim (split_count e a x b w) [
    | inl q ↦ f e q
    | inr (inl q) ↦ λ z. p (ap n.key (sym q) ∙ z)
    | inr (inr q) ↦ g e q
  ]
  up_left (some y) (w, k) p g = (λ z. w (omega (arith, count-node y a x b)), k)

  up_right :
      (r : Option ℕ)
      → Finds n key (inorder b) r
      → n.key x ≢ key
      → ((e : ℕ) → count e (inorder a) ≢ 0 → n.key e ≢ key)
      → Finds n key (inorder (node a x b)) r
  up_right none f p g = λ e w. elim (split_count e a x b w) [
    | inl q ↦ g e q
    | inr (inl q) ↦ λ z. p (ap n.key (sym q) ∙ z)
    | inr (inr q) ↦ f e q
  ]
  up_right (some y) (w, k) p g = (λ z. w (omega (arith, count-node y a x b)), k)

lookup_from-Finds :
    (k : ℕ) (n : Nodes) (key : ℕ) (t : Tree) (id : ℕ)
    → height t ≤ k
    → Kids n.left_id n.right_id t id
    → Sorted n.key (inorder t)
    → Finds n key (inorder t) (lookup_from k n key id)
unfolding lookup_from
lookup_from-Finds zero n key leaf id h p s = λ e w. absurd (w refl)
lookup_from-Finds zero n key (node a x b) id h p s = absurd (omega arith)
lookup_from-Finds (suc k) n key leaf id h p s = rw (p) (λ e w. absurd (w refl))
lookup_from-Finds (suc k) n key (node a x b) id h (p, ka, kb) s =
    let (sa, (over, sb)) = Sorted-split n.key (inorder a) (x ∷ inorder b) s in
    let under = Sorted-Under n.key (inorder a) x (inorder b) s in
    elim (Bool-cases (n.key x == key)) [
      | inl t ↦
          rw (p, t)
            (λ z. omega (arith, count-node x a x b, once_self x), (==_iff (n.key x) key).0 t)
      | inr t ↦ elim (Bool-cases (ltb key (n.key x))) [
        | inl l ↦
            let ne : n.key x ≢ key = ground (arith, t) in
            let lt : key < n.key x = ground (arith, l) in
            rw (p, t, l)
              (up_left n key a x b (lookup_from k n key (n.left_id x))
                (lookup_from-Finds k n key a (n.left_id x) (omega arith) ka sa) ne
                (λ e w z. omega (arith, Over-at n.key (n.key x) (inorder b) e over w)))
        | inr l ↦
            let ne : n.key x ≢ key = ground (arith, t) in
            let lt : n.key x < key = ground (arith, l, t) in
            rw (p, t, l)
              (up_right n key a x b (lookup_from k n key (n.right_id x))
                (lookup_from-Finds k n key b (n.right_id x) (omega arith) kb sb) ne
                (λ e w z. omega (arith, Under-at n.key (n.key x) (inorder a) e under w)))
      ]
    ]

-- Of a tree and orphans that satisfy IsAvl (Avl/Invariant), avl_tree_lookup of a key returns a
-- node of the tree with that key, or none, and then no node of the tree has it, whatever the
-- key.
pub lookup-Finds :
    (n : Nodes) (t : AvlTree) (key : ℕ) (xs os : List ℕ)
    → IsAvl n t xs os
    → Finds n key xs (lookup n t key)
unfolding lookup
lookup-Finds n t key xs os s =
    let k = s.in_tree in
    subst (λ ys. Finds n key ys (lookup_from max_avl_height n key t.root)) k.same
      (lookup_from-Finds max_avl_height n key k.tree t.root k.low k.holds.kids
        (subst (Sorted n.key) (sym k.same) k.sorted))
