-- ===== src/Avl/Ends.antt =====
-- avl_tree_pop_min and avl_tree_pop_max of lib/avl.bpf.h: the ends of the order.
use ghost_userspace_o.Base.{
  ℕ, ◌≡◌, refl, ap, subst, ◌∙◌, count, count-append, some, none, List, [], ◌∷◌, ◌++◌, arith,
}
use mathlib.Core.List.{append-nil}
use ghost_userspace_o.ArrList.{id_to_elem}
use ghost_userspace_o.ArrList.Links.{first_id, last_id}
use ghost_userspace_o.Avl.{Nodes, AvlTree, tree_min, tree_max}
use ghost_userspace_o.Avl.Delete.{delete, pop_min, pop_max}
use ghost_userspace_o.Avl.Held.{once_self}
use ghost_userspace_o.Avl.Keys.{erase-middle}
use ghost_userspace_o.Avl.Invariant.{IsAvl}
use ghost_userspace_o.Avl.Inserted.Cache.{last_id-append}
use ghost_userspace_o.Avl.Deleted.Refine.{Retried, delete-IsAvl}

-- The cached ends are the ends of the order.
pub tree_min-first :
    (n : Nodes) (t : AvlTree) (xs os : List ℕ)
    → IsAvl n t xs os
    → tree_min t ≡ id_to_elem (first_id xs 0)
unfolding tree_min
tree_min-first n t xs os s = ap id_to_elem s.cached.min_id

pub tree_max-last :
    (n : Nodes) (t : AvlTree) (xs os : List ℕ)
    → IsAvl n t xs os
    → tree_max t ≡ id_to_elem (last_id 0 xs)
unfolding tree_max
tree_max-last n t xs os s = ap id_to_elem s.cached.max_id

-- Of a tree and orphans that satisfy IsAvl (Avl/Invariant) that reads x ∷ xs, avl_tree_pop_min
-- returns x, and leaves a tree that reads xs, with the first of the orphans, if there are any,
-- inserted as by avl_tree_delete.
pub pop_min-first :
    (n : Nodes) (t : AvlTree) (x : ℕ) (xs os : List ℕ)
    → IsAvl n t (x ∷ xs) os
    → ((pop_min n t).0 ≡ some x) × Retried n.key xs os (pop_min n t).1 (pop_min n t).2
unfolding pop_min
pop_min-first n t x xs os s =
    let d = delete-IsAvl n t x (x ∷ xs) os s (λ z. omega (arith, once_self x)) in
    rw (tree_min-first n t (x ∷ xs) os s) (
      refl,
      subst (λ ys. Retried n.key ys os (delete n t x).0 (delete n t x).1)
          (erase-middle x [] xs refl) d,
    )

-- Of a tree and orphans that satisfy IsAvl (Avl/Invariant) that reads xs and then x,
-- avl_tree_pop_max returns x, and leaves a tree that reads xs, with the first of the orphans, if
-- there are any, inserted as by avl_tree_delete.
pub pop_max-last :
    (n : Nodes) (t : AvlTree) (x : ℕ) (xs os : List ℕ)
    → IsAvl n t (xs ++ (x ∷ [])) os
    → ((pop_max n t).0 ≡ some x) × Retried n.key xs os (pop_max n t).1 (pop_max n t).2
unfolding pop_max
pop_max-last n t x xs os s =
    let tot = count-append x xs (x ∷ []) in
    let d = delete-IsAvl n t x (xs ++ (x ∷ [])) os s (λ z. omega (arith, tot, once_self x)) in
    let new : count x xs ≡ 0 = omega (arith, tot, s.distinct x, once_self x) in
    rw (tree_max-last n t (xs ++ (x ∷ [])) os s ∙ ap id_to_elem (last_id-append 0 xs x [])) (
      refl,
      subst (λ ys. Retried n.key ys os (delete n t x).0 (delete n t x).1)
          (erase-middle x xs [] new ∙ append-nil xs) d,
    )

-- With no node in the tree both return none and change nothing.
pub pop-empty :
    (n : Nodes) (t : AvlTree) (os : List ℕ)
    → IsAvl n t [] os
    → (pop_min n t ≡ (none, n, t)) × (pop_max n t ≡ (none, n, t))
unfolding pop_min pop_max
pop-empty n t os s = rw (tree_min-first n t [] os s, tree_max-last n t [] os s) (refl, refl)
