-- ===== src/Avl/Deleted/Refine.antt =====
-- avl_tree_delete (lib/avl.bpf.h) against lists: the node leaves the tree, which stays balanced, and
-- the first orphan is inserted again.
use ghost_userspace_o.Base.{
  ℕ, suc, ◌+◌, ◌≤◌, ◌≡◌, ◌≢◌, false, refl, sym, ap, subst, ◌∙◌, ◌⊎◌, count, count-append, List, [],
  ◌∷◌, ◌++◌, length, none, arith,
}
use mathlib.Core.List.{append_assoc}
use ghost_userspace_o.ArrList.{Arr}
use ghost_userspace_o.Avl.{Nodes, AvlTree, max_avl_height}
use ghost_userspace_o.Avl.Delete.{
  Retraced, returned_early, finished, retrace_delete, retrace_unlinked, unlink, Unlinked, returned,
  unlinked, retry_orphan, forget_min, forget_max, delete,
}
use ghost_userspace_o.Avl.Insert.{insert}
use ghost_userspace_o.Avl.Orphans.{pop_first_orphan}
use ghost_userspace_o.Avl.Orphans.Listed.{Listed, pop_first_orphan-Listed}
use ghost_userspace_o.Avl.Tree.{
  Tree, node, Place, inorder, height, before, after, plug, inorder-plug, place_of, plug_height,
  height-plug, depth-le, above_id,
}
use ghost_userspace_o.Avl.Held.Around.{Kids-unplug, Up-unplug, Bal-unplug}
use ghost_userspace_o.Avl.Held.{around, once, count-node, once_self}
use ghost_userspace_o.Avl.Keys.{
  insert_sorted, erase, erase-middle, Sorted-split, Sorted-append, Sorted-Under,
}
use ghost_userspace_o.Avl.Sizes.{min_nodes}
use ghost_userspace_o.Avl.Invariant.{Cached, IsAvl}
use ghost_userspace_o.Avl.Inserted.Refine.{insert-IsAvl}
use ghost_userspace_o.Avl.Deleted.Retrace.{retrace_delete-Whole}
use ghost_userspace_o.Avl.Deleted.Step.{Done, Done-mono}
use ghost_userspace_o.Avl.Deleted.Unlink.{Unlinks}
use ghost_userspace_o.Avl.Deleted.Cuts.{Cut}
use ghost_userspace_o.Avl.Deleted.Unlinked.{unlink-Cut, next_node-first, prev_node-last}
use ghost_userspace_o.Avl.Deleted.Cache.{forget-Cached}
use ghost_userspace_o.Avl.Spot.{Spot, Holds, Rebuilt, Rebuilt-as}

-- From the place where the node was, the walk up makes a whole tree.
retrace_unlinked-Whole :
    (n : Nodes) (xs : List ℕ) (bound : ℕ) (r : Unlinked)
    → bound ≤ max_avl_height
    → Unlinks (Cut n xs bound) r
    → Done (Rebuilt n xs bound) (retrace_unlinked r)
retrace_unlinked-Whole n xs bound (returned n' root) h u = u
retrace_unlinked-Whole n xs bound (unlinked n' root x_id left) h k = rw (k.above) (
    Done-mono
      (Rebuilt n' (before k.place ++ (inorder k.subtree ++ after k.place))
        (plug_height k.place (suc (height k.subtree))))
      (Rebuilt n xs bound) (retrace_delete max_avl_height n' root (above_id k.place) left)
      (λ m r.
        Rebuilt-as n n' (before k.place ++ (inorder k.subtree ++ after k.place)) xs
          (plug_height k.place (suc (height k.subtree))) bound m r k.same k.low k.rest)
      (retrace_delete-Whole max_avl_height n' root k.place k.subtree left
        (omega (arith, depth-le k.place (suc (height k.subtree)), k.low)) k.spot k.side))

-- The state in which the orphans are tried, with those that are left: what the deletion leaves.
module _ (n : Nodes) (t : AvlTree) (e : ℕ) (ys zs os : List ℕ) where
  left-IsAvl :
      (n' : Nodes) (t' : AvlTree) (os' : List ℕ)
      → IsAvl n t (ys ++ (e ∷ zs)) os
      → Rebuilt n (ys ++ zs) max_avl_height n' t'.root
      → Cached n' t' (ys ++ zs)
      → (arr : Arr) → Listed arr t'.first_orphan_id os'
      → ((i : ℕ) → count i os' ≤ count i os)
      → IsAvl (record n' { orphan_ids = arr }) t' (ys ++ zs) os'
  left-IsAvl n' t' os' s b c arr l o =
      let fewer : ((i : ℕ) → count i (ys ++ zs) ≤ count i (ys ++ (e ∷ zs))) =
        λ i. omega (arith, count-append i ys zs, count-append i ys (e ∷ zs)) in
      let sorted = s.in_tree.sorted in
      let (sy, (oz, sz)) = Sorted-split n.key ys (e ∷ zs) sorted in
      record {
        in_tree = record {
          tree = b.tree;
          same = b.same;
          holds = record { kids = b.holds.kids; up = b.holds.up; bal = b.holds.bal };
          low = b.low;
          sorted =
              rw (b.rest.keys)
                (Sorted-append n.key (n.key e) ys zs (Sorted-Under n.key ys e zs sorted) oz sy sz);
        };
        cached = record {
          min_id = c.min_id;
          min_key = c.min_key;
          max_id = c.max_id;
          max_key = c.max_key;
        };
        orphaned = l;
        flags_tree = λ i w. rw (b.rest.orphan) (s.flags_tree i (λ z. w (omega (arith, fewer i))));
        flags_orphan = λ i w. rw (b.rest.orphan) (s.flags_orphan i (λ z. w (omega (arith, o i))));
        distinct = λ i. omega (arith, s.distinct i, fewer i, o i);
      }

-- What becomes of the orphans when one node has left the tree: the first of them is inserted, if
-- there is one.
abbrev pub Retried : (ℕ → ℕ) → List ℕ → List ℕ → Nodes → AvlTree → Type 0
Retried key xs [] n t = IsAvl n t xs []
Retried key xs (o ∷ os) n t =
    IsAvl n t (insert_sorted key o xs) os
    ⊎ (IsAvl n t xs (o ∷ os) × (min_nodes max_avl_height ≤ length xs))

pop_none : (arr : Arr) → pop_first_orphan arr 0 ≡ (none, arr, 0)
unfolding pop_first_orphan
pop_none arr = refl

retry_orphan-Retried :
    (n : Nodes) (t : AvlTree) (e : ℕ) (ys zs os : List ℕ) (t₂ : AvlTree) (r : Retraced)
    → IsAvl n t (ys ++ (e ∷ zs)) os
    → Done (Rebuilt n (ys ++ zs) max_avl_height) r
    → ((n' : Nodes) (root : ℕ) → n'.key ≡ n.key → Cached n' (record t₂ { root = root }) (ys ++ zs))
    → t₂.first_orphan_id ≡ t.first_orphan_id
    → Retried n.key (ys ++ zs) os (retry_orphan t₂ r).0 (retry_orphan t₂ r).1
unfolding retry_orphan
retry_orphan-Retried n t e ys zs os t₂ (returned_early n' root) s d c f = absurd d
retry_orphan-Retried n t e ys zs [] t₂ (finished n' root) s b c f =
    let l = s.orphaned in
    let z : t₂.first_orphan_id ≡ 0 = f ∙ l.starts in
    let k = c n' root b.rest.keys in
    rw (z, pop_none n'.orphan_ids)
      (left-IsAvl n t e ys zs [] n' (record t₂ { root = root; first_orphan_id = 0 }) [] s b
        (record { min_id = k.min_id; min_key = k.min_key; max_id = k.max_id; max_key = k.max_key })
        n'.orphan_ids (record { starts = refl; links = tt }) (λ i. omega arith))
retry_orphan-Retried n t e ys zs (o ∷ os) t₂ (finished n' root) s b c f =
    let l : Listed n'.orphan_ids t₂.first_orphan_id (o ∷ os) = rw (b.rest.orphans, f) s.orphaned in
    let (p, q) =
      pop_first_orphan-Listed n'.orphan_ids t₂.first_orphan_id o os l
        (λ i. omega (arith, s.distinct i)) in
    let k = c n' root b.rest.keys in
    let popped = pop_first_orphan n'.orphan_ids t₂.first_orphan_id in
    let t₃ : AvlTree = record t₂ { root = root; first_orphan_id = popped.2 } in
    let st =
      left-IsAvl n t e ys zs (o ∷ os) n' t₃ os s b
        (record { min_id = k.min_id; min_key = k.min_key; max_id = k.max_id; max_key = k.max_key })
        popped.1 q (λ i. omega arith) in
    let n₃ : Nodes = record n' { orphan_ids = popped.1 } in
    rw (p) (
      subst
        (λ key.
          IsAvl (insert n₃ t₃ o).0 (insert n₃ t₃ o).1 (insert_sorted key o (ys ++ zs)) os
          ⊎ (IsAvl (insert n₃ t₃ o).0 (insert n₃ t₃ o).1 (ys ++ zs) (o ∷ os)
              × (min_nodes max_avl_height ≤ length (ys ++ zs))))
        b.rest.keys
        (insert-IsAvl n₃ t₃ o (ys ++ zs) os st (
          omega
            (arith, s.distinct o, once_self o, count-append o ys zs, count-append o ys (e ∷ zs)))))

-- The place of a node of the tree, and the lists before and after it.
at_place-Retried :
    (n : Nodes) (t : AvlTree) (e : ℕ) (c : Place) (a b : Tree) (os : List ℕ)
    → IsAvl n t ((before c ++ inorder a) ++ (e ∷ (inorder b ++ after c))) os
    → Holds n t.root (plug c (node a e b))
    → height (plug c (node a e b)) ≤ max_avl_height
    → Retried n.key
        ((before c ++ inorder a) ++ (inorder b ++ after c))
        os
        (delete n t e).0
        (delete n t e).1
unfolding delete
at_place-Retried n t e c a b os s h low =
    let ys = before c ++ inorder a in
    let zs = inorder b ++ after c in
    let v = node a e b in
    let one : once e e ≡ 1 = once_self e in
    let total : ((i : ℕ) → count i (ys ++ (e ∷ zs)) ≡ around i c + count i (inorder v)) = λ i.
      omega (
        arith,
        count-append i ys (e ∷ zs),
        count-append i (before c) (inorder a),
        count-append i (inorder b) (after c),
        count-node i a e b,
      ) in
    let (ka, k) = Kids-unplug n.left_id n.right_id t.root c v h.kids in
    let (va, u) = Up-unplug n.parent_id c v h.up in
    let (ba, w) = Bal-unplug n.balance c v h.bal in
    let spot : Spot n t.root c v (height v) = record {
      kids_at = ka;
      kids = k;
      up_at = va;
      up = u;
      bal_at = ba;
      bal = w;
      distinct = λ i. omega (arith, s.distinct i, total i);
    } in
    let bound : plug_height c (height v) ≤ max_avl_height = omega (arith, height-plug c v) in
    let flag : n.is_orphan e ≡ false =
      s.flags_tree e (λ z. omega (arith, total e, count-node e a e b)) in
    let same : before c ++ ((inorder a ++ inorder b) ++ after c) ≡ ys ++ zs =
      simp (append_assoc) refl in
    let whole =
      retrace_unlinked-Whole n (before c ++ ((inorder a ++ inorder b) ++ after c))
        (plug_height c (height v)) (unlink n t.root e) bound
        (unlink-Cut n t.root c a e b spot bound) in
    let next = next_node-first n t.root c a e b spot bound in
    let prev = prev_node-last n t.root c a e b spot bound in
    let t₂ = forget_max n (forget_min n t e) e in
    let new : (count e ys ≡ 0) × (count e zs ≡ 0) = (
      omega (arith, total e, s.distinct e, count-append e ys (e ∷ zs)),
      omega (arith, total e, s.distinct e, count-append e ys (e ∷ zs)),
    ) in
    rw (flag) (
      retry_orphan-Retried n t e ys zs os t₂ (retrace_unlinked (unlink n t.root e)) s
        (Done-mono
          (Rebuilt n (before c ++ ((inorder a ++ inorder b) ++ after c)) (plug_height c (height v)))
          (Rebuilt n (ys ++ zs) max_avl_height) (retrace_unlinked (unlink n t.root e))
          (λ m r.
            Rebuilt-as n n (before c ++ ((inorder a ++ inorder b) ++ after c)) (ys ++ zs)
              (plug_height c (height v)) max_avl_height m r same bound
              (record { keys = refl; orphan = refl; orphans = refl }))
          whole)
        (λ n' root key. (forget-Cached n n' t root e ys zs key s.cached new.0 new.1 next prev).0)
        (forget-Cached n n t 0 e ys zs refl s.cached new.0 new.1 next prev).1)

-- Of a tree and orphans that satisfy IsAvl (Avl/Invariant), avl_tree_delete of a node of the
-- tree takes the node out of xs and keeps the rest in order, balanced, with right parents,
-- cached ends, flags and orphan list; then, if there are orphans, the first is put at the place
-- of its key, or is the first orphan again, and in that case the tree has at least as many nodes
-- as a balanced tree of height MAX_AVL_HEIGHT must have. No early return is taken.
pub delete-IsAvl :
    (n : Nodes) (t : AvlTree) (e : ℕ) (xs os : List ℕ)
    → IsAvl n t xs os
    → count e xs ≢ 0
    → Retried n.key (erase e xs) os (delete n t e).0 (delete n t e).1
delete-IsAvl n t e xs os s i =
    let k = s.in_tree in
    let (c, a, b, p) = place_of e k.tree (λ z. i (ap (count e) (sym k.same) ∙ z)) in
    let ys = before c ++ inorder a in
    let zs = inorder b ++ after c in
    let cut : xs ≡ ys ++ (e ∷ zs) =
      sym k.same ∙ ap inorder (sym p) ∙ inorder-plug c (node a e b) ∙ simp (append_assoc) refl in
    let new : count e ys ≡ 0 =
      omega (arith, s.distinct e, ap (count e) cut, count-append e ys (e ∷ zs), once_self e) in
    rw (cut, erase-middle e ys zs new)
      (at_place-Retried n t e c a b os (subst (λ l. IsAvl n t l os) cut s)
        (subst (Holds n t.root) (sym p) k.holds) (omega (arith, k.low, ap height p)))
