-- ===== src/Avl/Inserted/Orphan.antt =====
-- avl_tree_insert (lib/avl.bpf.h) of a node that the tree has no room for.
-- in the order, or becomes the first orphan.
use ghost_userspace_o.Base.{
  ℕ, ◌+◌, ◌≡◌, ◌≢◌, refl, sym, ap, inl, inr, ◌==◌, ==_iff, Bool-cases, List, ◌∷◌, count, update,
  arith,
}
use ghost_userspace_o.Base.Int.{pos}
use ghost_userspace_o.ArrList.Links.{update_miss}
use ghost_userspace_o.Avl.{Nodes, AvlTree}
use ghost_userspace_o.Avl.Insert.{reset_node, make_orphan}
use ghost_userspace_o.Avl.Tree.{inorder}
use ghost_userspace_o.Avl.Held.{Kids-frame, Bal-frame}
use ghost_userspace_o.Avl.Orphans.Listed.{insert_orphan-Listed}
use ghost_userspace_o.Avl.Invariant.{IsAvl}

-- The node becomes the first orphan.
pub orphan-IsAvl :
    (n : Nodes) (t : AvlTree) (e : ℕ) (xs os : List ℕ)
    → IsAvl n t xs os
    → count e xs + count e os ≡ 0
    → IsAvl (make_orphan (reset_node n e) t e).0 (make_orphan (reset_node n e) t e).1 xs (e ∷ os)
orphan-IsAvl n t e xs os s o =
    let k = s.in_tree in
    let away : ((i : ℕ) → count i (inorder k.tree) ≢ 0 → e ≢ i) =
      λ i w q. w (omega (arith, ap (count i) k.same, ap (λ j. count j xs) q)) in
    record {
      in_tree = record {
        tree = k.tree;
        same = k.same;
        holds = record {
          kids =
              Kids-frame n.left_id n.right_id (update n.left_id e 0) (update n.right_id e 0) k.tree
                t.root
                (λ i w. (
                  sym (update_miss n.left_id e i 0 (away i w)),
                  sym (update_miss n.right_id e i 0 (away i w)),
                ))
                k.holds.kids;
          up = k.holds.up;
          bal =
              Bal-frame n.balance (update n.balance e (pos 0)) k.tree
                (λ i w. sym (update_miss n.balance e i (pos 0) (away i w))) k.holds.bal;
        };
        low = k.low;
        sorted = k.sorted;
      };
      cached = record {
        min_id = s.cached.min_id;
        min_key = s.cached.min_key;
        max_id = s.cached.max_id;
        max_key = s.cached.max_key;
      };
      orphaned =
          insert_orphan-Listed n.orphan_ids t.first_orphan_id e os s.orphaned
            (λ i. omega (arith, s.distinct i)) (omega arith);
      flags_tree = λ i w. elim (Bool-cases (e == i)) [
        | inl p ↦ absurd (w (omega (arith, ap (λ j. count j xs) ((==_iff e i).0 p))))
        | inr p ↦ rw (p) (s.flags_tree i w)
      ];
      flags_orphan = λ i w. elim (Bool-cases (e == i)) [
        | inl p ↦ rw (p) refl
        | inr p ↦ rw (p) (s.flags_orphan i (λ z. w (rw (p) (omega arith))))
      ];
      distinct = λ i. elim (Bool-cases (e == i)) [
        | inl p ↦ rw (p) (omega (arith, ap (λ j. count j xs + count j os) ((==_iff e i).0 p)))
        | inr p ↦ rw (p) (omega (arith, s.distinct i))
      ];
    }
