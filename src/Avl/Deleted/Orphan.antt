-- ===== src/Avl/Deleted/Orphan.antt =====
-- avl_tree_delete (lib/avl.bpf.h) of an orphan.
use ghost_userspace_o.Base.{
  ℕ, ◌+◌, ◌≡◌, ◌≢◌, refl, ap, subst, inl, inr, Bool-cases, ◌==◌, ==_iff, if◌then◌else◌, List, ◌∷◌,
  ◌++◌, count, count-append, arith,
}
use ghost_userspace_o.Avl.{Nodes, AvlTree}
use ghost_userspace_o.Avl.Delete.{delete, delete_orphan}
use ghost_userspace_o.Avl.Held.{once_self}
use ghost_userspace_o.Avl.Keys.{erase, erase-middle}
use ghost_userspace_o.Avl.Orphans.Listed.{split_at, remove_orphan-Listed}
use ghost_userspace_o.Avl.Invariant.{IsAvl}

erased-IsAvl :
    (n : Nodes) (t : AvlTree) (e : ℕ) (xs ys zs : List ℕ)
    → IsAvl n t xs (ys ++ (e ∷ zs))
    → IsAvl (delete n t e).0 (delete n t e).1 xs (ys ++ zs)
unfolding delete delete_orphan
erased-IsAvl n t e xs ys zs s =
    let one = once_self e in
    let tot : ((i : ℕ)
        → count i (ys ++ (e ∷ zs)) ≡ (if e == i then 1 else 0) + count i (ys ++ zs)) =
      λ i. omega (arith, count-append i ys (e ∷ zs), count-append i ys zs) in
    let flag = s.flags_orphan e (λ z. omega (arith, tot e)) in
    let k = s.in_tree in
    rw (flag) record {
      in_tree = record {
        tree = k.tree;
        same = k.same;
        holds = record { kids = k.holds.kids; up = k.holds.up; bal = k.holds.bal };
        low = k.low;
        sorted = k.sorted;
      };
      cached = record {
        min_id = s.cached.min_id;
        min_key = s.cached.min_key;
        max_id = s.cached.max_id;
        max_key = s.cached.max_key;
      };
      orphaned =
          remove_orphan-Listed n.orphan_ids t.first_orphan_id ys e zs s.orphaned
            (λ i. omega (arith, s.distinct i));
      flags_tree = λ i w. elim (Bool-cases (e == i)) [
        | inl p ↦ rw (p) refl
        | inr p ↦ rw (p) (s.flags_tree i w)
      ];
      flags_orphan = λ i w. elim (Bool-cases (e == i)) [
        | inl p ↦ absurd (
            w (omega (arith, s.distinct e, tot e, ap (λ j. count j (ys ++ zs)) ((==_iff e i).0 p))))
        | inr p ↦ rw (p) (s.flags_orphan i (λ z. w (omega (arith, tot i))))
      ];
      distinct = λ i. omega (arith, s.distinct i, tot i);
    }

-- Of a tree and orphans that satisfy IsAvl (Avl/Invariant), avl_tree_delete of one of the
-- orphans takes it out of their list, wherever it stands there, and keeps the order of the
-- others and the tree.
pub delete-orphan :
    (n : Nodes) (t : AvlTree) (e : ℕ) (xs os : List ℕ)
    → IsAvl n t xs os
    → count e os ≢ 0
    → IsAvl (delete n t e).0 (delete n t e).1 xs (erase e os)
delete-orphan n t e xs os s h =
    let (ys, zs, p, q) = split_at e os h in
    rw (p, erase-middle e ys zs q) (erased-IsAvl n t e xs ys zs (subst (λ l. IsAvl n t xs l) p s))
