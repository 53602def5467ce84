-- ===== src/Avl/Deleted/Retrace.antt =====
-- The way up after a deletion (lib/avl.bpf.h): the subtree that has lost a level makes the whole a
-- balanced tree again, and no early return is taken.
use ghost_userspace_o.Base.{ℕ, zero, suc, ◌≤◌, Bool, refl, subst, inl, inr, ◌++◌, arith}
use Prim.Native.Nat.{max}
use ghost_userspace_o.Base.Int.{pos, negsuc}
use ghost_userspace_o.Avl.{Nodes}
use ghost_userspace_o.Avl.Delete.{retrace_delete, delete_round, rotate_round_at, is_left_of}
use ghost_userspace_o.Avl.Tree.{
  Tree, node, Place, top, left_of, right_of, inorder, height, before, after, above_id, depth,
  plug_height, plug_height_mono,
}
use ghost_userspace_o.Avl.Held.{count-node, once_self}
use ghost_userspace_o.Avl.Inserted.Descend.{Side}
use ghost_userspace_o.Avl.Spot.{
  Spot, Rebuilt, Rebuilt-as, Spot-Rebuilt, Spot-left, Spot-right, weighed, unplug_left,
  unplug_right, unplug_left-distinct, unplug_right-distinct,
}
use ghost_userspace_o.Avl.Deleted.Step.{
  goes_to-Done, Whole-as, Spot-Rebuilt-top, Rest-balance, rotate_right_step, rotate_left_step,
  Whole, is_left_of-Side,
}

-- If a subtree has lost a level in its place, around which the tree is balanced for the height
-- before, and there are at least as many rounds as the place is deep, then the loop of
-- avl_tree_delete from the node above ends without an early return, in a whole balanced tree
-- that reads the same nodes in the same order and is no higher than before.
pub retrace_delete-Whole :
    (k : ℕ) (n : Nodes) (root : ℕ) (c : Place) (t : Tree) (left : Bool)
    → depth c ≤ k
    → Spot n root c t (suc (height t))
    → Side c left
    → Whole n
        (before c ++ (inorder t ++ after c))
        (plug_height c (suc (height t)))
        (retrace_delete k n root (above_id c) left)
unfolding retrace_delete delete_round rotate_round_at
retrace_delete-Whole zero n root top t left f s side = Spot-Rebuilt-top n root t s
retrace_delete-Whole (suc k) n root top t left f s side = Spot-Rebuilt-top n root t s
retrace_delete-Whole zero n root (left_of c x b) t left f s side = absurd (omega arith)
retrace_delete-Whole zero n root (right_of b x c) t left f s side = absurd (omega arith)
retrace_delete-Whole (suc k) n root (left_of c x b) t left f s side =
    let (p, kb, kc) = s.kids_at in
    let (o, ub, uc) = s.up_at in
    let (w, bb, bc) = s.bal_at in
    let d = unplug_left-distinct c t x b s.distinct in
    let sided : Side c (is_left_of n (above_id c) (suc x)) =
      is_left_of-Side n root x c kc (omega (arith, d x, count-node x t x b, once_self x)) in
    elim w [
      | inl (q, e) ↦
          let m = weighed n root c t x b (suc (height t)) (pos 1) in
          let w =
            Spot-Rebuilt m m root c (node t x b)
              (subst (Spot m root c (node t x b)) (omega arith) (
                Spot-left n root c t x b (suc (height t)) (pos 1) s
                  (inr (inl (refl, omega arith)))))
              (record { keys = refl; orphan = refl; orphans = refl }) in
          rw (side, q)
            (Rebuilt-as n m (before c ++ (inorder (node t x b) ++ after c))
              (before (left_of c x b) ++ (inorder t ++ after (left_of c x b)))
              (plug_height c (height (node t x b))) (plug_height (left_of c x b) (suc (height t))) m
              root (unplug_left c t x b)
              (plug_height_mono c (height (node t x b)) (suc (max (suc (height t)) (height b)))
                (omega arith))
              (Rest-balance n m.balance) w)
      | inr (inl (q, e)) ↦
          rw (side, q, o)
            (rotate_right_step k n root c t x b s e
              (λ p up u v w. retrace_delete-Whole k p.0 p.1 c u up (omega arith) v w))
      | inr (inr (q, e)) ↦
          let m = weighed n root c t x b (suc (height t)) (pos 0) in
          let up = is_left_of n (above_id c) (suc x) in
          let w =
            retrace_delete-Whole k m root c (node t x b) up (omega arith)
              (subst (Spot m root c (node t x b)) (omega arith)
                (Spot-left n root c t x b (suc (height t)) (pos 0) s (inl (refl, omega arith))))
              sided in
          rw (side, q, o)
            (goes_to-Done
              (Rebuilt n (before (left_of c x b) ++ (inorder t ++ after (left_of c x b)))
                (plug_height (left_of c x b) (suc (height t))))
              k m root c up
              (Whole-as n m (before c ++ (inorder (node t x b) ++ after c))
                (before (left_of c x b) ++ (inorder t ++ after (left_of c x b)))
                (plug_height c (suc (height (node t x b))))
                (plug_height (left_of c x b) (suc (height t)))
                (retrace_delete k m root (above_id c) up) (unplug_left c t x b)
                (plug_height_mono c (suc (height (node t x b)))
                  (suc (max (suc (height t)) (height b))) (omega arith))
                (Rest-balance n m.balance) w))
    ]
retrace_delete-Whole (suc k) n root (right_of b x c) t left f s side =
    let (p, kb, kc) = s.kids_at in
    let (o, ub, uc) = s.up_at in
    let (w, bb, bc) = s.bal_at in
    let d = unplug_right-distinct c b x t s.distinct in
    let sided : Side c (is_left_of n (above_id c) (suc x)) =
      is_left_of-Side n root x c kc (omega (arith, d x, count-node x b x t, once_self x)) in
    elim w [
      | inl (q, e) ↦
          let m = weighed n root c t x b (suc (height t)) (negsuc 0) in
          let w =
            Spot-Rebuilt m m root c (node b x t)
              (subst (Spot m root c (node b x t)) (omega arith) (
                Spot-right n root c t x b (suc (height t)) (negsuc 0) s
                  (inr (inr (refl, omega arith)))))
              (record { keys = refl; orphan = refl; orphans = refl }) in
          rw (side, q)
            (Rebuilt-as n m (before c ++ (inorder (node b x t) ++ after c))
              (before (right_of b x c) ++ (inorder t ++ after (right_of b x c)))
              (plug_height c (height (node b x t))) (plug_height (right_of b x c) (suc (height t)))
              m root (unplug_right c b x t)
              (plug_height_mono c (height (node b x t)) (suc (max (height b) (suc (height t))))
                (omega arith))
              (Rest-balance n m.balance) w)
      | inr (inl (q, e)) ↦
          let m = weighed n root c t x b (suc (height t)) (pos 0) in
          let up = is_left_of n (above_id c) (suc x) in
          let w =
            retrace_delete-Whole k m root c (node b x t) up (omega arith)
              (subst (Spot m root c (node b x t)) (omega arith)
                (Spot-right n root c t x b (suc (height t)) (pos 0) s (inl (refl, omega arith))))
              sided in
          rw (side, q, o)
            (goes_to-Done
              (Rebuilt n (before (right_of b x c) ++ (inorder t ++ after (right_of b x c)))
                (plug_height (right_of b x c) (suc (height t))))
              k m root c up
              (Whole-as n m (before c ++ (inorder (node b x t) ++ after c))
                (before (right_of b x c) ++ (inorder t ++ after (right_of b x c)))
                (plug_height c (suc (height (node b x t))))
                (plug_height (right_of b x c) (suc (height t)))
                (retrace_delete k m root (above_id c) up) (unplug_right c b x t)
                (plug_height_mono c (suc (height (node b x t)))
                  (suc (max (height b) (suc (height t)))) (omega arith))
                (Rest-balance n m.balance) w))
      | inr (inr (q, e)) ↦
          rw (side, q, o)
            (rotate_left_step k n root c t x b s e
              (λ p up u v w. retrace_delete-Whole k p.0 p.1 c u up (omega arith) v w))
    ]
