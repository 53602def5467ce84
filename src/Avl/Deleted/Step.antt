-- ===== src/Avl/Deleted/Step.antt =====
-- One round on the way up after a deletion (lib/avl.bpf.h), where a rotation may follow.
use ghost_userspace_o.Base.{
  ℕ, zero, suc, ◌≤◌, ◌≡◌, Bool, true, false, refl, sym, ap, subst, ◌∙◌, ==_refl, ◌++◌, [], List,
  if◌then◌else◌, arith,
}
use Prim.Native.Nat.{max}
use ghost_userspace_o.Base.Int.{ℤ}
use ghost_userspace_o.Avl.{Nodes}
use ghost_userspace_o.Avl.Rotate.{is_level, rotate_up, relink}
use ghost_userspace_o.Avl.Delete.{
  Retraced, finished, returned_early, retrace_delete, rotate_round_at, breaks, is_left_of, goes_to,
  after_round,
}
use ghost_userspace_o.Avl.Tree.{
  Tree, leaf, node, Place, top, left_of, right_of, inorder, height, before, after, above_id,
  plug_height, plug_height_mono,
}
use ghost_userspace_o.Avl.Held.{KidsAt, count-node, once_self, around, around-right}
use ghost_userspace_o.Avl.Held.Around.{root_id-other, Kids-root_id}
use ghost_userspace_o.Avl.Rotated.Tied.{Tied, rotate_left_heavy, rotate_right_heavy}
use ghost_userspace_o.Avl.Inserted.Descend.{Side}
use ghost_userspace_o.Avl.Spot.{
  Spot, Rest, Rebuilt, Rebuilt-as, Spot-Rebuilt, unplug_left, unplug_right, unplug_left-distinct,
  unplug_right-distinct, ==_ne,
}

-- The loop ends, without an early return, in a state of which Q holds.
abbrev pub Done : (Nodes → ℕ → Type 0) → Retraced → Type 0
Done Q (returned_early n root) = ⊥
Done Q (finished n root) = Q n root

pub Done-mono :
    (P Q : Nodes → ℕ → Type 0) (r : Retraced)
    → ((n : Nodes) (root : ℕ) → P n root → Q n root)
    → Done P r
    → Done Q r
Done-mono P Q (returned_early n root) f d = d
Done-mono P Q (finished n root) f d = f n root d

-- A break above the root is what another round would do.
pub goes_to-Done :
    (Q : Nodes → ℕ → Type 0) (k : ℕ) (n : Nodes) (root : ℕ) (c : Place) (left : Bool)
    → Done Q (retrace_delete k n root (above_id c) left)
    → Done Q (after_round (goes_to (n, root) (above_id c) left) (retrace_delete k))
unfolding retrace_delete
goes_to-Done Q zero n root top left d = d
goes_to-Done Q (suc k) n root top left d = d
goes_to-Done Q k n root (left_of c e b) left d = d
goes_to-Done Q k n root (right_of a e c) left d = d

-- On which side a node is, is what its parent tells.
pub is_left_of-Side :
    (n : Nodes) (root x : ℕ) (c : Place)
    → KidsAt n.left_id n.right_id root c (suc x)
    → around x c ≡ 0
    → Side c (is_left_of n (above_id c) (suc x))
is_left_of-Side n root x top k o = tt
is_left_of-Side n root x (left_of c e b) (p, q, k) o = rw (p) (==_refl (suc x))
is_left_of-Side n root x (right_of a e c) (p, q, k) o = ==_ne (n.left_id e) (suc x) (λ i.
    root_id-other a x (omega (arith, around-right x a e c))
      (sym (Kids-root_id n.left_id n.right_id a (n.left_id e) q) ∙ i))

-- A whole of which n' is a later state, for the reading xs.
abbrev pub Whole : Nodes → List ℕ → ℕ → Retraced → Type 0
Whole n xs bound r = Done (Rebuilt n xs bound) r

pub Whole-as :
    (n m : Nodes) (xs ys : List ℕ) (g h : ℕ) (r : Retraced)
    → xs ≡ ys
    → g ≤ h
    → Rest n m
    → Whole m xs g r
    → Whole n ys h r
Whole-as n m xs ys g h r e p q d =
    Done-mono (Rebuilt m xs g) (Rebuilt n ys h) r
      (λ n' root. Rebuilt-as n m xs ys g h n' root e p q) d

pub Spot-Rebuilt-top :
    (n : Nodes) (root : ℕ) (t : Tree)
    → Spot n root top t (suc (height t))
    → Rebuilt n (inorder t ++ []) (suc (height t)) n root
Spot-Rebuilt-top n root t s =
    Rebuilt-as n n (inorder t ++ []) (inorder t ++ []) (height t) (suc (height t)) n root refl
      (omega arith) (record { keys = refl; orphan = refl; orphans = refl })
      (Spot-Rebuilt n n root top t
        (record {
          kids_at = s.kids_at;
          kids = s.kids;
          up_at = s.up_at;
          up = s.up;
          bal_at = tt;
          bal = s.bal;
          distinct = s.distinct;
        })
        (record { keys = refl; orphan = refl; orphans = refl }))

pub Rest-balance : (n : Nodes) (v : ℕ → ℤ) → Rest n (record n { balance = v })
Rest-balance n v = record { keys = refl; orphan = refl; orphans = refl }

-- A rotation ends the loop, or the loop goes on above a subtree that has lost a level.
rotated-Whole :
    (k : ℕ) (n : Nodes) (c : Place) (t : Tree) (level : Bool) (h : ℕ) (p : Nodes × ℕ) (left : Bool)
    → Tied n c t level h p.0 p.1
    → h ≡ height t
    → ((u : Tree)
        → Spot p.0 p.1 c u (suc (height u))
        → Whole p.0
            (before c ++ (inorder u ++ after c))
            (plug_height c (suc (height u)))
            (retrace_delete k p.0 p.1 (above_id c) left))
    → Whole n (before c ++ (inorder t ++ after c)) (plug_height c h) (
        after_round
          (if level then breaks p.0 p.1 else goes_to p (above_id c) left)
          (retrace_delete k))
rotated-Whole k n c t true h (n', root) left s e rec =
    let low : height s.tree ≡ h = s.lost ∙ sym e in
    let b =
      Spot-Rebuilt n n' root c s.tree (subst (Spot n' root c s.tree) (sym low) s.spot) s.rest in
    Rebuilt-as n n (before c ++ (inorder s.tree ++ after c)) (before c ++ (inorder t ++ after c))
      (plug_height c (height s.tree)) (plug_height c h) n' root
      (ap (λ xs. before c ++ (xs ++ after c)) s.same)
      (plug_height_mono c (height s.tree) h (omega arith))
      (record { keys = refl; orphan = refl; orphans = refl }) b
rotated-Whole k n c t false h (n', root) left s e rec =
    let low : suc (height s.tree) ≡ h = s.lost ∙ sym e in
    let w = rec s.tree (subst (Spot n' root c s.tree) (sym low) s.spot) in
    goes_to-Done (Rebuilt n (before c ++ (inorder t ++ after c)) (plug_height c h)) k n' root c left
      (Whole-as n n' (before c ++ (inorder s.tree ++ after c)) (before c ++ (inorder t ++ after c))
        (plug_height c (suc (height s.tree))) (plug_height c h)
        (retrace_delete k n' root (above_id c) left) (ap (λ xs. before c ++ (xs ++ after c)) s.same)
        (plug_height_mono c (suc (height s.tree)) h (omega arith)) s.rest w)

pub rotate_right_step :
    (k : ℕ) (n : Nodes) (root : ℕ) (c : Place) (t : Tree) (x : ℕ) (b : Tree)
    → Spot n root (left_of c x b) t (suc (height t))
    → height b ≡ suc (suc (height t))
    → ((p : Nodes × ℕ) (up : Bool) (u : Tree)
        → Spot p.0 p.1 c u (suc (height u))
        → Side c up
        → Whole p.0
            (before c ++ (inorder u ++ after c))
            (plug_height c (suc (height u)))
            (retrace_delete k p.0 p.1 (above_id c) up))
    → Whole n
        (before (left_of c x b) ++ (inorder t ++ after (left_of c x b)))
        (plug_height (left_of c x b) (suc (height t)))
        (after_round (rotate_round_at n root x true (above_id c) (n.right_id x)) (retrace_delete k))
unfolding rotate_round_at
rotate_right_step k n root c t x leaf s e rec = absurd (omega arith)
rotate_right_step k n root c t x (node a z b) s e rec =
    let (p, kb, kc) = s.kids_at in
    let (o, ub, uc) = s.up_at in
    let (w, bb, bc) = s.bal_at in
    let d = unplug_left-distinct c t x (node a z b) s.distinct in
    let up = is_left_of n (above_id c) (suc x) in
    let sided : Side c up =
      is_left_of-Side n root x c kc
        (omega (arith, d x, count-node x t x (node a z b), once_self x)) in
    let r =
      rotate_right_heavy n root c t x a z b (suc (max (suc (height t)) (height (node a z b))))
        (record {
          kids_at = kc;
          kids = (refl, rw (p) s.kids, kb);
          up_at = uc;
          up = (o, s.up, ub);
          bal_at = bc;
          bal_left = s.bal;
          bal_right = bb;
          distinct = d;
        })
        e in
    let out = relink (rotate_up false n x z) root x (above_id c) in
    let hd = kb.0 in
    rw (hd) (
      Whole-as n n (before c ++ (inorder (node t x (node a z b)) ++ after c))
        (before (left_of c x (node a z b)) ++ (inorder t ++ after (left_of c x (node a z b))))
        (plug_height c (suc (max (suc (height t)) (height (node a z b)))))
        (plug_height (left_of c x (node a z b)) (suc (height t)))
        (after_round
          (if is_level (n.balance z) then breaks out.0 out.1 else goes_to out (above_id c) up)
          (retrace_delete k))
        (unplug_left c t x (node a z b))
        (plug_height_mono c (suc (max (suc (height t)) (height (node a z b))))
          (suc (max (suc (height t)) (height (node a z b)))) (omega arith))
        (Rest-balance n n.balance)
        (rotated-Whole k n c (node t x (node a z b)) (is_level (n.balance z))
          (suc (max (suc (height t)) (height (node a z b)))) out up r (omega arith)
          (λ u v. rec out up u v sided)))

pub rotate_left_step :
    (k : ℕ) (n : Nodes) (root : ℕ) (c : Place) (t : Tree) (x : ℕ) (b : Tree)
    → Spot n root (right_of b x c) t (suc (height t))
    → height b ≡ suc (suc (height t))
    → ((p : Nodes × ℕ) (up : Bool) (u : Tree)
        → Spot p.0 p.1 c u (suc (height u))
        → Side c up
        → Whole p.0
            (before c ++ (inorder u ++ after c))
            (plug_height c (suc (height u)))
            (retrace_delete k p.0 p.1 (above_id c) up))
    → Whole n
        (before (right_of b x c) ++ (inorder t ++ after (right_of b x c)))
        (plug_height (right_of b x c) (suc (height t)))
        (after_round (rotate_round_at n root x false (above_id c) (n.left_id x)) (retrace_delete k))
unfolding rotate_round_at
rotate_left_step k n root c t x leaf s e rec = absurd (omega arith)
rotate_left_step k n root c t x (node a z b) s e rec =
    let (p, kb, kc) = s.kids_at in
    let (o, ub, uc) = s.up_at in
    let (w, bb, bc) = s.bal_at in
    let d = unplug_right-distinct c (node a z b) x t s.distinct in
    let up = is_left_of n (above_id c) (suc x) in
    let sided : Side c up =
      is_left_of-Side n root x c kc
        (omega (arith, d x, count-node x (node a z b) x t, once_self x)) in
    let r =
      rotate_left_heavy n root c a z b x t (suc (max (height (node a z b)) (suc (height t))))
        (record {
          kids_at = kc;
          kids = (refl, kb, rw (p) s.kids);
          up_at = uc;
          up = (o, ub, s.up);
          bal_at = bc;
          bal_left = bb;
          bal_right = s.bal;
          distinct = d;
        })
        e in
    let out = relink (rotate_up true n x z) root x (above_id c) in
    let hd = kb.0 in
    rw (hd) (
      Whole-as n n (before c ++ (inorder (node (node a z b) x t) ++ after c))
        (before (right_of (node a z b) x c) ++ (inorder t ++ after (right_of (node a z b) x c)))
        (plug_height c (suc (max (height (node a z b)) (suc (height t)))))
        (plug_height (right_of (node a z b) x c) (suc (height t)))
        (after_round
          (if is_level (n.balance z) then breaks out.0 out.1 else goes_to out (above_id c) up)
          (retrace_delete k))
        (unplug_right c (node a z b) x t)
        (plug_height_mono c (suc (max (height (node a z b)) (suc (height t))))
          (suc (max (height (node a z b)) (suc (height t)))) (omega arith))
        (Rest-balance n n.balance)
        (rotated-Whole k n c (node (node a z b) x t) (is_level (n.balance z))
          (suc (max (height (node a z b)) (suc (height t)))) out up r (omega arith)
          (λ u v. rec out up u v sided)))
