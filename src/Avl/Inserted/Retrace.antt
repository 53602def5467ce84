-- ===== src/Avl/Inserted/Retrace.antt =====
-- The way up after an insertion (lib/avl.bpf.h): the subtree that has grown by a level makes the
-- whole a balanced tree again.
use ghost_userspace_o.Base.{
  ℕ, zero, suc, ◌≤◌, ◌≡◌, Bool, true, false, refl, sym, ap, subst, ◌∙◌, ◌⊎◌, inl, inr, ◌==◌,
  ==_refl, ◌++◌, [], arith,
}
use Prim.Native.Nat.{max}
use ghost_userspace_o.Base.Int.{pos, negsuc}
use ghost_userspace_o.ArrList.Links.{update_at}
use ghost_userspace_o.Avl.{Nodes}
use ghost_userspace_o.Avl.Rotate.{is_level, rotate_up, relink}
use ghost_userspace_o.Avl.Insert.{retrace_insert}
use ghost_userspace_o.Avl.Tree.{
  Tree, node, Place, top, left_of, right_of, inorder, height, before, after, above_id, depth,
  plug_height, plug_height_mono,
}
use ghost_userspace_o.Avl.Held.{count-node, once_self, around-right}
use ghost_userspace_o.Avl.Held.Around.{root_id-other, Kids-root_id}
use ghost_userspace_o.Avl.Rotated.{Lost}
use ghost_userspace_o.Avl.Rotated.Tied.{Tied, rotate_left_heavy, rotate_right_heavy}
use ghost_userspace_o.Avl.Spot.{
  Spot, Rebuilt, Rebuilt-as, Spot-Rebuilt, Spot-left, Spot-right, weighed, unplug_left,
  unplug_right, unplug_left-distinct, unplug_right-distinct, ==_ne,
}

Lost-one : (level : Bool) (g h : ℕ) → level ≡ false → Lost level g h → suc g ≡ h
Lost-one true g h p l = cc
Lost-one false g h p l = l

grown_not_level : (g h : ℕ) (level : Bool) → (g ≡ 0) ⊎ (level ≡ false) → g ≡ suc h → level ≡ false
grown_not_level g h level (inl p) e = absurd (omega arith)
grown_not_level g h level (inr p) e = p

Spot-top :
    (n : Nodes) (root : ℕ) (t : Tree) (g : ℕ) → Spot n root top t g → Spot n root top t (height t)
Spot-top n root t g s = record {
  kids_at = s.kids_at;
  kids = s.kids;
  up_at = s.up_at;
  up = s.up;
  bal_at = tt;
  bal = s.bal;
  distinct = s.distinct;
}

-- A rotation absorbs the level.
Tied-Rebuilt :
    (n n' : Nodes) (root : ℕ) (c : Place) (t : Tree) (level : Bool) (h m : ℕ)
    → Tied n c t level h n' root
    → level ≡ false
    → height t ≡ suc h
    → h ≤ m
    → Rebuilt n (before c ++ (inorder t ++ after c)) (plug_height c m) n' root
Tied-Rebuilt n n' root c t level h m s l e p =
    let low : height s.tree ≡ h =
      omega (arith, Lost-one level (height s.tree) (height t) l s.lost) in
    let b =
      Spot-Rebuilt n n' root c s.tree (subst (Spot n' root c s.tree) (sym low) s.spot) s.rest in
    Rebuilt-as n n (before c ++ (inorder s.tree ++ after c)) (before c ++ (inorder t ++ after c))
      (plug_height c (height s.tree)) (plug_height c m) n' root
      (ap (λ xs. before c ++ (xs ++ after c)) s.same)
      (plug_height_mono c (height s.tree) m (omega arith))
      (record { keys = refl; orphan = refl; orphans = refl }) b

-- If a subtree has grown by a level in its place, around which the tree is balanced for the
-- height before, its root is not level unless it is the new node, and there are at least as many
-- rounds as the place is deep, then the loop of avl_tree_insert from the node above makes a
-- whole balanced tree that reads the same nodes in the same order and is no higher than with the
-- grown subtree in place.
pub retrace_insert-Rebuilt :
    (k : ℕ) (n : Nodes) (root : ℕ) (c : Place) (a : Tree) (z : ℕ) (b : Tree) (g : ℕ)
    → depth c ≤ k
    → Spot n root c (node a z b) g
    → height (node a z b) ≡ suc g
    → (g ≡ 0) ⊎ (is_level (n.balance z) ≡ false)
    → Rebuilt n
        (before c ++ (inorder (node a z b) ++ after c))
        (plug_height c (suc g))
        (retrace_insert k n root (above_id c) z).0
        (retrace_insert k n root (above_id c) z).1
unfolding retrace_insert
retrace_insert-Rebuilt zero n root top a z b g f s h grown =
    subst (λ m. Rebuilt n (inorder (node a z b) ++ []) m n root) h
      (Spot-Rebuilt n n root top (node a z b) (Spot-top n root (node a z b) g s)
        (record { keys = refl; orphan = refl; orphans = refl }))
retrace_insert-Rebuilt (suc k) n root top a z b g f s h grown =
    subst (λ m. Rebuilt n (inorder (node a z b) ++ []) m n root) h
      (Spot-Rebuilt n n root top (node a z b) (Spot-top n root (node a z b) g s)
        (record { keys = refl; orphan = refl; orphans = refl }))
retrace_insert-Rebuilt zero n root (left_of c x t) a z b g f s h grown = absurd (omega arith)
retrace_insert-Rebuilt zero n root (right_of t x c) a z b g f s h grown = absurd (omega arith)
retrace_insert-Rebuilt (suc k) n root (left_of c x t) a z b g f s h grown =
    let (p, kb, kc) = s.kids_at in
    let (o, ub, uc) = s.up_at in
    let (w, bb, bc) = s.bal_at in
    let left : (n.left_id x == suc z) ≡ true = rw (p) (==_refl (suc z)) in
    elim w [
      | inl (q, e) ↦
          let m = weighed n root c (node a z b) x t g (negsuc 0) in
          let k' =
            retrace_insert-Rebuilt k m root c (node a z b) x t (suc (max g (height t)))
              (omega arith)
              (Spot-left n root c (node a z b) x t g (negsuc 0) s (inr (inr (refl, omega arith))))
              (omega arith) (inr (ap is_level (update_at n.balance x (negsuc 0)))) in
          rw (q, left, o)
            (Rebuilt-as n m (before c ++ (inorder (node (node a z b) x t) ++ after c))
              (before (left_of c x t) ++ (inorder (node a z b) ++ after (left_of c x t)))
              (plug_height c (suc (suc (max g (height t))))) (plug_height (left_of c x t) (suc g))
              (retrace_insert k m root (above_id c) x).0 (retrace_insert k m root (above_id c) x).1
              (unplug_left c (node a z b) x t)
              (plug_height_mono c (suc (suc (max g (height t)))) (suc (max (suc g) (height t)))
                (omega arith))
              (record { keys = refl; orphan = refl; orphans = refl }) k')
      | inr (inl (q, e)) ↦
          let k' =
            Spot-Rebuilt n (weighed n root c (node a z b) x t g (pos 0)) root c
              (node (node a z b) x t)
              (subst
                (Spot (weighed n root c (node a z b) x t g (pos 0)) root c (node (node a z b) x t))
                (omega arith)
                (Spot-left n root c (node a z b) x t g (pos 0) s (inl (refl, omega arith))))
              (record { keys = refl; orphan = refl; orphans = refl }) in
          rw (q, left)
            (Rebuilt-as n n (before c ++ (inorder (node (node a z b) x t) ++ after c))
              (before (left_of c x t) ++ (inorder (node a z b) ++ after (left_of c x t)))
              (plug_height c (height (node (node a z b) x t))) (plug_height (left_of c x t) (suc g))
              (weighed n root c (node a z b) x t g (pos 0)) root (unplug_left c (node a z b) x t)
              (plug_height_mono c (height (node (node a z b) x t)) (suc (max (suc g) (height t)))
                (omega arith))
              (record { keys = refl; orphan = refl; orphans = refl }) k')
      | inr (inr (q, e)) ↦
          let r =
            rotate_left_heavy n root c a z b x t (suc (max g (height t)))
              (record {
                kids_at = kc;
                kids = (refl, rw (p) s.kids, kb);
                up_at = uc;
                up = (o, s.up, ub);
                bal_at = bc;
                bal_left = s.bal;
                bal_right = bb;
                distinct = unplug_left-distinct c (node a z b) x t s.distinct;
              })
              (omega arith) in
          let (relinked, root') = relink (rotate_up true n x z) root x (above_id c) in
          let k' =
            Tied-Rebuilt n relinked root' c (node (node a z b) x t) (is_level (n.balance z))
              (suc (max g (height t))) (height (node (node a z b) x t)) r
              (grown_not_level g (height t) (is_level (n.balance z)) grown e) (omega arith)
              (omega arith) in
          rw (q, left, o)
            (Rebuilt-as n n (before c ++ (inorder (node (node a z b) x t) ++ after c))
              (before (left_of c x t) ++ (inorder (node a z b) ++ after (left_of c x t)))
              (plug_height c (height (node (node a z b) x t))) (plug_height (left_of c x t) (suc g))
              relinked root' (unplug_left c (node a z b) x t)
              (plug_height_mono c (height (node (node a z b) x t)) (suc (max (suc g) (height t)))
                (omega arith))
              (record { keys = refl; orphan = refl; orphans = refl }) k')
    ]
retrace_insert-Rebuilt (suc k) n root (right_of t x c) a z b g f s h grown =
    let (p, kb, kc) = s.kids_at in
    let (o, ub, uc) = s.up_at in
    let (w, bb, bc) = s.bal_at in
    let left : (n.left_id x == suc z) ≡ false = ==_ne (n.left_id x) (suc z) (λ i.
      root_id-other t z
        (omega (arith, s.distinct z, count-node z a z b, once_self z, around-right z t x c))
        (sym (Kids-root_id n.left_id n.right_id t (n.left_id x) kb) ∙ i)) in
    elim w [
      | inl (q, e) ↦
          let m = weighed n root c (node a z b) x t g (pos 1) in
          let k' =
            retrace_insert-Rebuilt k m root c t x (node a z b) (suc (max (height t) g))
              (omega arith)
              (Spot-right n root c (node a z b) x t g (pos 1) s (inr (inl (refl, omega arith))))
              (omega arith) (inr (ap is_level (update_at n.balance x (pos 1)))) in
          rw (q, left, o)
            (Rebuilt-as n m (before c ++ (inorder (node t x (node a z b)) ++ after c))
              (before (right_of t x c) ++ (inorder (node a z b) ++ after (right_of t x c)))
              (plug_height c (suc (suc (max (height t) g)))) (plug_height (right_of t x c) (suc g))
              (retrace_insert k m root (above_id c) x).0 (retrace_insert k m root (above_id c) x).1
              (unplug_right c t x (node a z b))
              (plug_height_mono c (suc (suc (max (height t) g))) (suc (max (height t) (suc g)))
                (omega arith))
              (record { keys = refl; orphan = refl; orphans = refl }) k')
      | inr (inl (q, e)) ↦
          let r =
            rotate_right_heavy n root c t x a z b (suc (max (height t) g))
              (record {
                kids_at = kc;
                kids = (refl, kb, rw (p) s.kids);
                up_at = uc;
                up = (o, ub, s.up);
                bal_at = bc;
                bal_left = bb;
                bal_right = s.bal;
                distinct = unplug_right-distinct c t x (node a z b) s.distinct;
              })
              (omega arith) in
          let (relinked, root') = relink (rotate_up false n x z) root x (above_id c) in
          let k' =
            Tied-Rebuilt n relinked root' c (node t x (node a z b)) (is_level (n.balance z))
              (suc (max (height t) g)) (height (node t x (node a z b))) r
              (grown_not_level g (height t) (is_level (n.balance z)) grown e) (omega arith)
              (omega arith) in
          rw (q, left, o)
            (Rebuilt-as n n (before c ++ (inorder (node t x (node a z b)) ++ after c))
              (before (right_of t x c) ++ (inorder (node a z b) ++ after (right_of t x c)))
              (plug_height c (height (node t x (node a z b))))
              (plug_height (right_of t x c) (suc g)) relinked root'
              (unplug_right c t x (node a z b))
              (plug_height_mono c (height (node t x (node a z b))) (suc (max (height t) (suc g)))
                (omega arith))
              (record { keys = refl; orphan = refl; orphans = refl }) k')
      | inr (inr (q, e)) ↦
          let k' =
            Spot-Rebuilt n (weighed n root c (node a z b) x t g (pos 0)) root c
              (node t x (node a z b))
              (subst
                (Spot (weighed n root c (node a z b) x t g (pos 0)) root c (node t x (node a z b)))
                (omega arith)
                (Spot-right n root c (node a z b) x t g (pos 0) s (inl (refl, omega arith))))
              (record { keys = refl; orphan = refl; orphans = refl }) in
          rw (q, left)
            (Rebuilt-as n n (before c ++ (inorder (node t x (node a z b)) ++ after c))
              (before (right_of t x c) ++ (inorder (node a z b) ++ after (right_of t x c)))
              (plug_height c (height (node t x (node a z b))))
              (plug_height (right_of t x c) (suc g)) (weighed n root c (node a z b) x t g (pos 0))
              root (unplug_right c t x (node a z b))
              (plug_height_mono c (height (node t x (node a z b))) (suc (max (height t) (suc g)))
                (omega arith))
              (record { keys = refl; orphan = refl; orphans = refl }) k')
    ]
