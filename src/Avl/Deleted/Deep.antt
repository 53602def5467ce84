-- ===== src/Avl/Deleted/Deep.antt =====
-- How avl_tree_delete (lib/avl.bpf.h) takes out a node whose successor lies deeper.
use ghost_userspace_o.Base.{
  ℕ, suc, ◌+◌, ◌≤◌, ◌≡◌, ◌≢◌, true, false, refl, sym, ap, subst, ◌∙◌, ◌==◌, ==_refl, count, update,
  ◌++◌, some, arith,
}
use Prim.Native.Nat.{pred}
use ghost_userspace_o.ArrList.Links.{update_miss, update_at}
use ghost_userspace_o.Avl.{Nodes}
use ghost_userspace_o.Avl.Rotate.{relink_child}
use ghost_userspace_o.Avl.Delete.{unlink_next, unlink_deep, hang_right, replace_by_next, adopt}
use ghost_userspace_o.Avl.Tree.{
  Tree, leaf, node, Place, top, left_of, right_of, inorder, height, before, after, plug, root_id,
  above_id, within, plug-within, plug_height,
}
use ghost_userspace_o.Avl.Held.{
  Kids, Up, BalAt, KidsAt, UpAt, around, once, once_self, count-node, around-right, around-left,
  Kids-frame, Bal-frame, Up-frame, Up-reparent, Up-frame, Up-reparent,
}
use ghost_userspace_o.Avl.Held.Around.{
  BalAt-frame, KidsAt-frame, UpAt-frame, Kids-unplug, Up-unplug, Kids-plug, Up-plug, Kids-root_id,
  root_id-other,
}
use ghost_userspace_o.Avl.Deleted.Replace.{replace-Spot}
use ghost_userspace_o.Avl.Deleted.Unlink.{Joint, Joined, Unlinks, replace_by_next-Joined}
use ghost_userspace_o.Avl.Deleted.Next.{Spot-seen, count-plug, around-within}
use ghost_userspace_o.Avl.Rotated.{once-ne}
use ghost_userspace_o.Avl.Spot.{Spot, Rest-trans, ==_ne}
use ghost_userspace_o.Avl.Deleted.Cuts.{Cut, Unlinks-mono, Joined-Cut}

-- A tree around a place that holds a node has a root.
root_of :
    (d : Place) (a : Tree) (x : ℕ) (b : Tree) → (w : ℕ) × (root_id (plug d (node a x b)) ≡ suc w)
root_of top a x b = (x, refl)
root_of (left_of d e r) a x b = root_of d (node a x b) e r
root_of (right_of l e d) a x b = root_of d l e (node a x b)

-- What the right subtree of e is hung to, once m has left it.
hung-Joint :
    (n : Nodes) (root : ℕ) (c : Place) (t : Tree) (e m : ℕ) (b : Tree) (w : ℕ)
    → KidsAt n.left_id n.right_id root c (suc e)
    → Kids n.left_id n.right_id (node t e b) (suc e)
    → UpAt n.parent_id c
    → Up n.parent_id (above_id c) (node t e b)
    → ((i : ℕ) → around i c + count i (inorder t) + (count i (inorder b) + once e i + once m i) ≤ 1)
    → root_id b ≡ suc w
    → Joint
        (record n {
          right_id = update n.right_id m (suc w);
          parent_id = update n.parent_id w (suc m);
        })
        root
        c
        t
        e
        m
        b
hung-Joint n root c t e m b w k (i, ka, kb) v (p, ua, ub) d h =
    let r' : ℕ → ℕ = update n.right_id m (suc w) in
    let p' : ℕ → ℕ = update n.parent_id w (suc m) in
    let one_e : once e e ≡ 1 = once_self e in
    let id = Kids-root_id n.left_id n.right_id b (n.right_id e) kb in
    let ids : ((j : ℕ)
        → around j c + count j (inorder t) + count j (inorder b) ≢ 0
        → n.right_id j ≡ r' j) =
      λ j q. sym (update_miss n.right_id m j (suc w) (once-ne m j (omega (arith, d j)))) in
    let not_w : ((j : ℕ) → around j c + count j (inorder t) + once e j ≢ 0 → w ≢ j) =
      λ j q z. root_id-other b j (omega (arith, d j)) (h ∙ ap suc z) in
    let parents : ((j : ℕ) → w ≢ j → n.parent_id j ≡ p' j) =
      λ j q. sym (update_miss n.parent_id w j (suc m) q) in
    record {
      kids_at =
          KidsAt-frame n.left_id n.right_id n.left_id r' root c (suc e)
            (λ j q. (refl, ids j (omega arith))) k;
      kids_left =
          Kids-frame n.left_id n.right_id n.left_id r' t (n.left_id e)
            (λ j q. (refl, ids j (omega arith))) ka;
      kids_right = subst (Kids n.left_id r' b) (id ∙ h ∙ sym (update_at n.right_id m (suc w))) (
          Kids-frame n.left_id n.right_id n.left_id r' b (n.right_id e)
            (λ j q. (refl, ids j (omega arith))) kb);
      up_at = UpAt-frame n.parent_id p' c (λ j q. parents j (not_w j (omega arith))) v;
      up_left = Up-frame n.parent_id p' (suc e) t (λ j q. parents j (not_w j (omega arith))) ua;
      up_right =
          Up-reparent n.parent_id p' (suc e) (suc m) b (λ j q z. parents j (λ i. z (h ∙ ap suc i)))
            (λ j q. ap p' (ap pred (sym q ∙ h)) ∙ update_at n.parent_id w (suc m))
            (λ j. omega (arith, d j)) ub;
      parent = sym (parents e (not_w e (omega arith))) ∙ p;
      distinct = d;
    }

-- The case of the next node that is deeper: its right subtree takes its place first.
pub deep-Cut :
    (n : Nodes) (root : ℕ) (c : Place) (a : Tree) (y : ℕ) (a' : Tree) (e m : ℕ) (d : Place) (x : ℕ)
    (b u : Tree)
    → Spot n root c
        (node (node a y a') e (plug (left_of d x b) (node leaf m u)))
        (height (node (node a y a') e (plug (left_of d x b) (node leaf m u))))
    → Unlinks
        (Cut n
          (before c ++ (inorder (node (node a y a') m (plug (left_of d x b) u)) ++ after c))
          (plug_height c (height (node (node a y a') e (plug (left_of d x b) (node leaf m u))))))
        (unlink_next n root e (some m))
unfolding unlink_next unlink_deep hang_right
deep-Cut n root c a y a' e m d₀ x b u s =
    let t = node a y a' in
    let d : Place = left_of d₀ x b in
    let f : Place = right_of t e c in
    let v =
      Spot-seen n root c (node t e (plug d (node leaf m u))) (within d f) (node leaf m u)
        (sym (plug-within d f (node leaf m u))) s in
    let k : Nodes = record n { balance = update n.balance m (n.balance e) } in
    let one_e : once e e ≡ 1 = once_self e in
    let one_x : once x x ≡ 1 = once_self x in
    let one_m : once m m ≡ 1 = once_self m in
    let tot : ((i : ℕ)
        → around i (within d f)
          ≡ around i d₀
            + (once x i + count i (inorder b))
            + (around i c + (once e i + count i (inorder t)))) =
      λ i. omega (arith, around-within i d f, around-left i d₀ x b, around-right i t e c) in
    let dis : ((i : ℕ) → around i (within d f) + (once m i + count i (inorder u)) ≤ 1) =
      λ i. omega (arith, v.distinct i, count-node i leaf m u) in
    let pm : n.parent_id m ≡ suc x = v.up.0 in
    let x≢e : suc x ≢ suc e = λ q. once-ne e x (omega (arith, tot x, dis x)) (omega arith) in
    let test : (n.parent_id m == suc e) ≡ false = rw (pm) (==_ne (suc x) (suc e) x≢e) in
    let left : (n.left_id x == suc m) ≡ true = rw (v.kids_at.0) (==_refl (suc m)) in
    let (i₀, z₀, ku) = v.kids in
    let (lv, z₁, bu) = v.bal in
    let (pm', z₂, uu) = v.up in
    let ru = Kids-root_id n.left_id n.right_id u (n.right_id m) ku in
    let not_m : ((i : ℕ) → around i (within d f) + count i (inorder u) ≢ 0 → m ≢ i) =
      λ i w. once-ne m i (omega (arith, dis i)) in
    let kept : ((i : ℕ) → m ≢ i → n.balance i ≡ k.balance i) =
      λ i w. sym (update_miss n.balance m i (n.balance e) w) in
    let be : k.balance m ≡ k.balance e =
      update_at n.balance m (n.balance e) ∙ kept e (once-ne m e (omega (arith, tot e, dis e))) in
    let bd : BalAt k.balance (within d f) (suc (height u)) =
      BalAt-frame n.balance k.balance (within d f) (suc (height u))
        (λ i w. kept i (not_m i (omega arith)))
        (subst (BalAt n.balance (within d f)) (omega arith) v.bal_at) in
    let bu' = Bal-frame n.balance k.balance u (λ i w. kept i (not_m i (omega arith))) bu in
    let (q, r, w) =
      replace-Spot k root m (within d f) u (suc m) (suc (height u)) v.kids_at v.up_at bd
        (subst (Kids n.left_id n.right_id u) ru ku) uu bu' (λ i. omega (arith, dis i))
        (omega (arith, dis m)) in
    let out = adopt (relink_child k root m (suc x) (root_id u)) (root_id u) (suc x) in
    let o : Nodes = out.0 in
    let R = plug d u in
    let pw = plug-within d f u in
    let (ka, kk) = Kids-unplug o.left_id o.right_id out.1 c (node t e R) (
      subst (λ z. Kids o.left_id o.right_id z out.1) pw
        (Kids-plug o.left_id o.right_id out.1 (within d f) u (root_id u) q.kids_at q.kids)) in
    let (va, vv) =
      Up-unplug o.parent_id c (node t e R)
        (subst (Up o.parent_id 0) pw (Up-plug o.parent_id (within d f) u q.up_at q.up)) in
    let (g, hg) = root_of d₀ u x b in
    let right : o.right_id e ≡ suc g =
      Kids-root_id o.left_id o.right_id R (o.right_id e) kk.2 ∙ hg in
    let o₃ : Nodes = record o {
      right_id = update o.right_id m (suc g);
      parent_id = update o.parent_id g (suc m);
    } in
    let joint =
      hung-Joint o out.1 c t e m R g ka kk va vv
        (λ i. omega (arith, tot i, dis i, count-plug i d u, around-left i d₀ x b)) hg in
    let joined = replace_by_next-Joined o₃ out.1 c a y a' e m R (suc x) true joint in
    rw (test, pm, ru, left, pm, right)
      (Unlinks-mono
        (λ n' root' x' fl. Joined o₃ (plug c (node t m R)) n' root' × (x' ≡ suc x) × (fl ≡ true))
        (Cut n (before c ++ (inorder (node t m R) ++ after c))
          (plug_height c (height (node t e (plug d (node leaf m u))))))
        (replace_by_next o₃ out.1 e m (suc x) true)
        (λ n' root' x' fl z.
          rw (z.1, z.2)
            (Joined-Cut n o₃ n' root' c t e m d u true
              (Rest-trans n k o₃ (record { keys = refl; orphan = refl; orphans = refl })
                (record { keys = r.keys; orphan = r.orphan; orphans = r.orphans }))
              z.0 (ap (λ h. h m) w ∙ be ∙ ap (λ h. h e) (sym w)) q.bal_at q.bal v.distinct refl))
        joined)
