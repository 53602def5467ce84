-- ===== src/Avl/Deleted/Cuts.antt =====
-- How avl_tree_delete (lib/avl.bpf.h) takes a node out of the tree, before it walks up.
use ghost_userspace_o.Base.{
  ℕ, suc, ◌+◌, ◌≤◌, ◌≡◌, ◌≢◌, Bool, true, false, refl, sym, ap, subst, ◌∙◌, ◌==◌, ==_refl, count,
  update, List, ◌++◌, some, arith,
}
use Prim.Native.Nat.{max}
use ghost_userspace_o.ArrList.Links.{update_miss, update_at}
use ghost_userspace_o.Avl.{Nodes}
use ghost_userspace_o.Avl.Rotate.{relink_child}
use ghost_userspace_o.Avl.Delete.{
  Unlinked, returned, unlinked, unlink_next, replace_by_next, is_left_of, adopt,
}
use ghost_userspace_o.Avl.Tree.{
  Tree, leaf, node, Place, top, right_of, inorder, height, before, after, plug, root_id, above_id,
  within, plug-within, inorder-plug, plug_height, plug_height_mono, plug_height-within, height-plug,
}
use ghost_userspace_o.Avl.Held.{
  Kids, Up, Bal, BalAt, KidsAt, UpAt, around, once, once_self, count-node, around-right, Bal-frame,
}
use ghost_userspace_o.Avl.Held.Around.{BalAt-frame}
use ghost_userspace_o.Avl.Inserted.Descend.{Side}
use ghost_userspace_o.Avl.Deleted.Step.{is_left_of-Side}
use ghost_userspace_o.Avl.Deleted.Replace.{replace-Spot}
use ghost_userspace_o.Avl.Deleted.Unlink.{Joined, Unlinks, replace_by_next-Joined}
use ghost_userspace_o.Avl.Deleted.Next.{Spot-seen, Joined-Spot}
use ghost_userspace_o.Avl.Rotated.{once-ne}
use ghost_userspace_o.Avl.Spot.{Spot, Rest, Rest-trans}

-- The tree without the node: at a place, from which the walk up starts, is a subtree that has lost
-- a level, and the whole reads xs and is no higher than it was.
pub record Cut (n : Nodes) (xs : List ℕ) (bound : ℕ) (n' : Nodes) (root x_id : ℕ) (left : Bool)
    : Type 0 where
  pub place : Place
  pub subtree : Tree
  pub above : x_id ≡ above_id place
  pub side : Side place left
  pub spot : Spot n' root place subtree (suc (height subtree))
  pub same : before place ++ (inorder subtree ++ after place) ≡ xs
  pub low : plug_height place (suc (height subtree)) ≤ bound
  pub rest : Rest n n'

-- One subtree is a leaf: the other takes the place.
pub lone_child-Cut :
    (n : Nodes) (root : ℕ) (c : Place) (e : ℕ) (u : Tree) (h : ℕ)
    → KidsAt n.left_id n.right_id root c (suc e)
    → UpAt n.parent_id c
    → BalAt n.balance c h
    → Kids n.left_id n.right_id u (root_id u)
    → Up n.parent_id (suc e) u
    → Bal n.balance u
    → ((i : ℕ) → around i c + (once e i + count i (inorder u)) ≤ 1)
    → h ≡ suc (height u)
    → Cut n
        (before c ++ (inorder u ++ after c))
        (plug_height c h)
        (adopt (relink_child n root e (above_id c) (root_id u)) (root_id u) (above_id c)).0
        (adopt (relink_child n root e (above_id c) (root_id u)) (root_id u) (above_id c)).1
        (above_id c)
        (is_left_of n (above_id c) (suc e))
lone_child-Cut n root c e u h k v b ku vu bu d p =
    let new : around e c ≡ 0 = omega (arith, d e, once_self e) in
    let (s, r, w) =
      replace-Spot n root e c u (suc e) h k v b ku vu bu (λ i. omega (arith, d i)) new in
    let m = adopt (relink_child n root e (above_id c) (root_id u)) (root_id u) (above_id c) in
    record {
      place = c;
      subtree = u;
      above = refl;
      side = is_left_of-Side n root e c k new;
      spot = subst (Spot m.0 m.1 c u) p s;
      same = refl;
      low = plug_height_mono c (suc (height u)) h (omega arith);
      rest = r;
    }

pub Unlinks-mono :
    (P Q : Nodes → ℕ → ℕ → Bool → Type 0) (r : Unlinked)
    → ((n : Nodes) (root x_id : ℕ) (left : Bool) → P n root x_id left → Q n root x_id left)
    → Unlinks P r
    → Unlinks Q r
Unlinks-mono P Q (returned n root) f u = u
Unlinks-mono P Q (unlinked n root x_id left) f u = f n root x_id left u

-- The next node m has taken the place of e: what the walk up starts from.
pub Joined-Cut :
    (n k n' : Nodes) (root : ℕ) (c : Place) (t : Tree) (e m : ℕ) (d : Place) (u : Tree)
    (left : Bool)
    → Rest n k
    → Joined k (plug c (node t m (plug d u))) n' root
    → k.balance m ≡ k.balance e
    → BalAt k.balance (within d (right_of t e c)) (suc (height u))
    → Bal k.balance u
    → ((i : ℕ) → around i (within d (right_of t e c)) + count i (inorder (node leaf m u)) ≤ 1)
    → Side (within d (right_of t m c)) left
    → Cut n
        (before c ++ (inorder (node t m (plug d u)) ++ after c))
        (plug_height c (height (node t e (plug d (node leaf m u)))))
        n'
        root
        (above_id (within d (right_of t m c)))
        left
Joined-Cut n k n' root c t e m d u left r j be b bu o side =
    let f : Place = right_of t m c in
    let high : plug_height d (suc (height u)) ≡ height (plug d (node leaf m u)) =
      ap (plug_height d) (omega arith) ∙ sym (height-plug d (node leaf m u)) in
    record {
      place = within d f;
      subtree = u;
      above = refl;
      side = side;
      spot = Joined-Spot k n' root c t e m d u (suc (height u)) j be b bu o;
      same =
          sym (inorder-plug (within d f) u)
          ∙ ap inorder (plug-within d f u)
          ∙ inorder-plug c (node t m (plug d u));
      low = omega (
        arith,
        plug_height-within d f (suc (height u)),
        plug_height_mono c (suc (max (height t) (plug_height d (suc (height u)))))
            (height (node t e (plug d (node leaf m u)))) (omega arith),
      );
      rest = Rest-trans n k n' r j.rest;
    }

-- The case of the next node that is the right child.
pub immediate-Cut :
    (n : Nodes) (root : ℕ) (c : Place) (a : Tree) (y : ℕ) (a' : Tree) (e m : ℕ) (u : Tree)
    → Spot n root c
        (node (node a y a') e (node leaf m u))
        (height (node (node a y a') e (node leaf m u)))
    → Unlinks
        (Cut n
          (before c ++ (inorder (node (node a y a') m u) ++ after c))
          (plug_height c (height (node (node a y a') e (node leaf m u)))))
        (unlink_next n root e (some m))
unfolding unlink_next
immediate-Cut n root c a y a' e m u s =
    let t = node a y a' in
    let d : Place = right_of t e c in
    let v = Spot-seen n root c (node t e (node leaf m u)) d (node leaf m u) refl s in
    let k : Nodes = record n { balance = update n.balance m (n.balance e) } in
    let test : (n.parent_id m == suc e) ≡ true = rw (v.up.0) (==_refl (suc e)) in
    let (i, ka, (j, z, ku)) = s.kids in
    let (p, ua, (pm, z', uu)) = s.up in
    let (lv, z'', bu) = v.bal in
    let tot : ((i : ℕ)
        → around i c + count i (inorder t) + (once e i + once m i + count i (inorder u)) ≤ 1) =
      λ i. omega (arith, v.distinct i, around-right i t e c, count-node i leaf m u) in
    let one_e : once e e ≡ 1 = once_self e in
    let one_m : once m m ≡ 1 = once_self m in
    let joined = replace_by_next-Joined k root c a y a' e m u (suc m) false (record {
      kids_at = s.kids_at;
      kids_left = ka;
      kids_right = ku;
      up_at = s.up_at;
      up_left = ua;
      up_right = uu;
      parent = p;
      distinct = λ i. omega (arith, tot i);
    }) in
    let not_m : ((i : ℕ) → around i d + count i (inorder u) ≢ 0 → m ≢ i) =
      λ i w. once-ne m i (omega (arith, v.distinct i, count-node i leaf m u)) in
    let kept : ((i : ℕ) → m ≢ i → n.balance i ≡ k.balance i) =
      λ i w. sym (update_miss n.balance m i (n.balance e) w) in
    let be : k.balance m ≡ k.balance e =
      update_at n.balance m (n.balance e) ∙ kept e (once-ne m e (omega (arith, tot e))) in
    let b : BalAt k.balance d (suc (height u)) =
      BalAt-frame n.balance k.balance d (suc (height u)) (λ i w. kept i (not_m i (omega arith)))
        (subst (BalAt n.balance d) (omega arith) v.bal_at) in
    let bu' = Bal-frame n.balance k.balance u (λ i w. kept i (not_m i (omega arith))) bu in
    rw (test) (
      Unlinks-mono
        (λ n' root' x fl. Joined k (plug c (node t m u)) n' root' × (x ≡ suc m) × (fl ≡ false))
        (Cut n (before c ++ (inorder (node t m u) ++ after c))
          (plug_height c (height (node t e (node leaf m u)))))
        (replace_by_next k root e m (suc m) false)
        (λ n' root' x fl w.
          rw (w.1, w.2)
            (Joined-Cut n k n' root' c t e m top u false
              (record { keys = refl; orphan = refl; orphans = refl }) w.0 be b bu' v.distinct refl))
        joined)
