-- ===== src/Avl/Deleted/Next.antt =====
-- The next node in avl_tree_delete (lib/avl.bpf.h), in the place of the deleted one: what is left
-- is a subtree that has lost a level, in a tree that is balanced but for that.
use ghost_userspace_o.Base.{
  ℕ, ◌+◌, ◌≤◌, ◌≡◌, refl, sym, ap, subst, count, count-append, ◌++◌, arith,
}
use ghost_userspace_o.Avl.{Nodes}
use ghost_userspace_o.Avl.Tree.{
  Tree, leaf, node, Place, right_of, inorder, height, before, after, plug, root_id, within,
  plug-within, before-within, after-within, inorder-plug,
}
use ghost_userspace_o.Avl.Held.{Kids, Up, Bal, BalAt, around, count-node, around-right}
use ghost_userspace_o.Avl.Held.Around.{
  Kids-plug, Up-plug, Bal-plug, Kids-unplug, Up-unplug, Bal-unplug,
}
use ghost_userspace_o.Avl.Deleted.Replace.{BalAt-renamed}
use ghost_userspace_o.Avl.Deleted.Unlink.{Joined}
use ghost_userspace_o.Avl.Spot.{Spot, Holds}

pub around-within : (i : ℕ) (c d : Place) → around i (within c d) ≡ around i c + around i d
around-within i c d = omega (
  arith,
  ap (count i) (before-within c d),
  ap (count i) (after-within c d),
  count-append i (before d) (before c),
  count-append i (after c) (after d),
)

pub count-plug :
    (i : ℕ) (c : Place) (t : Tree) → count i (inorder (plug c t)) ≡ around i c + count i (inorder t)
count-plug i c t = omega (
  arith,
  ap (count i) (inorder-plug c t),
  count-append i (before c) (inorder t ++ after c),
  count-append i (inorder t) (after c),
)

-- A tree that is held, seen from a place in it.
pub Holds-Spot :
    (n : Nodes) (root : ℕ) (c : Place) (t : Tree)
    → Holds n root (plug c t)
    → ((i : ℕ) → count i (inorder (plug c t)) ≤ 1)
    → Spot n root c t (height t)
Holds-Spot n root c t h d =
    let (ka, k) = Kids-unplug n.left_id n.right_id root c t h.kids in
    let (va, v) = Up-unplug n.parent_id c t h.up in
    let (ba, b) = Bal-unplug n.balance c t h.bal in
    record {
      kids_at = ka;
      kids = k;
      up_at = va;
      up = v;
      bal_at = ba;
      bal = b;
      distinct = λ i. omega (arith, d i, count-plug i c t);
    }

-- The same tree, seen from another place in it.
pub Spot-seen :
    (n : Nodes) (root : ℕ) (c : Place) (t : Tree) (d : Place) (u : Tree)
    → plug c t ≡ plug d u
    → Spot n root c t (height t)
    → Spot n root d u (height u)
Spot-seen n root c t d u p s =
    let whole =
      subst (λ w. Kids n.left_id n.right_id w root) p
        (Kids-plug n.left_id n.right_id root c t (root_id t) s.kids_at s.kids) in
    let (ka, k) = Kids-unplug n.left_id n.right_id root d u whole in
    let (va, v) =
      Up-unplug n.parent_id d u
        (subst (Up n.parent_id 0) p (Up-plug n.parent_id c t s.up_at s.up)) in
    let (ba, b) =
      Bal-unplug n.balance d u (subst (Bal n.balance) p (Bal-plug n.balance c t s.bal_at s.bal)) in
    record {
      kids_at = ka;
      kids = k;
      up_at = va;
      up = v;
      bal_at = ba;
      bal = b;
      distinct = λ i. omega (
        arith,
        s.distinct i,
        count-plug i c t,
        count-plug i d u,
        ap (λ w. count i (inorder w)) p,
      );
    }

-- The node m has taken the place of e, and its balance; below it, the place d has lost m.
pub Joined-Spot :
    (n n' : Nodes) (root : ℕ) (c : Place) (a : Tree) (e m : ℕ) (d : Place) (u : Tree) (h : ℕ)
    → Joined n (plug c (node a m (plug d u))) n' root
    → n.balance m ≡ n.balance e
    → BalAt n.balance (within d (right_of a e c)) h
    → Bal n.balance u
    → ((i : ℕ) → around i (within d (right_of a e c)) + count i (inorder (node leaf m u)) ≤ 1)
    → Spot n' root (within d (right_of a m c)) u h
Joined-Spot n n' root c a e m d u h j be b bu o =
    let f : Place = right_of a m c in
    let p = plug-within d f u in
    let (ka, k) =
      Kids-unplug n'.left_id n'.right_id root (within d f) u
        (subst (λ w. Kids n'.left_id n'.right_id w root) (sym p) j.kids) in
    let (va, v) = Up-unplug n'.parent_id (within d f) u (subst (Up n'.parent_id 0) (sym p) j.up) in
    record {
      kids_at = ka;
      kids = k;
      up_at = va;
      up = v;
      bal_at = rw (j.balances) (BalAt-renamed n.balance n.balance d a e m c h be (λ i w. refl) b);
      bal = rw (j.balances) bu;
      distinct = λ i. omega (
        arith,
        o i,
        around-within i d (right_of a e c),
        around-within i d f,
        around-right i a e c,
        around-right i a m c,
        count-node i leaf m u,
      );
    }
