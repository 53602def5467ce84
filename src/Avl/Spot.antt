-- ===== src/Avl/Spot.antt =====
-- A subtree in its place: what the loops of lib/avl.bpf.h that walk up the tree find at each round.
use ghost_userspace_o.Base.{
  ℕ, suc, ◌+◌, ◌≤◌, ◌≡◌, ◌≢◌, false, refl, sym, ◌∙◌, ◌==◌, ◌++◌, count, List, update, arith,
}
use Prim.Native.Nat.{max}
use ghost_userspace_o.Avl.{Nodes}
use ghost_userspace_o.Base.Int.{ℤ}
use ghost_userspace_o.Avl.Tree.{
  Tree, node, Place, left_of, right_of, inorder, height, plug, before, after, root_id, above_id,
  plug_height, inorder-plug, height-plug,
}
use ghost_userspace_o.Avl.Held.{
  Kids, Up, Bal, Level, KidsAt, UpAt, BalAt, around, once, count-node, around-left, around-right,
  once_self, Bal-frame,
}
use ghost_userspace_o.Avl.Held.Around.{BalAt-frame, Kids-plug, Up-plug, Bal-plug}
use ghost_userspace_o.Avl.Rotated.{once-ne}
use ghost_userspace_o.ArrList.Links.{update_miss, update_at}

-- The nodes hold the tree t at the place c, which stands in a tree with its root, of the balances
-- that a subtree of the height h makes right.
pub record Spot (n : Nodes) (root : ℕ) (c : Place) (t : Tree) (h : ℕ) : Type 0 where
  pub kids_at : KidsAt n.left_id n.right_id root c (root_id t)
  pub kids : Kids n.left_id n.right_id t (root_id t)
  pub up_at : UpAt n.parent_id c
  pub up : Up n.parent_id (above_id c) t
  pub bal_at : BalAt n.balance c h
  pub bal : Bal n.balance t
  pub distinct : (e : ℕ) → around e c + count e (inorder t) ≤ 1

-- The fields that no walk writes.
pub record Rest (n n' : Nodes) : Type 0 where
  pub keys : n'.key ≡ n.key
  pub orphan : n'.is_orphan ≡ n.is_orphan
  pub orphans : n'.orphan_ids ≡ n.orphan_ids

pub Rest-trans : (n m k : Nodes) → Rest n m → Rest m k → Rest n k
Rest-trans n m k p q = record {
  keys = q.keys ∙ p.keys;
  orphan = q.orphan ∙ p.orphan;
  orphans = q.orphans ∙ p.orphans;
}

-- The nodes hold a whole tree.
pub record Holds (n : Nodes) (root : ℕ) (t : Tree) : Type 0 where
  pub kids : Kids n.left_id n.right_id t root
  pub up : Up n.parent_id 0 t
  pub bal : Bal n.balance t

-- They hold one that reads xs, of at most some height.
pub record Rebuilt (n : Nodes) (xs : List ℕ) (bound : ℕ) (n' : Nodes) (root : ℕ) : Type 0 where
  pub tree : Tree
  pub same : inorder tree ≡ xs
  pub holds : Holds n' root tree
  pub low : height tree ≤ bound
  pub rest : Rest n n'

pub Spot-Rebuilt :
    (n n' : Nodes) (root : ℕ) (c : Place) (t : Tree)
    → Spot n' root c t (height t)
    → Rest n n'
    → Rebuilt n (before c ++ (inorder t ++ after c)) (plug_height c (height t)) n' root
Spot-Rebuilt n n' root c t s r = record {
  tree = plug c t;
  same = inorder-plug c t;
  holds = record {
    kids = Kids-plug n'.left_id n'.right_id root c t (root_id t) s.kids_at s.kids;
    up = Up-plug n'.parent_id c t s.up_at s.up;
    bal = Bal-plug n'.balance c t s.bal_at s.bal;
  };
  low = omega (arith, height-plug c t);
  rest = r;
}

pub ==_ne : (a b : ℕ) → a ≢ b → (a == b) ≡ false
==_ne a b h = ground arith

-- The subtree of the node above a place, and the place of that, are the same whole.
pub unplug_left :
    (c : Place) (t : Tree) (e : ℕ) (b : Tree)
    → before c ++ (inorder (node t e b) ++ after c)
      ≡ before (left_of c e b) ++ (inorder t ++ after (left_of c e b))
unplug_left c t e b = sym (inorder-plug c (node t e b)) ∙ inorder-plug (left_of c e b) t

pub unplug_right :
    (c : Place) (a : Tree) (e : ℕ) (t : Tree)
    → before c ++ (inorder (node a e t) ++ after c)
      ≡ before (right_of a e c) ++ (inorder t ++ after (right_of a e c))
unplug_right c a e t = sym (inorder-plug c (node a e t)) ∙ inorder-plug (right_of a e c) t

pub Rebuilt-as :
    (n m : Nodes) (xs ys : List ℕ) (g h : ℕ) (n' : Nodes) (root : ℕ)
    → xs ≡ ys
    → g ≤ h
    → Rest n m
    → Rebuilt m xs g n' root
    → Rebuilt n ys h n' root
Rebuilt-as n m xs ys g h n' root e p r b = record {
  tree = b.tree;
  same = b.same ∙ e;
  holds = b.holds;
  low = omega (arith, b.low);
  rest = Rest-trans n m n' r b.rest;
}

pub unplug_left-distinct :
    (c : Place) (t : Tree) (e : ℕ) (b : Tree)
    → ((i : ℕ) → around i (left_of c e b) + count i (inorder t) ≤ 1)
    → (i : ℕ) → around i c + count i (inorder (node t e b)) ≤ 1
unplug_left-distinct c t e b d i = omega (arith, d i, around-left i c e b, count-node i t e b)

pub unplug_right-distinct :
    (c : Place) (a : Tree) (e : ℕ) (t : Tree)
    → ((i : ℕ) → around i (right_of a e c) + count i (inorder t) ≤ 1)
    → (i : ℕ) → around i c + count i (inorder (node a e t)) ≤ 1
unplug_right-distinct c a e t d i = omega (arith, d i, around-right i a e c, count-node i a e t)

-- The balance of the node above a place is written, and it becomes right for the subtree.
module _ (n : Nodes) (root : ℕ) (c : Place) (t : Tree) (e : ℕ) (b : Tree) (h : ℕ) (v : ℤ) where
  abbrev pub weighed : Nodes
  weighed = record n { balance = update n.balance e v }

  pub Spot-left :
      Spot n root (left_of c e b) t h
      → Level v (height t) (height b)
      → Spot weighed root c (node t e b) (suc (max h (height b)))
  Spot-left s l =
      let (p, kb, kc) = s.kids_at in
      let (q, ub, uc) = s.up_at in
      let (w, bb, bc) = s.bal_at in
      let one : once e e ≡ 1 = once_self e in
      let kept : ((i : ℕ) → e ≢ i → n.balance i ≡ update n.balance e v i) =
        λ i o. sym (update_miss n.balance e i v o) in
      let d = unplug_left-distinct c t e b s.distinct in
      record {
        kids_at = kc;
        kids = (refl, rw (p) s.kids, kb);
        up_at = uc;
        up = (q, s.up, ub);
        bal_at =
            BalAt-frame n.balance (update n.balance e v) c (suc (max h (height b)))
              (λ i o. kept i (once-ne e i (omega (arith, d i, count-node i t e b)))) bc;
        bal = (
          rw (update_at n.balance e v) l,
          Bal-frame n.balance (update n.balance e v) t
              (λ i o. kept i (once-ne e i (omega (arith, d i, count-node i t e b)))) s.bal,
          Bal-frame n.balance (update n.balance e v) b
              (λ i o. kept i (once-ne e i (omega (arith, d i, count-node i t e b)))) bb,
        );
        distinct = d;
      }

  pub Spot-right :
      Spot n root (right_of b e c) t h
      → Level v (height b) (height t)
      → Spot weighed root c (node b e t) (suc (max (height b) h))
  Spot-right s l =
      let (p, kb, kc) = s.kids_at in
      let (q, ub, uc) = s.up_at in
      let (w, bb, bc) = s.bal_at in
      let one : once e e ≡ 1 = once_self e in
      let kept : ((i : ℕ) → e ≢ i → n.balance i ≡ update n.balance e v i) =
        λ i o. sym (update_miss n.balance e i v o) in
      let d = unplug_right-distinct c b e t s.distinct in
      record {
        kids_at = kc;
        kids = (refl, kb, rw (p) s.kids);
        up_at = uc;
        up = (q, ub, s.up);
        bal_at =
            BalAt-frame n.balance (update n.balance e v) c (suc (max (height b) h))
              (λ i o. kept i (once-ne e i (omega (arith, d i, count-node i b e t)))) bc;
        bal = (
          rw (update_at n.balance e v) l,
          Bal-frame n.balance (update n.balance e v) b
              (λ i o. kept i (once-ne e i (omega (arith, d i, count-node i b e t)))) bb,
          Bal-frame n.balance (update n.balance e v) t
              (λ i o. kept i (once-ne e i (omega (arith, d i, count-node i b e t)))) s.bal,
        );
        distinct = d;
      }
