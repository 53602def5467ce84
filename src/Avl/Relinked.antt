-- ===== src/Avl/Relinked.antt =====
-- relink and relink_child (lib/avl.bpf.h): the one link of the tree that they change.
use ghost_userspace_o.Base.{
  ℕ, suc, ◌+◌, ◌≤◌, ◌≡◌, ◌≢◌, Bool, true, false, refl, sym, ap, ◌∙◌, ◌==◌, count, update, ==_refl,
  arith,
}
use ghost_userspace_o.Avl.{Nodes}
use ghost_userspace_o.Avl.Rotate.{relink_child, relink}
use ghost_userspace_o.Avl.Tree.{Tree, Place, top, left_of, right_of, inorder, above_id}
use ghost_userspace_o.Avl.Held.{
  KidsAt, UpAt, BalAt, around, once, around-left, around-right, once_self, Kids-frame,
}
use ghost_userspace_o.Avl.Held.Around.{
  KidsAt-frame, UpAt-frame, BalAt-frame, Kids-root_id, root_id-other, above_id-other,
}
use ghost_userspace_o.Avl.Rotated.{Rotated, once-ne}
use ghost_userspace_o.ArrList.Links.{update_miss, update_at}
use ghost_userspace_o.Avl.Spot.{Spot, Rest, Rest-trans, ==_ne}

-- The child of what is above a place becomes another.
pub record Relinked (n : Nodes) (c : Place) (id : ℕ) (n' : Nodes) (root' : ℕ) : Type 0 where
  pub kids_at : KidsAt n'.left_id n'.right_id root' c id
  pub left : (e : ℕ) → above_id c ≢ suc e → n.left_id e ≡ n'.left_id e
  pub right : (e : ℕ) → above_id c ≢ suc e → n.right_id e ≡ n'.right_id e
  pub parents : n'.parent_id ≡ n.parent_id
  pub balances : n'.balance ≡ n.balance
  pub rest : Rest n n'

pub relink_child-Relinked :
    (n : Nodes) (root x : ℕ) (c : Place) (id : ℕ)
    → KidsAt n.left_id n.right_id root c (suc x)
    → ((e : ℕ) → around e c ≤ 1)
    → around x c ≡ 0
    → Relinked n c id
        (relink_child n root x (above_id c) id).0
        (relink_child n root x (above_id c) id).1
unfolding relink_child
relink_child-Relinked n root x top id k d o = record {
  kids_at = refl;
  left = λ e w. refl;
  right = λ e w. refl;
  parents = refl;
  balances = refl;
  rest = record { keys = refl; orphan = refl; orphans = refl };
}
relink_child-Relinked n root x (left_of c e b) id (h, j, k) d o =
    let test : (n.left_id e == suc x) ≡ true = rw (h) (==_refl (suc x)) in
    let one : once e e ≡ 1 = once_self e in
    let kept : ((i : ℕ) → e ≢ i → n.left_id i ≡ update n.left_id e id i) =
      λ i w. sym (update_miss n.left_id e i id w) in
    rw (test) record {
      kids_at = (
        update_at n.left_id e id,
        Kids-frame n.left_id n.right_id (update n.left_id e id) n.right_id b (n.right_id e)
            (λ i w. (kept i (once-ne e i (omega (arith, around-left i c e b, d i))), refl)) j,
        KidsAt-frame n.left_id n.right_id (update n.left_id e id) n.right_id root c (suc e)
            (λ i w. (kept i (once-ne e i (omega (arith, around-left i c e b, d i))), refl)) k,
      );
      left = λ i w. kept i (λ p. w (ap suc p));
      right = λ e w. refl;
      parents = refl;
      balances = refl;
      rest = record { keys = refl; orphan = refl; orphans = refl };
    }
relink_child-Relinked n root x (right_of a e c) id (h, j, k) d o =
    let test : (n.left_id e == suc x) ≡ false = ==_ne (n.left_id e) (suc x) (λ w.
      root_id-other a x (omega (arith, around-right x a e c))
        (sym (Kids-root_id n.left_id n.right_id a (n.left_id e) j) ∙ w)) in
    let one : once e e ≡ 1 = once_self e in
    let kept : ((i : ℕ) → e ≢ i → n.right_id i ≡ update n.right_id e id i) =
      λ i w. sym (update_miss n.right_id e i id w) in
    rw (test) record {
      kids_at = (
        update_at n.right_id e id,
        Kids-frame n.left_id n.right_id n.left_id (update n.right_id e id) a (n.left_id e)
            (λ i w. (refl, kept i (once-ne e i (omega (arith, around-right i a e c, d i))))) j,
        KidsAt-frame n.left_id n.right_id n.left_id (update n.right_id e id) root c (suc e)
            (λ i w. (refl, kept i (once-ne e i (omega (arith, around-right i a e c, d i))))) k,
      );
      left = λ i w. refl;
      right = λ i w. kept i (λ p. w (ap suc p));
      parents = refl;
      balances = refl;
      rest = record { keys = refl; orphan = refl; orphans = refl };
    }

-- A rotated subtree is tied to what is above it.
pub relink-Spot :
    (n : Nodes) (root x : ℕ) (c : Place) (t : Tree) (level : Bool) (n' : Nodes) (str h : ℕ)
    → KidsAt n.left_id n.right_id root c (suc x)
    → UpAt n.parent_id c
    → BalAt n.balance c h
    → ((e : ℕ) → around e c + count e (inorder t) ≤ 1)
    → count x (inorder t) ≢ 0
    → (r : Rotated n t level (above_id c) n' str)
    → Spot
        (relink (n', str) root x (above_id c)).0
        (relink (n', str) root x (above_id c)).1
        c
        r.tree
        h
      × Rest n (relink (n', str) root x (above_id c)).0
relink-Spot n root x c t level n' str h k u b d inside r =
    let p' : ℕ → ℕ = update n'.parent_id str (above_id c) in
    let m : Nodes = record n' { parent_id = p' } in
    let out : ((e : ℕ) → around e c ≢ 0 → count e (inorder t) ≡ 0) = λ e w. omega (arith, d e) in
    let k' =
      KidsAt-frame n.left_id n.right_id n'.left_id n'.right_id root c (suc x)
        (λ e w. let q = r.kept e (out e w) in (q.left, q.right)) k in
    let l : Relinked m c (suc str) (relink (n', str) root x (above_id c)).0
        (relink (n', str) root x (above_id c)).1 =
      relink_child-Relinked m root x c (suc str) k' (λ e. omega (arith, d e))
        (omega (arith, d x)) in
    let o = (relink (n', str) root x (above_id c)).0 in
    let str_in : count str (inorder t) ≢ 0 =
      λ w. root_id-other r.tree str (ap (count str) r.same ∙ w) r.root in
    let away : ((e : ℕ) → count e (inorder r.tree) ≢ 0 → above_id c ≢ suc e) =
      λ e w. above_id-other c e (omega (arith, d e, ap (count e) r.same)) in
    (
      record {
        kids_at = rw (r.root) l.kids_at;
        kids = rw (r.root) (
            Kids-frame n'.left_id n'.right_id o.left_id o.right_id r.tree (suc str)
              (λ e w. (l.left e (away e w), l.right e (away e w))) r.kids);
        up_at = rw (l.parents) (
            UpAt-frame n.parent_id p' c
              (λ e w.
                let q = r.kept e (out e w) in
                q.parent
                ∙ sym (
                    update_miss n'.parent_id str e (above_id c)
                      (λ v. str_in (ap (λ i. count i (inorder t)) v ∙ out e w))))
              u);
        up = rw (l.parents) r.up;
        bal_at = rw (l.balances) (
            BalAt-frame n.balance n'.balance c h (λ e w. let q = r.kept e (out e w) in q.balance)
              b);
        bal = rw (l.balances) r.bal;
        distinct = λ e. omega (arith, d e, ap (count e) r.same);
      },
      Rest-trans n m o (record { keys = r.keys; orphan = r.orphan; orphans = r.orphans }) l.rest,
    )
