-- ===== src/Avl/Deleted/Replace.antt =====
-- avl_replace_node (lib/avl.bpf.h): a subtree gets the place of a node.
use ghost_userspace_o.Base.{ℕ, zero, suc, ◌+◌, ◌≤◌, ◌≡◌, ◌≢◌, sym, ap, ◌∙◌, count, update, arith}
use Prim.Native.Nat.{max}
use ghost_userspace_o.Base.Int.{ℤ}
use ghost_userspace_o.ArrList.Links.{update_at}
use ghost_userspace_o.Avl.{Nodes, update_id}
use ghost_userspace_o.Avl.Rotate.{relink_child}
use ghost_userspace_o.Avl.Delete.{adopt}
use ghost_userspace_o.Avl.Tree.{
  Tree, Place, top, left_of, right_of, inorder, height, root_id, above_id, within,
}
use ghost_userspace_o.Avl.Held.{
  Kids, Up, Bal, KidsAt, UpAt, BalAt, around, once_self, around-left, around-right, Kids-frame,
  Up-reparent, Bal-frame,
}
use ghost_userspace_o.Avl.Held.Around.{UpAt-frame, BalAt-frame, root_id-other, above_id-other}
use ghost_userspace_o.Avl.Rotated.{update_id-miss}
use ghost_userspace_o.Avl.Spot.{Spot, Rest}
use ghost_userspace_o.Avl.Relinked.{Relinked, relink_child-Relinked}

pub update_id-at : (f : ℕ → ℕ) (id v e : ℕ) → id ≡ suc e → update_id f id v e ≡ v
update_id-at f zero v e p = absurd (omega arith)
update_id-at f (suc i) v e p = ap (λ j. update f i v j) (sym (pred_eq i e p)) ∙ update_at f i v
  where
    pred_eq : (i e : ℕ) → suc i ≡ suc e → i ≡ e
    pred_eq i e p = omega arith

pub replace-Spot :
    (n : Nodes) (root x : ℕ) (c : Place) (u : Tree) (parent h : ℕ)
    → KidsAt n.left_id n.right_id root c (suc x)
    → UpAt n.parent_id c
    → BalAt n.balance c h
    → Kids n.left_id n.right_id u (root_id u)
    → Up n.parent_id parent u
    → Bal n.balance u
    → ((e : ℕ) → around e c + count e (inorder u) ≤ 1)
    → around x c ≡ 0
    → Spot
        (adopt (relink_child n root x (above_id c) (root_id u)) (root_id u) (above_id c)).0
        (adopt (relink_child n root x (above_id c) (root_id u)) (root_id u) (above_id c)).1
        c
        u
        h
      × Rest n (adopt (relink_child n root x (above_id c) (root_id u)) (root_id u) (above_id c)).0
      × ((adopt (relink_child n root x (above_id c) (root_id u)) (root_id u) (above_id c)).0.balance
          ≡ n.balance)
replace-Spot n root x c u parent h k v b ku vu bu d o =
    let out = relink_child n root x (above_id c) (root_id u) in
    let m = out.0 in
    let l : Relinked n c (root_id u) out.0 out.1 =
      relink_child-Relinked n root x c (root_id u) k (λ e. omega (arith, d e)) o in
    let p' : ℕ → ℕ = update_id m.parent_id (root_id u) (above_id c) in
    let away : ((e : ℕ) → count e (inorder u) ≢ 0 → above_id c ≢ suc e) =
      λ e w. above_id-other c e (omega (arith, d e)) in
    let parents : ((e : ℕ) → root_id u ≢ suc e → n.parent_id e ≡ p' e) = λ e w.
      ap (λ f. f e) (sym l.parents)
      ∙ sym (update_id-miss m.parent_id (root_id u) (above_id c) e w) in
    (
      record {
        kids_at = l.kids_at;
        kids =
            Kids-frame n.left_id n.right_id m.left_id m.right_id u (root_id u)
              (λ e w. (l.left e (away e w), l.right e (away e w))) ku;
        up_at =
            UpAt-frame n.parent_id p' c (λ e w. parents e (root_id-other u e (omega (arith, d e))))
              v;
        up =
            Up-reparent n.parent_id p' parent (above_id c) u (λ e w. parents e)
              (λ e. update_id-at m.parent_id (root_id u) (above_id c) e) (λ e. omega (arith, d e))
              vu;
        bal_at = rw (l.balances) b;
        bal = rw (l.balances) bu;
        distinct = d;
      },
      record { keys = l.rest.keys; orphan = l.rest.orphan; orphans = l.rest.orphans },
      l.balances,
    )

-- The balances around a place stay right where a node gets the balance of the one whose place it
-- takes.
pub BalAt-renamed :
    (b b' : ℕ → ℤ) (d : Place) (a : Tree) (e m : ℕ) (c : Place) (h : ℕ)
    → b' m ≡ b e
    → ((i : ℕ) → around i c + count i (inorder a) + around i d ≢ 0 → b i ≡ b' i)
    → BalAt b (within d (right_of a e c)) h
    → BalAt b' (within d (right_of a m c)) h
BalAt-renamed b b' top a e m c h p f (l, ba, bc) = (
  rw (p) l,
  Bal-frame b b' a (λ i w. f i (omega arith)) ba,
  BalAt-frame b b' c (suc (max (height a) h)) (λ i w. f i (omega arith)) bc,
)
BalAt-renamed b b' (left_of d x t) a e m c h p f (l, bt, bd) = (
  rw (sym (f x (omega (arith, around-left x d x t, once_self x)))) l,
  Bal-frame b b' t (λ i w. f i (omega (arith, around-left i d x t))) bt,
  BalAt-renamed b b' d a e m c (suc (max h (height t))) p
      (λ i w. f i (omega (arith, around-left i d x t))) bd,
)
BalAt-renamed b b' (right_of t x d) a e m c h p f (l, bt, bd) = (
  rw (sym (f x (omega (arith, around-right x t x d, once_self x)))) l,
  Bal-frame b b' t (λ i w. f i (omega (arith, around-right i t x d))) bt,
  BalAt-renamed b b' d a e m c (suc (max (height t) h)) p
      (λ i w. f i (omega (arith, around-right i t x d))) bd,
)
