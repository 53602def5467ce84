-- ===== src/Avl/Inserted/Attach.antt =====
-- The new node of avl_tree_insert (lib/avl.bpf.h) at its free place: a subtree that has grown.
use ghost_userspace_o.Base.{
  ℕ, suc, ◌+◌, ◌≤◌, ◌≡◌, ◌≢◌, Bool, true, false, refl, sym, ap, subst, ◌∙◌, inl, inr, ◌==◌, ==_iff,
  Bool-cases, [], ◌∷◌, ◌++◌, count, count-append, update, arith, if◌then◌else◌,
}
use Prim.Native.Nat.{max}
use ghost_userspace_o.Base.Int.{pos}
use ghost_userspace_o.ArrList.Links.{update_miss, update_at}
use ghost_userspace_o.Avl.{Nodes}
use ghost_userspace_o.Avl.Insert.{reset_node, retrace_insert}
use ghost_userspace_o.Avl.Tree.{
  Tree, leaf, node, Place, left_of, right_of, inorder, above_id, before, after, plug, inorder-plug,
  depth, plug_height, plug_height-suc,
}
use ghost_userspace_o.Avl.Held.{
  KidsAt, UpAt, BalAt, around, once, around-left, around-right, once_self, Kids-frame, Kids, Up,
  Bal,
}
use ghost_userspace_o.Avl.Held.Around.{
  KidsAt-frame, UpAt-frame, BalAt-frame, Kids-unplug, Up-unplug, Bal-unplug,
}
use ghost_userspace_o.Avl.Rotated.{once-ne}
use ghost_userspace_o.Avl.Spot.{Spot, Holds, Rest, Rebuilt, Rebuilt-as}
use ghost_userspace_o.Avl.Inserted.Retrace.{retrace_insert-Rebuilt}

-- The writes to the parent.
abbrev pub hang : Nodes → ℕ → ℕ → Bool → Nodes
hang n x e left =
    if left
    then record n { left_id = update n.left_id x (suc e) }
    else record n { right_id = update n.right_id x (suc e) }

-- A node with no children, below a place around which the tree is balanced.
pub record Fresh (n : Nodes) (root : ℕ) (c : Place) (e : ℕ) : Type 0 where
  pub kids_at : KidsAt n.left_id n.right_id root c 0
  pub up_at : UpAt n.parent_id c
  pub bal_at : BalAt n.balance c 0
  pub no_left : n.left_id e ≡ 0
  pub no_right : n.right_id e ≡ 0
  pub parent : n.parent_id e ≡ above_id c
  pub level : n.balance e ≡ pos 0
  pub distinct : (i : ℕ) → around i c ≤ 1
  pub new : around e c ≡ 0

distinct_new :
    (c : Place) (e i : ℕ) → around i c ≤ 1 → around e c ≡ 0 → around i c + count i (e ∷ []) ≤ 1
distinct_new c e i h o = elim (Bool-cases (e == i)) [
  | inl p ↦ rw (p) (omega (arith, ap (λ j. around j c) ((==_iff e i).0 p)))
  | inr p ↦ rw (p) (omega arith)
]

pub hang_left-Spot :
    (n : Nodes) (root : ℕ) (c : Place) (x : ℕ) (b : Tree) (e : ℕ)
    → Fresh n root (left_of c x b) e
    → Spot (hang n x e true) root (left_of c x b) (node leaf e leaf) 0
hang_left-Spot n root c x b e s =
    let (p, kb, kc) = s.kids_at in
    let l' : ℕ → ℕ = update n.left_id x (suc e) in
    let one : once x x ≡ 1 = once_self x in
    let kept : ((i : ℕ) → x ≢ i → n.left_id i ≡ l' i) =
      λ i w. sym (update_miss n.left_id x i (suc e) w) in
    let away : ((i : ℕ) → around i c + count i (inorder b) ≢ 0 → x ≢ i) =
      λ i w. once-ne x i (omega (arith, s.distinct i, around-left i c x b)) in
    let x≢e : x ≢ e = once-ne x e (omega (arith, s.new, around-left e c x b)) in
    record {
      kids_at = (
        update_at n.left_id x (suc e),
        Kids-frame n.left_id n.right_id l' n.right_id b (n.right_id x)
            (λ i w. (kept i (away i (omega arith)), refl)) kb,
        KidsAt-frame n.left_id n.right_id l' n.right_id root c (suc x)
            (λ i w. (kept i (away i (omega arith)), refl)) kc,
      );
      kids = (refl, sym (kept e x≢e) ∙ s.no_left, s.no_right);
      up_at = s.up_at;
      up = (s.parent, tt, tt);
      bal_at = s.bal_at;
      bal = (inl (s.level, refl), tt, tt);
      distinct = λ i. distinct_new (left_of c x b) e i (s.distinct i) s.new;
    }

pub hang_right-Spot :
    (n : Nodes) (root : ℕ) (c : Place) (x : ℕ) (b : Tree) (e : ℕ)
    → Fresh n root (right_of b x c) e
    → Spot (hang n x e false) root (right_of b x c) (node leaf e leaf) 0
hang_right-Spot n root c x b e s =
    let (p, kb, kc) = s.kids_at in
    let r' : ℕ → ℕ = update n.right_id x (suc e) in
    let one : once x x ≡ 1 = once_self x in
    let kept : ((i : ℕ) → x ≢ i → n.right_id i ≡ r' i) =
      λ i w. sym (update_miss n.right_id x i (suc e) w) in
    let away : ((i : ℕ) → around i c + count i (inorder b) ≢ 0 → x ≢ i) =
      λ i w. once-ne x i (omega (arith, s.distinct i, around-right i b x c)) in
    let x≢e : x ≢ e = once-ne x e (omega (arith, s.new, around-right e b x c)) in
    record {
      kids_at = (
        update_at n.right_id x (suc e),
        Kids-frame n.left_id n.right_id n.left_id r' b (n.left_id x)
            (λ i w. (refl, kept i (away i (omega arith)))) kb,
        KidsAt-frame n.left_id n.right_id n.left_id r' root c (suc x)
            (λ i w. (refl, kept i (away i (omega arith)))) kc,
      );
      kids = (refl, s.no_left, sym (kept e x≢e) ∙ s.no_right);
      up_at = s.up_at;
      up = (s.parent, tt, tt);
      bal_at = s.bal_at;
      bal = (inl (s.level, refl), tt, tt);
      distinct = λ i. distinct_new (right_of b x c) e i (s.distinct i) s.new;
    }

-- A free place of a tree, after the reset of a node that is not in it.
pub Holds-Fresh :
    (n : Nodes) (root : ℕ) (c : Place) (t : Tree) (e : ℕ)
    → Holds n root t
    → plug c leaf ≡ t
    → ((i : ℕ) → count i (inorder t) ≤ 1)
    → count e (inorder t) ≡ 0
    → Fresh (record (reset_node n e) { parent_id = update n.parent_id e (above_id c) }) root c e
Holds-Fresh n root c t e h p d o =
    let same : inorder t ≡ before c ++ after c = ap inorder (sym p) ∙ inorder-plug c leaf in
    let total : ((i : ℕ) → count i (inorder t) ≡ around i c) =
      λ i. ap (count i) same ∙ count-append i (before c) (after c) in
    let away : ((i : ℕ) → around i c ≢ 0 → e ≢ i) =
      λ i w q. w (sym (total i) ∙ ap (λ j. count j (inorder t)) (sym q) ∙ o) in
    let (ka, k) =
      Kids-unplug n.left_id n.right_id root c leaf
        (subst (λ u. Kids n.left_id n.right_id u root) (sym p) h.kids) in
    let (ua, u) = Up-unplug n.parent_id c leaf (subst (Up n.parent_id 0) (sym p) h.up) in
    let (ba, b) = Bal-unplug n.balance c leaf (subst (Bal n.balance) (sym p) h.bal) in
    record {
      kids_at =
          KidsAt-frame n.left_id n.right_id (update n.left_id e 0) (update n.right_id e 0) root c 0
            (λ i w. (
              sym (update_miss n.left_id e i 0 (away i w)),
              sym (update_miss n.right_id e i 0 (away i w)),
            ))
            ka;
      up_at =
          UpAt-frame n.parent_id (update n.parent_id e (above_id c)) c
            (λ i w. sym (update_miss n.parent_id e i (above_id c) (away i w))) ua;
      bal_at =
          BalAt-frame n.balance (update n.balance e (pos 0)) c 0
            (λ i w. sym (update_miss n.balance e i (pos 0) (away i w))) ba;
      no_left = update_at n.left_id e 0;
      no_right = update_at n.right_id e 0;
      parent = update_at n.parent_id e (above_id c);
      level = update_at n.balance e (pos 0);
      distinct = λ i. omega (arith, d i, total i);
      new = sym (total e) ∙ o;
    }

-- The whole after the insertion of a node at a free place, by the retrace.
pub attach-Rebuilt :
    (n m : Nodes) (root : ℕ) (c : Place) (e : ℕ) (rounds : ℕ)
    → depth c ≤ rounds
    → Rest m n
    → Spot n root c (node leaf e leaf) 0
    → Rebuilt m
        (before c ++ (e ∷ after c))
        (max (plug_height c 0) (suc (depth c)))
        (retrace_insert rounds n root (above_id c) e).0
        (retrace_insert rounds n root (above_id c) e).1
attach-Rebuilt n m root c e rounds f r s =
    Rebuilt-as m n (before c ++ (e ∷ after c)) (before c ++ (e ∷ after c)) (plug_height c 1)
      (max (plug_height c 0) (suc (depth c))) (retrace_insert rounds n root (above_id c) e).0
      (retrace_insert rounds n root (above_id c) e).1 refl (omega (arith, plug_height-suc c 0)) r
      (retrace_insert-Rebuilt rounds n root c leaf e leaf 0 f s (omega arith) (inl refl))
