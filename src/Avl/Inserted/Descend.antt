-- ===== src/Avl/Inserted/Descend.antt =====
-- The way down of avl_tree_insert (lib/avl.bpf.h): it ends at the place that the key has in the
-- order, or the rounds run out above a subtree.
use ghost_userspace_o.Base.{
  ℕ, zero, suc, ◌+◌, ◌≤◌, ◌<◌, ◌≡◌, ◌≢◌, Bool, true, false, refl, sym, subst, ◌⊎◌, inl, inr,
  Bool-cases, ltb, ◌∷◌, ◌++◌, [], arith,
}
use ghost_userspace_o.Avl.{Nodes}
use ghost_userspace_o.Avl.Insert.{Slot, descend}
use ghost_userspace_o.Avl.Tree.{
  Tree, leaf, node, Place, top, left_of, right_of, inorder, height, plug, before, after, above_id,
  depth,
}
use ghost_userspace_o.Avl.Held.{Kids}
use ghost_userspace_o.Avl.Keys.{
  Over, Under, Sorted, Over-append, Under-append, Over-mono, Under-mono, Sorted-split, Sorted-Under,
}

-- The side of the node above a place.
abbrev pub Side : Place → Bool → Type 0
Side top left = Unit {0}
Side (left_of c e b) left = left ≡ true
Side (right_of a e c) left = left ≡ false

-- A free place for the key, in the tree t.
pub record Free (n : Nodes) (key : ℕ) (t : Tree) (rounds : ℕ) (s : Slot) : Type 0 where
  pub place : Place
  pub vacant : s.next_id ≡ 0
  pub above : s.x_id ≡ above_id place
  pub side : Side place s.left
  pub same : plug place leaf ≡ t
  pub deep : depth place ≤ rounds
  pub under : Under n.key key (before place)
  pub over : Over n.key (suc key) (after place)

-- The way down ends at a free place, or the subtree t is higher than the rounds.
abbrev pub Ends : Nodes → ℕ → Tree → ℕ → ℕ → ℕ → Slot → Type 0
Ends n key whole rounds k h s = Free n key whole rounds s ⊎ ((s.next_id ≢ 0) × (k < h))

one_more :
    (n : Nodes) (key : ℕ) (t : Tree) (k d g h : ℕ) (s : Slot)
    → suc g ≤ h
    → Free n key t (k + suc d) s ⊎ ((s.next_id ≢ 0) × (k < g))
    → Free n key t (suc k + d) s ⊎ ((s.next_id ≢ 0) × (suc k < h))
one_more n key t k d g h s p (inl f) = inl record {
  place = f.place;
  vacant = f.vacant;
  above = f.above;
  side = f.side;
  same = f.same;
  deep = omega (arith, f.deep);
  under = f.under;
  over = f.over;
}
one_more n key t k d g h s p (inr (q, r)) = inr (q, omega arith)

pub descend-Free :
    (k : ℕ) (n : Nodes) (key : ℕ) (c : Place) (left : Bool) (t : Tree) (id : ℕ)
    → Kids n.left_id n.right_id t id
    → Side c left
    → Under n.key key (before c)
    → Over n.key (suc key) (after c)
    → Sorted n.key (inorder t)
    → Ends n key (plug c t) (k + depth c) k (height t) (descend k n key (above_id c) left id)
unfolding descend
descend-Free zero n key c left leaf id h s u o r = inl record {
  place = c;
  vacant = h;
  above = refl;
  side = s;
  same = refl;
  deep = omega arith;
  under = u;
  over = o;
}
descend-Free zero n key c left (node a e b) id (h, ka, kb) s u o r = inr (omega arith, omega arith)
descend-Free (suc k) n key c left leaf id h s u o r = rw (h) (
    inl record {
      place = c;
      vacant = refl;
      above = refl;
      side = s;
      same = refl;
      deep = omega arith;
      under = u;
      over = o;
    })
descend-Free (suc k) n key c left (node a e b) id (h, ka, kb) s u o r =
    let (ra, (over_e, rb)) = Sorted-split n.key (inorder a) (e ∷ inorder b) r in
    elim (Bool-cases (ltb key (n.key e))) [
      | inl t ↦
          let less : key < n.key e = ground arith in
          let ih =
            descend-Free k n key (left_of c e b) true a (n.left_id e) ka refl u
              (
                omega arith,
                Over-append n.key (suc key) (inorder b) (after c)
                    (Over-mono n.key (suc key) (n.key e) (inorder b) (omega arith) over_e) o,
              )
              ra in
          let step : descend (suc k) n key (above_id c) left id
              ≡ descend k n key (suc e) true (n.left_id e) =
            rw (h, t) refl in
          subst (Ends n key (plug c (node a e b)) (suc k + depth c) (suc k) (height (node a e b)))
            (sym step)
            (one_more n key (plug c (node a e b)) k (depth c) (height a) (height (node a e b))
              (descend k n key (suc e) true (n.left_id e)) (omega arith) ih)
      | inr t ↦
          let geq : n.key e ≤ key = ground arith in
          let ih =
            descend-Free k n key (right_of a e c) false b (n.right_id e) kb refl
              (Under-append n.key key (before c) (inorder a ++ (e ∷ [])) u (
                Under-append n.key key (inorder a) (e ∷ [])
                  (Under-mono n.key (n.key e) key (inorder a) geq
                    (Sorted-Under n.key (inorder a) e (inorder b) r))
                  (geq, tt)))
              o rb in
          let step : descend (suc k) n key (above_id c) left id
              ≡ descend k n key (suc e) false (n.right_id e) =
            rw (h, t) refl in
          subst (Ends n key (plug c (node a e b)) (suc k + depth c) (suc k) (height (node a e b)))
            (sym step)
            (one_more n key (plug c (node a e b)) k (depth c) (height b) (height (node a e b))
              (descend k n key (suc e) false (n.right_id e)) (omega arith) ih)
    ]
