-- ===== src/Avl/Inserted/Refine.antt =====
-- avl_tree_insert (lib/avl.bpf.h) refines the insertion into a sorted list: the node gets its place
-- in the order, or becomes the first orphan.
use ghost_userspace_o.Base.{
  ℕ, zero, suc, ◌+◌, ◌≤◌, ◌<◌, ◌≡◌, ◌≢◌, Bool, true, false, refl, sym, ap, subst, ◌∙◌, ◌⊎◌, inl,
  inr, ◌==◌, ==_iff, Bool-cases, if◌then◌else◌, List, [], ◌∷◌, ◌++◌, count, count-append, length,
  update, arith,
}
use ghost_userspace_o.Base.Int.{pos}
use ghost_userspace_o.ArrList.Links.{update_miss, update_at}
use ghost_userspace_o.Avl.{Nodes, AvlTree, max_avl_height}
use ghost_userspace_o.Avl.Insert.{
  Slot, reset_node, attach, insert_at, descend, insert, retrace_insert, note_min, note_max,
  make_orphan,
}
use ghost_userspace_o.Avl.Tree.{
  leaf, node, Place, top, left_of, right_of, inorder, height, above_id, before, after, plug, depth,
  plug_height, height-plug, inorder-plug,
}
use ghost_userspace_o.Avl.Held.{Kids-frame}
use ghost_userspace_o.Avl.Spot.{Spot, Holds, Rest, Rebuilt}
use ghost_userspace_o.Avl.Keys.{
  Over, Under, Sorted, Sorted-append, Sorted-split, Over-mono, insert_sorted, insert_sorted-place,
}
use ghost_userspace_o.Avl.Sizes.{min_nodes, min_nodes-le}
use ghost_userspace_o.Avl.Invariant.{Cached, IsAvl}
use ghost_userspace_o.Avl.Inserted.Descend.{Side, Free, Ends, descend-Free}
use ghost_userspace_o.Avl.Inserted.Attach.{
  hang, hang_left-Spot, hang_right-Spot, Holds-Fresh, attach-Rebuilt,
}
use ghost_userspace_o.Avl.Inserted.Cache.{note-rest, note-Cached}
use ghost_userspace_o.Avl.Inserted.Orphan.{orphan-IsAvl}

-- What the insertion of e at the place of its key is, for a list cut in two there.
module _ (n : Nodes) (t : AvlTree) (e : ℕ) (xs ys os : List ℕ) where
  inserted-IsAvl :
      (n' : Nodes) (t' : AvlTree)
      → IsAvl n t (xs ++ ys) os
      → count e (xs ++ ys) + count e os ≡ 0
      → Under n.key (n.key e) xs
      → Over n.key (suc (n.key e)) ys
      → Rebuilt (reset_node n e) (xs ++ (e ∷ ys)) max_avl_height n' t'.root
      → Cached n' t' (xs ++ (e ∷ ys))
      → t'.first_orphan_id ≡ t.first_orphan_id
      → IsAvl n' t' (xs ++ (e ∷ ys)) os
  inserted-IsAvl n' t' s o u v b c f =
      let (sx, sy) = Sorted-split n.key xs ys s.in_tree.sorted in
      let total : ((i : ℕ)
          → count i (xs ++ (e ∷ ys)) ≡ (if e == i then 1 else 0) + count i (xs ++ ys)) =
        λ i. omega (arith, count-append i xs (e ∷ ys), count-append i xs ys) in
      record {
        in_tree = record {
          tree = b.tree;
          same = b.same;
          holds = b.holds;
          low = b.low;
          sorted = rw (b.rest.keys) (
              Sorted-append n.key (n.key e) xs (e ∷ ys) u
                (omega arith, Over-mono n.key (n.key e) (suc (n.key e)) ys (omega arith) v) sx
                (Over-mono n.key (n.key e) (suc (n.key e)) ys (omega arith) v, sy));
        };
        cached = c;
        orphaned = record {
          starts = f ∙ s.orphaned.starts;
          links = rw (b.rest.orphans) s.orphaned.links;
        };
        flags_tree = λ i w. rw (b.rest.orphan) (elim (Bool-cases (e == i)) [
          | inl p ↦ rw (p) refl
          | inr p ↦ rw (p) (s.flags_tree i (λ z. w (total i ∙ rw (p) (omega arith))))
        ]);
        flags_orphan = λ i w. rw (b.rest.orphan) (elim (Bool-cases (e == i)) [
          | inl p ↦ absurd (w (omega (arith, ap (λ j. count j os) ((==_iff e i).0 p))))
          | inr p ↦ rw (p) (s.flags_orphan i w)
        ]);
        distinct = λ i. elim (Bool-cases (e == i)) [
          | inl p ↦
              let q : count i (xs ++ (e ∷ ys)) ≡ 1 + count i (xs ++ ys) = total i ∙ rw (p) refl in
              omega (arith, ap (λ j. count j (xs ++ ys) + count j os) ((==_iff e i).0 p))
          | inr p ↦
              let q : count i (xs ++ (e ∷ ys)) ≡ count i (xs ++ ys) =
                total i ∙ rw (p) (omega arith) in
              omega (arith, s.distinct i)
        ];
      }

-- The retrace and the cache make the insertion whole.
retraced-IsAvl :
    (n m : Nodes) (t : AvlTree) (e : ℕ) (c : Place) (os : List ℕ)
    → IsAvl n t (before c ++ after c) os
    → count e (before c ++ after c) + count e os ≡ 0
    → Under n.key (n.key e) (before c)
    → Over n.key (suc (n.key e)) (after c)
    → plug_height c 0 ≤ max_avl_height
    → depth c < max_avl_height
    → Rest (reset_node n e) m
    → Spot m t.root c (node leaf e leaf) 0
    → IsAvl
        (retrace_insert max_avl_height m t.root (above_id c) e).0
        (note_max (n.key e) e (
          note_min
            (n.key e)
            e
            (record t { root = (retrace_insert max_avl_height m t.root (above_id c) e).1 })))
        (before c ++ (e ∷ after c))
        os
retraced-IsAvl n m t e c os s o u v hi d r p =
    let (k, root) = retrace_insert max_avl_height m t.root (above_id c) e in
    let (same_root, same_orphans) = note-rest (n.key e) e (record t { root = root }) in
    let b = attach-Rebuilt m (reset_node n e) t.root c e max_avl_height (omega arith) r p in
    inserted-IsAvl n t e (before c) (after c) os k
      (note_max (n.key e) e (note_min (n.key e) e (record t { root = root }))) s o u v
      (rw (same_root) (record {
        tree = b.tree;
        same = b.same;
        holds = b.holds;
        low = omega (arith, b.low);
        rest = b.rest;
      }))
      (note-Cached n k t root e (before c) (after c) b.rest.keys s.cached u v) same_orphans

-- A free place of the tree gets the node.
attach-IsAvl :
    (n : Nodes) (t : AvlTree) (e : ℕ) (c : Place) (left : Bool) (os : List ℕ)
    → IsAvl n t (before c ++ after c) os
    → count e (before c ++ after c) + count e os ≡ 0
    → Holds n t.root (plug c leaf)
    → plug_height c 0 ≤ max_avl_height
    → depth c < max_avl_height
    → Side c left
    → Under n.key (n.key e) (before c)
    → Over n.key (suc (n.key e)) (after c)
    → IsAvl
        (attach (reset_node n e) t e (above_id c) left).0
        (attach (reset_node n e) t e (above_id c) left).1
        (before c ++ (e ∷ after c))
        os
unfolding attach
attach-IsAvl n t e top left os s o h hi d side u v =
    inserted-IsAvl n t e [] [] os (record (reset_node n e) { parent_id = update n.parent_id e 0 })
      (record t {
        root = suc e;
        min_id = suc e;
        min_key = n.key e;
        max_id = suc e;
        max_key = n.key e;
      })
      s o u v
      (record {
        tree = node leaf e leaf;
        same = refl;
        holds = record {
          kids = (refl, update_at n.left_id e 0, update_at n.right_id e 0);
          up = (update_at n.parent_id e 0, tt, tt);
          bal = (inl (update_at n.balance e (pos 0), refl), tt, tt);
        };
        low = omega arith;
        rest = record { keys = refl; orphan = refl; orphans = refl };
      })
      (record {
        min_id = refl;
        min_key = λ i p. ap n.key (omega arith);
        max_id = refl;
        max_key = λ i p. ap n.key (omega arith);
      })
      refl
attach-IsAvl n t e (left_of c x b) left os s o h hi d side u v =
    let m : Nodes = record (reset_node n e) { parent_id = update n.parent_id e (suc x) } in
    let tree_count : ((i : ℕ)
        → count i (inorder (plug (left_of c x b) leaf))
          ≡ count i (before (left_of c x b) ++ after (left_of c x b))) =
      λ i. ap (count i) (inorder-plug (left_of c x b) leaf) in
    let f =
      Holds-Fresh n t.root (left_of c x b) (plug (left_of c x b) leaf) e h refl
        (λ i. omega (arith, tree_count i, s.distinct i)) (omega (arith, tree_count e)) in
    rw (side) (
      retraced-IsAvl n (hang m x e true) t e (left_of c x b) os s o u v hi d
        (record { keys = refl; orphan = refl; orphans = refl }) (hang_left-Spot m t.root c x b e f))
attach-IsAvl n t e (right_of b x c) left os s o h hi d side u v =
    let m : Nodes = record (reset_node n e) { parent_id = update n.parent_id e (suc x) } in
    let tree_count : ((i : ℕ)
        → count i (inorder (plug (right_of b x c) leaf))
          ≡ count i (before (right_of b x c) ++ after (right_of b x c))) =
      λ i. ap (count i) (inorder-plug (right_of b x c) leaf) in
    let f =
      Holds-Fresh n t.root (right_of b x c) (plug (right_of b x c) leaf) e h refl
        (λ i. omega (arith, tree_count i, s.distinct i)) (omega (arith, tree_count e)) in
    rw (side) (
      retraced-IsAvl n (hang m x e false) t e (right_of b x c) os s o u v hi d
        (record { keys = refl; orphan = refl; orphans = refl })
        (hang_right-Spot m t.root c x b e f))

full :
    (n : Nodes) (t : AvlTree) (e x_id : ℕ) (left : Bool) (next_id : ℕ)
    → next_id ≢ 0
    → insert_at n t e x_id left next_id ≡ make_orphan n t e
unfolding insert_at
full n t e x_id left zero p = absurd (p refl)
full n t e x_id left (suc next) p = refl

highest : (h : ℕ) → 22 < h → h ≤ max_avl_height → h ≡ max_avl_height
highest h p q = omega arith

Free-IsAvl :
    (n : Nodes) (t : AvlTree) (e : ℕ) (xs os : List ℕ) (s : IsAvl n t xs os)
    → count e xs + count e os ≡ 0
    → (slot : Slot) → Free (reset_node n e) (n.key e) s.in_tree.tree 22 slot
    → IsAvl
        (insert_at (reset_node n e) t e slot.x_id slot.left slot.next_id).0
        (insert_at (reset_node n e) t e slot.x_id slot.left slot.next_id).1
        (insert_sorted n.key e xs)
        os
unfolding insert_at
Free-IsAvl n t e xs os s o slot f =
    let c = f.place in
    let k = s.in_tree in
    let cut : xs ≡ before c ++ after c =
      sym k.same ∙ ap inorder (sym f.same) ∙ inorder-plug c leaf in
    let high = height-plug c leaf in
    rw (f.vacant, f.above, cut, insert_sorted-place n.key e (before c) (after c) f.under f.over)
      (attach-IsAvl n t e c slot.left os (subst (λ ys. IsAvl n t ys os) cut s)
        (subst (λ ys. count e ys + count e os ≡ 0) cut o)
        (subst (Holds n t.root) (sym f.same) k.holds) (omega (arith, k.low, ap height f.same))
        (omega (arith, f.deep)) f.side f.under f.over)

-- Of a tree that reads the nodes xs in the order of their keys, balanced and of height at most
-- MAX_AVL_HEIGHT, with right parents, cached ends, flags and orphan list os, avl_tree_insert of
-- a node that is neither in xs nor in os either puts the node into xs at the place of its key,
-- behind the nodes of the same key, and keeps os and all of that; or keeps xs, makes the node
-- the first orphan, and all of that holds of xs and e ∷ os, and then xs has at least as many
-- nodes as a balanced tree of height MAX_AVL_HEIGHT must have.
pub insert-IsAvl :
    (n : Nodes) (t : AvlTree) (e : ℕ) (xs os : List ℕ)
    → IsAvl n t xs os
    → count e xs + count e os ≡ 0
    → IsAvl (insert n t e).0 (insert n t e).1 (insert_sorted n.key e xs) os
      ⊎ (IsAvl (insert n t e).0 (insert n t e).1 xs (e ∷ os)
          × (min_nodes max_avl_height ≤ length xs))
unfolding insert insert_at
insert-IsAvl n t e xs os s o =
    let k = s.in_tree in
    let m = reset_node n e in
    let away : ((i : ℕ) → count i (inorder k.tree) ≢ 0 → e ≢ i) =
      λ i w q. w (omega (arith, ap (count i) k.same, ap (λ j. count j xs) q)) in
    let kids =
      Kids-frame n.left_id n.right_id m.left_id m.right_id k.tree t.root
        (λ i w. (
          sym (update_miss n.left_id e i 0 (away i w)),
          sym (update_miss n.right_id e i 0 (away i w)),
        ))
        k.holds.kids in
    let slot = descend 22 m (n.key e) 0 false t.root in
    let place : Ends m (n.key e) k.tree 22 22 (height k.tree) slot =
      descend-Free 22 m (n.key e) top false k.tree t.root kids tt tt tt
        (subst (Sorted n.key) (sym k.same) k.sorted) in
    elim place [
      | inl f ↦ inl (Free-IsAvl n t e xs os s o slot f)
      | inr (p, h) ↦ inr (
        subst (λ r. IsAvl r.0 r.1 xs (e ∷ os)) (sym (full m t e slot.x_id slot.left slot.next_id p))
            (orphan-IsAvl n t e xs os s o),
        omega (
          arith,
          min_nodes-le n.balance k.tree k.holds.bal,
          ap (length {0}) k.same,
          ap min_nodes (highest (height k.tree) h k.low),
        ),
      )
    ]

-- A tree of fewer nodes always has room: 75024 is what the comment of lib/avl.bpf.h estimates as
-- enough for 64k threads.
min_nodes-max : min_nodes max_avl_height ≡ 75024
unfolding min_nodes
min_nodes-max = refl

-- Of a tree and orphans that satisfy IsAvl (Avl/Invariant) of fewer than 75024 nodes,
-- avl_tree_insert of a node that is neither in it nor an orphan puts the node into the tree, at
-- the place of its key and behind the nodes of the same key: the limit of MAX_AVL_HEIGHT rounds
-- makes no orphan.
pub insert-room :
    (n : Nodes) (t : AvlTree) (e : ℕ) (xs os : List ℕ)
    → IsAvl n t xs os
    → count e xs + count e os ≡ 0
    → length xs < 75024
    → IsAvl (insert n t e).0 (insert n t e).1 (insert_sorted n.key e xs) os
insert-room n t e xs os s o room = elim (insert-IsAvl n t e xs os s o) [
  | inl h ↦ h
  | inr (h, full) ↦ absurd (omega (arith, min_nodes-max))
]
