-- ===== src/Avl/Tests.antt =====
-- The functions of lib/avl.bpf.h on concrete trees, and an instance of each theorem.
use ghost_userspace_o.Base.{
  ℕ, zero, suc, ◌*◌, ◌≡◌, ◌≤◌, true, false, refl, ◌⊎◌, inl, if◌then◌else◌, ◌==◌, Option, some, none,
  List, [], ◌∷◌, length, arith,
}
use ghost_userspace_o.Base.Int.{pos}
use ghost_userspace_o.Avl.{
  Nodes, AvlTree, avl_tree_init, min_from, next_node, prev_node, lookup, climb_next, max_avl_height,
}
use ghost_userspace_o.Avl.Rotate.{
  rotate_left, rotate_right, rotate_left_right_at, rotate_right_left_at, rotate_up, relink_child,
}
use ghost_userspace_o.Avl.Insert.{
  insert, insert_at, attach, descend, retrace_insert, note_min, note_max,
}
use ghost_userspace_o.Avl.Delete.{delete, pop_min, pop_max, retrace_delete}
use ghost_userspace_o.Avl.Tree.{leaf, node, top, left_of, right_of}
use ghost_userspace_o.Avl.Keys.{insert_sorted, erase}
use ghost_userspace_o.Avl.Sizes.{min_nodes}
use ghost_userspace_o.Avl.Invariant.{IsAvl, init-IsAvl}
use ghost_userspace_o.Avl.Spot.{Spot, Rebuilt}
use ghost_userspace_o.Avl.Inserted.Retrace.{retrace_insert-Rebuilt}
use ghost_userspace_o.Avl.Deleted.Retrace.{retrace_delete-Whole}
use ghost_userspace_o.Avl.Deleted.Step.{Whole}
use ghost_userspace_o.Avl.Inserted.Refine.{insert-IsAvl, insert-room}
use ghost_userspace_o.Avl.Deleted.Refine.{Retried, delete-IsAvl}
use ghost_userspace_o.Avl.Deleted.Orphan.{delete-orphan}
use ghost_userspace_o.Avl.Ends.{pop_min-first, pop_max-last}
use ghost_userspace_o.Avl.Neighbours.{neighbours-in_order}
use ghost_userspace_o.Avl.Found.{Finds, lookup-Finds}

-- Nodes with the keys 0, 10, 20 and so on, none of them in a tree.
abbrev nodes : Nodes
nodes = record {
  key = λ e. 10 * e;
  left_id = λ e. 0;
  right_id = λ e. 0;
  parent_id = λ e. 0;
  balance = λ e. pos 0;
  is_orphan = λ e. false;
  orphan_ids = λ e. record { next = 0; prev = 0 };
}

abbrev add_all : List ℕ → Nodes → AvlTree → Nodes × AvlTree
add_all [] n t = (n, t)
add_all (e ∷ es) n t = let r = insert n t e in add_all es r.0 r.1

-- The nodes in order, from the least.
abbrev walk : ℕ → Nodes → Option ℕ → List ℕ
walk zero n x = []
walk (suc rounds) n none = []
walk (suc rounds) n (some x) = x ∷ walk rounds n (next_node n x)

abbrev in_order : Nodes × AvlTree → List ℕ
in_order (n, t) = walk 20 n (min_from max_avl_height n t.root)

rotations :
    in_order (add_all (1 ∷ 2 ∷ 3 ∷ 7 ∷ 5 ∷ 4 ∷ 6 ∷ []) nodes avl_tree_init)
    ≡ 1 ∷ 2 ∷ 3 ∷ 4 ∷ 5 ∷ 6 ∷ 7 ∷ []
unfolding insert insert_at attach descend retrace_insert note_min note_max rotate_left rotate_right
    rotate_left_right_at rotate_right_left_at rotate_up relink_child next_node min_from climb_next
rotations = refl

abbrev one : Nodes × AvlTree
one = insert nodes avl_tree_init 2

abbrev two : Nodes × AvlTree
two = insert one.0 one.1 1

abbrev three : Nodes × AvlTree
three = insert two.0 two.1 3

one-IsAvl : IsAvl one.0 one.1 (2 ∷ []) []
unfolding insert insert_at attach descend retrace_insert note_min note_max rotate_left rotate_right
    rotate_left_right_at rotate_right_left_at rotate_up relink_child next_node min_from climb_next
    insert_sorted
one-IsAvl = insert-room nodes avl_tree_init 2 [] [] (init-IsAvl nodes) refl (omega arith)

two-IsAvl : IsAvl two.0 two.1 (1 ∷ 2 ∷ []) []
unfolding insert insert_at attach descend retrace_insert note_min note_max rotate_left rotate_right
    rotate_left_right_at rotate_right_left_at rotate_up relink_child next_node min_from climb_next
    insert_sorted
two-IsAvl = insert-room one.0 one.1 1 (2 ∷ []) [] one-IsAvl refl (omega arith)

three-IsAvl : IsAvl three.0 three.1 (1 ∷ 2 ∷ 3 ∷ []) []
unfolding insert insert_at attach descend retrace_insert note_min note_max rotate_left rotate_right
    rotate_left_right_at rotate_right_left_at rotate_up relink_child next_node min_from climb_next
    insert_sorted
three-IsAvl = insert-room two.0 two.1 3 (1 ∷ 2 ∷ []) [] two-IsAvl refl (omega arith)

abbrev first_two : List ℕ
first_two = 1 ∷ 2 ∷ []

insert-IsAvl_example :
    IsAvl three.0 three.1 (insert_sorted two.0.key 3 (1 ∷ 2 ∷ [])) []
    ⊎ (IsAvl three.0 three.1 (1 ∷ 2 ∷ []) (3 ∷ []) × (min_nodes max_avl_height ≤ length first_two))
insert-IsAvl_example = insert-IsAvl two.0 two.1 3 (1 ∷ 2 ∷ []) [] two-IsAvl refl

insert-room_example : IsAvl three.0 three.1 (insert_sorted two.0.key 3 (1 ∷ 2 ∷ [])) []
insert-room_example = insert-room two.0 two.1 3 (1 ∷ 2 ∷ []) [] two-IsAvl refl (omega arith)

delete-IsAvl_example :
    Retried three.0.key
      (erase 2 (1 ∷ 2 ∷ 3 ∷ []))
      []
      (delete three.0 three.1 2).0
      (delete three.0 three.1 2).1
delete-IsAvl_example =
    delete-IsAvl three.0 three.1 2 (1 ∷ 2 ∷ 3 ∷ []) [] three-IsAvl (λ z. omega arith)

pop_min-first_example :
    ((pop_min three.0 three.1).0 ≡ some 1)
    × Retried three.0.key (2 ∷ 3 ∷ []) [] (pop_min three.0 three.1).1 (pop_min three.0 three.1).2
pop_min-first_example = pop_min-first three.0 three.1 1 (2 ∷ 3 ∷ []) [] three-IsAvl

pop_max-last_example :
    ((pop_max three.0 three.1).0 ≡ some 3)
    × Retried three.0.key (1 ∷ 2 ∷ []) [] (pop_max three.0 three.1).1 (pop_max three.0 three.1).2
pop_max-last_example = pop_max-last three.0 three.1 3 (1 ∷ 2 ∷ []) [] three-IsAvl

lookup-Finds_example : Finds three.0 20 (1 ∷ 2 ∷ 3 ∷ []) (lookup three.0 three.1 20)
lookup-Finds_example = lookup-Finds three.0 three.1 20 (1 ∷ 2 ∷ 3 ∷ []) [] three-IsAvl

neighbours-in_order_example : (next_node three.0 2 ≡ some 3) × (prev_node three.0 2 ≡ some 1)
neighbours-in_order_example = neighbours-in_order three.0 three.1 (1 ∷ []) 2 (3 ∷ []) [] three-IsAvl

-- A root with a new right child, before the walk up.
abbrev grown : Nodes
grown = record nodes {
  right_id = λ e. if e == 0 then 2 else 0;
  parent_id = λ e. if e == 1 then 1 else 0;
}

grown-Spot : Spot grown 1 (right_of leaf 0 top) (node leaf 1 leaf) 0
grown-Spot = record {
  kids_at = (refl, refl, refl);
  kids = (refl, refl, refl);
  up_at = (refl, tt, tt);
  up = (refl, tt, tt);
  bal_at = (inl (refl, refl), tt, tt);
  bal = (inl (refl, refl), tt, tt);
  distinct = λ i. ground arith;
}

retrace_insert-Rebuilt_example :
    Rebuilt grown (0 ∷ 1 ∷ []) 2 (retrace_insert 1 grown 1 1 1).0 (retrace_insert 1 grown 1 1 1).1
retrace_insert-Rebuilt_example =
    retrace_insert-Rebuilt 1 grown 1 (right_of leaf 0 top) leaf 1 leaf 0 (omega arith) grown-Spot
      refl (inl refl)

-- A root whose left child has gone, before the walk up.
abbrev shrunk : Nodes
shrunk = record nodes {
  right_id = λ e. if e == 0 then 2 else 0;
  parent_id = λ e. if e == 1 then 1 else 0;
}

shrunk-Spot : Spot shrunk 1 (left_of top 0 (node leaf 1 leaf)) leaf 1
shrunk-Spot = record {
  kids_at = (refl, (refl, refl, refl), refl);
  kids = refl;
  up_at = (refl, (refl, tt, tt), tt);
  up = tt;
  bal_at = (inl (refl, refl), (inl (refl, refl), tt, tt), tt);
  bal = tt;
  distinct = λ i. ground arith;
}

retrace_delete-Whole_example : Whole shrunk (0 ∷ 1 ∷ []) 2 (retrace_delete 1 shrunk 1 1 true)
retrace_delete-Whole_example =
    retrace_delete-Whole 1 shrunk 1 (left_of top 0 (node leaf 1 leaf)) leaf true (omega arith)
      shrunk-Spot refl

-- An empty tree with one orphan.
abbrev orphaned_nodes : Nodes
orphaned_nodes = record nodes { is_orphan = λ e. e == 5 }

abbrev orphaned_tree : AvlTree
orphaned_tree = record avl_tree_init { first_orphan_id = 6 }

orphaned-IsAvl : IsAvl orphaned_nodes orphaned_tree [] (5 ∷ [])
orphaned-IsAvl = record {
  in_tree = record {
    tree = leaf;
    same = refl;
    holds = record { kids = refl; up = tt; bal = tt };
    low = omega arith;
    sorted = tt;
  };
  cached = record {
    min_id = refl;
    min_key = λ e p. absurd (omega arith);
    max_id = refl;
    max_key = λ e p. absurd (omega arith);
  };
  orphaned = record { starts = refl; links = (refl, refl, tt) };
  flags_tree = λ e h. absurd (h refl);
  flags_orphan = λ e h. ground arith;
  distinct = λ e. ground arith;
}

delete-orphan_example :
    IsAvl
      (delete orphaned_nodes orphaned_tree 5).0
      (delete orphaned_nodes orphaned_tree 5).1
      []
      (erase 5 (5 ∷ []))
delete-orphan_example =
    delete-orphan orphaned_nodes orphaned_tree 5 [] (5 ∷ []) orphaned-IsAvl (λ z. omega arith)
