-- ===== src/Avl.antt =====
-- The AVL tree of lib/avl.bpf.h: a search tree whose nodes stand in an array and name each other
-- by ids. As for the arr_list, a node is its index in the array, an id is that index plus one, and
-- id 0 is no node; the checks of array bounds, which every id in range passes, are not modelled. A
-- field of the nodes is a map from a node to its value. The build is the default one, with the
-- cache of the least and the greatest node (AVL_CACHING).
pub mod Rotate
pub mod Orphans
pub mod Insert
pub mod Delete
pub mod Tree
pub mod Held
pub mod Rotated
pub mod Spot
pub mod Relinked
pub mod Keys
pub mod Sizes
pub mod Walks
pub mod Invariant
pub mod Inserted
pub mod Deleted
pub mod Ends
pub mod Neighbours
pub mod Found
mod Tests
use ghost_userspace_o.Base.{
  ℕ, zero, suc, Bool, false, if◌then◌else◌, ltb, ◌==◌, Option, none, some, update,
}
use ghost_userspace_o.Base.Int.{ℤ, pos}
use ghost_userspace_o.ArrList.{Arr, id_to_elem}

-- struct avl_node; the two ids of the orphan list are an entry of an arr_list.
pub record Nodes : Type 0 where
  pub key : ℕ → ℕ
  pub left_id : ℕ → ℕ
  pub right_id : ℕ → ℕ
  pub parent_id : ℕ → ℕ
  pub balance : ℕ → ℤ
  pub is_orphan : ℕ → Bool
  pub orphan_ids : Arr

pub record AvlTree : Type 0 where
  pub root : ℕ
  pub min_id : ℕ
  pub min_key : ℕ
  pub max_id : ℕ
  pub max_key : ℕ
  pub first_orphan_id : ℕ

abbrev pub avl_tree_init : AvlTree
avl_tree_init = record {
  root = 0;
  min_id = 0;
  min_key = 0;
  max_id = 0;
  max_key = 0;
  first_orphan_id = 0;
}

-- What bounds every loop.
abbrev pub max_avl_height : ℕ
max_avl_height = 23

-- `if (p) p->field = v`, for the node of an id.
abbrev pub update_id : (ℕ → ℕ) → ℕ → ℕ → ℕ → ℕ
update_id field zero v = field
update_id field (suc e) v = update field e v

-- The loops, with the rounds they have left.
unfoldable pub lookup_from : ℕ → Nodes → ℕ → ℕ → Option ℕ
lookup_from zero n key id = none
lookup_from (suc rounds) n key zero = none
lookup_from (suc rounds) n key (suc x) =
    let rest = lookup_from rounds n key (if ltb key (n.key x) then n.left_id x else n.right_id x) in
    if n.key x == key then some x else rest

unfoldable pub lookup : Nodes → AvlTree → ℕ → Option ℕ
lookup n t key = lookup_from max_avl_height n key t.root

unfoldable pub min_from : ℕ → Nodes → ℕ → Option ℕ
min_from zero n id = none
min_from (suc rounds) n zero = none
min_from (suc rounds) n (suc x) =
    let rest = min_from rounds n (n.left_id x) in if n.left_id x == 0 then some x else rest

abbrev pub min_node_id : Nodes → ℕ → Option ℕ
min_node_id n id = min_from max_avl_height n id

unfoldable pub max_from : ℕ → Nodes → ℕ → Option ℕ
max_from zero n id = none
max_from (suc rounds) n zero = none
max_from (suc rounds) n (suc x) =
    let rest = max_from rounds n (n.right_id x) in if n.right_id x == 0 then some x else rest

abbrev pub max_node_id : Nodes → ℕ → Option ℕ
max_node_id n id = max_from max_avl_height n id

unfoldable pub tree_min : AvlTree → Option ℕ
tree_min t = id_to_elem t.min_id

unfoldable pub tree_max : AvlTree → Option ℕ
tree_max t = id_to_elem t.max_id

-- The way up from the node of `x_id`, whose parent has the id `parent_id`.
unfoldable pub climb_next : ℕ → Nodes → ℕ → ℕ → Option ℕ
climb_next zero n x_id parent_id = none
climb_next (suc rounds) n x_id zero = none
climb_next (suc rounds) n x_id (suc parent) =
    let rest = climb_next rounds n (suc parent) (n.parent_id parent) in
    if x_id == n.left_id parent then some parent else rest

unfoldable pub next_node : Nodes → ℕ → Option ℕ
next_node n x =
    if n.right_id x == 0
    then climb_next max_avl_height n (suc x) (n.parent_id x)
    else min_node_id n (n.right_id x)

unfoldable pub climb_prev : ℕ → Nodes → ℕ → ℕ → Option ℕ
climb_prev zero n x_id parent_id = none
climb_prev (suc rounds) n x_id zero = none
climb_prev (suc rounds) n x_id (suc parent) =
    let rest = climb_prev rounds n (suc parent) (n.parent_id parent) in
    if x_id == n.right_id parent then some parent else rest

unfoldable pub prev_node : Nodes → ℕ → Option ℕ
prev_node n x =
    if n.left_id x == 0
    then climb_prev max_avl_height n (suc x) (n.parent_id x)
    else max_node_id n (n.left_id x)
