-- ===== src/Avl/Insert.antt =====
-- avl_tree_insert of lib/avl.bpf.h.
use ghost_userspace_o.Base.{
  ℕ, zero, suc, ◌-◌, Bool, true, false, not, ◌&&◌, ◌||◌, if◌then◌else◌, ltb, leb, ◌==◌, update,
}
use ghost_userspace_o.Base.Int.{pos, negsuc, ltb_ℤ}
use ghost_userspace_o.Avl.{Nodes, AvlTree, max_avl_height}
use ghost_userspace_o.Avl.Rotate.{is_level, rotate_up, relink}
use ghost_userspace_o.Avl.Orphans.{insert_orphan}

-- Where the search for a place ends: the last node on the way (x_id), the side of it, and the id
-- of the child there, which is not 0 if the rounds ran out.
pub record Slot : Type 0 where
  pub x_id : ℕ
  pub left : Bool
  pub next_id : ℕ

-- From a node of which `next_id` is the child on the side `left`.
unfoldable pub descend : ℕ → Nodes → ℕ → ℕ → Bool → ℕ → Slot
descend zero n key x_id left next_id = record { x_id = x_id; left = left; next_id = next_id }
descend (suc rounds) n key x_id left zero = record { x_id = x_id; left = left; next_id = 0 }
descend (suc rounds) n key x_id left (suc x) =
    let left = ltb key (n.key x) in
    descend rounds n key (suc x) left (if left then n.left_id x else n.right_id x)

-- The way up, from `x`, whose child `z` has grown by one level.
unfoldable pub retrace_insert : ℕ → Nodes → ℕ → ℕ → ℕ → Nodes × ℕ
retrace_insert zero n root x_id z = (n, root)
retrace_insert (suc rounds) n root zero z = (n, root)
retrace_insert (suc rounds) n root (suc x) z =
    let left = n.left_id x == suc z in
    let passed =
      retrace_insert rounds
        (record n { balance = update n.balance x (if left then negsuc 0 else pos 1) }) root
        (n.parent_id x) x in
    if is_level (n.balance x)
    then passed
    else if (left && ltb_ℤ (pos 0) (n.balance x)) || (not left && ltb_ℤ (n.balance x) (pos 0))
    then (record n { balance = update n.balance x (pos 0) }, root)
    else relink (rotate_up left n x z) root x (n.parent_id x)

-- The cache of the least and the greatest node.
unfoldable pub note_min : ℕ → ℕ → AvlTree → AvlTree
note_min key e t =
    if (t.min_id == 0) || ltb key t.min_key then record t { min_id = suc e; min_key = key } else t

unfoldable pub note_max : ℕ → ℕ → AvlTree → AvlTree
note_max key e t =
    if (t.max_id == 0) || leb t.max_key key then record t { max_id = suc e; max_key = key } else t

-- `node->left_id = node->right_id = node->balance = 0; node->is_orphan = false`
abbrev pub reset_node : Nodes → ℕ → Nodes
reset_node n e = record n {
  left_id = update n.left_id e 0;
  right_id = update n.right_id e 0;
  balance = update n.balance e (pos 0);
  is_orphan = update n.is_orphan e false;
}

abbrev pub make_orphan : Nodes → AvlTree → ℕ → Nodes × AvlTree
make_orphan n t e =
    let (orphan_ids, first) = insert_orphan n.orphan_ids t.first_orphan_id e in
    (
      record n { is_orphan = update n.is_orphan e true; orphan_ids = orphan_ids },
      record t { first_orphan_id = first },
    )

-- The node becomes a child of the node of `x_id`, or the root.
unfoldable pub attach : Nodes → AvlTree → ℕ → ℕ → Bool → Nodes × AvlTree
attach n t e zero left = (
  record n { parent_id = update n.parent_id e 0 },
  record t { root = suc e; min_id = suc e; min_key = n.key e; max_id = suc e; max_key = n.key e },
)
attach n t e (suc x) left =
    let n₁ = record n { parent_id = update n.parent_id e (suc x) } in
    let n₂ =
      if left
      then record n₁ { left_id = update n₁.left_id x (suc e) }
      else record n₁ { right_id = update n₁.right_id x (suc e) } in
    let (n₃, root) = retrace_insert max_avl_height n₂ t.root (suc x) e in
    (n₃, note_max (n.key e) e (note_min (n.key e) e (record t { root = root })))

unfoldable pub insert_at : Nodes → AvlTree → ℕ → ℕ → Bool → ℕ → Nodes × AvlTree
insert_at n t e x_id left zero = attach n t e x_id left
insert_at n t e x_id left (suc next) = make_orphan n t e

unfoldable pub insert : Nodes → AvlTree → ℕ → Nodes × AvlTree
insert n t e =
    let n₁ = reset_node n e in
    let s = descend (max_avl_height - 1) n₁ (n.key e) 0 false t.root in
    insert_at n₁ t e s.x_id s.left s.next_id
