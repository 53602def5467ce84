-- ===== src/Avl/Delete.antt =====
-- avl_tree_delete of lib/avl.bpf.h, with the pops of the least and the greatest node.
use ghost_userspace_o.Base.{
  ℕ, zero, suc, Bool, true, false, not, ◌&&◌, ◌||◌, if◌then◌else◌, ◌==◌, Option, none, some, update,
}
use ghost_userspace_o.Base.Int.{pos, negsuc, ltb_ℤ}
use ghost_userspace_o.Avl.{
  Nodes, AvlTree, max_avl_height, update_id, next_node, prev_node, tree_min, tree_max,
}
use ghost_userspace_o.ArrList.{Arr}
use ghost_userspace_o.Avl.Rotate.{is_level, rotate_up, relink_child, relink}
use ghost_userspace_o.Avl.Orphans.{remove_orphan, pop_first_orphan}
use ghost_userspace_o.Avl.Insert.{insert}

-- avl_replace_node: `x` leaves the tree, and the node of `with_id` gets its place.
abbrev pub adopt : Nodes × ℕ → ℕ → ℕ → Nodes × ℕ
adopt (n, root) with_id parent_id =
    (record n { parent_id = update_id n.parent_id with_id parent_id }, root)

abbrev pub replace_node : Nodes → ℕ → ℕ → ℕ → Nodes × ℕ
replace_node n root x with_id =
    adopt (relink_child n root x (n.parent_id x) with_id) with_id (n.parent_id x)

-- Either function of the deletion returns early where a node is missing that a tree has.
pub data Unlinked : Type 0 where
  returned : Nodes → ℕ → Unlinked
  unlinked : Nodes → ℕ → ℕ → Bool → Unlinked

-- `next` gets the left subtree of `node`, whose root has the id `node_left`.
unfoldable pub hang_left : Nodes → ℕ → ℕ → ℕ → Bool → ℕ → Unlinked
hang_left n root next x_id from_the_left zero =
    returned (record n { left_id = update n.left_id next 0 }) root
hang_left n root next x_id from_the_left (suc node_left) =
    unlinked
      (record n {
        left_id = update n.left_id next (suc node_left);
        parent_id = update n.parent_id node_left (suc next);
      })
      root x_id from_the_left

abbrev pub take_place : Nodes × ℕ → ℕ → ℕ → ℕ → Bool → Unlinked
take_place (n, root) node next x_id from_the_left =
    hang_left n root next x_id from_the_left (n.left_id node)

abbrev pub replace_by_next : Nodes → ℕ → ℕ → ℕ → ℕ → Bool → Unlinked
replace_by_next n root node next x_id from_the_left =
    take_place (replace_node n root node (suc next)) node next x_id from_the_left

-- In the deep case `next` also gets the right subtree.
unfoldable pub hang_right : Nodes → ℕ → ℕ → ℕ → ℕ → Bool → ℕ → Unlinked
hang_right n root node next x_id from_the_left zero =
    returned (record n { right_id = update n.right_id next 0 }) root
hang_right n root node next x_id from_the_left (suc node_right) =
    replace_by_next
      (record n {
        right_id = update n.right_id next (suc node_right);
        parent_id = update n.parent_id node_right (suc next);
      })
      root node next x_id from_the_left

abbrev pub take_right : Nodes × ℕ → ℕ → ℕ → ℕ → Bool → Unlinked
take_right (n, root) node next x_id from_the_left =
    hang_right n root node next x_id from_the_left (n.right_id node)

-- The parent of `next` has the id `x_id`.
unfoldable pub unlink_deep : Nodes → ℕ → ℕ → ℕ → ℕ → Unlinked
unlink_deep n root node next zero = returned n root
unlink_deep n root node next (suc x) =
    take_right (replace_node n root next (n.right_id next)) node next (suc x)
      (n.left_id x == suc next)

unfoldable pub unlink_next : Nodes → ℕ → ℕ → Option ℕ → Unlinked
unlink_next n root node none = returned n root
unlink_next n root node (some next) =
    let n₁ = record n { balance = update n.balance next (n.balance node) } in
    if n.parent_id next == suc node
    then replace_by_next n₁ root node next (suc next) false
    else unlink_deep n₁ root node next (n.parent_id next)

-- Is a node the left child of the parent?
abbrev pub is_left_of : Nodes → ℕ → ℕ → Bool
is_left_of n zero id = false
is_left_of n (suc x) id = n.left_id x == id

abbrev pub pull_up : Nodes × ℕ → ℕ → Bool → Unlinked
pull_up (n, root) x_id from_the_left = unlinked n root x_id from_the_left

unfoldable pub unlink_children : Nodes → ℕ → ℕ → ℕ → ℕ → Unlinked
unlink_children n root node zero right_id =
    pull_up (replace_node n root node right_id) (n.parent_id node)
      (is_left_of n (n.parent_id node) (suc node))
unlink_children n root node (suc left) zero =
    pull_up (replace_node n root node (suc left)) (n.parent_id node)
      (is_left_of n (n.parent_id node) (suc node))
unlink_children n root node (suc left) (suc right) = unlink_next n root node (next_node n node)

abbrev pub unlink : Nodes → ℕ → ℕ → Unlinked
unlink n root node = unlink_children n root node (n.left_id node) (n.right_id node)

-- One round of the way up, from `x`, whose child on the one side has lost one level: the loop
-- returns, breaks, or goes on from a node, to whose left or right the loss was.
pub data Round : Type 0 where
  returns : Nodes → ℕ → Round
  breaks : Nodes → ℕ → Round
  goes_on : Nodes → ℕ → ℕ → Bool → Round

-- The child of `x` on the side that did not lose.
abbrev pub sibling_id : Nodes → ℕ → Bool → ℕ
sibling_id n x true = n.right_id x
sibling_id n x false = n.left_id x

-- `if (!x_parent) break;`, and on from the parent otherwise.
abbrev pub goes_to : Nodes × ℕ → ℕ → Bool → Round
goes_to (n, root) zero from_the_left = breaks n root
goes_to (n, root) (suc parent) from_the_left = goes_on n root (suc parent) from_the_left

abbrev pub breaks_at : Nodes × ℕ → Round
breaks_at (n, root) = breaks n root

-- A rotation of `x`, whose parent has the id `parent_id`, with the child of the id `z_id`.
unfoldable pub rotate_round_at : Nodes → ℕ → ℕ → Bool → ℕ → ℕ → Round
rotate_round_at n root x from_the_left parent_id zero = returns n root
rotate_round_at n root x from_the_left parent_id (suc z) =
    let relinked = relink (rotate_up (not from_the_left) n x z) root x parent_id in
    if is_level (n.balance z)
    then breaks_at relinked
    else goes_to relinked parent_id (is_left_of n parent_id (suc x))

unfoldable pub delete_round : Nodes → ℕ → ℕ → Bool → Round
delete_round n root x from_the_left =
    let b = n.balance x in
    if is_level b
    then breaks
        (record n { balance = update n.balance x (if from_the_left then pos 1 else negsuc 0) }) root
    else if (from_the_left && ltb_ℤ b (pos 0)) || (not from_the_left && ltb_ℤ (pos 0) b)
    then goes_to (record n { balance = update n.balance x (pos 0) }, root) (n.parent_id x)
        (is_left_of n (n.parent_id x) (suc x))
    else rotate_round_at n root x from_the_left (n.parent_id x) (sibling_id n x from_the_left)

-- How the deletion went on: with the orphans, or not.
pub data Retraced : Type 0 where
  returned_early : Nodes → ℕ → Retraced
  finished : Nodes → ℕ → Retraced

abbrev pub after_round : Round → (Nodes → ℕ → ℕ → Bool → Retraced) → Retraced
after_round (returns n root) rest = returned_early n root
after_round (breaks n root) rest = finished n root
after_round (goes_on n root x_id from_the_left) rest = rest n root x_id from_the_left

unfoldable pub retrace_delete : ℕ → Nodes → ℕ → ℕ → Bool → Retraced
retrace_delete zero n root x_id from_the_left = finished n root
retrace_delete (suc rounds) n root zero from_the_left = finished n root
retrace_delete (suc rounds) n root (suc x) from_the_left =
    after_round (delete_round n root x from_the_left) (retrace_delete rounds)

abbrev pub retrace_unlinked : Unlinked → Retraced
retrace_unlinked (returned n root) = returned_early n root
retrace_unlinked (unlinked n root x_id from_the_left) =
    retrace_delete max_avl_height n root x_id from_the_left

-- A node whose neighbour becomes the least or the greatest; the key stays if there is none.
abbrev pub new_min : Nodes → AvlTree → Option ℕ → AvlTree
new_min n t none = record t { min_id = 0 }
new_min n t (some next) = record t { min_id = suc next; min_key = n.key next }

abbrev pub forget_min : Nodes → AvlTree → ℕ → AvlTree
forget_min n t node = if suc node == t.min_id then new_min n t (next_node n node) else t

abbrev pub new_max : Nodes → AvlTree → Option ℕ → AvlTree
new_max n t none = record t { max_id = 0 }
new_max n t (some prev) = record t { max_id = suc prev; max_key = n.key prev }

abbrev pub forget_max : Nodes → AvlTree → ℕ → AvlTree
forget_max n t node = if suc node == t.max_id then new_max n t (prev_node n node) else t

-- The first orphan, if there is one, is inserted again.
abbrev pub insert_popped : Nodes → AvlTree → Option ℕ × Arr × ℕ → Nodes × AvlTree
insert_popped n t (none, orphan_ids, first) =
    (record n { orphan_ids = orphan_ids }, record t { first_orphan_id = first })
insert_popped n t (some o, orphan_ids, first) =
    insert (record n { orphan_ids = orphan_ids }) (record t { first_orphan_id = first }) o

unfoldable pub retry_orphan : AvlTree → Retraced → Nodes × AvlTree
retry_orphan t (returned_early n root) = (n, record t { root = root })
retry_orphan t (finished n root) =
    insert_popped n (record t { root = root }) (pop_first_orphan n.orphan_ids t.first_orphan_id)

unfoldable pub delete_orphan : Nodes → AvlTree → ℕ → Nodes × AvlTree
delete_orphan n t node =
    let (orphan_ids, first) = remove_orphan n.orphan_ids t.first_orphan_id node in
    (
      record n { orphan_ids = orphan_ids; is_orphan = update n.is_orphan node false },
      record t { first_orphan_id = first },
    )

unfoldable pub delete : Nodes → AvlTree → ℕ → Nodes × AvlTree
delete n t node =
    if n.is_orphan node
    then delete_orphan n t node
    else retry_orphan (forget_max n (forget_min n t node) node)
        (retrace_unlinked (unlink n t.root node))

abbrev pub delete_popped : Nodes → AvlTree → Option ℕ → Option ℕ × Nodes × AvlTree
delete_popped n t none = (none, n, t)
delete_popped n t (some node) = let (n₁, t₁) = delete n t node in (some node, n₁, t₁)

unfoldable pub pop_min : Nodes → AvlTree → Option ℕ × Nodes × AvlTree
pop_min n t = delete_popped n t (tree_min t)

unfoldable pub pop_max : Nodes → AvlTree → Option ℕ × Nodes × AvlTree
pop_max n t = delete_popped n t (tree_max t)
