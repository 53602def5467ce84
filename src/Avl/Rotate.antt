-- ===== src/Avl/Rotate.antt =====
-- The four rotations of lib/avl.bpf.h, each on a node `x` and its child `z`. A rotation returns
-- the root of the rotated subtree; its caller ties that to the parent of `x` (relink).
use ghost_userspace_o.Base.{ℕ, zero, suc, Bool, true, false, if◌then◌else◌, ◌==◌, update}
use ghost_userspace_o.Base.Int.{ℤ, pos, negsuc, ltb_ℤ, leb_ℤ}
use ghost_userspace_o.Avl.{Nodes, update_id}

-- `balance == 0`
abbrev pub is_level : ℤ → Bool
is_level (pos zero) = true
is_level (pos (suc n)) = false
is_level (negsuc n) = false

unfoldable pub rotate_left : Nodes → ℕ → ℕ → Nodes × ℕ
rotate_left n x z =
    let level = is_level (n.balance z) in
    (
      record n {
        right_id = update n.right_id x (n.left_id z);
        left_id = update n.left_id z (suc x);
        parent_id = update (update_id n.parent_id (n.left_id z) (suc x)) x (suc z);
        balance =
            update (update n.balance x (if level then pos 1 else pos 0)) z
              (if level then negsuc 0 else pos 0);
      },
      z,
    )

unfoldable pub rotate_right : Nodes → ℕ → ℕ → Nodes × ℕ
rotate_right n x z =
    let level = is_level (n.balance z) in
    (
      record n {
        left_id = update n.left_id x (n.right_id z);
        right_id = update n.right_id z (suc x);
        parent_id = update (update_id n.parent_id (n.right_id z) (suc x)) x (suc z);
        balance =
            update (update n.balance x (if level then negsuc 0 else pos 0)) z
              (if level then pos 1 else pos 0);
      },
      z,
    )

-- The balances that the three nodes get, from the one of `y`: below (the one of `x` or `z` that
-- is put to the left of `y`) and above (the other).
abbrev pub below_of : ℤ → ℤ
below_of b = if is_level b then pos 0 else if ltb_ℤ (pos 0) b then negsuc 0 else pos 0

abbrev pub above_of : ℤ → ℤ
above_of b = if is_level b then pos 0 else if ltb_ℤ (pos 0) b then pos 0 else pos 1

-- `y` has the id `y_id`.
unfoldable pub rotate_right_left_at : Nodes → ℕ → ℕ → ℕ → Nodes × ℕ
rotate_right_left_at n x z zero = (n, x)
rotate_right_left_at n x z (suc y) =
    let t2_id = n.left_id y in
    let t3_id = n.right_id y in
    (
      record n {
        left_id = update (update n.left_id y (suc x)) z t3_id;
        right_id = update (update n.right_id x t2_id) y (suc z);
        parent_id =
            update_id (update (update_id (update n.parent_id x (suc y)) t2_id (suc x)) z (suc y))
              t3_id (suc z);
        balance =
            update (update (update n.balance x (below_of (n.balance y))) y (pos 0)) z
              (above_of (n.balance y));
      },
      y,
    )

abbrev pub rotate_right_left : Nodes → ℕ → ℕ → Nodes × ℕ
rotate_right_left n x z = rotate_right_left_at n x z (n.left_id z)

unfoldable pub rotate_left_right_at : Nodes → ℕ → ℕ → ℕ → Nodes × ℕ
rotate_left_right_at n x z zero = (n, x)
rotate_left_right_at n x z (suc y) =
    let t2_id = n.left_id y in
    let t3_id = n.right_id y in
    (
      record n {
        left_id = update (update n.left_id y (suc z)) x t3_id;
        right_id = update (update n.right_id z t2_id) y (suc x);
        parent_id =
            update_id (update (update_id (update n.parent_id z (suc y)) t2_id (suc z)) x (suc y))
              t3_id (suc x);
        balance =
            update (update (update n.balance x (above_of (n.balance y))) y (pos 0)) z
              (below_of (n.balance y));
      },
      y,
    )

abbrev pub rotate_left_right : Nodes → ℕ → ℕ → Nodes × ℕ
rotate_left_right n x z = rotate_left_right_at n x z (n.right_id z)

-- The choice of a rotation, for a child `z` on the left or on the right.
unfoldable pub rotate_up : Bool → Nodes → ℕ → ℕ → Nodes × ℕ
rotate_up true n x z =
    if leb_ℤ (n.balance z) (pos 0) then rotate_right n x z else rotate_left_right n x z
rotate_up false n x z =
    if leb_ℤ (pos 0) (n.balance z) then rotate_left n x z else rotate_right_left n x z

-- The child of the parent that was `x`, or the root, becomes `id`.
unfoldable pub relink_child : Nodes → ℕ → ℕ → ℕ → ℕ → Nodes × ℕ
relink_child n root x zero id = (n, id)
relink_child n root x (suc parent) id =
    if n.left_id parent == suc x
    then (record n { left_id = update n.left_id parent id }, root)
    else (record n { right_id = update n.right_id parent id }, root)

-- The end of a rotation in the loops of insert and delete: the nodes and the root.
abbrev pub relink : Nodes × ℕ → ℕ → ℕ → ℕ → Nodes × ℕ
relink (n, str) root x parent_id =
    relink_child (record n { parent_id = update n.parent_id str parent_id }) root x parent_id
      (suc str)
