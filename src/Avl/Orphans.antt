-- ===== src/Avl/Orphans.antt =====
-- The orphans of lib/avl.bpf.h: the nodes that found no place in the tree, in a list that is
-- linked through the array like an arr_list, but has no last element.
pub mod Listed
use ghost_userspace_o.Base.{ℕ, zero, suc, if◌then◌else◌, ◌==◌, Option, none, some, update}
use ghost_userspace_o.ArrList.{Arr, set_next, set_prev}

unfoldable pub insert_orphan : Arr → ℕ → ℕ → Arr × ℕ
insert_orphan arr first e =
    (update (set_prev first (suc e) arr) e (record { next = first; prev = 0 }), suc e)

unfoldable pub remove_orphan : Arr → ℕ → ℕ → Arr × ℕ
remove_orphan arr first e =
    let prev_id = (arr e).prev in
    let next_id = (arr e).next in
    let arr₁ = set_prev next_id prev_id (set_next prev_id next_id arr) in
    (update arr₁ e (record { next = 0; prev = 0 }), if first == suc e then next_id else first)

unfoldable pub pop_first_orphan : Arr → ℕ → Option ℕ × Arr × ℕ
pop_first_orphan arr zero = (none, arr, 0)
pop_first_orphan arr (suc first) =
    let next_id = (arr first).next in
    (some first, update (set_prev next_id 0 arr) first (record { next = 0; prev = 0 }), next_id)
