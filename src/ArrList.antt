-- ===== src/ArrList.antt =====
-- The arr_list of lib/queue.bpf.h, with __id_to_elem and __elem_to_id of lib/arr_structs.bpf.h: a
-- doubly linked list of elements of one array. An element is its index in the array, and an id is
-- that index plus one, 0 being no element. The array is a function: the bounds check that the BPF
-- variant of BOUNDED_ARRAY_IDX adds (third_party/bpf) is not modelled, every id being in range.
pub mod Links
pub mod Ends
pub mod Joined
pub mod Inside
pub mod Beside
mod Tests
use ghost_userspace_o.Base.{
  ℕ, zero, suc, ◌+◌, Bool, if◌then◌else◌, ◌==◌, Option, none, some, update,
}

pub record ArrListEntry : Type 0 where
  pub next : ℕ
  pub prev : ℕ

pub record ArrList : Type 0 where
  pub first : ℕ
  pub last : ℕ

-- The array, of which only the list fields are read, and the head of a list in it.
abbrev pub Arr : Type 0
Arr = ℕ → ArrListEntry

abbrev pub id_to_elem : ℕ → Option ℕ
id_to_elem zero = none
id_to_elem (suc i) = some i

abbrev pub elem_to_id : ℕ → ℕ
elem_to_id e = suc e

abbrev pub arr_list_init : ArrList
arr_list_init = record { first = 0; last = 0 }

abbrev pub arr_list_empty : ArrList → Bool
arr_list_empty head = head.first == 0

-- `if (p) p->field.next = v`, for the element of an id.
abbrev pub set_next : ℕ → ℕ → Arr → Arr
set_next zero v arr = arr
set_next (suc e) v arr = update arr e (record (arr e) { next = v })

abbrev pub set_prev : ℕ → ℕ → Arr → Arr
set_prev zero v arr = arr
set_prev (suc e) v arr = update arr e (record (arr e) { prev = v })

unfoldable pub insert_head : Arr → ArrList → ℕ → Arr × ArrList
insert_head arr head e =
    let id = elem_to_id e in
    let arr₁ = update arr e (record { prev = 0; next = head.first }) in
    if arr_list_empty head
    then (arr₁, record { first = id; last = id })
    else (set_prev head.first id arr₁, record head { first = id })

unfoldable pub insert_tail : Arr → ArrList → ℕ → Arr × ArrList
insert_tail arr head e =
    let id = elem_to_id e in
    let arr₁ = update arr e (record { prev = head.last; next = 0 }) in
    if arr_list_empty head
    then (arr₁, record { first = id; last = id })
    else (set_next head.last id arr₁, record head { last = id })

unfoldable pub insert_before : Arr → ArrList → ℕ → ℕ → Arr × ArrList
insert_before arr head l e =
    let id = elem_to_id e in
    let lid = elem_to_id l in
    let arr₁ = set_next (arr l).prev id arr in
    let arr₂ = update arr₁ e (record { prev = (arr₁ l).prev; next = lid }) in
    let arr₃ = set_prev lid id arr₂ in
    (arr₃, record head { first = if head.first == lid then id else head.first })

unfoldable pub insert_after : Arr → ArrList → ℕ → ℕ → Arr × ArrList
insert_after arr head l e =
    let id = elem_to_id e in
    let lid = elem_to_id l in
    let arr₁ = set_prev (arr l).next id arr in
    let arr₂ = update arr₁ e (record { prev = lid; next = (arr₁ l).next }) in
    let arr₃ = set_next lid id arr₂ in
    (arr₃, record head { last = if head.last == lid then id else head.last })

unfoldable pub remove : Arr → ArrList → ℕ → Arr × ArrList
remove arr head e =
    let id = elem_to_id e in
    let arr₁ = set_next (arr e).prev (arr e).next arr in
    let arr₂ = set_prev (arr₁ e).next (arr₁ e).prev arr₁ in
    (
      update arr₂ e (record { prev = 0; next = 0 }),
      record {
        first = if head.first == id then (arr₂ e).next else head.first;
        last = if head.last == id then (arr₂ e).prev else head.last;
      },
    )

-- The popped element keeps its `prev`.
unfoldable pub pop_first : Arr → ArrList → Option ℕ × Arr × ArrList
pop_first arr head = elim head.first [
  | zero ↦ (none, arr, head)
  | suc e ↦
      let arr₁ = set_prev (arr e).next 0 arr in
      (
        some e,
        set_next (suc e) 0 arr₁,
        record { first = (arr₁ e).next; last = if head.last == suc e then 0 else head.last },
      )
]

-- The second list goes to the end of the first.
unfoldable pub concat : Arr → ArrList → ArrList → Arr × ArrList × ArrList
concat arr head1 head2 =
    let arr₁ = set_next head1.last head2.first arr in
    let arr₂ = set_prev head2.first head1.last arr₁ in
    (
      arr₂,
      record {
        first = if arr_list_empty head1 then head2.first else head1.first;
        last = head2.last;
      },
      arr_list_init,
    )
