-- ===== src/ArrList/Tests.antt =====
-- The arr_list of lib/queue.bpf.h on small lists, and its theorems at such lists.
use ghost_userspace_o.Base.{◌≡◌, refl, [], ◌∷◌, arith}
use ghost_userspace_o.ArrList.{
  Arr, ArrList, arr_list_init, insert_tail, insert_before, insert_after, remove, pop_first, concat,
}
use ghost_userspace_o.ArrList.Links.{IsList}
use ghost_userspace_o.ArrList.Ends.{insert_tail-IsList, Pops, pop_first-IsList}
use ghost_userspace_o.ArrList.Joined.{concat-IsList, concat_empty}
use ghost_userspace_o.ArrList.Inside.{remove-IsList}
use ghost_userspace_o.ArrList.Beside.{insert_before-IsList, insert_after-IsList}

abbrev fresh : Arr
fresh e = record { next = 0; prev = 0 }

empty-IsList : (arr : Arr) → IsList arr arr_list_init []
empty-IsList arr = record { starts = refl; ends = refl; links = tt; distinct = λ e. omega arith }

-- Element 3, then element 5.
abbrev one : Arr × ArrList
one = insert_tail fresh arr_list_init 3

abbrev two : Arr × ArrList
two = insert_tail one.0 one.1 5

one-IsList : IsList one.0 one.1 (3 ∷ [])
one-IsList = insert_tail-IsList fresh arr_list_init [] 3 (empty-IsList fresh) refl

two-IsList : IsList two.0 two.1 (3 ∷ 5 ∷ [])
two-IsList = insert_tail-IsList one.0 one.1 (3 ∷ []) 5 one-IsList refl

insert_before-IsList_example :
    IsList (insert_before two.0 two.1 5 9).0 (insert_before two.0 two.1 5 9).1 (3 ∷ 9 ∷ 5 ∷ [])
insert_before-IsList_example = insert_before-IsList two.0 two.1 (3 ∷ []) 5 [] 9 two-IsList refl

insert_after-IsList_example :
    IsList (insert_after two.0 two.1 3 9).0 (insert_after two.0 two.1 3 9).1 (3 ∷ 9 ∷ 5 ∷ [])
insert_after-IsList_example = insert_after-IsList two.0 two.1 [] 3 (5 ∷ []) 9 two-IsList refl

remove-IsList_example :
    let r = remove two.0 two.1 3 in
    IsList r.0 r.1 (5 ∷ []) × ((r.0 3).next ≡ 0) × ((r.0 3).prev ≡ 0)
remove-IsList_example = remove-IsList two.0 two.1 [] 3 (5 ∷ []) two-IsList

pop_first-IsList_example : Pops (3 ∷ 5 ∷ []) (pop_first two.0 two.1)
pop_first-IsList_example = pop_first-IsList two.0 two.1 (3 ∷ 5 ∷ []) two-IsList

-- Element 8 alone in a second list of the same array.
abbrev eight : Arr × ArrList
eight = insert_tail fresh arr_list_init 8

eight-IsList : IsList eight.0 eight.1 (8 ∷ [])
eight-IsList = insert_tail-IsList fresh arr_list_init [] 8 (empty-IsList fresh) refl

concat-IsList_example :
    let r = concat eight.0 arr_list_init eight.1 in IsList r.0 r.1 (8 ∷ []) × IsList r.0 r.2 []
concat-IsList_example =
    concat-IsList eight.0 arr_list_init eight.1 [] 8 [] (empty-IsList eight.0) eight-IsList
      (eight-IsList.distinct)

concat_empty_example : let r = concat two.0 two.1 arr_list_init in IsList r.0 r.1 (3 ∷ 5 ∷ []) → ⊥
concat_empty_example =
    concat_empty two.0 two.1 arr_list_init 3 (5 ∷ []) two-IsList (empty-IsList two.0) (3 ∷ 5 ∷ [])
