-- ===== src/ArrList/Ends.antt =====
-- Insertion at the ends, arr_list_pop_first and arr_list_concat of lib/queue.bpf.h against lists.
use ghost_userspace_o.Base.{
  ℕ, suc, ◌≤◌, ◌≡◌, ◌≢◌, refl, sym, ap, subst, ◌∙◌, inl, inr, true, false, if◌then◌else◌, ◌==◌,
  ==_refl, Option, none, some, List, [], ◌∷◌, ◌++◌, count, count-append, update, arith, Bool-cases,
}
use ghost_userspace_o.ArrList.{
  Arr, ArrList, ArrListEntry, set_next, set_prev, insert_head, insert_tail, pop_first,
}
use ghost_userspace_o.ArrList.Links.{
  first_id, last_id, Links, IsList, update_at, Links-update, Links-append, Links-relink_end,
  Links-relink_start, last_id-count, set_next-other, set_prev-other,
}

pub last_id-append : (p : ℕ) (xs ys : List ℕ) → last_id p (xs ++ ys) ≡ last_id (last_id p xs) ys
last_id-append p [] ys = refl
last_id-append p (x ∷ xs) ys = last_id-append (suc x) xs ys

first_id-append : (xs ys : List ℕ) (q : ℕ) → first_id (xs ++ ys) q ≡ first_id xs (first_id ys q)
first_id-append [] ys q = refl
first_id-append (x ∷ xs) ys q = refl

cons_distinct :
    (e : ℕ) (xs : List ℕ)
    → count e xs ≡ 0
    → ((i : ℕ) → count i xs ≤ 1)
    → (i : ℕ) → count i (e ∷ xs) ≤ 1
cons_distinct e xs fresh d i = elim (Bool-cases (e == i)) [
  | inl same ↦ ground (arith, fresh, d i)
  | inr other ↦ ground (arith, d i)
]

snoc_distinct :
    (e : ℕ) (xs : List ℕ)
    → count e xs ≡ 0
    → ((i : ℕ) → count i xs ≤ 1)
    → (i : ℕ) → count i (xs ++ e ∷ []) ≤ 1
snoc_distinct e xs fresh d i =
    omega (arith, count-append i xs (e ∷ []), cons_distinct e xs fresh d i)

-- If the head and the array hold the list `xs` and e does not stand in it, then after
-- arr_list_insert_head of e they hold `e ∷ xs`.
pub insert_head-IsList :
    (arr : Arr) (head : ArrList) (xs : List ℕ) (e : ℕ)
    → IsList arr head xs
    → count e xs ≡ 0
    → let r = insert_head arr head e in IsList r.0 r.1 (e ∷ xs)
unfolding insert_head
insert_head-IsList arr head [] e v fresh =
    let empty : (head.first == 0) ≡ true = rw v.starts refl in
    let hit = update_at arr e (record { prev = 0; next = head.first }) in
    rw empty (record {
      starts = refl;
      ends = refl;
      links = (ap (λ r. r.prev) hit, ap (λ r. r.next) hit ∙ v.starts, tt);
      distinct = λ i. ground arith;
    })
insert_head-IsList arr head (x ∷ xs) e v fresh =
    let filled : (head.first == 0) ≡ false = ground (arith, v.starts) in
    let entry : ArrListEntry = record { prev = 0; next = head.first } in
    let arr₁ = update arr e entry in
    let l = Links-update arr 0 (x ∷ xs) 0 e entry fresh v.links in
    let hit =
      set_prev-other arr₁ head.first (suc e) e (λ z. ground (arith, v.starts, ==_refl e))
      ∙ update_at arr e entry in
    let m = Links-relink_start arr₁ 0 (x ∷ xs) 0 (suc e) v.distinct l in
    rw filled (record {
      starts = refl;
      ends = v.ends;
      links = (
        ap (λ r. r.prev) hit,
        ap (λ r. r.next) hit ∙ v.starts,
        subst (λ id. Links (set_prev id (suc e) arr₁) (suc e) (x ∷ xs) 0) (sym v.starts) m,
      );
      distinct = cons_distinct e (x ∷ xs) fresh v.distinct;
    })

-- If the head and the array hold the list `xs` and e does not stand in it, then after
-- arr_list_insert_tail of e they hold `xs ++ e ∷ []`.
pub insert_tail-IsList :
    (arr : Arr) (head : ArrList) (xs : List ℕ) (e : ℕ)
    → IsList arr head xs
    → count e xs ≡ 0
    → let r = insert_tail arr head e in IsList r.0 r.1 (xs ++ e ∷ [])
unfolding insert_tail
insert_tail-IsList arr head [] e v fresh =
    let empty : (head.first == 0) ≡ true = rw v.starts refl in
    let hit = update_at arr e (record { prev = head.last; next = 0 }) in
    rw empty (record {
      starts = refl;
      ends = refl;
      links = (ap (λ r. r.prev) hit ∙ v.ends, ap (λ r. r.next) hit, tt);
      distinct = λ i. ground arith;
    })
insert_tail-IsList arr head (x ∷ xs) e v fresh =
    let filled : (head.first == 0) ≡ false = ground (arith, v.starts) in
    let entry : ArrListEntry = record { prev = head.last; next = 0 } in
    let arr₁ = update arr e entry in
    let id = last_id 0 (x ∷ xs) in
    let l = Links-update arr 0 (x ∷ xs) 0 e entry fresh v.links in
    let hit =
      set_next-other arr₁ id (suc e) e (λ z. last_id-count 0 x xs e z fresh)
      ∙ update_at arr e entry in
    let m = Links-relink_end arr₁ 0 (x ∷ xs) 0 (suc e) v.distinct l in
    let all =
      Links-append (set_next id (suc e) arr₁) 0 (x ∷ xs) (e ∷ []) 0 m
        (ap (λ r. r.prev) hit ∙ v.ends, ap (λ r. r.next) hit, tt) in
    rw filled (record {
      starts = v.starts;
      ends = sym (last_id-append 0 (x ∷ xs) (e ∷ []));
      links =
          subst (λ i. Links (set_next i (suc e) arr₁) 0 ((x ∷ xs) ++ e ∷ []) 0) (sym v.ends) all;
      distinct = snoc_distinct e (x ∷ xs) fresh v.distinct;
    })

-- What pop_first does to the list of the elements.
abbrev pub Pops : List ℕ → Option ℕ × Arr × ArrList → Type 0
Pops [] (o, arr, head) = (o ≡ none) × IsList arr head []
Pops (x ∷ xs) (o, arr, head) = (o ≡ some x) × IsList arr head xs × (arr x).next ≡ 0

pop_last :
    (x : ℕ) (xs : List ℕ) (last : ℕ)
    → last ≡ last_id 0 (x ∷ xs)
    → count x xs ≡ 0
    → (if last == suc x then 0 else last) ≡ last_id 0 xs
pop_last x [] last e n = rw e (rw (==_refl (suc x)) refl)
pop_last x (y ∷ xs) last e n =
    let other : (last == suc x) ≡ false = ground (arith, last_id-count (suc x) y xs x) in rw other e

-- Of a head that holds the empty list arr_list_pop_first shows no element and leaves the empty
-- list; of one that holds `x ∷ xs` it shows x, the head holds `xs`, and x links to no next
-- element.
pub pop_first-IsList :
    (arr : Arr) (head : ArrList) (xs : List ℕ) → IsList arr head xs → Pops xs (pop_first arr head)
unfolding pop_first
pop_first-IsList arr head [] v =
    rw v.starts (refl, record { starts = refl; ends = v.ends; links = tt; distinct = v.distinct })
pop_first-IsList arr head (x ∷ xs) v =
    let (back, forth, l) = v.links in
    let once : count x xs ≡ 0 = ground (arith, v.distinct x, ==_refl x) in
    let arr₁ = set_prev (first_id xs 0) 0 arr in
    let same : arr₁ x ≡ arr x =
      set_prev-other arr (first_id xs 0) 0 x (λ z. first_id-count xs x z once) in
    let d : (i : ℕ) → count i xs ≤ 1 = λ i. omega (arith, v.distinct i) in
    let m = Links-relink_start arr (suc x) xs 0 0 d l in
    let entry : ArrListEntry = record (arr₁ x) { next = 0 } in
    rw (v.starts, forth)
      (
        refl,
        record {
          starts = ap (λ r. r.next) same ∙ forth;
          ends = pop_last x xs head.last v.ends once;
          links = Links-update arr₁ 0 xs 0 x entry once m;
          distinct = d;
        },
        ap (λ r. r.next) (update_at arr₁ x entry),
      )
  where
    first_id-count : (ys : List ℕ) (i : ℕ) → first_id ys 0 ≡ suc i → count i ys ≢ 0
    first_id-count [] i e n = ground arith
    first_id-count (y ∷ ys) i e n = ground arith
