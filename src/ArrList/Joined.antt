-- ===== src/ArrList/Joined.antt =====
-- arr_list_concat of lib/queue.bpf.h: the join of two lists, and what it does to an empty second one.
use ghost_userspace_o.Base.{
  ℕ, suc, ◌+◌, ◌≤◌, ◌≡◌, ◌≢◌, refl, sym, subst, ◌∙◌, false, ◌==◌, List, [], ◌∷◌, ◌++◌, count,
  count-append, arith, if◌then◌else◌, ==_refl,
}
use ghost_userspace_o.ArrList.{Arr, ArrList, set_next, set_prev, concat}
use ghost_userspace_o.ArrList.Links.{
  first_id, last_id, Links, IsList, Links-append, Links-relink_end, Links-relink_start,
  last_id-count, Links-set_next, Links-set_prev,
}
use ghost_userspace_o.ArrList.Ends.{last_id-append}

pub last_id-elem : (xs : List ℕ) (i : ℕ) → last_id 0 xs ≡ suc i → count i xs ≢ 0
last_id-elem [] i e n = ground arith
last_id-elem (x ∷ xs) i e n = last_id-count 0 x xs i e n

last_id-positive : (p x : ℕ) (xs : List ℕ) → last_id p (x ∷ xs) ≢ 0
last_id-positive p x [] e = ground arith
last_id-positive p x (y ∷ xs) e = last_id-positive (suc x) y xs e

-- The links after both writes.
joined-Links :
    (arr : Arr) (xs : List ℕ) (y : ℕ) (ys : List ℕ)
    → Links arr 0 xs 0
    → Links arr 0 (y ∷ ys) 0
    → ((e : ℕ) → count e (xs ++ y ∷ ys) ≤ 1)
    → Links
        (set_prev (suc y) (last_id 0 xs) (set_next (last_id 0 xs) (suc y) arr))
        0
        (xs ++ y ∷ ys)
        0
joined-Links arr xs y ys l m d =
    let id = last_id 0 xs in
    let both : (e : ℕ) → count e xs + count e (y ∷ ys) ≤ 1 =
      λ e. omega (arith, d e, count-append e xs (y ∷ ys)) in
    let arr₁ = set_next id (suc y) arr in
    let here : count y (y ∷ ys) ≢ 0 = λ z. ground (arith, ==_refl y) in
    let left = Links-relink_end arr 0 xs 0 (suc y) (λ e. omega (arith, both e)) l in
    let right =
      Links-set_next arr 0 (y ∷ ys) 0 id (suc y)
        (λ i e. let met = last_id-elem xs i e in omega (arith, both i, met)) m in
    Links-append (set_prev (suc y) id arr₁) 0 xs (y ∷ ys) 0
      (Links-set_prev arr₁ 0 xs (suc y) (suc y) id
        (λ i e.
          let same : y ≡ i = omega arith in
          subst (λ j. count j xs ≡ 0) same (omega (arith, both y, here)))
        left)
      (Links-relink_start arr₁ 0 (y ∷ ys) 0 id (λ e. omega (arith, both e)) right)

first_joined :
    (xs : List ℕ) (y first : ℕ) (ys : List ℕ)
    → first ≡ first_id xs 0
    → (if first == 0 then suc y else first) ≡ first_id (xs ++ y ∷ ys) 0
first_joined [] y first ys e = rw e refl
first_joined (x ∷ xs) y first ys e = let filled : (first == 0) ≡ false = ground arith in rw filled e

-- If two heads hold a list `xs` and a list `y ∷ ys` that is not empty in one array, with no
-- element twice, then after arr_list_concat the first holds `xs ++ y ∷ ys` and the second the
-- empty list.
pub concat-IsList :
    (arr : Arr) (head1 head2 : ArrList) (xs : List ℕ) (y : ℕ) (ys : List ℕ)
    → IsList arr head1 xs
    → IsList arr head2 (y ∷ ys)
    → ((e : ℕ) → count e (xs ++ y ∷ ys) ≤ 1)
    → let r = concat arr head1 head2 in IsList r.0 r.1 (xs ++ y ∷ ys) × IsList r.0 r.2 []
unfolding concat
concat-IsList arr head1 head2 xs y ys v w d =
    rw (v.ends, w.starts)
      (
        record {
          starts = first_joined xs y head1.first ys v.starts;
          ends = w.ends ∙ sym (last_id-append 0 xs (y ∷ ys));
          links = joined-Links arr xs y ys v.links w.links d;
          distinct = d;
        },
        record { starts = refl; ends = refl; links = tt; distinct = λ e. omega arith },
      )

no_list :
    (arr : Arr) (head : ArrList) (zs : List ℕ)
    → head.first ≢ 0
    → head.last ≡ 0
    → IsList arr head zs
    → ⊥
no_list arr head [] f l v = f v.starts
no_list arr head (z ∷ zs) f l v = last_id-positive 0 z zs (sym v.ends ∙ l)

-- If the first head holds a list that is not empty and the second the empty list, then after
-- arr_list_concat the first head holds no list at all: its last id is 0 while its first is not.
pub concat_empty :
    (arr : Arr) (head1 head2 : ArrList) (x : ℕ) (xs : List ℕ)
    → IsList arr head1 (x ∷ xs)
    → IsList arr head2 []
    → let r = concat arr head1 head2 in (zs : List ℕ) → IsList r.0 r.1 zs → ⊥
unfolding concat
concat_empty arr head1 head2 x xs v w zs l = no_list _ _ zs (λ e. ground (arith, v.starts)) w.ends l
