-- ===== src/ArrList/Inside.antt =====
-- arr_list_remove of lib/queue.bpf.h against lists.
use ghost_userspace_o.Base.{
  ℕ, suc, ◌+◌, ◌≤◌, ◌≡◌, ◌≢◌, refl, sym, ap, ◌∙◌, false, ◌==◌, List, [], ◌∷◌, ◌++◌, count,
  count-append, arith, if◌then◌else◌, ==_refl,
}
use ghost_userspace_o.ArrList.{Arr, ArrList, ArrListEntry, set_next, set_prev, remove}
use ghost_userspace_o.ArrList.Links.{
  first_id, last_id, Links, IsList, Links-append, Links-split, Links-relink_end, Links-relink_start,
  Links-update, last_id-count, Links-set_next, Links-set_prev, set_next-other, set_prev-other,
  update_at,
}
use ghost_userspace_o.ArrList.Ends.{last_id-append}
use ghost_userspace_o.ArrList.Joined.{last_id-elem}

pub first_id-elem : (xs : List ℕ) (i : ℕ) → first_id xs 0 ≡ suc i → count i xs ≢ 0
first_id-elem [] i e n = ground arith
first_id-elem (x ∷ xs) i e n = let same : x ≡ i = omega arith in ground (arith, ==_refl i)

-- An element between two segments.
pub record Between (ys : List ℕ) (x : ℕ) (zs : List ℕ) : Type 0 where
  pub both : (e : ℕ) → count e ys + count e zs ≤ 1
  pub before : count x ys ≡ 0
  pub after : count x zs ≡ 0

pub distinct-Between :
    (ys : List ℕ) (x : ℕ) (zs : List ℕ) → ((e : ℕ) → count e (ys ++ x ∷ zs) ≤ 1) → Between ys x zs
distinct-Between ys x zs d = record {
  both = λ e. ground (arith, d e, count-append e ys (x ∷ zs));
  before = ground (arith, d x, count-append x ys (x ∷ zs), ==_refl x);
  after = ground (arith, d x, count-append x ys (x ∷ zs), ==_refl x);
}

-- The links after the two writes around the element.
closed-Links :
    (arr : Arr) (ys zs : List ℕ) (p q : ℕ)
    → ((e : ℕ) → count e ys + count e zs ≤ 1)
    → Links arr 0 ys q
    → Links arr p zs 0
    → Links
        (set_prev (first_id zs 0) (last_id 0 ys) (set_next (last_id 0 ys) (first_id zs 0) arr))
        0
        (ys ++ zs)
        0
closed-Links arr ys zs p q d l m =
    let id = last_id 0 ys in
    let arr₁ = set_next id (first_id zs 0) arr in
    let left = Links-relink_end arr 0 ys q (first_id zs 0) (λ e. omega (arith, d e)) l in
    let right =
      Links-set_next arr p zs 0 id (first_id zs 0)
        (λ i e. let met = last_id-elem ys i e in omega (arith, d i, met)) m in
    Links-append (set_prev (first_id zs 0) id arr₁) 0 ys zs 0
      (Links-set_prev arr₁ 0 ys (first_id zs 0) (first_id zs 0) id
        (λ i e. let met = first_id-elem zs i e in omega (arith, d i, met)) left)
      (Links-relink_start arr₁ p zs 0 id (λ e. omega (arith, d e)) right)

first_left :
    (ys : List ℕ) (x first : ℕ) (zs : List ℕ)
    → first ≡ first_id (ys ++ x ∷ zs) 0
    → count x ys ≡ 0
    → (if first == suc x then first_id zs 0 else first) ≡ first_id (ys ++ zs) 0
first_left [] x first zs e n = rw e (rw (==_refl (suc x)) refl)
first_left (y ∷ ys) x first zs e n =
    let other : (first == suc x) ≡ false = ground (arith, n, ==_refl x) in rw other e

last_left :
    (ys : List ℕ) (x last : ℕ) (zs : List ℕ)
    → last ≡ last_id 0 (ys ++ x ∷ zs)
    → count x zs ≡ 0
    → (if last == suc x then last_id 0 ys else last) ≡ last_id 0 (ys ++ zs)
last_left ys x last [] e n =
    let hit : last ≡ suc x = e ∙ last_id-append 0 ys (x ∷ []) in
    rw hit (rw (==_refl (suc x)) (sym (last_id-append 0 ys [])))
last_left ys x last (z ∷ zs) e n =
    let at : last ≡ last_id (suc x) (z ∷ zs) = e ∙ last_id-append 0 ys (x ∷ z ∷ zs) in
    let met = last_id-count (suc x) z zs x in
    let other : (last == suc x) ≡ false = ground (arith, met, at, n) in
    rw other (at ∙ sym (last_id-append 0 ys (z ∷ zs)))

-- If the head and the array hold the list of distinct elements `ys ++ x ∷ zs` (linked in both
-- directions, with the right first and last id), then after arr_list_remove of x they hold `ys
-- ++ zs`, wherever x stands, and both links of x are 0.
pub remove-IsList :
    (arr : Arr) (head : ArrList) (ys : List ℕ) (x : ℕ) (zs : List ℕ)
    → IsList arr head (ys ++ x ∷ zs)
    → let r = remove arr head x in
      IsList r.0 r.1 (ys ++ zs) × ((r.0 x).next ≡ 0) × ((r.0 x).prev ≡ 0)
unfolding remove
remove-IsList arr head ys x zs v =
    let b = distinct-Between ys x zs v.distinct in
    let (l, (back, forth, m)) = Links-split arr 0 ys (x ∷ zs) 0 v.links in
    let P = last_id 0 ys in
    let N = first_id zs 0 in
    let arr₁ = set_next P N arr in
    let arr₂ = set_prev N P arr₁ in
    let same₁ : arr₁ x ≡ arr x = set_next-other arr P N x (λ e. last_id-elem ys x e b.before) in
    let same₂ : arr₂ x ≡ arr x =
      set_prev-other arr₁ N P x (λ e. first_id-elem zs x e b.after) ∙ same₁ in
    let n₁ : (arr₁ x).next ≡ N = ap (λ r. r.next) same₁ ∙ forth in
    let p₁ : (arr₁ x).prev ≡ P = ap (λ r. r.prev) same₁ ∙ back in
    let n₂ : (arr₂ x).next ≡ N = ap (λ r. r.next) same₂ ∙ forth in
    let p₂ : (arr₂ x).prev ≡ P = ap (λ r. r.prev) same₂ ∙ back in
    let gone : count x (ys ++ zs) ≡ 0 = omega (arith, count-append x ys zs, b.before, b.after) in
    let cleared : ArrListEntry = record { prev = 0; next = 0 } in
    let hit = update_at arr₂ x cleared in
    rw (back, forth, n₁, p₁, n₂, p₂)
      (
        record {
          starts = first_left ys x head.first zs v.starts b.before;
          ends = last_left ys x head.last zs v.ends b.after;
          links =
              Links-update arr₂ 0 (ys ++ zs) 0 x cleared gone
                (closed-Links arr ys zs (suc x) (suc x) b.both l m);
          distinct = λ e. omega (arith, b.both e, count-append e ys zs);
        },
        ap (λ r. r.next) hit,
        ap (λ r. r.prev) hit,
      )
