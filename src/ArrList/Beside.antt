-- ===== src/ArrList/Beside.antt =====
-- arr_list_insert_before and arr_list_insert_after of lib/queue.bpf.h against lists.
use mathlib.Core.List.{append_assoc}
use ghost_userspace_o.Base.{
  ℕ, suc, ◌+◌, ◌≤◌, ◌≡◌, ◌≢◌, refl, sym, ap, subst, ◌∙◌, false, ◌==◌, List, [], ◌∷◌, ◌++◌, count,
  count-append, arith, if◌then◌else◌, ==_refl, update,
}
use ghost_userspace_o.ArrList.{
  Arr, ArrList, ArrListEntry, set_next, set_prev, insert_before, insert_after,
}
use ghost_userspace_o.ArrList.Links.{
  first_id, last_id, Links, IsList, Links-append, Links-split, Links-relink_end, Links-relink_start,
  Links-update, last_id-count, Links-set_next, Links-set_prev, set_next-other, set_prev-other,
  update_at,
}
use ghost_userspace_o.ArrList.Ends.{last_id-append}
use ghost_userspace_o.ArrList.Joined.{last_id-elem}
use ghost_userspace_o.ArrList.Inside.{distinct-Between, first_id-elem}

inserted_distinct :
    (ys : List ℕ) (e : ℕ) (zs : List ℕ)
    → count e (ys ++ zs) ≡ 0
    → ((i : ℕ) → count i (ys ++ zs) ≤ 1)
    → (i : ℕ) → count i (ys ++ e ∷ zs) ≤ 1
inserted_distinct ys e zs fresh d i =
    ground (arith, d i, fresh, count-append i ys zs, count-append i ys (e ∷ zs))

first_before :
    (ys : List ℕ) (l e first : ℕ) (zs : List ℕ)
    → first ≡ first_id (ys ++ l ∷ zs) 0
    → count l ys ≡ 0
    → (if first == suc l then suc e else first) ≡ first_id (ys ++ e ∷ l ∷ zs) 0
first_before [] l e first zs h n = rw h (rw (==_refl (suc l)) refl)
first_before (y ∷ ys) l e first zs h n =
    let other : (first == suc l) ≡ false = ground (arith, n, ==_refl l) in rw other h

-- If the head and the array hold the list `ys ++ l ∷ zs` and e does not stand in it, then after
-- arr_list_insert_before of e at l they hold `ys ++ e ∷ l ∷ zs`.
pub insert_before-IsList :
    (arr : Arr) (head : ArrList) (ys : List ℕ) (l : ℕ) (zs : List ℕ) (e : ℕ)
    → IsList arr head (ys ++ l ∷ zs)
    → count e (ys ++ l ∷ zs) ≡ 0
    → let r = insert_before arr head l e in IsList r.0 r.1 (ys ++ e ∷ l ∷ zs)
unfolding insert_before
insert_before-IsList arr head ys l zs e v fresh =
    let b = distinct-Between ys l zs v.distinct in
    let (left, (back, forth, m)) = Links-split arr 0 ys (l ∷ zs) 0 v.links in
    let P = last_id 0 ys in
    let apart : (i : ℕ) → count i ys + count i (l ∷ zs) ≤ 1 =
      λ i. omega (arith, v.distinct i, count-append i ys (l ∷ zs)) in
    let fresh_left : count e ys ≡ 0 = omega (arith, fresh, count-append e ys (l ∷ zs)) in
    let fresh_right : count e (l ∷ zs) ≡ 0 = omega (arith, fresh, count-append e ys (l ∷ zs)) in
    let differs : l ≢ e = λ z. ground (arith, fresh_right) in
    let arr₁ = set_next P (suc e) arr in
    let same : (arr₁ l).prev ≡ P =
      ap (λ r. r.prev) (set_next-other arr P (suc e) l (λ z. last_id-elem ys l z b.before))
      ∙ back in
    let entry : ArrListEntry = record { prev = P; next = suc l } in
    let arr₂ = update arr₁ e entry in
    let hit =
      set_prev-other arr₂ (suc l) (suc e) e (λ z. differs (omega arith)) ∙ update_at arr₁ e entry in
    let l₁ =
      Links-set_prev arr₂ 0 ys (suc e) (suc l) (suc e)
        (λ i z. let is : l ≡ i = omega arith in subst (λ j. count j ys ≡ 0) is b.before)
        (Links-update arr₁ 0 ys (suc e) e entry fresh_left
          (Links-relink_end arr 0 ys (suc l) (suc e) (λ i. omega (arith, apart i)) left)) in
    let l₂ =
      Links-relink_start arr₂ P (l ∷ zs) 0 (suc e) (λ i. omega (arith, apart i))
        (Links-update arr₁ P (l ∷ zs) 0 e entry fresh_right (
          Links-set_next arr P (l ∷ zs) 0 P (suc e)
            (λ i z. let met = last_id-elem ys i z in omega (arith, apart i, met))
            (back, forth, m))) in
    rw (back, same)
      (record {
        starts = first_before ys l e head.first zs v.starts b.before;
        ends = v.ends ∙ last_id-append 0 ys (l ∷ zs) ∙ sym (last_id-append 0 ys (e ∷ l ∷ zs));
        links =
            Links-append _ 0 ys (e ∷ l ∷ zs) 0 l₁ (ap (λ r. r.prev) hit, ap (λ r. r.next) hit, l₂);
        distinct = inserted_distinct ys e (l ∷ zs) fresh v.distinct;
      })

last_after :
    (ys : List ℕ) (l e last : ℕ) (zs : List ℕ)
    → last ≡ last_id 0 (ys ++ l ∷ zs)
    → count l zs ≡ 0
    → (if last == suc l then suc e else last) ≡ last_id 0 (ys ++ l ∷ e ∷ zs)
last_after ys l e last [] h n =
    let hit : last ≡ suc l = h ∙ last_id-append 0 ys (l ∷ []) in
    rw hit (rw (==_refl (suc l)) (sym (last_id-append 0 ys (l ∷ e ∷ []))))
last_after ys l e last (z ∷ zs) h n =
    let at : last ≡ last_id (suc l) (z ∷ zs) = h ∙ last_id-append 0 ys (l ∷ z ∷ zs) in
    let met = last_id-count (suc l) z zs l in
    let other : (last == suc l) ≡ false = ground (arith, met, at, n) in
    rw other (at ∙ sym (last_id-append 0 ys (l ∷ e ∷ z ∷ zs)))

first_after :
    (ys : List ℕ) (l e : ℕ) (zs : List ℕ)
    → first_id (ys ++ l ∷ zs) 0 ≡ first_id (ys ++ l ∷ e ∷ zs) 0
first_after [] l e zs = refl
first_after (y ∷ ys) l e zs = refl

-- The segment up to an element, whose last is that element.
up_to_distinct :
    (ys : List ℕ) (l : ℕ) (zs : List ℕ)
    → ((i : ℕ) → count i (ys ++ l ∷ zs) ≤ 1)
    → (i : ℕ) → count i (ys ++ l ∷ []) + count i zs ≤ 1
up_to_distinct ys l zs d i =
    omega (arith, d i, count-append i ys (l ∷ zs), count-append i ys (l ∷ []))

-- If the head and the array hold the list `ys ++ l ∷ zs` and e does not stand in it, then after
-- arr_list_insert_after of e at l they hold `ys ++ l ∷ e ∷ zs`.
pub insert_after-IsList :
    (arr : Arr) (head : ArrList) (ys : List ℕ) (l : ℕ) (zs : List ℕ) (e : ℕ)
    → IsList arr head (ys ++ l ∷ zs)
    → count e (ys ++ l ∷ zs) ≡ 0
    → let r = insert_after arr head l e in IsList r.0 r.1 (ys ++ l ∷ e ∷ zs)
unfolding insert_after
insert_after-IsList arr head ys l zs e v fresh =
    let b = distinct-Between ys l zs v.distinct in
    let us = ys ++ l ∷ [] in
    let N = first_id zs 0 in
    let (_, (_, forth, _)) = Links-split arr 0 ys (l ∷ zs) 0 v.links in
    let (left, right) =
      Links-split arr 0 us zs 0
        (subst (λ xs. Links arr 0 xs 0) (sym (append_assoc ys (l ∷ []) zs)) v.links) in
    let is_last : last_id 0 us ≡ suc l = last_id-append 0 ys (l ∷ []) in
    let apart = up_to_distinct ys l zs v.distinct in
    let fresh_left : count e us ≡ 0 =
      omega (arith, fresh, count-append e ys (l ∷ zs), count-append e ys (l ∷ [])) in
    let fresh_right : count e zs ≡ 0 = omega (arith, fresh, count-append e ys (l ∷ zs)) in
    let differs : l ≢ e = λ z. ground (arith, fresh_left, count-append e ys (l ∷ []), ==_refl e) in
    let arr₁ = set_prev N (suc e) arr in
    let same : (arr₁ l).next ≡ N =
      ap (λ r. r.next) (set_prev-other arr N (suc e) l (λ z. first_id-elem zs l z b.after))
      ∙ forth in
    let entry : ArrListEntry = record { prev = suc l; next = N } in
    let arr₂ = update arr₁ e entry in
    let hit =
      set_next-other arr₂ (suc l) (suc e) e (λ z. differs (omega arith)) ∙ update_at arr₁ e entry in
    let l₀ = Links-update arr₁ 0 us N e entry fresh_left (
      Links-set_prev arr 0 us N N (suc e)
        (λ i z. let met = first_id-elem zs i z in omega (arith, apart i, met)) left) in
    let l₁ =
      subst (λ id. Links (set_next id (suc e) arr₂) 0 us (suc e)) is_last
        (Links-relink_end arr₂ 0 us N (suc e) (λ i. omega (arith, apart i)) l₀) in
    let l₂ =
      Links-set_next arr₂ (suc e) zs 0 (suc l) (suc e)
        (λ i z. let is : l ≡ i = omega arith in subst (λ j. count j zs ≡ 0) is b.after)
        (Links-update arr₁ (suc e) zs 0 e entry fresh_right (
          Links-relink_start arr (last_id 0 us) zs 0 (suc e) (λ i. omega (arith, apart i))
            right)) in
    rw (forth, same)
      (record {
        starts = v.starts ∙ first_after ys l e zs;
        ends = last_after ys l e head.last zs v.ends b.after;
        links =
            subst (λ xs. Links (set_next (suc l) (suc e) arr₂) 0 xs 0)
              (append_assoc ys (l ∷ []) (e ∷ zs))
              (Links-append _ 0 us (e ∷ zs) 0 l₁
                (ap (λ r. r.prev) hit ∙ sym is_last, ap (λ r. r.next) hit, l₂));
        distinct =
            subst (λ xs. (i : ℕ) → count i xs ≤ 1) (append_assoc ys (l ∷ []) (e ∷ zs))
              (inserted_distinct us e zs
                (omega (arith, fresh_left, fresh_right, count-append e us zs))
                (λ i. omega (arith, apart i, count-append i us zs)));
      })
