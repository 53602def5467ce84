-- ===== src/Avl/Orphans/Listed.antt =====
-- The list of the orphans (lib/avl.bpf.h) as a list: its front, and any of its nodes.
use ghost_userspace_o.Base.{
  ℕ, suc, false, ◌+◌, ◌≤◌, ◌≡◌, ◌≢◌, refl, sym, ap, subst, ◌∙◌, inl, inr, Bool-cases, ◌==◌, ==_iff,
  if◌then◌else◌, some, List, [], ◌∷◌, ◌++◌, count, count-append, update, arith,
}
use Prim.Native.Nat.{pred}
use ghost_userspace_o.ArrList.{Arr, ArrList, ArrListEntry, set_next, set_prev, remove}
use ghost_userspace_o.ArrList.Inside.{remove-IsList}
use ghost_userspace_o.ArrList.Links.{
  Links, first_id, last_id, Links-update, Links-split, Links-relink_start, update_at,
  set_next-other, set_prev-other, last_id-other,
}
use ghost_userspace_o.Avl.Held.{once, once_self}
use ghost_userspace_o.Avl.Orphans.{insert_orphan, remove_orphan, pop_first_orphan}

-- The list of the orphans, from the id of its first.
pub record Listed (arr : Arr) (first : ℕ) (os : List ℕ) : Type 0 where
  pub starts : first ≡ first_id os 0
  pub links : Links arr 0 os 0

-- If the orphans are os and e is none of them, then after __insert_orphan of e they are e ∷ os.
pub insert_orphan-Listed :
    (arr : Arr) (first e : ℕ) (os : List ℕ)
    → Listed arr first os
    → ((i : ℕ) → count i os ≤ 1)
    → count e os ≡ 0
    → Listed (insert_orphan arr first e).0 (insert_orphan arr first e).1 (e ∷ os)
unfolding insert_orphan
insert_orphan-Listed arr first e os l d n =
    let v : ArrListEntry = record { next = first; prev = 0 } in
    let a = set_prev first (suc e) arr in
    let hit = update_at a e v in
    record {
      starts = refl;
      links = (
        ap (λ r. r.prev) hit,
        ap (λ r. r.next) hit ∙ l.starts,
        Links-update a (suc e) os 0 e v n
            (rw (l.starts) (Links-relink_start arr 0 os 0 (suc e) d l.links)),
      );
    }

-- If the orphans are o ∷ os, then __pop_first_orphan returns o and leaves os.
pub pop_first_orphan-Listed :
    (arr : Arr) (first o : ℕ) (os : List ℕ)
    → Listed arr first (o ∷ os)
    → ((i : ℕ) → count i (o ∷ os) ≤ 1)
    → ((pop_first_orphan arr first).0 ≡ some o)
      × Listed (pop_first_orphan arr first).1 (pop_first_orphan arr first).2 os
unfolding pop_first_orphan
pop_first_orphan-Listed arr first o os l d =
    let (p, q, r) = l.links in
    let a = set_prev (first_id os 0) 0 arr in
    rw (l.starts, q)
      (
        refl,
        record {
          starts = refl;
          links =
              Links-update a 0 os 0 o (record { next = 0; prev = 0 })
                (omega (arith, d o, once_self o))
                (Links-relink_start arr (suc o) os 0 0 (λ i. omega (arith, d i)) r);
        },
      )

other_first : (o e k : ℕ) → (o == e) ≡ false → k ≡ 0 → (if o == e then 1 else 0) + k ≡ 0
other_first o e k t q = rw (t) (omega arith)

-- A list that has e is cut in two at the first e.
pub split_at :
    (e : ℕ) (os : List ℕ)
    → count e os ≢ 0
    → (ys : List ℕ) × (zs : List ℕ) × (os ≡ ys ++ (e ∷ zs)) × (count e ys ≡ 0)
split_at e [] h = absurd (h refl)
split_at e (o ∷ os) h = elim (Bool-cases (o == e)) [
  | inl t ↦ ([], os, ap (λ i. i ∷ os) ((==_iff o e).0 t), refl)
  | inr t ↦
      let (ys, zs, p, q) = split_at e os (λ z. h (rw (t) (omega arith))) in
      (o ∷ ys, zs, ap (λ l. o ∷ l) p, other_first o e (count e ys) t q)
]

first_id-other : (xs : List ℕ) (e : ℕ) → count e xs ≡ 0 → first_id xs 0 ≢ suc e
first_id-other [] e h p = omega arith
first_id-other (x ∷ xs) e h p = omega (arith, once_self e, ap (λ i. once (pred i) e) p)

-- If e is one of the orphans, then after __remove_orphan of e they are the others, in their order.
pub remove_orphan-Listed :
    (arr : Arr) (first : ℕ) (ys : List ℕ) (e : ℕ) (zs : List ℕ)
    → Listed arr first (ys ++ (e ∷ zs))
    → ((i : ℕ) → count i (ys ++ (e ∷ zs)) ≤ 1)
    → Listed (remove_orphan arr first e).0 (remove_orphan arr first e).1 (ys ++ zs)
unfolding remove_orphan remove
remove_orphan-Listed arr first ys e zs l d =
    let one : once e e ≡ 1 = once_self e in
    let tot = count-append e ys (e ∷ zs) in
    let head : ArrList = record { first = first; last = last_id 0 (ys ++ (e ∷ zs)) } in
    let (v, w, w₁) =
      remove-IsList arr head ys e zs
        (record { starts = l.starts; ends = refl; links = l.links; distinct = d }) in
    let (m, (back, forth, k)) = Links-split arr 0 ys (e ∷ zs) 0 l.links in
    let arr₁ = set_next (arr e).prev (arr e).next arr in
    let same₁ : arr₁ e ≡ arr e =
      set_next-other arr (arr e).prev (arr e).next e
        (λ z. last_id-other 0 ys e (λ q. omega arith) (omega (arith, d e)) (sym back ∙ z)) in
    let arr₂ = set_prev (arr e).next (arr e).prev arr₁ in
    let same₂ : arr₂ e ≡ arr e =
      set_prev-other arr₁ (arr e).next (arr e).prev e
        (λ z. first_id-other zs e (omega (arith, d e)) (sym forth ∙ z))
      ∙ same₁ in
    let cleared : ArrListEntry = record { next = 0; prev = 0 } in
    let link = λ (x : ArrListEntry). update (set_prev x.next x.prev arr₁) e cleared in
    record {
      starts =
          ap (λ (x : ArrListEntry). if first == suc e then x.next else first)
            (sym same₂ ∙ ap (λ (x : ArrListEntry). set_prev x.next x.prev arr₁ e) (sym same₁))
          ∙ v.starts;
      links = subst (λ (a : Arr). Links a 0 (ys ++ zs) 0) (ap link same₁) v.links;
    }
