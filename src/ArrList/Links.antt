-- ===== src/ArrList/Links.antt =====
-- When the elements of an array are linked as a list (lib/queue.bpf.h), and what writes to their
-- links keep.
use ghost_userspace_o.Base.{
  ℕ, zero, suc, ◌≤◌, ◌≡◌, ◌≢◌, refl, ap, ◌∙◌, false, ◌==◌, ==_refl, List, [], ◌∷◌, ◌++◌, count,
  update, arith,
}
use ghost_userspace_o.ArrList.{Arr, ArrList, ArrListEntry, set_next, set_prev}

-- The id of the first element of a segment that `q` follows.
abbrev pub first_id : List ℕ → ℕ → ℕ
first_id [] q = q
first_id (x ∷ xs) q = suc x

-- The id of the last element of a segment that `p` precedes.
abbrev pub last_id : ℕ → List ℕ → ℕ
last_id p [] = p
last_id p (x ∷ xs) = last_id (suc x) xs

-- The segment is linked in both directions, between the ids `p` and `q`.
abbrev pub Links : Arr → ℕ → List ℕ → ℕ → Type 0
Links arr p [] q = Unit {0}
Links arr p (x ∷ xs) q =
    ((arr x).prev ≡ p) × ((arr x).next ≡ first_id xs q) × Links arr (suc x) xs q

-- The elements of a list, in order.
pub record IsList (arr : Arr) (head : ArrList) (xs : List ℕ) : Type 0 where
  pub starts : head.first ≡ first_id xs 0
  pub ends : head.last ≡ last_id 0 xs
  pub links : Links arr 0 xs 0
  pub distinct : (e : ℕ) → count e xs ≤ 1

pub update_miss {ℓ} : {A : Type ℓ} (f : ℕ → A) (i j : ℕ) (v : A) → i ≢ j → update f i v j ≡ f j
update_miss f i j v ne = let other : (i == j) ≡ false = ground arith in rw other

pub update_at {ℓ} : {A : Type ℓ} (f : ℕ → A) (i : ℕ) (v : A) → update f i v i ≡ v
update_at f i v = rw (==_refl i)

-- A write to an element elsewhere keeps a segment.
pub Links-update :
    (arr : Arr) (p : ℕ) (xs : List ℕ) (q i : ℕ) (v : ArrListEntry)
    → count i xs ≡ 0
    → Links arr p xs q
    → Links (update arr i v) p xs q
Links-update arr p [] q i v n l = tt
Links-update arr p (x ∷ xs) q i v n (back, forth, l) =
    let same = update_miss arr i x v (λ e. ground arith) in
    (
      ap (λ r. r.prev) same ∙ back,
      ap (λ r. r.next) same ∙ forth,
      Links-update arr (suc x) xs q i v (ground arith) l,
    )

pub Links-append :
    (arr : Arr) (p : ℕ) (xs ys : List ℕ) (q : ℕ)
    → Links arr p xs (first_id ys q)
    → Links arr (last_id p xs) ys q
    → Links arr p (xs ++ ys) q
Links-append arr p [] ys q l m = m
Links-append arr p (x ∷ []) ys q (back, forth, l) m = (back, forth, m)
Links-append arr p (x ∷ y ∷ xs) ys q (back, forth, l) m =
    (back, forth, Links-append arr (suc x) (y ∷ xs) ys q l m)

pub Links-split :
    (arr : Arr) (p : ℕ) (xs ys : List ℕ) (q : ℕ)
    → Links arr p (xs ++ ys) q
    → Links arr p xs (first_id ys q) × Links arr (last_id p xs) ys q
Links-split arr p [] ys q l = (tt, l)
Links-split arr p (x ∷ []) ys q (back, forth, l) = ((back, forth, tt), l)
Links-split arr p (x ∷ y ∷ xs) ys q (back, forth, l) =
    let (m, n) = Links-split arr (suc x) (y ∷ xs) ys q l in ((back, forth, m), n)

-- The last element of a segment that is not empty stands in it.
pub last_id-count :
    (p x : ℕ) (xs : List ℕ) (i : ℕ) → last_id p (x ∷ xs) ≡ suc i → count i (x ∷ xs) ≢ 0
last_id-count p x [] i e n = ground arith
last_id-count p x (y ∷ xs) i e n = last_id-count (suc x) y xs i e (ground arith)

-- What precedes a segment and does not stand in it is unlike its last element.
pub last_id-other :
    (p : ℕ) (xs : List ℕ) (i : ℕ) → p ≢ suc i → count i xs ≡ 0 → last_id p xs ≢ suc i
last_id-other p [] i h n e = h e
last_id-other p (x ∷ xs) i h n e = last_id-count p x xs i e n

-- A write to the `next` of another element keeps an element.
pub set_next-other : (arr : Arr) (id v j : ℕ) → id ≢ suc j → set_next id v arr j ≡ arr j
set_next-other arr zero v j ne = refl
set_next-other arr (suc i) v j ne =
    update_miss arr i j (record (arr i) { next = v }) (λ e. ne (ap suc e))

pub set_prev-other : (arr : Arr) (id v j : ℕ) → id ≢ suc j → set_prev id v arr j ≡ arr j
set_prev-other arr zero v j ne = refl
set_prev-other arr (suc i) v j ne =
    update_miss arr i j (record (arr i) { prev = v }) (λ e. ne (ap suc e))

pub Links-set_next :
    (arr : Arr) (p : ℕ) (xs : List ℕ) (q id v : ℕ)
    → ((i : ℕ) → id ≡ suc i → count i xs ≡ 0)
    → Links arr p xs q
    → Links (set_next id v arr) p xs q
Links-set_next arr p xs q zero v n l = l
Links-set_next arr p xs q (suc i) v n l =
    Links-update arr p xs q i (record (arr i) { next = v }) (n i refl) l

pub Links-set_prev :
    (arr : Arr) (p : ℕ) (xs : List ℕ) (q id v : ℕ)
    → ((i : ℕ) → id ≡ suc i → count i xs ≡ 0)
    → Links arr p xs q
    → Links (set_prev id v arr) p xs q
Links-set_prev arr p xs q zero v n l = l
Links-set_prev arr p xs q (suc i) v n l =
    Links-update arr p xs q i (record (arr i) { prev = v }) (n i refl) l

-- The segment gets another successor by a write to its last element.
pub Links-relink_end :
    (arr : Arr) (p : ℕ) (xs : List ℕ) (q v : ℕ)
    → ((e : ℕ) → count e xs ≤ 1)
    → Links arr p xs q
    → Links (set_next (last_id p xs) v arr) p xs v
Links-relink_end arr p [] q v d l = tt
Links-relink_end arr p (x ∷ []) q v d (back, forth, l) =
    let hit = update_at arr x (record (arr x) { next = v }) in
    (ap (λ r. r.prev) hit ∙ back, ap (λ r. r.next) hit, tt)
Links-relink_end arr p (x ∷ y ∷ xs) q v d (back, forth, l) =
    let id = last_id (suc x) (y ∷ xs) in
    let same =
      set_next-other arr id v x
        (λ e. last_id-count (suc x) y xs x e (ground (arith, d x, ==_refl x))) in
    (
      ap (λ r. r.prev) same ∙ back,
      ap (λ r. r.next) same ∙ forth,
      Links-relink_end arr (suc x) (y ∷ xs) q v (λ e. ground (arith, d e)) l,
    )

-- The segment gets another predecessor by a write to its first element.
pub Links-relink_start :
    (arr : Arr) (p : ℕ) (xs : List ℕ) (q v : ℕ)
    → ((e : ℕ) → count e xs ≤ 1)
    → Links arr p xs q
    → Links (set_prev (first_id xs 0) v arr) v xs q
Links-relink_start arr p [] q v d l = tt
Links-relink_start arr p (x ∷ xs) q v d (back, forth, l) =
    let hit = update_at arr x (record (arr x) { prev = v }) in
    (
      ap (λ r. r.prev) hit,
      ap (λ r. r.next) hit ∙ forth,
      Links-update arr (suc x) xs q x (record (arr x) { prev = v }) (ground (arith, d x, ==_refl x))
          l,
    )
