-- ===== src/O1/PrioArray/Order.antt =====
-- PrioArray (schedulers/o1/o1_scheduler.h) as one queue in order of priority: its abstract view is
-- the list of its entries with their buckets, lowest bucket first, oldest first in a bucket.
use ghost_userspace_o.Base.{
  ℕ, zero, suc, ◌+◌, ◌≤◌, ◌<◌, ◌≡◌, refl, ap, ◌⊎◌, inl, inr, Bool, true, false, if◌then◌else◌, ltb,
  leb, ◌==◌, Option, none, some, List, [], ◌∷◌, ◌++◌, ◌&&◌, length, update, arith,
}
use ghost_userspace_o.O1.PrioArray.{PrioArray, num_prio, insert, find_erase}

abbrev pub Entry : Type 0
Entry = ℕ × ℕ

abbrev pub tag : ℕ → List ℕ → List Entry
tag k [] = []
tag k (g ∷ q) = (k, g) ∷ tag k q

-- The entries of `n` buckets from bucket `k` on.
unfoldable pub entries_from : ℕ → ℕ → (ℕ → List ℕ) → List Entry
entries_from zero k f = []
entries_from (suc n) k f = tag k (f k) ++ entries_from n (suc k) f

unfoldable pub entries : PrioArray → List Entry
entries a = entries_from num_prio 0 a.queues

-- The abstract insertion: before the entries of its bucket and above, or after those of its bucket
-- and below.
abbrev pub insert_entry : Bool → ℕ → ℕ → List Entry → List Entry
insert_entry front k g [] = (k, g) ∷ []
insert_entry front k g ((j, h) ∷ r) =
    if (if front then ltb j k else leb j k)
    then (j, h) ∷ insert_entry front k g r
    else (k, g) ∷ (j, h) ∷ r

pub le_split : (a b : ℕ) → a ≤ b → (a ≡ b) ⊎ (a < b)
le_split a b h = omega arith

entries_from-update :
    (n k idx : ℕ) (f : ℕ → List ℕ) (q : List ℕ)
    → idx < k
    → entries_from n k (update f idx q) ≡ entries_from n k f
unfolding entries_from
entries_from-update zero k idx f q h = refl
entries_from-update (suc n) k idx f q h = ground (arith, entries_from-update n (suc k) idx f q)

-- Past the bucket, insertion is in front.
insert_entry-above :
    (front : Bool) (n k idx g : ℕ) (f : ℕ → List ℕ) (q : List ℕ)
    → idx < k
    → insert_entry front idx g (tag k q ++ entries_from n (suc k) f)
      ≡ (idx, g) ∷ (tag k q ++ entries_from n (suc k) f)
unfolding entries_from
insert_entry-above front zero k idx g f [] h = refl
insert_entry-above front (suc n) k idx g f [] h =
    insert_entry-above front n (suc k) idx g f (f (suc k)) (omega arith)
insert_entry-above true n k idx g f (x ∷ q) h = ground arith
insert_entry-above false n k idx g f (x ∷ q) h = ground arith

-- Before the bucket, it passes over.
insert_entry-below :
    (front : Bool) (k idx g : ℕ) (q : List ℕ) (r : List Entry)
    → k < idx
    → insert_entry front idx g (tag k q ++ r) ≡ tag k q ++ insert_entry front idx g r
insert_entry-below front k idx g [] r h = refl
insert_entry-below true k idx g (x ∷ q) r h = ground (arith, insert_entry-below true k idx g q r h)
insert_entry-below false k idx g (x ∷ q) r h =
    ground (arith, insert_entry-below false k idx g q r h)

-- In the bucket, the deque's own insertion.
insert_entry-at :
    (front : Bool) (n idx g : ℕ) (f : ℕ → List ℕ) (q : List ℕ)
    → insert_entry front idx g (tag idx q ++ entries_from n (suc idx) f)
      ≡ tag idx (insert front g q) ++ entries_from n (suc idx) f
unfolding entries_from
insert_entry-at true zero idx g f [] = refl
insert_entry-at false zero idx g f [] = refl
insert_entry-at true (suc n) idx g f [] =
    insert_entry-above true n (suc idx) idx g f (f (suc idx)) (omega arith)
insert_entry-at false (suc n) idx g f [] =
    insert_entry-above false n (suc idx) idx g f (f (suc idx)) (omega arith)
insert_entry-at true n idx g f (x ∷ q) = ground arith
insert_entry-at false n idx g f (x ∷ q) = ground (arith, insert_entry-at false n idx g f q)

entries_from-insert_at :
    (front : Bool) (n idx g : ℕ) (f : ℕ → List ℕ)
    → entries_from (suc n) idx (update f idx (insert front g (f idx)))
      ≡ insert_entry front idx g (entries_from (suc n) idx f)
unfolding entries_from
entries_from-insert_at front n idx g f = ground (
  arith,
  entries_from-update n (suc idx) idx f (insert front g (f idx)),
  insert_entry-at front n idx g f (f idx),
)

pub entries_from-insert :
    (front : Bool) (n k idx g : ℕ) (f : ℕ → List ℕ)
    → k ≤ idx
    → idx < k + n
    → entries_from n k (update f idx (insert front g (f idx)))
      ≡ insert_entry front idx g (entries_from n k f)
unfolding entries_from
entries_from-insert front zero k idx g f p h = absurd (omega arith)
entries_from-insert front (suc n) k idx g f p h = elim (le_split k idx p) [
  | inl e ↦ rw e (entries_from-insert_at front n idx g f)
  | inr l ↦ ground (
    arith,
    entries_from-insert front n (suc k) idx g f (omega arith) (omega arith),
    insert_entry-below front k idx g (f k) (entries_from n (suc k) f),
  )
]

-- The first bucket in use holds the first entry.
entries_from-take_at :
    (n idx g : ℕ) (f : ℕ → List ℕ) (q : List ℕ)
    → f idx ≡ g ∷ q
    → entries_from (suc n) idx f ≡ (idx, g) ∷ entries_from (suc n) idx (update f idx q)
unfolding entries_from
entries_from-take_at n idx g f q e = ground (arith, entries_from-update n (suc idx) idx f q)

pub entries_from-take :
    (n k idx g : ℕ) (f : ℕ → List ℕ) (q : List ℕ)
    → k ≤ idx
    → idx < k + n
    → ((j : ℕ) → j < idx → f j ≡ [])
    → f idx ≡ g ∷ q
    → entries_from n k f ≡ (idx, g) ∷ entries_from n k (update f idx q)
unfolding entries_from
entries_from-take zero k idx g f q p h low e = absurd (omega arith)
entries_from-take (suc n) k idx g f q p h low e = elim (le_split k idx p) [
  | inl s ↦ rw s (entries_from-take_at n idx g f q e)
  | inr l ↦
      ground
        (arith, entries_from-take n (suc k) idx g f q (omega arith) (omega arith) low e, low k l)
]

pub entries_from-nil : (n k : ℕ) (f : ℕ → List ℕ) → ((j : ℕ) → f j ≡ []) → entries_from n k f ≡ []
unfolding entries_from
entries_from-nil zero k f h = refl
entries_from-nil (suc n) k f h = ground (arith, h k, entries_from-nil n (suc k) f h)

-- The abstract removal of the first entry of task `g` in bucket `k`.
abbrev pub remove_entry : ℕ → ℕ → List Entry → List Entry
remove_entry k g [] = []
remove_entry k g ((j, h) ∷ r) = if j == k && h == g then r else (j, h) ∷ remove_entry k g r

remove_entry-below :
    (k idx g : ℕ) (q : List ℕ) (r : List Entry)
    → k < idx
    → remove_entry idx g (tag k q ++ r) ≡ tag k q ++ remove_entry idx g r
remove_entry-below k idx g [] r h = refl
remove_entry-below k idx g (x ∷ q) r h = ground (arith, remove_entry-below k idx g q r h)

remove_entry-above :
    (n k idx g : ℕ) (f : ℕ → List ℕ) (q : List ℕ)
    → idx < k
    → remove_entry idx g (tag k q ++ entries_from n (suc k) f) ≡ tag k q ++ entries_from n (suc k) f
unfolding entries_from
remove_entry-above zero k idx g f [] h = refl
remove_entry-above (suc n) k idx g f [] h =
    remove_entry-above n (suc k) idx g f (f (suc k)) (omega arith)
remove_entry-above n k idx g f (x ∷ q) h = ground (arith, remove_entry-above n k idx g f q h)

-- What is left of a bucket once a task is sought in it: all of it, if the task is not there.
abbrev pub left_over : List ℕ → Option (List ℕ) → List ℕ
left_over q none = q
left_over q (some r) = r

remove_entry-at :
    (n idx g : ℕ) (f : ℕ → List ℕ) (q : List ℕ)
    → remove_entry idx g (tag idx q ++ entries_from n (suc idx) f)
      ≡ tag idx (left_over q (find_erase g q)) ++ entries_from n (suc idx) f
unfolding entries_from find_erase
remove_entry-at zero idx g f [] = refl
remove_entry-at (suc n) idx g f [] =
    remove_entry-above n (suc idx) idx g f (f (suc idx)) (omega arith)
remove_entry-at n idx g f (x ∷ q) = ground (arith, remove_entry-at n idx g f q)

entries_from-erase_at :
    (n idx g : ℕ) (f : ℕ → List ℕ)
    → entries_from (suc n) idx (update f idx (left_over (f idx) (find_erase g (f idx))))
      ≡ remove_entry idx g (entries_from (suc n) idx f)
unfolding entries_from
entries_from-erase_at n idx g f =
    let q = left_over (f idx) (find_erase g (f idx)) in
    ground (arith, entries_from-update n (suc idx) idx f q, remove_entry-at n idx g f (f idx))

pub entries_from-erase :
    (n k idx g : ℕ) (f : ℕ → List ℕ)
    → k ≤ idx
    → idx < k + n
    → entries_from n k (update f idx (left_over (f idx) (find_erase g (f idx))))
      ≡ remove_entry idx g (entries_from n k f)
unfolding entries_from
entries_from-erase zero k idx g f p h = absurd (omega arith)
entries_from-erase (suc n) k idx g f p h = elim (le_split k idx p) [
  | inl e ↦ rw e (entries_from-erase_at n idx g f)
  | inr l ↦
      let ih = entries_from-erase n (suc k) idx g f (omega arith) (omega arith) in
      let q = left_over (f idx) (find_erase g (f idx)) in
      ground (arith, ih, remove_entry-below k idx g (f k) (entries_from n (suc k) f))
]

pub length-tag : (k : ℕ) (q : List ℕ) → length (tag k q) ≡ length q
length-tag k [] = refl
length-tag k (g ∷ q) = ap suc (length-tag k q)
