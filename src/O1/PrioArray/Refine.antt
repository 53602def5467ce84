-- ===== src/O1/PrioArray/Refine.antt =====
-- The operations of PrioArray (schedulers/o1/o1_scheduler.h) against the one queue in order of
-- priority that `entries` shows.
use ghost_userspace_o.Base.{
  ℕ, zero, suc, ◌+◌, ◌≤◌, ◌<◌, ◌≡◌, ◌≢◌, refl, sym, ap, ◌∙◌, inl, inr, Bool, true, false, ◌==◌,
  ◌&&◌, ◌||◌, Option, none, some, List, [], ◌∷◌, ◌++◌, is_empty, check_failed, Returns, arith,
  Bool-cases, is_empty-eq_nil, update_self, ◌-◌,
}
use ghost_userspace_o.Base.Int.{ℤ, pos, negsuc, ◌-ℤ◌}
use ghost_userspace_o.Base.Bits.{
  count_trailing_zeros, count_trailing_zeros-le, test_bit, test_bit-zero,
}
use ghost_userspace_o.O1.Task.{O1Task}
use ghost_userspace_o.O1.PrioArray.{
  PrioArray, num_prio, bucket_of, push, pop_bucket, pop, find_erase, erase_bucket, erase,
}
use ghost_userspace_o.O1.PrioArray.Bitmap.{
  IsIndexed, bucket_of-pos, pushed-IsIndexed, shrink-IsIndexed, lowest_bucket,
}
use ghost_userspace_o.O1.PrioArray.Order.{
  Entry, tag, entries, entries_from, insert_entry, remove_entry, entries_from-insert,
  entries_from-take, entries_from-nil, entries_from-erase, le_split,
}

-- Priorities outside 100 to 139 have no bucket.
pub bucket_of_outside :
    (p : ℤ) → ((k : ℕ) → k < num_prio → p ≢ pos (100 + k)) → bucket_of p ≡ check_failed
unfolding bucket_of ◌-ℤ◌
bucket_of_outside (negsuc n) h = ground arith
bucket_of_outside (pos n) h = ground (arith, h (n - 100))

pub find_erase-full :
    (g : ℕ) (q : List ℕ) {r : List ℕ} → find_erase g q ≡ some r → is_empty q ≡ false
unfolding find_erase
find_erase-full g [] e = cc
find_erase-full g (x ∷ q) e = refl

-- Of an array whose bitmap marks exactly the buckets in use and a task whose priority has one of
-- the 40 buckets, push returns, keeps the bitmap so, and is the insertion into the one queue in
-- order of priority, before or behind the entries of the same priority as `front` says.
pub push_refines :
    (a : PrioArray) (t : O1Task) (front : Bool) (k : ℕ)
    → t.static_priority ≡ pos (100 + k)
    → k < num_prio
    → IsIndexed a
    → Returns
        (push a t front)
        (λ b. IsIndexed b × (entries b ≡ insert_entry front k t.gtid (entries a)))
unfolding push entries
push_refines a t front k e h v =
    rw (e, bucket_of-pos k h)
      (
        pushed-IsIndexed a k t.gtid front h v,
        entries_from-insert front num_prio 0 k t.gtid a.queues (omega arith) (omega arith),
      )

-- A push of a task whose priority is none of 100 to 139 fails a CHECK, whatever the array and
-- the end of the bucket.
pub push_outside :
    (a : PrioArray) (t : O1Task) (front : Bool)
    → ((k : ℕ) → k < num_prio → t.static_priority ≢ pos (100 + k))
    → push a t front ≡ check_failed
unfolding push
push_outside a t front h = rw (bucket_of_outside t.static_priority h)

-- What `pop` does to an abstract queue.
abbrev pub Pops : List Entry → Option ℕ × List Entry → Type 0
Pops xs (none, ys) = (xs ≡ []) × (ys ≡ [])
Pops xs (some g, ys) = (k : ℕ) × (xs ≡ (k, g) ∷ ys)

pop_bucket_refines :
    (a : PrioArray) (idx : ℕ) (q : List ℕ)
    → a.queues idx ≡ q
    → IsIndexed a
    → idx < num_prio
    → is_empty q ≡ false
    → ((j : ℕ) → j < idx → a.queues j ≡ [])
    → Returns (pop_bucket a idx q) (λ r. IsIndexed r.1 × Pops (entries a) (r.0, entries r.1))
unfolding pop_bucket entries
pop_bucket_refines a idx [] e v h full low = cc
pop_bucket_refines a idx (g ∷ q) e v h full low = (
  shrink-IsIndexed a idx q h (rw e refl) v,
  (idx, entries_from-take num_prio 0 idx g a.queues q (omega arith) (omega arith) low e),
)

-- Nothing stands below the bucket that `pop` finds.
below_lowest :
    (a : PrioArray) → IsIndexed a → (j : ℕ) → j < count_trailing_zeros 64 a.bitmap → a.queues j ≡ []
below_lowest a v j h = elim (Bool-cases (is_empty (a.queues j))) [
  | inl e ↦ is_empty-eq_nil (a.queues j) e
  | inr e ↦ absurd (omega (arith, count_trailing_zeros-le 64 a.bitmap j (rw (v.bits j, e) refl)))
]

pub entries-empty : (a : PrioArray) → IsIndexed a → a.bitmap ≡ 0 → entries a ≡ []
unfolding entries
entries-empty a v z = entries_from-nil num_prio 0 a.queues λ j.
    is_empty-eq_nil (a.queues j)
      (ground (arith, v.bits j, test_bit-zero j, ap (λ b. test_bit b j) z))

-- Of an array whose bitmap marks exactly the buckets in use, pop returns, keeps the bitmap so,
-- and is the removal of the first entry of the one queue in order of priority (oldest first
-- within a priority); it returns null exactly if that queue is empty.
pub pop_refines :
    (a : PrioArray)
    → IsIndexed a
    → Returns (pop a) (λ r. IsIndexed r.1 × Pops (entries a) (r.0, entries r.1))
unfolding pop
pop_refines a v = elim (Bool-cases (a.bitmap == 0)) [
  | inl z ↦ let none_left = entries-empty a v (ground arith) in rw z (v, (none_left, none_left))
  | inr z ↦
      let idx = count_trailing_zeros 64 a.bitmap in
      let (h, full) = lowest_bucket a v (ground arith) in
      rw z (pop_bucket_refines a idx (a.queues idx) refl v h full (below_lowest a v))
]

-- Whether the abstract queue has task `g` in bucket `k`.
abbrev pub has_entry : ℕ → ℕ → List Entry → Bool
has_entry k g [] = false
has_entry k g ((j, h) ∷ r) = j == k && h == g || has_entry k g r

abbrev found : Option (List ℕ) → Bool
found none = false
found (some q) = true

has_entry-other :
    (j k g : ℕ) (q : List ℕ) (r : List Entry)
    → j ≢ k
    → has_entry k g (tag j q ++ r) ≡ has_entry k g r
has_entry-other j k g [] r h = refl
has_entry-other j k g (x ∷ q) r h = ground (arith, has_entry-other j k g q r h)

has_entry-above :
    (n j k g : ℕ) (f : ℕ → List ℕ) → k < j → has_entry k g (entries_from n j f) ≡ false
unfolding entries_from
has_entry-above zero j k g f h = refl
has_entry-above (suc n) j k g f h =
    has_entry-other j k g (f j) (entries_from n (suc j) f) (omega arith)
    ∙ has_entry-above n (suc j) k g f (omega arith)

has_entry-at :
    (k g : ℕ) (q : List ℕ) (r : List Entry)
    → has_entry k g r ≡ false
    → has_entry k g (tag k q ++ r) ≡ found (find_erase g q)
unfolding find_erase
has_entry-at k g [] r h = h
has_entry-at k g (x ∷ q) r h = ground (arith, has_entry-at k g q r h)

has_entry-entries_from :
    (n j k g : ℕ) (f : ℕ → List ℕ)
    → j ≤ k
    → k < j + n
    → has_entry k g (entries_from n j f) ≡ found (find_erase g (f k))
unfolding entries_from
has_entry-entries_from zero j k g f p h = absurd (omega arith)
has_entry-entries_from (suc n) j k g f p h = elim (le_split j k p) [
  | inl e ↦ rw e (
      has_entry-at k g (f k) (entries_from n (suc k) f)
        (has_entry-above n (suc k) k g f (omega arith)))
  | inr l ↦
      has_entry-other j k g (f j) (entries_from n (suc j) f) (omega arith)
      ∙ has_entry-entries_from n (suc j) k g f (omega arith) (omega arith)
]

erase_bucket_refines :
    (a : PrioArray) (k g : ℕ) (o : Option (List ℕ))
    → k < num_prio
    → find_erase g (a.queues k) ≡ o
    → IsIndexed a
    → let r = erase_bucket a k o in
      IsIndexed r.1 × (r.0 ≡ found o) × (entries r.1 ≡ remove_entry k g (entries a))
unfolding erase_bucket entries
erase_bucket_refines a k g none h e v =
    let gone = entries_from-erase num_prio 0 k g a.queues (omega arith) (omega arith) in
    (v, refl, rw (update_self a.queues k) at (rw e at gone))
erase_bucket_refines a k g (some q) h e v =
    let gone = entries_from-erase num_prio 0 k g a.queues (omega arith) (omega arith) in
    (
      shrink-IsIndexed a k q h (ground (arith, find_erase-full g (a.queues k) e)) v,
      refl,
      rw e at gone,
    )

found_in_bucket :
    (a : PrioArray) (k g : ℕ)
    → k < num_prio
    → has_entry k g (entries a) ≡ found (find_erase g (a.queues k))
unfolding entries
found_in_bucket a k g h = has_entry-entries_from num_prio 0 k g a.queues (omega arith) (omega arith)

-- Of an array whose bitmap marks exactly the buckets in use and a task whose priority has a
-- bucket, erase returns, keeps the bitmap so, says whether the task stands in that bucket, and
-- takes its first entry out of the one queue in order of priority and nothing else.
pub erase_refines :
    (a : PrioArray) (t : O1Task) (k : ℕ)
    → t.static_priority ≡ pos (100 + k)
    → k < num_prio
    → IsIndexed a
    → Returns (erase a t) (λ r.
      IsIndexed r.1
      × (r.0 ≡ has_entry k t.gtid (entries a))
      × (entries r.1 ≡ remove_entry k t.gtid (entries a)))
unfolding erase
erase_refines a t k e h v =
    let (indexed, hit, left) = erase_bucket_refines a k t.gtid _ h refl v in
    rw (e, bucket_of-pos k h) (indexed, hit ∙ sym (found_in_bucket a k t.gtid h), left)
