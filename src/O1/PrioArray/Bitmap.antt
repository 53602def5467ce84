-- ===== src/O1/PrioArray/Bitmap.antt =====
-- The bitmap of PrioArray (schedulers/o1/o1_scheduler.h) and its buckets.
use ghost_userspace_o.Base.{
  ℕ, ◌+◌, ◌^◌, ◌≤◌, ◌<◌, ◌≡◌, ◌≢◌, refl, ◌⊎◌, inl, inr, Bool, true, false, not, List, [], ◌∷◌,
  is_empty, update, ok, bad_access, arith,
}
use ghost_userspace_o.Base.Int.{ℤ, pos}
use ghost_userspace_o.Base.Bits.{
  test_bit, test_bit-zero, test_bit-bit_or, test_bit-bit_and, test_bit-pow, test_bit-complement,
  bit_or-lt, bit_and-le, pow-lt, complement, count_trailing_zeros, test_bit-count_trailing_zeros,
  some_bit,
}
use ghost_userspace_o.O1.PrioArray.{
  PrioArray, num_prio, bucket_of, insert, set_bit, shrink, empty_array,
}

-- Bit k is set exactly when bucket k holds a task, and there are 40 buckets.
pub record IsIndexed (a : PrioArray) : Type 0 where
  pub width : a.bitmap < 2 ^ 64
  pub bits : (k : ℕ) → test_bit a.bitmap k ≡ not (is_empty (a.queues k))
  pub range : (k : ℕ) → num_prio ≤ k → a.queues k ≡ []

pub bucket_of-pos : (k : ℕ) → k < num_prio → bucket_of (pos (100 + k)) ≡ ok k
unfolding bucket_of
bucket_of-pos k h = ground arith

pub bucket_of-eq : (p : ℤ) (k : ℕ) → bucket_of p ≡ ok k → (p ≡ pos (100 + k)) × (k < num_prio)
unfolding bucket_of
bucket_of-eq p k h = ground arith

pub bucket_of-ne-bad_access : (p : ℤ) → bucket_of p ≢ bad_access
unfolding bucket_of
bucket_of-ne-bad_access p h = ground arith

pub is_empty-insert : (front : Bool) (g : ℕ) (q : List ℕ) → is_empty (insert front g q) ≡ false
is_empty-insert true g q = refl
is_empty-insert false g [] = refl
is_empty-insert false g (x ∷ q) = refl

abbrev pub pushed : PrioArray → ℕ → Bool → ℕ → PrioArray
pushed a idx front g = record {
  bitmap = set_bit a.bitmap idx;
  queues = update a.queues idx (insert front g (a.queues idx));
}

pub pushed-IsIndexed :
    (a : PrioArray) (idx g : ℕ) (front : Bool)
    → idx < num_prio
    → IsIndexed a
    → IsIndexed (pushed a idx front g)
pushed-IsIndexed a idx g front h v = record {
  width = bit_or-lt 64 a.bitmap (2 ^ idx) v.width (pow-lt idx 64 (omega arith));
  bits = λ k. ground (
    arith,
    test_bit-bit_or a.bitmap (2 ^ idx) k,
    test_bit-pow idx k,
    v.bits k,
    is_empty-insert front g (a.queues idx),
  );
  range = λ k p. ground (arith, v.range k p);
}

pub shrink-IsIndexed :
    (a : PrioArray) (idx : ℕ) (q : List ℕ)
    → idx < num_prio
    → is_empty (a.queues idx) ≡ false
    → IsIndexed a
    → IsIndexed (shrink a idx q)
shrink-IsIndexed a idx q h full v = record {
  width = ground (arith, bit_and-le a.bitmap (complement 64 (2 ^ idx)), v.width);
  bits = λ k. elim (below k) [
    | inl p ↦ ground (
      arith,
      test_bit-bit_and a.bitmap (complement 64 (2 ^ idx)) k,
      test_bit-complement 64 (2 ^ idx) k (pow-lt idx 64 (omega arith)) p,
      test_bit-pow idx k,
      v.bits k,
      v.bits idx,
    )
    | inr p ↦ ground (
      arith,
      test_bit-bit_and a.bitmap (complement 64 (2 ^ idx)) k,
      v.range k (omega arith),
      v.bits k,
    )
  ];
  range = λ k p. ground (arith, v.range k p);
}
  where
    below : (k : ℕ) → (k < 64) ⊎ (64 ≤ k)
    below k = omega arith

-- Where an indexed array is not empty, the bit that `pop` finds is that of a bucket in use.
pub lowest_bucket :
    (a : PrioArray)
    → IsIndexed a
    → a.bitmap ≢ 0
    → let idx = count_trailing_zeros 64 a.bitmap in
      (idx < num_prio) × (is_empty (a.queues idx) ≡ false)
lowest_bucket a v h =
    let (k, p, t) = some_bit 64 a.bitmap v.width h in
    let idx = count_trailing_zeros 64 a.bitmap in
    let hit = test_bit-count_trailing_zeros 64 a.bitmap k p t in
    (ground (arith, hit, v.bits idx, v.range idx), ground (arith, hit, v.bits idx))

pub empty_array-IsIndexed : IsIndexed empty_array
empty_array-IsIndexed = record { width = omega arith; bits = test_bit-zero; range = λ k p. refl }
