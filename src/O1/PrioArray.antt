-- ===== src/O1/PrioArray.antt =====
-- PrioArray of schedulers/o1/o1_scheduler.h: 40 FIFO buckets and a 64-bit map of those in use.
-- A bucket holds pointers to tasks, which are their gtids.
pub mod Bitmap
pub mod Order
pub mod Refine
pub mod Counts
use Prim.Native.Nat.{bit_and, bit_or}
use ghost_userspace_o.Base.{
  ℕ, zero, suc, ◌+◌, ◌^◌, Bool, true, false, if◌then◌else◌, ltb, leb, ◌==◌, Option, none, some,
  List, [], ◌∷◌, ◌++◌, length, is_empty, update, Outcome, ok, check_failed, bad_access, check,
  ◌>>=◌, ◌>>◌,
}
use ghost_userspace_o.Base.Int.{ℤ, pos, negsuc, ◌-ℤ◌, leb_ℤ, ltb_ℤ, pos_part}
use ghost_userspace_o.Base.Bits.{complement, count_trailing_zeros}
use ghost_userspace_o.O1.Task.{O1Task}

abbrev pub num_prio : ℕ
num_prio = 40

abbrev pub base_prio : ℤ
base_prio = pos 100

pub record PrioArray : Type 0 where
  pub bitmap : ℕ
  pub queues : ℕ → List ℕ

abbrev pub empty_array : PrioArray
empty_array = record { bitmap = 0; queues = λ _. [] }

abbrev pub empty : PrioArray → Bool
empty a = a.bitmap == 0

-- The sum of the sizes of `n` buckets.
unfoldable pub size_upto : ℕ → (ℕ → List ℕ) → ℕ
size_upto zero queues = 0
size_upto (suc n) queues = size_upto n queues + length (queues n)

unfoldable pub size : PrioArray → ℕ
unfolding size_upto
size a = size_upto num_prio a.queues

-- The bucket of a priority: the CHECKs refuse what lies outside the array.
unfoldable pub bucket_of : ℤ → Outcome ℕ
unfolding ◌-ℤ◌
bucket_of prio = do
  check (leb_ℤ (pos 0) (prio -ℤ base_prio))
  check (ltb_ℤ (prio -ℤ base_prio) (pos num_prio))
  ok (pos_part (prio -ℤ base_prio))

-- At the front of a bucket or at its back.
abbrev pub insert : Bool → ℕ → List ℕ → List ℕ
insert front g q = if front then g ∷ q else q ++ g ∷ []

abbrev pub set_bit : ℕ → ℕ → ℕ
set_bit word k = bit_or word (2 ^ k)

abbrev pub clear_bit : ℕ → ℕ → ℕ
clear_bit word k = bit_and word (complement 64 (2 ^ k))

unfoldable pub push : PrioArray → O1Task → Bool → Outcome PrioArray
push a t front = do
  idx ← bucket_of t.static_priority
  ok (record {
    bitmap = set_bit a.bitmap idx;
    queues = update a.queues idx (insert front t.gtid (a.queues idx));
  })

-- A bucket that loses its last entry loses its bit.
abbrev pub shrink : PrioArray → ℕ → List ℕ → PrioArray
shrink a idx q = record {
  bitmap = if is_empty q then clear_bit a.bitmap idx else a.bitmap;
  queues = update a.queues idx q;
}

-- `front` and `pop_front` of an empty deque are undefined.
unfoldable pub pop_bucket : PrioArray → ℕ → List ℕ → Outcome (Option ℕ × PrioArray)
pop_bucket a idx [] = bad_access
pop_bucket a idx (g ∷ q) = ok (some g, shrink a idx q)

unfoldable pub pop : PrioArray → Outcome (Option ℕ × PrioArray)
unfolding pop_bucket
pop a =
    let idx = count_trailing_zeros 64 a.bitmap in
    if a.bitmap == 0 then ok (none, a) else pop_bucket a idx (a.queues idx)

-- `std::find` and `erase` on one deque: the first entry that is `g`.
unfoldable pub find_erase : ℕ → List ℕ → Option (List ℕ)
find_erase g [] = none
find_erase g (x ∷ q) =
    let rest = find_erase g q in
    if x == g then some q else elim rest [ none ↦ none | some r ↦ some (x ∷ r) ]

unfoldable pub erase_bucket : PrioArray → ℕ → Option (List ℕ) → Bool × PrioArray
erase_bucket a idx none = (false, a)
erase_bucket a idx (some q) = (true, shrink a idx q)

unfoldable pub erase : PrioArray → O1Task → Outcome (Bool × PrioArray)
unfolding erase_bucket
erase a t = do
  idx ← bucket_of t.static_priority
  ok (erase_bucket a idx (find_erase t.gtid (a.queues idx)))
