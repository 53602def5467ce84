-- ===== src/O1/PrioArray/Counts.antt =====
-- How often a task stands in each bucket of a PrioArray (schedulers/o1/o1_scheduler.h), before and
-- after each operation.
use ghost_userspace_o.Base.{
  ℕ, ◌+◌, ◌<◌, ◌≡◌, refl, ap, inl, inr, Bool, true, false, if◌then◌else◌, ◌==◌, ◌&&◌, Option, none,
  some, List, [], ◌∷◌, is_empty, Returns, arith, Option-cases, count, count-append, is_empty-eq_nil,
}
use ghost_userspace_o.Base.Int.{pos}
use ghost_userspace_o.Base.Bits.{count_trailing_zeros, test_bit, test_bit-zero}
use ghost_userspace_o.O1.Task.{O1Task}
use ghost_userspace_o.O1.PrioArray.{
  PrioArray, num_prio, insert, push, pop_bucket, pop, find_erase, erase_bucket, erase, empty,
}
use ghost_userspace_o.O1.PrioArray.Bitmap.{
  IsIndexed, bucket_of-pos, pushed-IsIndexed, shrink-IsIndexed, lowest_bucket,
}
use ghost_userspace_o.O1.PrioArray.Refine.{find_erase-full}

abbrev pub one : Bool → ℕ
one b = if b then 1 else 0

pub count-insert :
    (front : Bool) (g h : ℕ) (q : List ℕ) → count h (insert front g q) ≡ count h q + one (g == h)
count-insert true g h q = omega arith
count-insert false g h q = omega (arith, count-append h q (g ∷ []))

-- `b` is `a` with task `g` once more in bucket `k`.
abbrev pub Adds : PrioArray → ℕ → ℕ → PrioArray → Type 0
Adds a k g b = (j h : ℕ) → count h (b.queues j) ≡ count h (a.queues j) + one (k == j && g == h)

pub push-Adds :
    (a : PrioArray) (t : O1Task) (front : Bool) (k : ℕ)
    → t.static_priority ≡ pos (100 + k)
    → k < num_prio
    → IsIndexed a
    → Returns (push a t front) (λ b. IsIndexed b × Adds a k t.gtid b)
unfolding push
push-Adds a t front k e h v =
    rw (e, bucket_of-pos k h)
      (
        pushed-IsIndexed a k t.gtid front h v,
        λ j i. ground (arith, count-insert front t.gtid i (a.queues k)),
      )

count-find_erase :
    (g h : ℕ) (q r : List ℕ) → find_erase g q ≡ some r → count h q ≡ count h r + one (g == h)
unfolding find_erase
count-find_erase g h [] r e = cc
count-find_erase g h (x ∷ q) r e = elim (Option-cases (find_erase g q)) [
  | inl f ↦ ground arith
  | inr (q', f) ↦ ground (arith, count-find_erase g h q q' f)
]

count-find_erase-none : (g : ℕ) (q : List ℕ) → find_erase g q ≡ none → count g q ≡ 0
unfolding find_erase
count-find_erase-none g [] e = refl
count-find_erase-none g (x ∷ q) e = ground (arith, count-find_erase-none g q)

pub erase_removes :
    (a : PrioArray) (t : O1Task) (k : ℕ)
    → t.static_priority ≡ pos (100 + k)
    → k < num_prio
    → IsIndexed a
    → Returns (erase a t) (λ r.
      IsIndexed r.1
      × (r.0 ≡ true → Adds r.1 k t.gtid a)
      × (r.0 ≡ false → (r.1 ≡ a) × (count t.gtid (a.queues k) ≡ 0)))
unfolding erase
erase_removes a t k e h v = rw (e, bucket_of-pos k h) (go (find_erase t.gtid (a.queues k)) refl)
  where
    go :
        (o : Option (List ℕ))
        → find_erase t.gtid (a.queues k) ≡ o
        → let r = erase_bucket a k o in
          IsIndexed r.1
          × (r.0 ≡ true → Adds r.1 k t.gtid a)
          × (r.0 ≡ false → (r.1 ≡ a) × (count t.gtid (a.queues k) ≡ 0))
    go none f = (v, (λ z. cc), (λ z. (refl, count-find_erase-none t.gtid (a.queues k) f)))
    go (some q) f = (
      shrink-IsIndexed a k q h (find_erase-full t.gtid (a.queues k) f) v,
      (λ z j i. ground (arith, count-find_erase t.gtid i (a.queues k) q f)),
      (λ z. cc),
    )

-- `r` is `a` without the task that it shows, which stood in some bucket.
abbrev pub Takes : PrioArray → Option ℕ × PrioArray → Type 0
Takes a r = (k : ℕ) × (g : ℕ) × (r.0 ≡ some g) × (k < num_prio) × Adds r.1 k g a

pop_bucket-Takes :
    (a : PrioArray) (k : ℕ) (q : List ℕ)
    → a.queues k ≡ q
    → IsIndexed a
    → k < num_prio
    → is_empty q ≡ false
    → Returns (pop_bucket a k q) (λ r. IsIndexed r.1 × Takes a r)
unfolding pop_bucket
pop_bucket-Takes a k [] e v h full = cc
pop_bucket-Takes a k (g ∷ q) e v h full =
    (shrink-IsIndexed a k q h (rw e refl) v, (k, g, refl, h, λ j i. ground (arith, e)))

-- `pop` of an array in use takes a task out of some bucket.
pub pop-Takes :
    (a : PrioArray)
    → IsIndexed a
    → empty a ≡ false
    → Returns (pop a) (λ r. IsIndexed r.1 × Takes a r)
unfolding pop
pop-Takes a v z =
    let idx = count_trailing_zeros 64 a.bitmap in
    let (h, full) = lowest_bucket a v (ground arith) in
    rw z (pop_bucket-Takes a idx (a.queues idx) refl v h full)

-- An array that is not in use has no task.
pub count-empty :
    (a : PrioArray) → IsIndexed a → empty a ≡ true → (k g : ℕ) → count g (a.queues k) ≡ 0
count-empty a v z k g =
    let e : a.bitmap ≡ 0 = ground arith in
    let q =
      is_empty-eq_nil (a.queues k)
        (ground (arith, v.bits k, test_bit-zero k, ap (λ b. test_bit b k) e)) in
    rw q
