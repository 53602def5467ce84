-- ===== src/Fifo/RunQueue/Laws.antt =====
-- What the operations of FifoRq (schedulers/fifo/per_cpu/fifo_scheduler.cc) do to its queue.
use ghost_userspace_o.Base.{
  ℕ, zero, suc, ◌+◌, ◌-◌, ◌<◌, ◌≤◌, ◌≡◌, ◌≢◌, refl, ap, ◌∙◌, inl, inr, Bool, true, false,
  if◌then◌else◌, ◌==◌, Option, none, some, List, [], ◌∷◌, length, count, count-append, ok,
  check_failed, ◌>>=◌, arith, Bool-cases, Option-cases,
}
use ghost_userspace_o.Base.Int.{pos, is_nonneg}
use ghost_userspace_o.Fifo.Task.{FifoTask, FifoTaskState, is_runnable, is_queued, with_state}
use ghost_userspace_o.Fifo.RunQueue.{
  FifoRq, push, enqueue, dequeue, holds, erase_at, search, erased, erase, size,
}

abbrev pub one : Bool → ℕ
one b = if b then 1 else 0

-- The queue without its first `g`, in the same order.
abbrev pub remove : ℕ → List ℕ → List ℕ
remove g [] = []
remove g (x ∷ q) = if x == g then q else x ∷ remove g q

pub count-push : (b : Bool) (g h : ℕ) (q : List ℕ) → count h (push b g q) ≡ count h q + one (g == h)
count-push true g h q = omega arith
count-push false g h q = omega (arith, count-append h q (g ∷ []))

pub count-remove :
    (g h : ℕ) (q : List ℕ) → count g q ≢ 0 → count h q ≡ count h (remove g q) + one (g == h)
count-remove g h [] n = absurd (n refl)
count-remove g h (x ∷ q) n = elim (Bool-cases (x == g)) [
  | inl e ↦ ground arith
  | inr e ↦ ground (arith, count-remove g h q (λ z. n (ground arith)))
]

-- What is held at a position and stands in the queue once is removed by erasing that position.
holds-count : (q : List ℕ) (p g : ℕ) → holds q p g ≡ true → count g q ≢ 0
holds-count [] p g e z = cc
holds-count (x ∷ q) zero g e z = ground arith
holds-count (x ∷ q) (suc p) g e z = holds-count q p g e (ground arith)

pub erase_at-remove :
    (q : List ℕ) (p g : ℕ) → holds q p g ≡ true → count g q ≡ 1 → erase_at p q ≡ remove g q
erase_at-remove [] p g e c = refl
erase_at-remove (x ∷ q) zero g e c = rw e
erase_at-remove (x ∷ q) (suc p) g e c = elim (Bool-cases (x == g)) [
  | inl hit ↦ absurd (holds-count q p g e (ground arith))
  | inr miss ↦ rw miss (ap (λ r. x ∷ r) (erase_at-remove q p g e (ground arith)))
]

-- A position that the loop finds holds the task.
search-holds : (n p g : ℕ) (q : List ℕ) (r : ℕ) → search n p g q ≡ some r → holds q r g ≡ true
search-holds zero p g q r e = cc
search-holds (suc n) p g q r e = elim (Bool-cases (holds q p g)) [
  | inl hit ↦ ground (arith, hit)
  | inr miss ↦ search-holds n (p + 1) g q r (rw miss at e)
]

-- The loop finds whatever stands among its positions.
search-none :
    (n p g : ℕ) (q : List ℕ)
    → search n p g q ≡ none
    → (r : ℕ) → p ≤ r
    → r < p + n
    → holds q r g ≡ false
search-none zero p g q e r low high = absurd (omega arith)
search-none (suc n) p g q e r low high = elim (Bool-cases (holds q p g)) [
  | inl hit ↦ cc
  | inr miss ↦ elim (Bool-cases (p == r)) [
    | inl same ↦ ground arith
    | inr other ↦ search-none n (p + 1) g q (rw miss at e) r (ground arith) (omega arith)
  ]
]

none_held-count :
    (q : List ℕ) (g : ℕ) → ((r : ℕ) → r < length q → holds q r g ≡ false) → count g q ≡ 0
none_held-count [] g h = refl
none_held-count (x ∷ q) g h =
    ground (arith, h 0 (omega arith), none_held-count q g (λ r l. h (suc r) (omega arith)))

-- A queue that neither the back nor the loop of Erase finds the task in.
missed-count :
    (q : List ℕ) (g : ℕ)
    → holds q (length q - 1) g ≡ false
    → search (length q - 1) 0 g q ≡ none
    → count g q ≡ 0
missed-count q g back e = none_held-count q g λ r l. elim (Bool-cases (r == length q - 1)) [
  | inl last ↦ let same : r ≡ length q - 1 = ground arith in rw same back
  | inr inner ↦ search-none (length q - 1) 0 g q e r (omega arith) (ground arith)
]

count-length : (g : ℕ) (q : List ℕ) → length q ≡ 0 → count g q ≡ 0
count-length g [] e = refl
count-length g (x ∷ q) e = absurd (omega arith)

erased_at :
    (q : FifoRq) (t : FifoTask) (p : ℕ)
    → holds q.rq p t.gtid ≡ true
    → count t.gtid q.rq ≡ 1
    → erased (some p) q t
      ≡ ok (record { rq = remove t.gtid q.rq }, with_state FifoTaskState.runnable t)
erased_at q t p e c = rw (erase_at-remove q.rq p t.gtid e c) refl

erased_found :
    (q : FifoRq) (t : FifoTask)
    → count t.gtid q.rq ≡ 1
    → holds q.rq (size q - 1) t.gtid ≡ false
    → erased (search (size q - 1) 0 t.gtid q.rq) q t
      ≡ ok (record { rq = remove t.gtid q.rq }, with_state FifoTaskState.runnable t)
erased_found q t c back = elim (Option-cases (search (size q - 1) 0 t.gtid q.rq)) [
  | inl missing ↦ absurd (ground (arith, missed-count q.rq t.gtid back missing))
  | inr (p, found) ↦ rw found (erased_at q t p (search-holds (size q - 1) 0 t.gtid q.rq p found) c)
]

-- Erase of a queued task that stands in the deque once, with its test of the back and its loop
-- from the front, removes just that task, keeps the order of the others, and makes it runnable.
pub fifo_erase_refines :
    (q : FifoRq) (t : FifoTask)
    → t.run_state ≡ FifoTaskState.queued
    → count t.gtid q.rq ≡ 1
    → erase q t ≡ ok (record { rq = remove t.gtid q.rq }, with_state FifoTaskState.runnable t)
unfolding erase
fifo_erase_refines q t state c =
    let ready : is_queued t.run_state ≡ true = rw state refl in
    let filled : (size q == 0) ≡ false = ground (arith, count-length t.gtid q.rq) in
    rw (ready, filled)
      (elim (Bool-cases (holds q.rq (size q - 1) t.gtid)) [
        | inl back ↦ rw back (erased_at q t (size q - 1) back c)
        | inr other ↦ rw other (erased_found q t c other)
      ])

missing-search : (n p g : ℕ) (q : List ℕ) → count g q ≡ 0 → search n p g q ≡ none
missing-search zero p g q c = refl
missing-search (suc n) p g q c = elim (Bool-cases (holds q p g)) [
  | inl hit ↦ absurd (holds-count q p g hit c)
  | inr miss ↦ rw miss (missing-search n (p + 1) g q c)
]

-- Erase of a task that does not stand in the deque fails a CHECK, whatever the task's state and
-- the deque.
pub erase_missing : (q : FifoRq) (t : FifoTask) → count t.gtid q.rq ≡ 0 → erase q t ≡ check_failed
unfolding erase
erase_missing q t c = elim (Bool-cases (is_queued t.run_state)) [
  | inr other ↦ rw other refl
  | inl ready ↦ rw ready (elim (Bool-cases (size q == 0)) [
    | inl none_left ↦ rw none_left refl
    | inr filled ↦ rw filled (elim (Bool-cases (holds q.rq (size q - 1) t.gtid)) [
      | inl hit ↦ absurd (holds-count q.rq (size q - 1) t.gtid hit c)
      | inr other ↦ rw (other, missing-search (size q - 1) 0 t.gtid q.rq c) refl
    ])
  ])
]

pub enqueue_ready :
    (q : FifoRq) (t : FifoTask) (c : ℕ)
    → t.run_state ≡ FifoTaskState.runnable
    → t.cpu ≡ pos c
    → enqueue q t
      ≡ ok (record { rq = push t.prio_boost t.gtid q.rq }, with_state FifoTaskState.queued t)
unfolding enqueue
enqueue_ready q t c state cpu =
    let ready : is_runnable t.run_state ≡ true = rw state refl in
    let home : is_nonneg t.cpu ≡ true = rw cpu refl in rw (home, ready) refl

dequeue_first :
    (tasks : ℕ → Option FifoTask) (g : ℕ) (q : List ℕ) (t : FifoTask)
    → tasks g ≡ some t
    → t.run_state ≡ FifoTaskState.queued
    → dequeue tasks (record { rq = g ∷ q })
      ≡ ok (some (with_state FifoTaskState.runnable t), record { rq = q })
unfolding dequeue
dequeue_first tasks g q t found state =
    let ready : is_queued t.run_state ≡ true = rw state refl in rw (found, ready) refl

-- A runnable task with a CPU and a boosted priority that is enqueued on any run queue, and whose
-- record then is the queued one, is the task that the next Dequeue shows, runnable again, and
-- the run queue is as before.
pub dequeue-enqueue :
    (tasks : ℕ → Option FifoTask) (q : FifoRq) (t : FifoTask) (c : ℕ)
    → t.prio_boost ≡ true
    → t.run_state ≡ FifoTaskState.runnable
    → t.cpu ≡ pos c
    → tasks t.gtid ≡ some (with_state FifoTaskState.queued t)
    → (enqueue q t >>= λ r. dequeue tasks r.0) ≡ ok (some (with_state FifoTaskState.runnable t), q)
dequeue-enqueue tasks q t c boosted state cpu found =
    ap (λ m. m >>= λ r. dequeue tasks r.0) (enqueue_ready q t c state cpu)
    ∙ ap (λ b. dequeue tasks (record { rq = push b t.gtid q.rq })) boosted
    ∙ dequeue_first tasks t.gtid q.rq (with_state FifoTaskState.queued t) found refl
