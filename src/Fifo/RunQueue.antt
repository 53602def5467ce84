-- ===== src/Fifo/RunQueue.antt =====
-- FifoRq of schedulers/fifo/per_cpu/fifo_scheduler.h and .cc: a deque of pointers to tasks. Its
-- mutex makes each operation one step. A task that an operation changes is returned beside it.
pub mod Laws
use ghost_userspace_o.Base.{
  ℕ, zero, suc, ◌+◌, ◌-◌, Bool, true, false, if◌then◌else◌, ◌==◌, Option, none, some, List, [], ◌∷◌,
  ◌++◌, length, get_elem?, Outcome, ok, check_failed, bad_access, check, deref, ◌>>=◌, ◌>>◌,
}
use ghost_userspace_o.Base.Int.{is_nonneg}
use ghost_userspace_o.Fifo.Task.{FifoTask, FifoTaskState, is_runnable, is_queued, with_state}

pub record FifoRq : Type 0 where
  pub rq : List ℕ

abbrev pub empty_rq : FifoRq
empty_rq = record { rq = [] }

abbrev pub size : FifoRq → ℕ
size q = length q.rq

abbrev pub is_empty_rq : FifoRq → Bool
is_empty_rq q = size q == 0

-- `push_front` of a boosted task, `push_back` of any other.
abbrev pub push : Bool → ℕ → List ℕ → List ℕ
push prio_boost g q = if prio_boost then g ∷ q else q ++ g ∷ []

unfoldable pub enqueue : FifoRq → FifoTask → Outcome (FifoRq × FifoTask)
enqueue q t = do
  check (is_nonneg t.cpu)
  check (is_runnable t.run_state)
  ok (record { rq = push t.prio_boost t.gtid q.rq }, with_state FifoTaskState.queued t)

-- The pointer at the front is read: it must not dangle.
unfoldable pub dequeue : (ℕ → Option FifoTask) → FifoRq → Outcome (Option FifoTask × FifoRq)
dequeue tasks q = elim q.rq [
  | [] ↦ ok (none, q)
  | g ∷ rest ↦ (do
    t ← deref (tasks g)
    check (is_queued t.run_state)
    ok (some (with_state FifoTaskState.runnable t), record { rq = rest }))
]

-- `rq_[pos] == task`.
abbrev pub holds : List ℕ → ℕ → ℕ → Bool
holds [] pos g = false
holds (x ∷ q) zero g = x == g
holds (x ∷ q) (suc pos) g = holds q pos g

-- `rq_.erase(rq_.cbegin() + pos)`.
abbrev pub erase_at : ℕ → List ℕ → List ℕ
erase_at pos [] = []
erase_at zero (x ∷ q) = q
erase_at (suc pos) (x ∷ q) = x ∷ erase_at pos q

-- The first position from `pos` on, of `n` positions, that holds the task.
abbrev pub search : ℕ → ℕ → ℕ → List ℕ → Option ℕ
search zero pos g q = none
search (suc n) pos g q =
    let rest = search n (pos + 1) g q in if holds q pos g then some pos else rest

abbrev pub erased : Option ℕ → FifoRq → FifoTask → Outcome (FifoRq × FifoTask)
erased none q t = check_failed
erased (some pos) q t = ok (record { rq = erase_at pos q.rq }, with_state FifoTaskState.runnable t)

-- The task is looked for at the back first.
unfoldable pub erase : FifoRq → FifoTask → Outcome (FifoRq × FifoTask)
erase q t = do
  check (is_queued t.run_state)
  if size q == 0
      then check_failed
      else (if holds q.rq (size q - 1) t.gtid
          then erased (some (size q - 1)) q t
          else erased (search (size q - 1) 0 t.gtid q.rq) q t)
