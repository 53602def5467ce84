-- ===== src/O1/RunQueue.antt =====
-- O1Rq of schedulers/o1/o1_scheduler.h and .cc: the run queue of one CPU. Its mutex makes each
-- operation one step. A task that an operation changes is returned beside the queue.
pub mod Laws
pub mod Dequeued
pub mod Marked
pub mod Refine
pub mod Renice
use ghost_userspace_o.Base.{
  ℕ, ◌+◌, Bool, true, false, if◌then◌else◌, ◌==◌, Option, none, some, Outcome, ok, check_failed,
  bad_access, check, deref, ◌>>=◌, ◌>>◌,
}
use ghost_userspace_o.Base.Int.{pos, is_nonneg, ltb_ℤ}
use ghost_userspace_o.O1.Task.{O1Task, O1TaskState, is_runnable, is_queued, set_remaining_time}
use ghost_userspace_o.O1.PrioArray.{PrioArray, empty_array, empty}
use ghost_userspace_o.O1.PrioArray

pub record O1Rq : Type 0 where
  pub active : PrioArray
  pub expired : PrioArray

abbrev pub empty_rq : O1Rq
empty_rq = record { active = empty_array; expired = empty_array }

unfoldable pub size : O1Rq → ℕ
size rq = PrioArray.size rq.active + PrioArray.size rq.expired

unfoldable pub is_empty_rq : O1Rq → Bool
unfolding size
is_empty_rq rq = size rq == 0

abbrev pub with_state : O1TaskState → O1Task → O1Task
with_state state t = record t { run_state = state }

unfoldable pub enqueue_active : O1Rq → O1Task → Outcome (O1Rq × O1Task)
enqueue_active rq t = do
  check (is_nonneg t.cpu)
  check (is_runnable t.run_state)
  active ← PrioArray.push rq.active (with_state O1TaskState.queued t) t.prio_boost
  ok (record rq { active = active }, with_state O1TaskState.queued t)

unfoldable pub enqueue_expired : O1Rq → O1Task → Outcome (O1Rq × O1Task)
enqueue_expired rq t = do
  check (is_nonneg t.cpu)
  check (is_runnable t.run_state)
  let t' = set_remaining_time (with_state O1TaskState.queued t)
  expired ← PrioArray.push rq.expired t' t.prio_boost
  ok (record rq { expired = expired }, t')

-- A task with time left goes to the active array; any other gets a new slice and goes to the
-- expired array.
push_by_time : O1Rq → O1Task → Outcome (O1Rq × O1Task)
push_by_time rq t =
    if ltb_ℤ (pos 0) t.remaining_time
    then (do
      active ← PrioArray.push rq.active t t.prio_boost
      ok (record rq { active = active }, t))
    else (do
      let t' = set_remaining_time t
      expired ← PrioArray.push rq.expired t' t.prio_boost
      ok (record rq { expired = expired }, t'))

unfoldable pub enqueue : O1Rq → O1Task → Outcome (O1Rq × O1Task)
unfolding push_by_time
enqueue rq t = do
  check (is_nonneg t.cpu)
  check (is_runnable t.run_state)
  push_by_time rq (with_state O1TaskState.queued t)

unfoldable pub swap : O1Rq → O1Rq
swap rq = record { active = rq.expired; expired = rq.active }

-- The pointer that was popped is read: it must not be null nor dangle.
unfoldable pub take_popped :
    (ℕ → Option O1Task) → O1Rq → Option ℕ × PrioArray → Outcome (Option O1Task × O1Rq)
take_popped tasks rq (none, active) = check_failed
take_popped tasks rq (some g, active) = do
  t ← deref (tasks g)
  check (is_queued t.run_state)
  ok (some (with_state O1TaskState.runnable t), record rq { active = active })

unfoldable pub pop_active : (ℕ → Option O1Task) → O1Rq → Outcome (Option O1Task × O1Rq)
unfolding take_popped
pop_active tasks rq = do popped ← PrioArray.pop rq.active; take_popped tasks rq popped

unfoldable pub dequeue : (ℕ → Option O1Task) → O1Rq → Outcome (Option O1Task × O1Rq)
unfolding pop_active swap
dequeue tasks rq =
    if empty rq.active
    then (if empty rq.expired then ok (none, rq) else pop_active tasks (swap rq))
    else pop_active tasks rq

unfoldable pub erase_from_expired : O1Rq → O1Task → Outcome (O1Rq × O1Task)
erase_from_expired rq t = do
  (hit, expired) ← PrioArray.erase rq.expired t
  check hit
  ok (record rq { expired = expired }, with_state O1TaskState.runnable t)

unfoldable pub erase_from : O1Rq → O1Task → Bool × PrioArray → Outcome (O1Rq × O1Task)
unfolding erase_from_expired
erase_from rq t (true, active) =
    ok (record rq { active = active }, with_state O1TaskState.runnable t)
erase_from rq t (false, active) = erase_from_expired (record rq { active = active }) t

unfoldable pub erase : O1Rq → O1Task → Outcome (O1Rq × O1Task)
unfolding erase_from
erase rq t = do
  check (is_queued t.run_state)
  active ← PrioArray.erase rq.active t
  erase_from rq t active
