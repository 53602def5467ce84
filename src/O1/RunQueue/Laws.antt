-- ===== src/O1/RunQueue/Laws.antt =====
-- How often a task stands in each bucket of an O1Rq (schedulers/o1/o1_scheduler.cc), before and
-- after Enqueue and Erase.
use ghost_userspace_o.Base.{
  ℕ, ◌+◌, ◌<◌, ◌≡◌, ◌≢◌, refl, inl, inr, Bool, true, false, if◌then◌else◌, ◌==◌, ◌&&◌, Returns,
  Returns-bind, arith, Bool-cases, count,
}
use ghost_userspace_o.Base.Int.{pos, is_nonneg, ltb_ℤ}
use ghost_userspace_o.O1.Task.{O1Task, O1TaskState, is_runnable, is_queued, set_remaining_time}
use ghost_userspace_o.O1.PrioArray.{PrioArray, num_prio, empty}
use ghost_userspace_o.O1.PrioArray
use ghost_userspace_o.O1.PrioArray.Bitmap.{IsIndexed}
use ghost_userspace_o.O1.PrioArray.Counts.{one, Adds, push-Adds, erase_removes}
use ghost_userspace_o.O1.RunQueue.{
  O1Rq, with_state, push_by_time, enqueue, erase_from, erase_from_expired, erase,
}

pub record IsIndexedRq (rq : O1Rq) : Type 0 where
  pub active_ok : IsIndexed rq.active
  pub expired_ok : IsIndexed rq.expired

-- How often task `g` stands in bucket `k` of either array.
abbrev pub occurs : O1Rq → ℕ → ℕ → ℕ
occurs rq k g = count g (rq.active.queues k) + count g (rq.expired.queues k)

abbrev pub AddsRq : O1Rq → ℕ → ℕ → O1Rq → Type 0
AddsRq rq k g rq' = (j h : ℕ) → occurs rq' j h ≡ occurs rq j h + one (k == j && g == h)

-- The task after Enqueue.
abbrev pub enqueued : O1Task → O1Task
enqueued t =
    let t' = with_state O1TaskState.queued t in
    if ltb_ℤ (pos 0) t'.remaining_time then t' else set_remaining_time t'

push_by_time_adds :
    (rq : O1Rq) (t : O1Task) (k : ℕ)
    → t.static_priority ≡ pos (100 + k)
    → k < num_prio
    → IsIndexedRq rq
    → Returns (push_by_time rq t) (λ r.
      IsIndexedRq r.0
      × AddsRq rq k t.gtid r.0
      × (r.1 ≡ (if ltb_ℤ (pos 0) t.remaining_time then t else set_remaining_time t)))
unfolding push_by_time
push_by_time_adds rq t k e h v = elim (Bool-cases (ltb_ℤ (pos 0) t.remaining_time)) [
  | inl left ↦ rw left (
      Returns-bind (PrioArray.push rq.active t t.prio_boost) _ _ _
        (push-Adds rq.active t t.prio_boost k e h v.active_ok)
        (λ b _ p. (
          record { active_ok = p.0; expired_ok = v.expired_ok },
          (λ j i. omega (arith, p.1 j i)),
          refl,
        )))
  | inr spent ↦
      let t' = set_remaining_time t in
      rw spent (
        Returns-bind (PrioArray.push rq.expired t' t.prio_boost) _ _ _
          (push-Adds rq.expired t' t.prio_boost k e h v.expired_ok)
          (λ b _ p. (
            record { active_ok = v.active_ok; expired_ok = p.0 },
            (λ j i. omega (arith, p.1 j i)),
            refl,
          )))
]

-- Enqueue of a runnable task with a CPU and a bucket, on a run queue with right bitmaps,
-- returns: the task stands once more in its bucket (of one of the two arrays), every other entry
-- stands as often as before, the bitmaps are right, and the task is queued with a fresh time
-- slice if it had none left.
pub enqueue_adds :
    (rq : O1Rq) (t : O1Task) (k c : ℕ)
    → t.cpu ≡ pos c
    → t.run_state ≡ O1TaskState.runnable
    → t.static_priority ≡ pos (100 + k)
    → k < num_prio
    → IsIndexedRq rq
    → Returns (enqueue rq t) (λ r. IsIndexedRq r.0 × AddsRq rq k t.gtid r.0 × (r.1 ≡ enqueued t))
unfolding enqueue
enqueue_adds rq t k c ec er e h v =
    let home : is_nonneg t.cpu ≡ true = rw ec refl in
    let ready : is_runnable t.run_state ≡ true = rw er refl in
    rw (home, ready) (push_by_time_adds rq (with_state O1TaskState.queued t) k e h v)

erase_from_expired_removes :
    (rq : O1Rq) (t : O1Task) (k : ℕ)
    → t.static_priority ≡ pos (100 + k)
    → k < num_prio
    → count t.gtid (rq.expired.queues k) ≢ 0
    → IsIndexedRq rq
    → Returns
        (erase_from_expired rq t)
        (λ r. IsIndexedRq r.0 × AddsRq r.0 k t.gtid rq × (r.1 ≡ with_state O1TaskState.runnable t))
unfolding erase_from_expired
erase_from_expired_removes rq t k e h here v =
    Returns-bind (PrioArray.erase rq.expired t) _ _ _
      (erase_removes rq.expired t k e h v.expired_ok)
      λ r _ p. elim (Bool-cases r.0) [
        | inl hit ↦ rw hit (
          record { active_ok = v.active_ok; expired_ok = p.0 },
          (λ j i. omega (arith, p.1 hit j i)),
          refl,
        )
        | inr miss ↦ absurd (here (p.2 miss).1)
      ]

erase_from_removes :
    (rq : O1Rq) (t : O1Task) (k : ℕ) (r : Bool × PrioArray)
    → t.static_priority ≡ pos (100 + k)
    → k < num_prio
    → occurs rq k t.gtid ≢ 0
    → IsIndexedRq rq
    → IsIndexed r.1
    → (r.0 ≡ true → Adds r.1 k t.gtid rq.active)
    → (r.0 ≡ false → (r.1 ≡ rq.active) × (count t.gtid (rq.active.queues k) ≡ 0))
    → Returns
        (erase_from rq t r)
        (λ s. IsIndexedRq s.0 × AddsRq s.0 k t.gtid rq × (s.1 ≡ with_state O1TaskState.runnable t))
unfolding erase_from
erase_from_removes rq t k (true, active) e h here v w hit miss = (
  record { active_ok = w; expired_ok = v.expired_ok },
  (λ j i. omega (arith, hit refl j i)),
  refl,
)
erase_from_removes rq t k (false, active) e h here v w hit miss =
    let (same, gone) = miss refl in
    rw same (erase_from_expired_removes rq t k e h (λ z. here (omega arith)) v)

-- Erase of a queued task that stands in its bucket of either array, on a run queue with right
-- bitmaps, returns: the task stands there once less and is runnable, every other entry stands as
-- often as before, and the bitmaps are right.
pub erase_removes_task :
    (rq : O1Rq) (t : O1Task) (k : ℕ)
    → t.run_state ≡ O1TaskState.queued
    → t.static_priority ≡ pos (100 + k)
    → k < num_prio
    → occurs rq k t.gtid ≢ 0
    → IsIndexedRq rq
    → Returns
        (erase rq t)
        (λ r. IsIndexedRq r.0 × AddsRq r.0 k t.gtid rq × (r.1 ≡ with_state O1TaskState.runnable t))
unfolding erase
erase_removes_task rq t k q e h here v =
    let ready : is_queued t.run_state ≡ true = rw q refl in
    rw ready (
      Returns-bind (PrioArray.erase rq.active t) _ _ _ (erase_removes rq.active t k e h v.active_ok)
        (λ r _ p. erase_from_removes rq t k r e h here v p.0 p.1 p.2))
