-- ===== src/O1/RunQueue/Marked.antt =====
-- The task record that an operation of an O1Rq (schedulers/o1/o1_scheduler.cc) gives back.
use ghost_userspace_o.Base.{
  ℕ, ◌≡◌, refl, inl, inr, Bool, true, false, Option, none, some, Bool-cases, Yields, Yields-bind,
  Yields-check, Yields-deref, Yields-any,
}
use ghost_userspace_o.Base.Int.{pos, is_nonneg, ltb_ℤ}
use ghost_userspace_o.O1.Task.{O1Task, O1TaskState, is_runnable, is_queued, set_remaining_time}
use ghost_userspace_o.O1.PrioArray.{PrioArray, empty}
use ghost_userspace_o.O1.PrioArray
use ghost_userspace_o.O1.RunQueue.{
  O1Rq, with_state, push_by_time, enqueue, erase_from_expired, erase_from, erase, take_popped,
  pop_active, swap, dequeue,
}

-- Only the state and the time slice differ.
pub record Marked (state : O1TaskState) (t t' : O1Task) : Type 0 where
  pub in_state : t'.run_state ≡ state
  pub same_key : t'.gtid ≡ t.gtid
  pub same_seqnum : t'.seqnum ≡ t.seqnum
  pub same_cpu : t'.cpu ≡ t.cpu

with_state-Marked : (state : O1TaskState) (t : O1Task) → Marked state t (with_state state t)
with_state-Marked state t = record {
  in_state = refl;
  same_key = refl;
  same_seqnum = refl;
  same_cpu = refl;
}

pub enqueue-Marked :
    (rq : O1Rq) (t : O1Task) → Yields (enqueue rq t) (λ r. Marked O1TaskState.queued t r.1)
unfolding enqueue push_by_time
enqueue-Marked rq t =
    let t' = with_state O1TaskState.queued t in
    let spent_task = set_remaining_time t' in
    Yields-check (is_nonneg t.cpu) _ _ (λ _. Yields-check (is_runnable t.run_state) _ _ (λ _.
      elim (Bool-cases (ltb_ℤ (pos 0) t.remaining_time)) [
        | inl left ↦ rw left (
            Yields-bind (PrioArray.push rq.active t' t.prio_boost) _ (λ _. Unit {0}) _
              (Yields-any (PrioArray.push rq.active t' t.prio_boost))
              (λ b _. with_state-Marked O1TaskState.queued t))
        | inr spent ↦ rw spent (
            Yields-bind (PrioArray.push rq.expired spent_task t.prio_boost) _ (λ _. Unit {0}) _
              (Yields-any (PrioArray.push rq.expired spent_task t.prio_boost))
              (λ b _. record {
                in_state = refl;
                same_key = refl;
                same_seqnum = refl;
                same_cpu = refl;
              }))
      ]))

erase_from-Marked :
    (rq : O1Rq) (t : O1Task) (r : Bool × PrioArray)
    → Yields (erase_from rq t r) (λ r. Marked O1TaskState.runnable t r.1)
unfolding erase_from erase_from_expired
erase_from-Marked rq t (true, active) = with_state-Marked O1TaskState.runnable t
erase_from-Marked rq t (false, active) =
    Yields-bind (PrioArray.erase rq.expired t) _ (λ _. Unit {0}) _
      (Yields-any (PrioArray.erase rq.expired t))
      λ r _. Yields-check r.0 _ _ λ _. with_state-Marked O1TaskState.runnable t

pub erase-Marked :
    (rq : O1Rq) (t : O1Task) → Yields (erase rq t) (λ r. Marked O1TaskState.runnable t r.1)
unfolding erase
erase-Marked rq t = Yields-check (is_queued t.run_state) _ _ λ _.
    Yields-bind (PrioArray.erase rq.active t) _ (λ _. Unit {0}) _
      (Yields-any (PrioArray.erase rq.active t)) λ a _. erase_from-Marked rq t a

-- What Dequeue shows is the record of a queued task, made runnable.
abbrev pub Shown : (ℕ → Option O1Task) → Option O1Task → Type 0
Shown tasks none = Unit {0}
Shown tasks (some t') =
    (g : ℕ) × (t : O1Task) × (tasks g ≡ some t)
    × (is_queued t.run_state ≡ true)
    × (t' ≡ with_state O1TaskState.runnable t)

take_popped-Shown :
    (tasks : ℕ → Option O1Task) (rq : O1Rq) (r : Option ℕ × PrioArray)
    → Yields (take_popped tasks rq r) (λ r. Shown tasks r.0)
unfolding take_popped
take_popped-Shown tasks rq (none, active) = tt
take_popped-Shown tasks rq (some g, active) =
    Yields-deref (tasks g) _ _
      λ t e. Yields-check (is_queued t.run_state) _ _ λ q. (g, t, e, q, refl)

pop_active-Shown :
    (tasks : ℕ → Option O1Task) (rq : O1Rq) → Yields (pop_active tasks rq) (λ r. Shown tasks r.0)
unfolding pop_active
pop_active-Shown tasks rq =
    Yields-bind (PrioArray.pop rq.active) _ (λ _. Unit {0}) _ (Yields-any (PrioArray.pop rq.active))
      λ r _. take_popped-Shown tasks rq r

pub dequeue-Shown :
    (tasks : ℕ → Option O1Task) (rq : O1Rq) → Yields (dequeue tasks rq) (λ r. Shown tasks r.0)
unfolding dequeue
dequeue-Shown tasks rq = elim (Bool-cases (empty rq.active)) [
  | inl none_active ↦ elim (Bool-cases (empty rq.expired)) [
    | inl none_expired ↦ rw (none_active, none_expired) tt
    | inr some_expired ↦ rw (none_active, some_expired) (pop_active-Shown tasks (swap rq))
  ]
  | inr some_active ↦ rw some_active (pop_active-Shown tasks rq)
]
