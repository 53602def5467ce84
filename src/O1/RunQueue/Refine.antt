-- ===== src/O1/RunQueue/Refine.antt =====
-- O1Rq (schedulers/o1/o1_scheduler.cc) against two queues in order of priority: which task Dequeue
-- shows next.
use ghost_userspace_o.Base.{
  ℕ, ◌+◌, ◌<◌, ◌≡◌, refl, ap, ◌∙◌, ◌⊎◌, inl, inr, true, false, Option, none, some, List, [], ◌∷◌,
  Outcome, ok, check_failed, bad_access, Returns, Returns-bind, Returns-map, arith, Bool-cases,
}
use ghost_userspace_o.Base.Int.{pos, is_nonneg, ltb_ℤ}
use ghost_userspace_o.O1.Task.{O1Task, O1TaskState, is_queued, is_runnable, set_remaining_time}
use ghost_userspace_o.O1.PrioArray.{PrioArray, empty, num_prio}
use ghost_userspace_o.O1.PrioArray
use ghost_userspace_o.O1.PrioArray.Order.{Entry, entries, insert_entry}
use ghost_userspace_o.O1.PrioArray.Refine.{Pops, push_refines, pop_refines, entries-empty}
use ghost_userspace_o.O1.PrioArray.Counts.{Takes, pop-Takes}
use ghost_userspace_o.O1.RunQueue.{
  O1Rq, with_state, swap, take_popped, pop_active, dequeue, push_by_time, enqueue, push_by_time,
  enqueue,
}
use ghost_userspace_o.O1.RunQueue.Laws.{IsIndexedRq}
use ghost_userspace_o.O1.RunQueue.Dequeued.{Backed, occurs-swap}

Returns-both {ℓ} :
    {A : Type ℓ} (m : Outcome A) (P Q : A → Type 0)
    → Returns m P
    → Returns m Q
    → Returns m (λ a. P a × Q a)
Returns-both (ok a) P Q p q = (p, q)
Returns-both check_failed P Q p q = p
Returns-both bad_access P Q p q = p

-- The task of the first entry of a queue is shown, now runnable; the others are left.
abbrev pub ShowsFirst : (ℕ → Option O1Task) → List Entry → Option O1Task × List Entry → Type 0
ShowsFirst tasks xs (none, ys) = ⊥
ShowsFirst tasks xs (some t', ys) =
    (k : ℕ) × (g : ℕ) × (t : O1Task) × (xs ≡ (k, g) ∷ ys)
    × (tasks g ≡ some t)
    × (t' ≡ with_state O1TaskState.runnable t)

take_popped_first :
    (tasks : ℕ → Option O1Task) (rq : O1Rq) (r : Option ℕ × PrioArray)
    → Backed tasks rq
    → Takes rq.active r
    → Pops (entries rq.active) (r.0, entries r.1)
    → Returns (take_popped tasks rq r) (λ s.
      ShowsFirst tasks (entries rq.active) (s.0, entries s.1.active) × (s.1.expired ≡ rq.expired))
unfolding take_popped
take_popped_first tasks rq (none, active) b (k, g, e, h, adds) p = cc
take_popped_first tasks rq (some x, active) b (k, g, e, h, adds) (j, first) =
    let same : x ≡ g = cc in
    let (t, found, q) = b k g (λ z. ground (arith, adds k g)) in
    let ready : is_queued t.run_state ≡ true = rw q refl in
    rw (same, found, ready)
      ((j, g, t, first ∙ ap (λ y. (j, y) ∷ entries active) same, found, refl), refl)

pop_active_first :
    (tasks : ℕ → Option O1Task) (rq : O1Rq)
    → IsIndexedRq rq
    → Backed tasks rq
    → empty rq.active ≡ false
    → Returns (pop_active tasks rq) (λ s.
      ShowsFirst tasks (entries rq.active) (s.0, entries s.1.active) × (s.1.expired ≡ rq.expired))
unfolding pop_active
pop_active_first tasks rq v b full =
    Returns-bind (PrioArray.pop rq.active) _ _ _
      (Returns-both (PrioArray.pop rq.active) _ _ (pop-Takes rq.active v.active_ok full)
        (pop_refines rq.active v.active_ok))
      λ r _ p. take_popped_first tasks rq r b p.0.1 p.1.1

-- What Dequeue shows: the first of the active queue; if that is empty, the first of the expired one,
-- whose others are the active queue from then on; if both are empty, null.
abbrev pub ShowsNext : (ℕ → Option O1Task) → O1Rq → Option O1Task × O1Rq → Type 0
ShowsNext tasks rq s =
    (ShowsFirst tasks (entries rq.active) (s.0, entries s.1.active) × (s.1.expired ≡ rq.expired))
    ⊎ ((entries rq.active ≡ [])
        × ShowsFirst tasks (entries rq.expired) (s.0, entries s.1.active)
        × (s.1.expired ≡ rq.active))
    ⊎ ((entries rq.active ≡ []) × (entries rq.expired ≡ []) × (s.0 ≡ none) × (s.1 ≡ rq))

dequeue_swapped :
    (tasks : ℕ → Option O1Task) (rq : O1Rq)
    → IsIndexedRq rq
    → Backed tasks rq
    → empty rq.expired ≡ false
    → Returns (pop_active tasks (swap rq)) (λ s.
      ShowsFirst tasks (entries rq.expired) (s.0, entries s.1.active) × (s.1.expired ≡ rq.active))
unfolding swap
dequeue_swapped tasks rq v b full =
    pop_active_first tasks (swap rq) (record { active_ok = v.expired_ok; expired_ok = v.active_ok })
      (λ k g z. b k g (λ e. z (omega (arith, e, occurs-swap rq k g)))) full

-- Of a run queue with right bitmaps, whose tasks are all live and queued, Dequeue returns. It
-- shows, made runnable, the first task in order of priority of the active array and leaves the
-- others and the expired array; or, if the active array is empty, the first of the expired
-- array, whose others are the active array from then on; or, if both are empty, null, with the
-- run queue unchanged.
pub dequeue_refines :
    (tasks : ℕ → Option O1Task) (rq : O1Rq)
    → IsIndexedRq rq
    → Backed tasks rq
    → Returns (dequeue tasks rq) (ShowsNext tasks rq)
unfolding dequeue
dequeue_refines tasks rq v b = elim (Bool-cases (empty rq.active)) [
  | inr full ↦
      rw full
        (Returns-map (pop_active tasks rq) _ _ (pop_active_first tasks rq v b full) (λ s p. inl p))
  | inl none_active ↦
      let clear = entries-empty rq.active v.active_ok (ground arith) in
      rw none_active (elim (Bool-cases (empty rq.expired)) [
        | inr full ↦ rw full (
            Returns-map (pop_active tasks (swap rq)) _ _ (dequeue_swapped tasks rq v b full)
              (λ s p. inr (inl (clear, p.0, p.1))))
        | inl none_expired ↦
            rw none_expired
              (inr (inr (clear, entries-empty rq.expired v.expired_ok (ground arith), refl, refl)))
      ])
]

-- Where Enqueue puts a task: by whether it has time left, in the active or in the expired queue.
abbrev pub Placed : O1Rq → O1Task → ℕ → O1Rq → Type 0
Placed rq t k rq' =
    ((ltb_ℤ (pos 0) t.remaining_time ≡ true)
      × (entries rq'.active ≡ insert_entry t.prio_boost k t.gtid (entries rq.active))
      × (rq'.expired ≡ rq.expired))
    ⊎ ((ltb_ℤ (pos 0) t.remaining_time ≡ false)
        × (rq'.active ≡ rq.active)
        × (entries rq'.expired ≡ insert_entry t.prio_boost k t.gtid (entries rq.expired)))

push_by_time-Placed :
    (rq : O1Rq) (t : O1Task) (k : ℕ)
    → t.static_priority ≡ pos (100 + k)
    → k < num_prio
    → IsIndexedRq rq
    → Returns (push_by_time rq t) (λ r. Placed rq t k r.0)
unfolding push_by_time
push_by_time-Placed rq t k e h v = elim (Bool-cases (ltb_ℤ (pos 0) t.remaining_time)) [
  | inl left ↦ rw left (
      Returns-bind (PrioArray.push rq.active t t.prio_boost) _ _ _
        (push_refines rq.active t t.prio_boost k e h v.active_ok) (λ b _ p. inl (refl, p.1, refl)))
  | inr spent ↦
      let t' = set_remaining_time t in
      rw spent (
        Returns-bind (PrioArray.push rq.expired t' t.prio_boost) _ _ _
          (push_refines rq.expired t' t.prio_boost k e h v.expired_ok)
          (λ b _ p. inr (refl, refl, p.1)))
]

-- Enqueue of a runnable task with a CPU and a bucket, on a run queue with right bitmaps,
-- returns: if the task has time left it is inserted into the active array in order of priority,
-- at the front of its priority if it is boosted and behind it otherwise, and the expired array
-- is unchanged; if it has none left the same is done to the expired array, and the active one is
-- unchanged.
pub enqueue_refines :
    (rq : O1Rq) (t : O1Task) (k c : ℕ)
    → t.cpu ≡ pos c
    → t.run_state ≡ O1TaskState.runnable
    → t.static_priority ≡ pos (100 + k)
    → k < num_prio
    → IsIndexedRq rq
    → Returns (enqueue rq t) (λ r. Placed rq t k r.0)
unfolding enqueue
enqueue_refines rq t k c ec er e h v =
    let home : is_nonneg t.cpu ≡ true = rw ec refl in
    let ready : is_runnable t.run_state ≡ true = rw er refl in
    rw (home, ready) (push_by_time-Placed rq (with_state O1TaskState.queued t) k e h v)
