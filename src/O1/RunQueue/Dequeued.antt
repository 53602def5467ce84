-- ===== src/O1/RunQueue/Dequeued.antt =====
-- What Dequeue of an O1Rq (schedulers/o1/o1_scheduler.cc) takes, and from which array.
use ghost_userspace_o.Base.{
  ℕ, ◌<◌, ◌≡◌, ◌≢◌, refl, inl, inr, true, false, if◌then◌else◌, Option, none, some, ok, Returns,
  Returns-bind, Returns-map, arith, Bool-cases,
}
use ghost_userspace_o.O1.Task.{O1Task, O1TaskState, is_queued}
use ghost_userspace_o.O1.PrioArray.{PrioArray, num_prio, empty}
use ghost_userspace_o.O1.PrioArray
use ghost_userspace_o.O1.PrioArray.Bitmap.{IsIndexed}
use ghost_userspace_o.O1.PrioArray.Counts.{Takes, pop-Takes, count-empty}
use ghost_userspace_o.O1.RunQueue.{O1Rq, with_state, swap, take_popped, pop_active, dequeue}
use ghost_userspace_o.O1.RunQueue.Laws.{IsIndexedRq, occurs, AddsRq}

-- Every task in the run queue is found by its pointer, and is queued.
abbrev pub Backed : (ℕ → Option O1Task) → O1Rq → Type 0
Backed tasks rq =
    (k g : ℕ)
    → occurs rq k g ≢ 0
    → (t : O1Task) × (tasks g ≡ some t) × (t.run_state ≡ O1TaskState.queued)

-- A task that stood in the run queue is shown, now runnable, and stands there once less.
abbrev pub Took : (ℕ → Option O1Task) → O1Rq → Option O1Task × O1Rq → Type 0
Took tasks rq (none, rq') = ⊥
Took tasks rq (some t', rq') =
    (k : ℕ) × (g : ℕ) × (t : O1Task) × (tasks g ≡ some t)
    × (t' ≡ with_state O1TaskState.runnable t)
    × (k < num_prio)
    × AddsRq rq' k g rq

-- What Dequeue shows: such a task, or null of an empty run queue.
abbrev pub Dequeues : (ℕ → Option O1Task) → O1Rq → Option O1Task × O1Rq → Type 0
Dequeues tasks rq (none, rq') = (rq' ≡ rq) × ((k g : ℕ) → occurs rq k g ≡ 0)
Dequeues tasks rq (some t', rq') = Took tasks rq (some t', rq')

Took-Dequeues :
    (tasks : ℕ → Option O1Task) (rq : O1Rq) (s : Option O1Task × O1Rq)
    → Took tasks rq s
    → Dequeues tasks rq s
Took-Dequeues tasks rq (none, rq') d = absurd d
Took-Dequeues tasks rq (some t', rq') d = d

take_popped-Took :
    (tasks : ℕ → Option O1Task) (rq : O1Rq) (r : Option ℕ × PrioArray)
    → IsIndexedRq rq
    → Backed tasks rq
    → IsIndexed r.1
    → Takes rq.active r
    → Returns (take_popped tasks rq r) (λ s. IsIndexedRq s.1 × Took tasks rq s)
unfolding take_popped
take_popped-Took tasks rq (none, active) v b w (k, g, e, h, adds) = cc
take_popped-Took tasks rq (some x, active) v b w (k, g, e, h, adds) =
    let same : x ≡ g = cc in
    let (t, found, q) = b k g (λ z. ground (arith, adds k g)) in
    let ready : is_queued t.run_state ≡ true = rw q refl in
    rw (same, found, ready)
      (
        record { active_ok = w; expired_ok = v.expired_ok },
        (k, g, t, found, refl, h, λ j i. omega (arith, adds j i)),
      )

pop_active-Took :
    (tasks : ℕ → Option O1Task) (rq : O1Rq)
    → IsIndexedRq rq
    → Backed tasks rq
    → empty rq.active ≡ false
    → Returns (pop_active tasks rq) (λ s. IsIndexedRq s.1 × Took tasks rq s)
unfolding pop_active
pop_active-Took tasks rq v b full =
    Returns-bind (PrioArray.pop rq.active) _ _ _ (pop-Takes rq.active v.active_ok full)
      λ r _ p. take_popped-Took tasks rq r v b p.0 p.1

-- The two arrays change places, and every task stands where it stood, in the other array.
pub occurs-swap : (rq : O1Rq) (k g : ℕ) → occurs (swap rq) k g ≡ occurs rq k g
unfolding swap
occurs-swap rq k g = omega arith

swapped-Took :
    (tasks : ℕ → Option O1Task) (rq : O1Rq) (s : Option O1Task × O1Rq)
    → Took tasks (swap rq) s
    → Took tasks rq s
swapped-Took tasks rq (none, rq') d = absurd d
swapped-Took tasks rq (some t', rq') (k, g, t, found, e, h, adds) =
    (k, g, t, found, e, h, λ j i. omega (arith, adds j i, occurs-swap rq j i))

dequeue_expired :
    (tasks : ℕ → Option O1Task) (rq : O1Rq)
    → IsIndexedRq rq
    → Backed tasks rq
    → empty rq.expired ≡ false
    → Returns (pop_active tasks (swap rq)) (λ s. IsIndexedRq s.1 × Dequeues tasks rq s)
unfolding swap
dequeue_expired tasks rq v b full =
    Returns-map (pop_active tasks (swap rq)) _ _
      (pop_active-Took tasks (swap rq)
        (record { active_ok = v.expired_ok; expired_ok = v.active_ok })
        (λ k g z. b k g (λ e. z (omega (arith, e, occurs-swap rq k g)))) full)
      λ s p. (p.0, Took-Dequeues tasks rq s (swapped-Took tasks rq s p.1))

-- With no task in the active array.
dequeue_from_expired :
    (tasks : ℕ → Option O1Task) (rq : O1Rq)
    → IsIndexedRq rq
    → Backed tasks rq
    → empty rq.active ≡ true
    → Returns
        (if empty rq.expired then ok (none, rq) else pop_active tasks (swap rq))
        (λ s. IsIndexedRq s.1 × Dequeues tasks rq s)
dequeue_from_expired tasks rq v b none_active = elim (Bool-cases (empty rq.expired)) [
  | inr full ↦ rw full (dequeue_expired tasks rq v b full)
  | inl none_expired ↦ rw none_expired (
    v,
    (
      refl,
      λ k g. omega (
        arith,
        count-empty rq.active v.active_ok none_active k g,
        count-empty rq.expired v.expired_ok none_expired k g,
      ),
    ),
  )
]

-- Of a run queue with right bitmaps, whose tasks are all live and queued, Dequeue returns:
-- either a task that stood in it, made runnable, which then stands there once less while every
-- other entry stands as often as before, or null, and then the run queue was empty and is
-- unchanged.
pub dequeue-Dequeues :
    (tasks : ℕ → Option O1Task) (rq : O1Rq)
    → IsIndexedRq rq
    → Backed tasks rq
    → Returns (dequeue tasks rq) (λ s. IsIndexedRq s.1 × Dequeues tasks rq s)
unfolding dequeue
dequeue-Dequeues tasks rq v b = elim (Bool-cases (empty rq.active)) [
  | inr full ↦ rw full (
      Returns-map (pop_active tasks rq) _ _ (pop_active-Took tasks rq v b full)
        (λ s p. (p.0, Took-Dequeues tasks rq s p.1)))
  | inl none_active ↦ rw none_active (dequeue_from_expired tasks rq v b none_active)
]
