-- ===== src/O1/RunQueue/Renice.antt =====
-- What a change of priority does to a task that waits in the expired array of an O1Rq: the steps
-- that TaskPriorityChanged (schedulers/o1/o1_scheduler.cc) takes on the run queue.
use ghost_userspace_o.Base.{
  ℕ, ◌+◌, ◌<◌, ◌≡◌, refl, ap, ◌∙◌, inl, inr, Bool, true, false, List, [], ◌∷◌, ◌>>=◌, Returns,
  Returns-bind, Returns-map, arith,
}
use ghost_userspace_o.Base.Int.{pos, ltb_ℤ}
use ghost_userspace_o.O1.Task.{O1Task, O1TaskState, is_queued}
use ghost_userspace_o.O1.PrioArray.{PrioArray, num_prio}
use ghost_userspace_o.O1.PrioArray
use ghost_userspace_o.O1.PrioArray.Bitmap.{IsIndexed}
use ghost_userspace_o.O1.PrioArray.Order.{Entry, entries, insert_entry, remove_entry}
use ghost_userspace_o.O1.PrioArray.Refine.{erase_refines, has_entry}
use ghost_userspace_o.O1.RunQueue.{O1Rq, with_state, enqueue, erase, erase_from, erase_from_expired}
use ghost_userspace_o.O1.RunQueue.Laws.{IsIndexedRq}
use ghost_userspace_o.O1.RunQueue.Refine.{Placed, enqueue_refines}

remove_entry-missing :
    (k g : ℕ) (xs : List Entry) → has_entry k g xs ≡ false → remove_entry k g xs ≡ xs
remove_entry-missing k g [] h = refl
remove_entry-missing k g ((j, x) ∷ xs) h = ground (arith, remove_entry-missing k g xs)

-- The active queue is as it was, and the task, runnable, has left the expired one.
record Expelled (rq : O1Rq) (t : O1Task) (k : ℕ) (r : O1Rq × O1Task) : Type 0 where
  indexed : IsIndexedRq r.0
  active_kept : entries r.0.active ≡ entries rq.active
  expired_left : entries r.0.expired ≡ remove_entry k t.gtid (entries rq.expired)
  task_is : r.1 ≡ with_state O1TaskState.runnable t

erase_from-Expelled :
    (rq : O1Rq) (t : O1Task) (k : ℕ) (r : Bool × PrioArray)
    → t.static_priority ≡ pos (100 + k)
    → k < num_prio
    → has_entry k t.gtid (entries rq.expired) ≡ true
    → IsIndexedRq rq
    → IsIndexed r.1
    → r.0 ≡ false
    → entries r.1 ≡ entries rq.active
    → Returns (erase_from rq t r) (Expelled rq t k)
unfolding erase_from erase_from_expired
erase_from-Expelled rq t k (true, active) e h there v w miss same = cc
erase_from-Expelled rq t k (false, active) e h there v w miss same =
    Returns-bind (PrioArray.erase rq.expired t) _ _ _
      (erase_refines rq.expired t k e h v.expired_ok)
      λ r _ p.
        let hit : r.0 ≡ true = p.1 ∙ there in
        rw hit (record {
          indexed = record { active_ok = w; expired_ok = p.0 };
          active_kept = same;
          expired_left = p.2;
          task_is = refl;
        })

erase-Expelled :
    (rq : O1Rq) (t : O1Task) (k : ℕ)
    → t.run_state ≡ O1TaskState.queued
    → t.static_priority ≡ pos (100 + k)
    → k < num_prio
    → has_entry k t.gtid (entries rq.active) ≡ false
    → has_entry k t.gtid (entries rq.expired) ≡ true
    → IsIndexedRq rq
    → Returns (erase rq t) (Expelled rq t k)
unfolding erase
erase-Expelled rq t k q e h absent there v =
    let ready : is_queued t.run_state ≡ true = rw q refl in
    rw ready (
      Returns-bind (PrioArray.erase rq.active t) _ _ _ (erase_refines rq.active t k e h v.active_ok)
        (λ r _ p.
          erase_from-Expelled rq t k r e h there v p.0 (p.1 ∙ absent)
            (p.2 ∙ remove_entry-missing k t.gtid (entries rq.active) absent)))

-- A queued task with a CPU and time left, whose entry is in the expired array and not in the
-- active one, that is erased, gets another priority with a bucket and is enqueued again, as
-- TaskPriorityChanged does it, leaves the expired array and stands in the active array, under
-- its new priority; the run queue has right bitmaps at the start.
pub enqueue-erase-active :
    (rq : O1Rq) (t : O1Task) (k j c : ℕ)
    → t.run_state ≡ O1TaskState.queued
    → t.cpu ≡ pos c
    → t.static_priority ≡ pos (100 + k)
    → k < num_prio
    → j < num_prio
    → ltb_ℤ (pos 0) t.remaining_time ≡ true
    → has_entry k t.gtid (entries rq.active) ≡ false
    → has_entry k t.gtid (entries rq.expired) ≡ true
    → IsIndexedRq rq
    → Returns
        (erase rq t >>= λ r. enqueue r.0 (record r.1 { static_priority = pos (100 + j) }))
        (λ s.
          (entries s.0.active ≡ insert_entry t.prio_boost j t.gtid (entries rq.active))
          × (entries s.0.expired ≡ remove_entry k t.gtid (entries rq.expired)))
enqueue-erase-active rq t k j c q ec e h h' left absent there v =
    Returns-bind (erase rq t) _ _ _ (erase-Expelled rq t k q e h absent there v) λ r _ p.
      let u : O1Task = record r.1 { static_priority = pos (100 + j) } in
      let is = p.task_is in
      Returns-map (enqueue r.0 u) _ _
        (enqueue_refines r.0 u j c (ap (λ x. x.cpu) is ∙ ec) (ap (λ x. x.run_state) is) refl h'
          p.indexed)
        λ s w. go r p s w
  where
    go :
        (r : O1Rq × O1Task)
        → Expelled rq t k r
        → (s : O1Rq × O1Task) → Placed r.0 (record r.1 { static_priority = pos (100 + j) }) j s.0
        → (entries s.0.active ≡ insert_entry t.prio_boost j t.gtid (entries rq.active))
          × (entries s.0.expired ≡ remove_entry k t.gtid (entries rq.expired))
    go r p s (inl (_, into, same)) = (
      into
          ∙ ap (λ x. insert_entry x.prio_boost j x.gtid (entries r.0.active)) p.task_is
          ∙ ap (insert_entry t.prio_boost j t.gtid) p.active_kept,
      ap entries same ∙ p.expired_left,
    )
    go r p s (inr (spent, _, _)) =
        let not_spent : ltb_ℤ (pos 0) r.1.remaining_time ≡ true =
          ap (λ x. ltb_ℤ (pos 0) x.remaining_time) p.task_is ∙ left in
        cc
