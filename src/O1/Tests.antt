-- ===== src/O1/Tests.antt =====
-- The O(1) scheduler (schedulers/o1) on small inputs, and its theorems at such inputs.
use ghost_userspace_o.Base.{
  Outcome, ok, update, none, ℕ, ◌<◌, ◌≡◌, refl, true, false, some, List, [], ◌∷◌, Returns, arith,
  zero, suc, get_elem?,
}
use ghost_userspace_o.Base.Int.{◌+ℤ◌, pos, negsuc}
use ghost_userspace_o.Dispatch.{dispatch_message}
use ghost_userspace_o.Dispatch.Messages.{Message, task_message, TaskMessage}
use ghost_userspace_o.O1.Task.{O1Task, new_task}
use ghost_userspace_o.O1.PrioArray.{PrioArray, empty_array, push, pop, erase}
use ghost_userspace_o.O1.PrioArray.Bitmap.{
  IsIndexed, pushed, pushed-IsIndexed, empty_array-IsIndexed,
}
use ghost_userspace_o.O1.PrioArray.Order.{entries, entries_from, insert_entry, remove_entry}
use ghost_userspace_o.O1.PrioArray.Refine.{
  push_refines, pop_refines, erase_refines, Pops, has_entry,
}
use ghost_userspace_o.Base.{Option}
use ghost_userspace_o.Base.Int.{◌+ℤ◌, ℤ}
use ghost_userspace_o.O1.Task.{O1TaskState}
use ghost_userspace_o.O1.RunQueue.{O1Rq, with_state, enqueue, dequeue}
use ghost_userspace_o.O1.RunQueue
use ghost_userspace_o.O1.RunQueue.Renice.{enqueue-erase-active}
use ghost_userspace_o.O1.Task.{set_remaining_time}
use ghost_userspace_o.Base.{◌>>=◌}
use ghost_userspace_o.O1.RunQueue.Refine.{ShowsNext, dequeue_refines, Placed, enqueue_refines}
use ghost_userspace_o.O1.RunQueue.Laws.{IsIndexedRq}
use ghost_userspace_o.O1.Scheduler.{O1Scheduler, Kernel, max_cpus}
use ghost_userspace_o.O1.Scheduler.Handlers.{callbacks}
use ghost_userspace_o.O1.Scheduler.Schedule.{o1_schedule}
use ghost_userspace_o.O1.Scheduler.Invariant.{Inv}
use ghost_userspace_o.O1.Scheduler.Invariant.Picks.{o1_schedule-Inv}
use ghost_userspace_o.O1.Scheduler.Reach.{
  initial, initial-Inv, initial-Sound, ValidCpus, Arrives, Sound, dispatch_message-Sound, receives,
  take_step,
}
use ghost_userspace_o.Threads.{Threads, Phase}
use ghost_userspace_o.ArrList.Links.{update_miss}

-- Task 7 at nice 0, task 9 at nice -17.
abbrev two_tasks : PrioArray
two_tasks = pushed (pushed empty_array 20 false 7) 3 false 9

two_tasks-IsIndexed : IsIndexed two_tasks
two_tasks-IsIndexed =
    pushed-IsIndexed (pushed empty_array 20 false 7) 3 9 false (omega arith)
      (pushed-IsIndexed empty_array 20 7 false (omega arith) empty_array-IsIndexed)

entries-two_tasks : entries two_tasks ≡ (3, 9) ∷ (20, 7) ∷ []
unfolding entries entries_from
entries-two_tasks = refl

push_refines_example :
    Returns
      (push two_tasks (new_task 5) true)
      (λ b. IsIndexed b × (entries b ≡ insert_entry true 20 5 (entries two_tasks)))
push_refines_example =
    push_refines two_tasks (new_task 5) true 20 refl (omega arith) two_tasks-IsIndexed

abbrev too_nice : O1Task
too_nice = record (new_task 5) { static_priority = pos 140 }

pop_refines_example :
    Returns (pop two_tasks) (λ r. IsIndexed r.1 × Pops (entries two_tasks) (r.0, entries r.1))
pop_refines_example = pop_refines two_tasks two_tasks-IsIndexed

erase_refines_example : Returns (erase two_tasks (new_task 7)) (λ r.
    IsIndexed r.1
    × (r.0 ≡ has_entry 20 7 (entries two_tasks))
    × (entries r.1 ≡ remove_entry 20 7 (entries two_tasks)))
erase_refines_example =
    erase_refines two_tasks (new_task 7) 20 refl (omega arith) two_tasks-IsIndexed

abbrev cpus : List ℕ
cpus = 0 ∷ 1 ∷ []

cpus-ValidCpus : ValidCpus cpus
cpus-ValidCpus = (omega arith, below)
  where
    below : (n c : ℕ) → get_elem? cpus n ≡ some c → c < max_cpus
    below zero c e = ground arith
    below (suc zero) c e = ground arith
    below (suc (suc n)) c e = cc

abbrev kernel : Kernel
kernel = record { now = 5_000; later = 6_000; associated = λ g c b. true; committed = true }

abbrev arrives : Message
arrives = task_message (TaskMessage.new (negsuc 4) true) 7 1

-- The kernel's threads after it.
abbrev one_thread : Threads
one_thread = update (λ h. none) 7 (some (record { phase = Phase.ready; sent = 1 }))

arrives-Arrives : Arrives kernel arrives (λ h. none) one_thread
arrives-Arrives = (
  ((λ e. ground arith), refl, (λ h ne. update_miss (λ h. none) 7 h _ ne)),
  (λ g c th e. refl),
  (omega arith, omega arith),
)

dispatch_message-Sound_example :
    Returns (dispatch_message (callbacks kernel) arrives (initial cpus)) (Sound one_thread)
dispatch_message-Sound_example =
    dispatch_message-Sound kernel arrives (λ h. none) one_thread (initial cpus)
      (initial-Sound cpus cpus-ValidCpus) arrives-Arrives

o1_schedule-Inv_example : Returns (o1_schedule kernel 0 3 false (initial cpus)) Inv
o1_schedule-Inv_example =
    o1_schedule-Inv kernel 0 3 false (initial cpus) (initial-Inv cpus cpus-ValidCpus) (omega arith)

abbrev state_of : Outcome O1Scheduler → O1Scheduler
state_of (ok s) = s
state_of _ = initial cpus

abbrev arrived : O1Scheduler
arrived = state_of (take_step (receives kernel arrives one_thread) (initial cpus))

-- It departs before it was picked.
abbrev departs : Message
departs = task_message (TaskMessage.departed 0 false) 7 2

abbrev no_threads : Threads
no_threads = update one_thread 7 none

abbrev two_queued : O1Rq
two_queued = record { active = empty_array; expired = two_tasks }

two_queued-IsIndexedRq : IsIndexedRq two_queued
two_queued-IsIndexedRq = record {
  active_ok = empty_array-IsIndexed;
  expired_ok = two_tasks-IsIndexed;
}

abbrev queued_task : ℕ → ℤ → O1Task
queued_task g prio = record (new_task g) {
  static_priority = prio;
  cpu = pos 0;
  run_state = O1TaskState.queued;
}

abbrev queued_tasks : ℕ → Option O1Task
queued_tasks g = some (queued_task g (pos 120))

abbrev ready_task : O1Task
ready_task = record (queued_task 5 (pos 120)) { run_state = O1TaskState.runnable }

dequeue_refines_example :
    Returns (dequeue queued_tasks two_queued) (ShowsNext queued_tasks two_queued)
dequeue_refines_example =
    dequeue_refines queued_tasks two_queued two_queued-IsIndexedRq
      (λ k g h. (queued_task g (pos 120), refl, refl))

enqueue_refines_example :
    Returns (enqueue two_queued ready_task) (λ r. Placed two_queued ready_task 20 r.0)
enqueue_refines_example =
    enqueue_refines two_queued ready_task 20 0 refl refl refl (omega arith) two_queued-IsIndexedRq

abbrev sliced_task : O1Task
sliced_task = set_remaining_time (queued_task 7 (pos 120))

not_active : has_entry 20 7 (entries two_queued.active) ≡ false
unfolding entries entries_from
not_active = refl

is_expired : has_entry 20 7 (entries two_queued.expired) ≡ true
unfolding entries entries_from
is_expired = refl

-- Task 7, which waits in the expired array, gets the priority of nice -20.
enqueue-erase-active_example :
    Returns
      (RunQueue.erase two_queued sliced_task >>= λ r.
        enqueue r.0 (record r.1 { static_priority = pos 100 }))
      (λ s.
        (entries s.0.active ≡ insert_entry false 0 7 (entries two_queued.active))
        × (entries s.0.expired ≡ remove_entry 20 7 (entries two_queued.expired)))
enqueue-erase-active_example =
    enqueue-erase-active two_queued sliced_task 20 0 0 refl refl refl (omega arith) (omega arith)
      refl not_active is_expired two_queued-IsIndexedRq
