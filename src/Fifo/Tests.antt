-- ===== src/Fifo/Tests.antt =====
-- The FIFO scheduler (schedulers/fifo/per_cpu) on small inputs, and its theorems at such inputs.
use ghost_userspace_o.Base.{
  ℕ, zero, suc, ◌<◌, ◌≡◌, refl, true, false, some, List, [], ◌∷◌, Outcome, ok, check_failed, ◌>>=◌,
  Returns, arith, get_elem?,
}
use ghost_userspace_o.Base.Int.{pos}
use ghost_userspace_o.Dispatch.{dispatch_message, dispatch_to_task, dispatch_task}
use ghost_userspace_o.Dispatch.Messages.{Message, task_message, TaskMessage}
use ghost_userspace_o.Enclave.{max_cpus}
use ghost_userspace_o.Fifo.Task.{FifoTask, FifoTaskState, new_task, with_state}
use ghost_userspace_o.Fifo.RunQueue.{FifoRq, erase, enqueue, dequeue}
use ghost_userspace_o.Fifo.RunQueue.Laws.{
  remove, fifo_erase_refines, erase_missing, dequeue-enqueue,
}
use ghost_userspace_o.Fifo.Scheduler.{
  FifoScheduler, Kernel, assign_cpu, migrate, enqueue_on, dequeue_on, store_dequeued, task_on_cpu,
}
use ghost_userspace_o.Fifo.Scheduler.Handlers.{task_new, send_away}
use ghost_userspace_o.Fifo.Scheduler.Schedule.{fifo_schedule, pick_next, dispose, run_next}
use ghost_userspace_o.Fifo.Scheduler.Invariant.{Inv}
use ghost_userspace_o.Fifo.Scheduler.Invariant.Allowed.{Allowed}
use ghost_userspace_o.Fifo.Scheduler.Invariant.Picks.{fifo_schedule-Inv}
use ghost_userspace_o.Fifo.Scheduler.Reach.{
  initial, initial-Inv, ValidCpus, receives, schedules, take_step, Reach, here, next,
  one_task_per_cpu,
}

abbrev three_queued : FifoRq
three_queued = record { rq = 4 ∷ 7 ∷ 9 ∷ [] }

abbrev queued_task : FifoTask
queued_task = record (new_task 7) { run_state = FifoTaskState.queued; cpu = pos 0 }

fifo_erase_refines_example :
    erase three_queued queued_task
    ≡ ok (record { rq = remove 7 three_queued.rq }, with_state FifoTaskState.runnable queued_task)
fifo_erase_refines_example = fifo_erase_refines three_queued queued_task refl refl

abbrev missing_task : FifoTask
missing_task = record queued_task { gtid = 5 }

erase_missing_example : erase three_queued missing_task ≡ check_failed
erase_missing_example = erase_missing three_queued missing_task refl

abbrev boosted_task : FifoTask
boosted_task = record queued_task { prio_boost = true; run_state = FifoTaskState.runnable }

dequeue-enqueue_example :
    (enqueue three_queued boosted_task >>= λ r.
    dequeue (λ _. some (with_state FifoTaskState.queued boosted_task)) r.0)
    ≡ ok (some (with_state FifoTaskState.runnable boosted_task), three_queued)
dequeue-enqueue_example =
    dequeue-enqueue (λ _. some (with_state FifoTaskState.queued boosted_task)) three_queued
      boosted_task 0 refl refl refl refl

abbrev cpus : List ℕ
cpus = 0 ∷ 1 ∷ []

cpus-ValidCpus : ValidCpus cpus
cpus-ValidCpus = (omega arith, below)
  where
    below : (n c : ℕ) → get_elem? cpus n ≡ some c → c < max_cpus
    below zero c e = ground arith
    below (suc zero) c e = ground arith
    below (suc (suc n)) c e = cc

abbrev kernel : Kernel
kernel = record { associated = λ g c b. true; committed = true }

abbrev arrives : Message
arrives = task_message (TaskMessage.new (pos 0) true) 7 1

arrives-Allowed : Allowed kernel (initial cpus) arrives
arrives-Allowed = ((λ e. ground arith), (λ t e. cc), (λ c. refl))

fifo_schedule-Inv_example : Returns (fifo_schedule kernel 0 3 false (initial cpus)) Inv
fifo_schedule-Inv_example =
    fifo_schedule-Inv kernel 0 3 false (initial cpus) (initial-Inv cpus cpus-ValidCpus)
      (omega arith)

abbrev state_of : Outcome FifoScheduler → FifoScheduler
state_of (ok s) = s
state_of _ = initial cpus

-- Task 7 arrives and is picked on CPU 0.
abbrev arrived : FifoScheduler
arrived = state_of (take_step (receives kernel arrives) (initial cpus))

abbrev picked : FifoScheduler
picked = state_of (take_step (schedules kernel 0 3 false) arrived)

arrived_lem : take_step (receives kernel arrives) (initial cpus) ≡ ok arrived
unfolding take_step dispatch_message dispatch_to_task dispatch_task task_new send_away assign_cpu
    migrate enqueue_on enqueue
arrived_lem = refl

picked_lem : take_step (schedules kernel 0 3 false) arrived ≡ ok picked
unfolding take_step dispatch_message dispatch_to_task dispatch_task task_new send_away assign_cpu
    migrate enqueue_on enqueue fifo_schedule pick_next dequeue_on dequeue store_dequeued dispose
    run_next task_on_cpu
picked_lem = refl

picked-Reach : Reach (initial cpus) picked
picked-Reach =
    next (schedules kernel 0 3 false)
      (next (receives kernel arrives) here arrives-Allowed arrived_lem) (omega arith) picked_lem

abbrev running_task : FifoTask
running_task = record (new_task 7) { seqnum = 1; run_state = FifoTaskState.on_cpu; cpu = pos 0 }

running_lem : picked.tasks 7 ≡ some running_task
unfolding take_step dispatch_message dispatch_to_task dispatch_task task_new send_away assign_cpu
    migrate enqueue_on enqueue fifo_schedule pick_next dequeue_on dequeue store_dequeued dispose
    run_next task_on_cpu
running_lem = refl

one_task_per_cpu_example : running_task.gtid ≡ 7
one_task_per_cpu_example =
    one_task_per_cpu cpus picked 7 7 0 running_task running_task cpus-ValidCpus picked-Reach
      running_lem running_lem refl refl refl refl
