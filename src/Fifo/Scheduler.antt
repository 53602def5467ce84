-- ===== src/Fifo/Scheduler.antt =====
-- FifoScheduler of schedulers/fifo/per_cpu/fifo_scheduler.h and .cc: its state and what its handlers
-- share. The map from gtids to tasks is the allocator's and the heap at once, as in O1/Scheduler.
pub mod Handlers
pub mod Schedule
pub mod Invariant
pub mod Reach
use ghost_userspace_o.Base.{
  ℕ, ◌+◌, Bool, true, false, if◌then◌else◌, ltb, ◌==◌, Option, none, some, List, ◌∷◌, length,
  get_elem?, update, Outcome, ok, check_failed, bad_access, check, deref, ◌>>=◌, ◌>>◌,
}
use ghost_userspace_o.Base.Int.{ℤ, pos, negsuc}
use ghost_userspace_o.Enclave.{Effect, associate_task, ping, free_status_word, max_cpus}
use ghost_userspace_o.Fifo.Task.{
  FifoTask, FifoTaskState, is_blocked, is_runnable, is_on_cpu, with_state,
}
use ghost_userspace_o.Fifo.RunQueue.{FifoRq}
use ghost_userspace_o.Fifo.RunQueue

-- Whether AssociateTask and Commit succeed during a step.
pub record Kernel : Type 0 where
  -- Of a task, the CPU of a channel and a barrier.
  pub associated : ℕ → ℕ → ℕ → Bool
  pub committed : Bool

pub record CpuState : Type 0 where
  pub current : Option ℕ
  pub run_queue : FifoRq

-- `next` is the place of AssignCpu's static iterator in `cpus`.
pub record FifoScheduler : Type 0 where
  pub tasks : ℕ → Option FifoTask
  pub cpu_states : ℕ → CpuState
  pub cpus : List ℕ
  pub next : ℕ
  pub effects : List Effect

abbrev pub put_task : ℕ → FifoTask → FifoScheduler → FifoScheduler
put_task g t s = record s { tasks = update s.tasks g (some t) }

abbrev pub put_cpu : ℕ → CpuState → FifoScheduler → FifoScheduler
put_cpu c cs s = record s { cpu_states = update s.cpu_states c cs }

abbrev pub emit : Effect → FifoScheduler → FifoScheduler
emit e s = record s { effects = e ∷ s.effects }

abbrev pub points_to : Option ℕ → ℕ → Bool
points_to none g = false
points_to (some x) g = x == g

-- cpu_state_of: the index that its CHECKs let through.
unfoldable pub cpu_of : FifoTask → Outcome ℕ
cpu_of t = elim t.cpu [ pos c ↦ (check (ltb c max_cpus) >> ok c) | negsuc n ↦ check_failed ]

abbrev pub put_queue : ℕ → FifoRq → FifoScheduler → FifoScheduler
put_queue c rq s = put_cpu c (record (s.cpu_states c) { run_queue = rq }) s

unfoldable pub enqueue_on : ℕ → ℕ → FifoScheduler → Outcome FifoScheduler
enqueue_on c g s = do
  t ← deref (s.tasks g)
  (rq, t') ← RunQueue.enqueue (s.cpu_states c).run_queue t
  ok (put_task g t' (put_queue c rq s))

unfoldable pub erase_on : ℕ → ℕ → FifoScheduler → Outcome FifoScheduler
erase_on c g s = do
  t ← deref (s.tasks g)
  (rq, t') ← RunQueue.erase (s.cpu_states c).run_queue t
  ok (put_task g t' (put_queue c rq s))

unfoldable pub store_dequeued :
    ℕ → FifoScheduler → Option FifoTask × FifoRq → Option ℕ × FifoScheduler
store_dequeued c s (none, rq) = (none, put_queue c rq s)
store_dequeued c s (some t, rq) = (some t.gtid, put_task t.gtid t (put_queue c rq s))

unfoldable pub dequeue_on : ℕ → FifoScheduler → Outcome (Option ℕ × FifoScheduler)
dequeue_on c s = do
  r ← RunQueue.dequeue s.tasks (s.cpu_states c).run_queue
  ok (store_dequeued c s r)

abbrev pub empty_on : ℕ → FifoScheduler → Bool
empty_on c s = RunQueue.is_empty_rq (s.cpu_states c).run_queue

-- Round robin over the CPUs of the enclave; the end of the list is skipped before it is read.
unfoldable pub assign_cpu : FifoScheduler → Outcome (ℕ × FifoScheduler)
assign_cpu s = do
  let n = if s.next == length s.cpus then 0 else s.next
  c ← deref (get_elem? s.cpus n)
  ok (c, record s { next = n + 1 })

abbrev pub is_unassigned : ℤ → Bool
is_unassigned (pos c) = false
is_unassigned (negsuc n) = n == 0

unfoldable pub migrate : Kernel → ℕ → ℕ → ℕ → FifoScheduler → Outcome FifoScheduler
migrate k g c seqnum s = do
  t ← deref (s.tasks g)
  check (is_runnable t.run_state)
  check (is_unassigned t.cpu)
  check (k.associated g c seqnum)
  let s' = put_task g (record t { cpu = pos c }) (emit (associate_task g c seqnum) s)
  s ← enqueue_on c g s'
  ok (emit (ping c) s)

abbrev pub after_off_cpu : Bool → FifoTaskState
after_off_cpu blocked = if blocked then FifoTaskState.blocked else FifoTaskState.runnable

-- A task leaves the CPU whose current task it is; the last of a SwitchTo chain is on none.
unfoldable pub task_off_cpu : ℕ → Bool → Bool → FifoScheduler → Outcome FifoScheduler
task_off_cpu g blocked from_switchto s = do
  t ← deref (s.tasks g)
  c ← cpu_of t
  let cs = s.cpu_states c
  if is_on_cpu t.run_state
      then (do
        check (points_to cs.current g)
        let s' = put_cpu c (record cs { current = none }) s
        ok (put_task g (with_state (after_off_cpu blocked) t) s'))
      else (do
        check from_switchto
        check (is_blocked t.run_state)
        ok (put_task g (with_state (after_off_cpu blocked) t) s))

unfoldable pub task_on_cpu : ℕ → ℕ → FifoScheduler → Outcome FifoScheduler
task_on_cpu g c s = do
  t ← deref (s.tasks g)
  let t' = record t {
    run_state = FifoTaskState.on_cpu;
    cpu = pos c;
    preempted = false;
    prio_boost = false;
  }
  ok (put_task g t' (put_cpu c (record (s.cpu_states c) { current = some g }) s))

-- TaskAllocator::FreeTask: the task leaves the map and is destroyed.
unfoldable pub free_task : ℕ → FifoScheduler → Outcome FifoScheduler
free_task g s = do
  t ← deref (s.tasks g)
  ok (emit (free_status_word t.gtid) (record s { tasks = update s.tasks t.gtid none }))
