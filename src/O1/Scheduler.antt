-- ===== src/O1/Scheduler.antt =====
-- O1Scheduler of schedulers/o1/o1_scheduler.h and .cc: its state and its operations. The map from
-- gtids to tasks is the allocator's (lib/scheduler.h) and the heap at once: a pointer to a task is
-- its gtid, and one that was freed dangles. What the kernel answers during one step is `Kernel`, and
-- what the step asks of the kernel and of other agents is added to `effects`, newest first.
pub mod Handlers
pub mod Schedule
pub mod Invariant
pub mod Follows
pub mod Reach
use ghost_userspace_o.Base.{
  ℕ, zero, suc, ◌+◌, Bool, true, false, not, if◌then◌else◌, ltb, ◌==◌, Option, none, some, List, [],
  ◌∷◌, length, get_elem?, update, Outcome, ok, check_failed, bad_access, check, deref, ◌>>=◌, ◌>>◌,
}
use ghost_userspace_o.Base.Int.{ℤ, pos, negsuc, is_nonneg}
use ghost_userspace_o.O1.Task.{
  O1Task, O1TaskState, is_blocked, is_runnable, is_queued, is_on_cpu, new_task, set_remaining_time,
  set_runtime_at_last_pick, update_remaining_time,
}
use ghost_userspace_o.O1.RunQueue.{O1Rq, with_state}
use ghost_userspace_o.O1.RunQueue
pub use ghost_userspace_o.Enclave.{
  Effect, associate_task, ping, commit_txn, local_yield, free_status_word, max_cpus, rtla_on_idle,
}

-- The clock at the first and at the second reading of a step, and whether AssociateTask and Commit
-- succeed.
pub record Kernel : Type 0 where
  pub now : ℕ
  pub later : ℕ
  -- Of a task, the CPU of a channel and a barrier.
  pub associated : ℕ → ℕ → ℕ → Bool
  pub committed : Bool

pub record CpuState : Type 0 where
  pub current : Option ℕ
  pub run_queue : O1Rq
  pub preempt_curr : Bool

-- `next` is the place of AssignCpu's static iterator in `cpus`.
pub record O1Scheduler : Type 0 where
  pub tasks : ℕ → Option O1Task
  pub cpu_states : ℕ → CpuState
  pub cpus : List ℕ
  pub next : ℕ
  pub effects : List Effect

abbrev pub put_task : ℕ → O1Task → O1Scheduler → O1Scheduler
put_task g t s = record s { tasks = update s.tasks g (some t) }

abbrev pub put_cpu : ℕ → CpuState → O1Scheduler → O1Scheduler
put_cpu c cs s = record s { cpu_states = update s.cpu_states c cs }

abbrev pub emit : Effect → O1Scheduler → O1Scheduler
emit e s = record s { effects = e ∷ s.effects }

abbrev pub points_to : Option ℕ → ℕ → Bool
points_to none g = false
points_to (some x) g = x == g

-- cpu_state_of: the index that its CHECKs let through.
unfoldable pub cpu_of : O1Task → Outcome ℕ
cpu_of t = elim t.cpu [ pos c ↦ (check (ltb c max_cpus) >> ok c) | negsuc n ↦ check_failed ]

unfoldable pub enqueue_on : ℕ → ℕ → O1Scheduler → Outcome O1Scheduler
enqueue_on c g s = do
  t ← deref (s.tasks g)
  (rq, t') ← RunQueue.enqueue (s.cpu_states c).run_queue t
  ok (put_task g t' (put_cpu c (record (s.cpu_states c) { run_queue = rq }) s))

unfoldable pub erase_on : ℕ → ℕ → O1Scheduler → Outcome O1Scheduler
erase_on c g s = do
  t ← deref (s.tasks g)
  (rq, t') ← RunQueue.erase (s.cpu_states c).run_queue t
  ok (put_task g t' (put_cpu c (record (s.cpu_states c) { run_queue = rq }) s))

unfoldable pub store_dequeued : ℕ → O1Scheduler → Option O1Task × O1Rq → Option ℕ × O1Scheduler
store_dequeued c s (none, rq) = (none, put_cpu c (record (s.cpu_states c) { run_queue = rq }) s)
store_dequeued c s (some t, rq) =
    (some t.gtid, put_task t.gtid t (put_cpu c (record (s.cpu_states c) { run_queue = rq }) s))

unfoldable pub dequeue_on : ℕ → O1Scheduler → Outcome (Option ℕ × O1Scheduler)
dequeue_on c s = do
  r ← RunQueue.dequeue s.tasks (s.cpu_states c).run_queue
  ok (store_dequeued c s r)

unfoldable pub empty_on : ℕ → O1Scheduler → Bool
empty_on c s = RunQueue.is_empty_rq (s.cpu_states c).run_queue

-- Round robin over the CPUs of the enclave; the end of the list is skipped before it is read.
unfoldable pub assign_cpu : O1Scheduler → Outcome (ℕ × O1Scheduler)
assign_cpu s = do
  let n = if s.next == length s.cpus then 0 else s.next
  c ← deref (get_elem? s.cpus n)
  ok (c, record s { next = n + 1 })

abbrev pub is_unassigned : ℤ → Bool
is_unassigned (pos c) = false
is_unassigned (negsuc n) = n == 0

unfoldable pub migrate : Kernel → ℕ → ℕ → ℕ → O1Scheduler → Outcome O1Scheduler
migrate k g c seqnum s = do
  t ← deref (s.tasks g)
  check (is_runnable t.run_state)
  check (is_unassigned t.cpu)
  check (k.associated g c seqnum)
  let s' = put_task g (record t { cpu = pos c }) (emit (associate_task g c seqnum) s)
  s ← enqueue_on c g s'
  ok (emit (ping c) s)

-- Takes `g` off its CPU: the time that it ran is charged, and it is current no more.
abbrev pub leave_cpu : Kernel → ℕ → ℕ → O1Task → O1Scheduler → O1Scheduler
leave_cpu k c g t s =
    let (expired, t') = update_remaining_time true k.now k.later t in
    let cs = s.cpu_states c in
    put_task g t' (
      put_cpu c
        (record cs {
          preempt_curr = if expired then true else cs.preempt_curr;
          current = if points_to cs.current g then none else cs.current;
        })
        s)

abbrev pub after_off_cpu : Bool → O1TaskState
after_off_cpu blocked = if blocked then O1TaskState.blocked else O1TaskState.runnable

unfoldable pub set_state : O1TaskState → ℕ → O1Scheduler → Outcome O1Scheduler
set_state state g s = do t ← deref (s.tasks g); ok (put_task g (with_state state t) s)

unfoldable pub task_off_cpu : Kernel → ℕ → Bool → Bool → O1Scheduler → Outcome O1Scheduler
task_off_cpu k g blocked from_switchto s = do
  t ← deref (s.tasks g)
  c ← cpu_of t
  if is_on_cpu t.run_state then set_state (after_off_cpu blocked) g (leave_cpu k c g t s) else (do
    check from_switchto
    check (is_blocked t.run_state)
    set_state (after_off_cpu blocked) g s)

unfoldable pub task_on_cpu : Kernel → ℕ → ℕ → O1Scheduler → Outcome O1Scheduler
task_on_cpu k g c s = do
  t ← deref (s.tasks g)
  let t' = record (set_runtime_at_last_pick k.later t) {
    run_state = O1TaskState.on_cpu;
    cpu = pos c;
    preempted = false;
    prio_boost = false;
  }
  ok (put_task g t' (put_cpu c (record (s.cpu_states c) { current = some g }) s))

-- TaskAllocator::FreeTask: the task leaves the map and is destroyed.
unfoldable pub free_task : ℕ → O1Scheduler → Outcome O1Scheduler
free_task g s = do
  t ← deref (s.tasks g)
  ok (emit (free_status_word t.gtid) (record s { tasks = update s.tasks t.gtid none }))
