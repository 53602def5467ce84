-- ===== src/Fifo/Scheduler/Handlers.antt =====
-- The message handlers of FifoScheduler (schedulers/fifo/per_cpu/fifo_scheduler.cc).
use ghost_userspace_o.Base.{
  ℕ, Bool, true, false, not, ◌||◌, ltb, if◌then◌else◌, Option, none, some, Outcome, ok, check,
  deref, ◌>>=◌, ◌>>◌,
}
use ghost_userspace_o.Base.Int.{ℤ, is_nonneg}
use ghost_userspace_o.Dispatch.{Callbacks}
use ghost_userspace_o.Enclave.{ping}
use ghost_userspace_o.Fifo.Task.{
  FifoTask, FifoTaskState, is_blocked, is_queued, is_on_cpu, new_task, with_state,
}
use ghost_userspace_o.Fifo.Scheduler.{
  FifoScheduler, Kernel, put_task, emit, cpu_of, enqueue_on, erase_on, assign_cpu, migrate,
  task_off_cpu, free_task,
}

abbrev pub ping_if : Bool → ℕ → FifoScheduler → FifoScheduler
ping_if from_switchto cpu s = if from_switchto then emit (ping cpu) s else s

-- AssignCpu and Migrate.
unfoldable pub send_away : Kernel → ℕ → ℕ → FifoScheduler → Outcome FifoScheduler
send_away k g seqnum s = do (c, s) ← assign_cpu s; migrate k g c seqnum s

-- The task was allocated by the dispatcher.
unfoldable pub task_new : Kernel → ℕ → ℕ → ℤ → Bool → FifoScheduler → Outcome FifoScheduler
task_new k g seqnum nice runnable s = do
  t ← deref (s.tasks g)
  let t' = record t { seqnum = seqnum; run_state = FifoTaskState.blocked }
  if runnable
      then send_away k g seqnum (put_task g (with_state FifoTaskState.runnable t') s)
      else ok (put_task g t' s)

-- A task without a CPU is given one; any other goes back to its run queue.
unfoldable pub place : Kernel → ℕ → ℕ → FifoTask → FifoScheduler → Outcome FifoScheduler
place k g seqnum t s =
    if is_nonneg t.cpu then (do c ← cpu_of t; enqueue_on c g s) else send_away k g seqnum s

unfoldable pub task_runnable : Kernel → ℕ → ℕ → Bool → FifoScheduler → Outcome FifoScheduler
task_runnable k g seqnum deferrable s = do
  t ← deref (s.tasks g)
  check (is_blocked t.run_state)
  let t' = record t { run_state = FifoTaskState.runnable; prio_boost = not deferrable }
  place k g seqnum t' (put_task g t' s)

-- Takes a departing task out of where it is.
unfoldable pub detach : ℕ → Bool → FifoTask → FifoScheduler → Outcome FifoScheduler
detach g from_switchto t s =
    if is_on_cpu t.run_state || from_switchto
    then task_off_cpu g false from_switchto s
    else (if is_queued t.run_state
        then (do c ← cpu_of t; erase_on c g s)
        else (do check (is_blocked t.run_state); ok s))

unfoldable pub task_departed : ℕ → ℕ → Bool → FifoScheduler → Outcome FifoScheduler
task_departed g cpu from_switchto s = do
  t ← deref (s.tasks g)
  s ← detach g from_switchto t s
  free_task g (ping_if from_switchto cpu s)

unfoldable pub task_dead : ℕ → FifoScheduler → Outcome FifoScheduler
task_dead g s = do t ← deref (s.tasks g); check (is_blocked t.run_state); free_task g s

-- `cpu_state_of` and Enqueue.
unfoldable pub requeue : ℕ → FifoScheduler → Outcome FifoScheduler
requeue g s = do t ← deref (s.tasks g); c ← cpu_of t; enqueue_on c g s

unfoldable pub task_yield : ℕ → ℕ → Bool → FifoScheduler → Outcome FifoScheduler
task_yield g cpu from_switchto s = do
  s ← task_off_cpu g false from_switchto s
  s ← requeue g s
  ok (ping_if from_switchto cpu s)

unfoldable pub task_blocked : ℕ → ℕ → Bool → FifoScheduler → Outcome FifoScheduler
task_blocked g cpu from_switchto s = do
  s ← task_off_cpu g true from_switchto s
  ok (ping_if from_switchto cpu s)

unfoldable pub boost_preempted : ℕ → FifoScheduler → Outcome FifoScheduler
boost_preempted g s = do
  t ← deref (s.tasks g)
  ok (put_task g (record t { preempted = true; prio_boost = true }) s)

unfoldable pub task_preempted : ℕ → ℕ → Bool → FifoScheduler → Outcome FifoScheduler
task_preempted g cpu from_switchto s = do
  s ← task_off_cpu g false from_switchto s
  s ← boost_preempted g s
  s ← requeue g s
  ok (ping_if from_switchto cpu s)

unfoldable pub task_switchto : ℕ → FifoScheduler → Outcome FifoScheduler
task_switchto g s = task_off_cpu g true false s

abbrev pub is_some {ℓ} : {A : Type ℓ} → Option A → Bool
is_some none = false
is_some (some a) = true

-- CHECK_GT(next_seqnum, seqnum).
unfoldable pub advance : ℕ → ℕ → FifoScheduler → Outcome FifoScheduler
advance g seqnum s = do
  t ← deref (s.tasks g)
  check (ltb t.seqnum seqnum)
  ok (put_task g (record t { seqnum = seqnum }) s)

-- The callbacks that BasicDispatchScheduler leaves empty.
abbrev pub ignore : ℕ → FifoScheduler → Outcome FifoScheduler
ignore n s = ok s

abbrev pub callbacks : Kernel → Callbacks FifoScheduler
callbacks k = record {
  has_task = λ s g. is_some (s.tasks g);
  alloc_task = λ g s. put_task g (new_task g) s;
  task_new = task_new k;
  task_runnable = task_runnable k;
  task_dead = task_dead;
  task_departed = task_departed;
  task_yield = task_yield;
  task_blocked = task_blocked;
  task_preempted = task_preempted;
  task_switchto = task_switchto;
  task_affinity_changed = ignore;
  task_priority_changed = λ g nice s. ok s;
  task_on_cpu = ignore;
  cpu_tick = ignore;
  cpu_not_idle = ignore;
  cpu_timer_expired = ignore;
  cpu_available = ignore;
  cpu_busy = ignore;
  agent_blocked = ignore;
  agent_wakeup = ignore;
  advance = advance;
}
