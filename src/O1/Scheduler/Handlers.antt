-- ===== src/O1/Scheduler/Handlers.antt =====
-- The message handlers of O1Scheduler (schedulers/o1/o1_scheduler.cc).
use ghost_userspace_o.Base.{
  ℕ, Bool, true, false, not, ◌||◌, ltb, if◌then◌else◌, Option, none, some, Outcome, ok, check,
  deref, ◌>>=◌, ◌>>◌,
}
use ghost_userspace_o.Base.Int.{ℤ, pos, ◌+ℤ◌, is_nonneg}
use ghost_userspace_o.Dispatch.{Callbacks}
use ghost_userspace_o.O1.Task.{
  O1Task, O1TaskState, is_blocked, is_queued, is_on_cpu, new_task, set_remaining_time,
  update_remaining_time,
}
use ghost_userspace_o.O1.Scheduler.{
  O1Scheduler, Kernel, ping, put_task, put_cpu, emit, cpu_of, enqueue_on, erase_on, assign_cpu,
  migrate, task_off_cpu, free_task, set_state,
}

-- nice [-20, +19] -> static_priority [100, 139].
abbrev pub priority_of : ℤ → ℤ
priority_of nice = pos 120 +ℤ nice

abbrev pub ping_if : Bool → ℕ → O1Scheduler → O1Scheduler
ping_if from_switchto cpu s = if from_switchto then emit (ping cpu) s else s

-- The task was allocated by the dispatcher.
unfoldable pub task_new : Kernel → ℕ → ℕ → ℤ → Bool → O1Scheduler → Outcome O1Scheduler
task_new k g seqnum nice runnable s = do
  t ← deref (s.tasks g)
  let t' = record (set_remaining_time t) {
    seqnum = seqnum;
    run_state = O1TaskState.blocked;
    static_priority = priority_of nice;
  }
  let s' = put_task g t' s
  if runnable
      then (do
        s ← set_state O1TaskState.runnable g s'
        (c, s) ← assign_cpu s
        migrate k g c seqnum s)
      else ok s'

-- A task without a CPU is given one; any other goes back to its run queue.
unfoldable pub place : Kernel → ℕ → ℕ → O1Task → O1Scheduler → Outcome O1Scheduler
place k g seqnum t s =
    if is_nonneg t.cpu
    then (do c ← cpu_of t; enqueue_on c g s)
    else (do (c, s) ← assign_cpu s; migrate k g c seqnum s)

unfoldable pub task_runnable : Kernel → ℕ → ℕ → Bool → O1Scheduler → Outcome O1Scheduler
task_runnable k g seqnum deferrable s = do
  t ← deref (s.tasks g)
  check (is_blocked t.run_state)
  let t' = record t { run_state = O1TaskState.runnable; prio_boost = not deferrable }
  place k g seqnum t' (put_task g t' s)

-- Takes a departing task out of where it is.
unfoldable pub detach : Kernel → ℕ → Bool → O1Task → O1Scheduler → Outcome O1Scheduler
detach k g from_switchto t s =
    if is_on_cpu t.run_state || from_switchto
    then task_off_cpu k g false from_switchto s
    else (if is_queued t.run_state
        then (do c ← cpu_of t; erase_on c g s)
        else (do check (is_blocked t.run_state); ok s))

unfoldable pub task_departed : Kernel → ℕ → ℕ → Bool → O1Scheduler → Outcome O1Scheduler
task_departed k g cpu from_switchto s = do
  t ← deref (s.tasks g)
  s ← detach k g from_switchto t s
  free_task g (ping_if from_switchto cpu s)

unfoldable pub task_dead : ℕ → O1Scheduler → Outcome O1Scheduler
task_dead g s = do t ← deref (s.tasks g); check (is_blocked t.run_state); free_task g s

-- `cpu_state_of` and Enqueue.
unfoldable pub requeue : ℕ → O1Scheduler → Outcome O1Scheduler
requeue g s = do t ← deref (s.tasks g); c ← cpu_of t; enqueue_on c g s

unfoldable pub task_yield : Kernel → ℕ → ℕ → Bool → O1Scheduler → Outcome O1Scheduler
task_yield k g cpu from_switchto s = do
  s ← task_off_cpu k g false from_switchto s
  s ← requeue g s
  ok (ping_if from_switchto cpu s)

unfoldable pub task_blocked : Kernel → ℕ → ℕ → Bool → O1Scheduler → Outcome O1Scheduler
task_blocked k g cpu from_switchto s = do
  s ← task_off_cpu k g true from_switchto s
  ok (ping_if from_switchto cpu s)

unfoldable pub boost_preempted : ℕ → O1Scheduler → Outcome O1Scheduler
boost_preempted g s = do
  t ← deref (s.tasks g)
  ok (put_task g (record t { preempted = true; prio_boost = true }) s)

unfoldable pub task_preempted : Kernel → ℕ → ℕ → Bool → O1Scheduler → Outcome O1Scheduler
task_preempted k g cpu from_switchto s = do
  s ← task_off_cpu k g false from_switchto s
  s ← boost_preempted g s
  s ← requeue g s
  ok (ping_if from_switchto cpu s)

unfoldable pub set_priority : ℤ → ℕ → O1Scheduler → Outcome O1Scheduler
set_priority priority g s = do
  t ← deref (s.tasks g)
  ok (put_task g (record t { static_priority = priority }) s)

unfoldable pub task_priority_changed : ℕ → ℤ → O1Scheduler → Outcome O1Scheduler
task_priority_changed g nice s = do
  t ← deref (s.tasks g)
  if is_queued t.run_state
      then (do
        c ← cpu_of t
        s ← erase_on c g s
        s ← set_priority (priority_of nice) g s
        enqueue_on c g s)
      else set_priority (priority_of nice) g s

unfoldable pub task_switchto : Kernel → ℕ → O1Scheduler → Outcome O1Scheduler
task_switchto k g s = task_off_cpu k g true false s

-- The current task of a CPU is charged for its time; if none is left it is to be preempted.
unfoldable pub check_preempt_tick : Kernel → ℕ → O1Scheduler → Outcome O1Scheduler
check_preempt_tick k c s = elim (s.cpu_states c).current [
  | none ↦ ok s
  | some g ↦ (do
    t ← deref (s.tasks g)
    let r = update_remaining_time false k.now k.later t
    let cs = s.cpu_states c
    ok (
        put_task g r.1
          (put_cpu c (record cs { preempt_curr = if r.0 then true else cs.preempt_curr }) s)))
]

unfoldable pub cpu_tick : Kernel → ℕ → O1Scheduler → Outcome O1Scheduler
cpu_tick k c s = check_preempt_tick k c s

abbrev pub is_some {ℓ} : {A : Type ℓ} → Option A → Bool
is_some none = false
is_some (some a) = true

-- CHECK_GT(next_seqnum, seqnum).
unfoldable pub advance : ℕ → ℕ → O1Scheduler → Outcome O1Scheduler
advance g seqnum s = do
  t ← deref (s.tasks g)
  check (ltb t.seqnum seqnum)
  ok (put_task g (record t { seqnum = seqnum }) s)

-- A callback that BasicDispatchScheduler leaves empty.
abbrev pub ignore : ℕ → O1Scheduler → Outcome O1Scheduler
ignore n s = ok s

abbrev pub callbacks : Kernel → Callbacks O1Scheduler
callbacks k = record {
  has_task = λ s g. is_some (s.tasks g);
  alloc_task = λ g s. put_task g (new_task g) s;
  task_new = task_new k;
  task_runnable = task_runnable k;
  task_dead = task_dead;
  task_departed = task_departed k;
  task_yield = task_yield k;
  task_blocked = task_blocked k;
  task_preempted = task_preempted k;
  task_switchto = task_switchto k;
  task_affinity_changed = ignore;
  task_priority_changed = task_priority_changed;
  task_on_cpu = ignore;
  cpu_tick = cpu_tick k;
  cpu_not_idle = ignore;
  cpu_timer_expired = ignore;
  cpu_available = ignore;
  cpu_busy = ignore;
  agent_blocked = ignore;
  agent_wakeup = ignore;
  advance = advance;
}
