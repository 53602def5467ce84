-- ===== src/O1/Scheduler/Schedule.antt =====
-- O1Scheduler::O1Schedule and Schedule (schedulers/o1/o1_scheduler.cc): what an agent does once its
-- CPU is its own. The wait for a target to leave another CPU changes no state of the scheduler.
use ghost_userspace_o.Base.{
  ℕ, Bool, true, false, not, ◌||◌, ◌&&◌, if◌then◌else◌, Option, none, some, List, [], ◌∷◌, Outcome,
  ok, deref, ◌>>=◌,
}
use ghost_userspace_o.Dispatch.{dispatch_message}
use ghost_userspace_o.Dispatch.Messages.{Message}
use ghost_userspace_o.O1.Task.{set_remaining_time}
use ghost_userspace_o.O1.Scheduler.{
  O1Scheduler, Kernel, commit_txn, local_yield, rtla_on_idle, put_task, put_cpu, emit, points_to,
  empty_on, enqueue_on, dequeue_on, task_off_cpu, task_on_cpu,
}
use ghost_userspace_o.O1.Scheduler.Handlers.{callbacks, is_some}

-- A current task whose time ran out makes way if another waits, and else gets a new slice.
unfoldable pub preempt_current : ℕ → ℕ → O1Scheduler → Outcome O1Scheduler
preempt_current c prev s =
    if empty_on c s
    then (do t ← deref (s.tasks prev); ok (put_task prev (set_remaining_time t) s))
    else ok (put_cpu c (record (s.cpu_states c) { current = none }) s)

unfoldable pub settle_preemption : ℕ → O1Scheduler → Outcome O1Scheduler
settle_preemption c s =
    let s' = put_cpu c (record (s.cpu_states c) { preempt_curr = false }) s in
    if (s.cpu_states c).preempt_curr
    then elim (s.cpu_states c).current [ none ↦ ok s' | some prev ↦ preempt_current c prev s' ]
    else ok s

-- The current task, or else the next of the run queue; none at all under a boosted agent.
unfoldable pub pick_next : ℕ → Bool → O1Scheduler → Outcome (Option ℕ × O1Scheduler)
pick_next c prio_boost s =
    if prio_boost
    then ok (none, s)
    else elim (s.cpu_states c).current [ none ↦ dequeue_on c s | some g ↦ ok (some g, s) ]

unfoldable pub boost : ℕ → O1Scheduler → Outcome O1Scheduler
boost g s = do t ← deref (s.tasks g); ok (put_task g (record t { prio_boost = true }) s)

-- Txn commit failed: 'next' goes to the front of the run queue.
unfoldable pub commit_failed : Kernel → ℕ → ℕ → O1Scheduler → Outcome O1Scheduler
commit_failed k c g s = do
  s ← (if points_to (s.cpu_states c).current g then task_off_cpu k g false false s else ok s)
  s ← boost g s
  enqueue_on c g s

unfoldable pub run_next : Kernel → ℕ → ℕ → ℕ → O1Scheduler → Outcome O1Scheduler
run_next k c agent_barrier g s = do
  t ← deref (s.tasks g)
  let s' = emit (commit_txn c t.gtid t.seqnum agent_barrier) s
  if k.committed then task_on_cpu k g c s' else commit_failed k c g s'

unfoldable pub yield_cpu : ℕ → ℕ → Bool → O1Scheduler → O1Scheduler
yield_cpu c agent_barrier prio_boost s =
    let wanted = prio_boost && (is_some (s.cpu_states c).current || not (empty_on c s)) in
    emit (local_yield c agent_barrier (if wanted then rtla_on_idle else 0)) s

unfoldable pub dispose : Kernel → ℕ → ℕ → Bool → Option ℕ → O1Scheduler → Outcome O1Scheduler
dispose k c agent_barrier prio_boost none s = ok (yield_cpu c agent_barrier prio_boost s)
dispose k c agent_barrier prio_boost (some g) s = run_next k c agent_barrier g s

unfoldable pub o1_schedule : Kernel → ℕ → ℕ → Bool → O1Scheduler → Outcome O1Scheduler
o1_schedule k c agent_barrier prio_boost s = do
  s ← settle_preemption c s
  (next, s) ← pick_next c prio_boost s
  dispose k c agent_barrier prio_boost next s

-- The messages that wait in the channel of the CPU, each with what the kernel answers to it.
unfoldable pub drain : List (Kernel × Message) → O1Scheduler → Outcome O1Scheduler
drain [] s = ok s
drain ((k, m) ∷ ms) s = do s ← dispatch_message (callbacks k) m s; drain ms s

unfoldable pub schedule :
    Kernel → ℕ → ℕ → Bool → List (Kernel × Message) → O1Scheduler → Outcome O1Scheduler
schedule k c agent_barrier boosted ms s = do s ← drain ms s; o1_schedule k c agent_barrier boosted s
