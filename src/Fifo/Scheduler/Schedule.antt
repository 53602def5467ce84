-- ===== src/Fifo/Scheduler/Schedule.antt =====
-- FifoScheduler::FifoSchedule and Schedule (schedulers/fifo/per_cpu/fifo_scheduler.cc). The wait for
-- a target to leave another CPU changes no state of the scheduler.
use ghost_userspace_o.Base.{
  ℕ, Bool, true, false, not, ◌||◌, ◌&&◌, if◌then◌else◌, Option, none, some, List, [], ◌∷◌, Outcome,
  ok, deref, ◌>>=◌,
}
use ghost_userspace_o.Dispatch.{dispatch_message}
use ghost_userspace_o.Dispatch.Messages.{Message}
use ghost_userspace_o.Enclave.{commit_txn, local_yield, rtla_on_idle}
use ghost_userspace_o.Fifo.Scheduler.{
  FifoScheduler, Kernel, put_task, emit, points_to, empty_on, enqueue_on, dequeue_on, task_off_cpu,
  task_on_cpu,
}
use ghost_userspace_o.Fifo.Scheduler.Handlers.{callbacks, is_some}

-- The current task, or else the next of the run queue; none at all under a boosted agent.
unfoldable pub pick_next : ℕ → Bool → FifoScheduler → Outcome (Option ℕ × FifoScheduler)
pick_next c prio_boost s =
    if prio_boost
    then ok (none, s)
    else elim (s.cpu_states c).current [ none ↦ dequeue_on c s | some g ↦ ok (some g, s) ]

unfoldable pub boost : ℕ → FifoScheduler → Outcome FifoScheduler
boost g s = do t ← deref (s.tasks g); ok (put_task g (record t { prio_boost = true }) s)

-- Txn commit failed: 'next' goes to the front of the run queue.
unfoldable pub commit_failed : ℕ → ℕ → FifoScheduler → Outcome FifoScheduler
commit_failed c g s = do
  s ← (if points_to (s.cpu_states c).current g then task_off_cpu g false false s else ok s)
  s ← boost g s
  enqueue_on c g s

unfoldable pub run_next : Kernel → ℕ → ℕ → ℕ → FifoScheduler → Outcome FifoScheduler
run_next k c agent_barrier g s = do
  t ← deref (s.tasks g)
  let s' = emit (commit_txn c t.gtid t.seqnum agent_barrier) s
  if k.committed then task_on_cpu g c s' else commit_failed c g s'

unfoldable pub yield_cpu : ℕ → ℕ → Bool → FifoScheduler → FifoScheduler
yield_cpu c agent_barrier prio_boost s =
    let wanted = prio_boost && (is_some (s.cpu_states c).current || not (empty_on c s)) in
    emit (local_yield c agent_barrier (if wanted then rtla_on_idle else 0)) s

unfoldable pub dispose : Kernel → ℕ → ℕ → Bool → Option ℕ → FifoScheduler → Outcome FifoScheduler
dispose k c agent_barrier prio_boost none s = ok (yield_cpu c agent_barrier prio_boost s)
dispose k c agent_barrier prio_boost (some g) s = run_next k c agent_barrier g s

unfoldable pub fifo_schedule : Kernel → ℕ → ℕ → Bool → FifoScheduler → Outcome FifoScheduler
fifo_schedule k c agent_barrier prio_boost s = do
  (next, s) ← pick_next c prio_boost s
  dispose k c agent_barrier prio_boost next s

-- The messages that wait in the channel of the CPU, each with what the kernel answers to it.
unfoldable pub drain : List (Kernel × Message) → FifoScheduler → Outcome FifoScheduler
drain [] s = ok s
drain ((k, m) ∷ ms) s = do s ← dispatch_message (callbacks k) m s; drain ms s

unfoldable pub schedule :
    Kernel → ℕ → ℕ → Bool → List (Kernel × Message) → FifoScheduler → Outcome FifoScheduler
schedule k c agent_barrier boosted ms s = do
  s ← drain ms s
  fifo_schedule k c agent_barrier boosted s
