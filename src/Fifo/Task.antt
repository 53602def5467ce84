-- ===== src/Fifo/Task.antt =====
-- FifoTaskState and FifoTask of schedulers/fifo/per_cpu/fifo_scheduler.h, with the fields that
-- FifoTask inherits from Task of lib/scheduler.h. A pointer to a task is the number of its gtid.
use ghost_userspace_o.Base.{ℕ, Bool, true, false}
use ghost_userspace_o.Base.Int.{ℤ, negsuc}

pub data FifoTaskState : Type 0 where
  blocked runnable queued on_cpu : FifoTaskState

abbrev pub is_blocked : FifoTaskState → Bool
is_blocked FifoTaskState.blocked = true
is_blocked _ = false

abbrev pub is_runnable : FifoTaskState → Bool
is_runnable FifoTaskState.runnable = true
is_runnable _ = false

abbrev pub is_queued : FifoTaskState → Bool
is_queued FifoTaskState.queued = true
is_queued _ = false

abbrev pub is_on_cpu : FifoTaskState → Bool
is_on_cpu FifoTaskState.on_cpu = true
is_on_cpu _ = false

pub record FifoTask : Type 0 where
  pub gtid : ℕ
  pub seqnum : ℕ
  pub run_state : FifoTaskState
  pub cpu : ℤ
  pub preempted : Bool
  pub prio_boost : Bool

-- The default member initializers.
abbrev pub new_task : ℕ → FifoTask
new_task gtid = record {
  gtid = gtid;
  seqnum = 0;
  run_state = FifoTaskState.blocked;
  cpu = negsuc 0;
  preempted = false;
  prio_boost = false;
}

abbrev pub with_state : FifoTaskState → FifoTask → FifoTask
with_state state t = record t { run_state = state }
