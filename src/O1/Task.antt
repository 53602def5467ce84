-- ===== src/O1/Task.antt =====
-- O1TaskState, O1Task and O1Task::UpdateRemainingTime of schedulers/o1/o1_scheduler.h and .cc,
-- with the fields that O1Task inherits from Task of lib/scheduler.h. A pointer to a task is the
-- number of its gtid. An instant is a number of nanoseconds since the epoch, and a duration, which
-- may be negative, an integer of nanoseconds.
use ghost_userspace_o.Base.{ℕ, Bool, true, false, if◌then◌else◌}
use ghost_userspace_o.Base.Int.{ℤ, pos, negsuc, ◌-ℤ◌, sub_ℕ, leb_ℤ}

pub data O1TaskState : Type 0 where
  blocked runnable queued on_cpu : O1TaskState

abbrev pub is_blocked : O1TaskState → Bool
is_blocked O1TaskState.blocked = true
is_blocked _ = false

abbrev pub is_runnable : O1TaskState → Bool
is_runnable O1TaskState.runnable = true
is_runnable _ = false

abbrev pub is_queued : O1TaskState → Bool
is_queued O1TaskState.queued = true
is_queued _ = false

abbrev pub is_on_cpu : O1TaskState → Bool
is_on_cpu O1TaskState.on_cpu = true
is_on_cpu _ = false

pub record O1Task : Type 0 where
  pub gtid : ℕ
  pub seqnum : ℕ
  pub static_priority : ℤ
  pub run_state : O1TaskState
  pub cpu : ℤ
  pub preempted : Bool
  pub prio_boost : Bool
  pub runtime_at_last_pick : ℕ
  pub remaining_time : ℤ

-- The default member initializers.
abbrev pub new_task : ℕ → O1Task
new_task gtid = record {
  gtid = gtid;
  seqnum = 0;
  static_priority = pos 120;
  run_state = O1TaskState.blocked;
  cpu = negsuc 0;
  preempted = false;
  prio_boost = false;
  runtime_at_last_pick = 0;
  remaining_time = pos 0;
}

-- 10 ms.
abbrev pub time_slice : ℤ
time_slice = pos 10_000_000

abbrev pub set_remaining_time : O1Task → O1Task
set_remaining_time t = record t { remaining_time = time_slice }

abbrev pub set_runtime_at_last_pick : ℕ → O1Task → O1Task
set_runtime_at_last_pick now t = record t { runtime_at_last_pick = now }

-- The code reads the clock twice: `now` is charged to the task, `later` starts its next stretch.
unfoldable pub update_remaining_time : Bool → ℕ → ℕ → O1Task → Bool × O1Task
update_remaining_time is_off now later t =
    let charged : O1Task = record t {
      remaining_time = t.remaining_time -ℤ sub_ℕ now t.runtime_at_last_pick;
    } in
    if is_off
    then (false, charged)
    else (leb_ℤ charged.remaining_time (pos 0), set_runtime_at_last_pick later charged)
