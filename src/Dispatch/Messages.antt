-- ===== src/Dispatch/Messages.antt =====
-- The messages that the kernel produces into a channel (kernel/ghost_uapi.h), with the fields of
-- their payloads that the schedulers read. `other` stands for the types that no switch names.
use ghost_userspace_o.Base.{ℕ, Bool}
use ghost_userspace_o.Base.Int.{ℤ}

pub data CpuMessage : Type 0 where
  tick not_idle timer_expired available busy agent_blocked agent_wakeup other : CpuMessage

pub data TaskMessage : Type 0 where
  -- `nice` and `runnable`.
  new : ℤ → Bool → TaskMessage
  -- `deferrable`.
  wakeup : Bool → TaskMessage
  -- `cpu` and `from_switchto`.
  preempt blocked yield departed : ℕ → Bool → TaskMessage
  priority_changed : ℤ → TaskMessage
  dead switchto affinity_changed on_cpu other : TaskMessage

pub data Message : Type 0 where
  nop : Message
  cpu_message : CpuMessage → ℕ → Message
  -- With the gtid and the sequence number.
  task_message : TaskMessage → ℕ → ℕ → Message
