-- ===== src/Fifo/Scheduler/Invariant/Allowed.antt =====
-- What the CHECKs of the handlers of FifoScheduler (schedulers/fifo/per_cpu) ask of a
-- message and the state it meets.
use ghost_userspace_o.Base.{ℕ, ◌<◌, ◌≡◌, ◌≢◌, ◌⊎◌, Bool, true, false, some}
use ghost_userspace_o.Dispatch.Messages.{
  Message, nop, cpu_message, task_message, CpuMessage, TaskMessage,
}
use ghost_userspace_o.Fifo.Task.{FifoTask, FifoTaskState}
use ghost_userspace_o.Fifo.Scheduler.{FifoScheduler, Kernel}
use ghost_userspace_o.Fifo.Scheduler.Invariant.Runs.{CanLeave}

-- A task departs from its CPU, from the end of a SwitchTo chain, from a run queue, or blocked.
abbrev pub CanDepart : FifoTask → Bool → Type 0
CanDepart t from_switchto =
    CanLeave t from_switchto
    ⊎ ((from_switchto ≡ false)
        × ((t.run_state ≡ FifoTaskState.queued) ⊎ (t.run_state ≡ FifoTaskState.blocked)))

-- What holds of a task when a message for it comes.
abbrev pub AllowedTask : Kernel → TaskMessage → ℕ → ℕ → FifoTask → Type 0
AllowedTask k (TaskMessage.new nice runnable) g seqnum t = Unit {0}
AllowedTask k (TaskMessage.wakeup deferrable) g seqnum t =
    (t.run_state ≡ FifoTaskState.blocked) × ((c : ℕ) → k.associated g c seqnum ≡ true)
AllowedTask k (TaskMessage.preempt cpu from_switchto) g seqnum t = CanLeave t from_switchto
AllowedTask k (TaskMessage.blocked cpu from_switchto) g seqnum t = CanLeave t from_switchto
AllowedTask k (TaskMessage.yield cpu from_switchto) g seqnum t = CanLeave t from_switchto
AllowedTask k (TaskMessage.departed cpu from_switchto) g seqnum t = CanDepart t from_switchto
AllowedTask k (TaskMessage.priority_changed nice) g seqnum t = Unit {0}
AllowedTask k TaskMessage.dead g seqnum t = t.run_state ≡ FifoTaskState.blocked
AllowedTask k TaskMessage.switchto g seqnum t = t.run_state ≡ FifoTaskState.on_cpu
AllowedTask k TaskMessage.affinity_changed g seqnum t = Unit {0}
AllowedTask k TaskMessage.on_cpu g seqnum t = Unit {0}
AllowedTask k TaskMessage.other g seqnum t = ⊥

-- What a message for a task that is not known yet keeps to: only MSG_TASK_NEW is not dropped.
abbrev pub AllowedNew : Kernel → TaskMessage → ℕ → ℕ → Type 0
AllowedNew k (TaskMessage.new nice runnable) g seqnum = (c : ℕ) → k.associated g c seqnum ≡ true
AllowedNew k m g seqnum = Unit {0}

abbrev pub Allowed : Kernel → FifoScheduler → Message → Type 0
Allowed k s nop = Unit {0}
Allowed k s (cpu_message CpuMessage.other cpu) = ⊥
Allowed k s (cpu_message m cpu) = Unit {0}
Allowed k s (task_message m g seqnum) =
    (g ≢ 0)
    × ((t : FifoTask) → s.tasks g ≡ some t → AllowedTask k m g seqnum t × (t.seqnum < seqnum))
    × AllowedNew k m g seqnum
