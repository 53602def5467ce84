-- ===== src/O1/Scheduler/Invariant/Allowed.antt =====
-- What the CHECKs of the handlers of O1Scheduler (schedulers/o1) ask of a
-- message and the state it meets. That the kernel's messages meet it is shown in Follows/Sent.
use ghost_userspace_o.Base.{ℕ, ◌<◌, ◌+◌, ◌-◌, ◌≡◌, ◌≢◌, ◌⊎◌, Bool, true, false, some, arith}
use ghost_userspace_o.Base.Int.{ℤ, pos, negsuc, ◌≤ℤ◌, ◌+ℤ◌}
use ghost_userspace_o.Dispatch.Messages.{
  Message, nop, cpu_message, task_message, CpuMessage, TaskMessage,
}
use ghost_userspace_o.O1.Task.{O1Task, O1TaskState}
use ghost_userspace_o.O1.Scheduler.{O1Scheduler, Kernel}
use ghost_userspace_o.O1.Scheduler.Handlers.{priority_of}
use ghost_userspace_o.O1.Scheduler.Invariant.{HasBucket}
use ghost_userspace_o.O1.Scheduler.Invariant.Runs.{CanLeave}

-- A nice value lies in [-20, 19].
abbrev pub ValidNice : ℤ → Type 0
ValidNice nice = (negsuc 19 ≤ℤ nice) × (nice ≤ℤ pos 19)

pub ValidNice-HasBucket : (nice : ℤ) → ValidNice nice → HasBucket (priority_of nice)
unfolding ◌+ℤ◌
ValidNice-HasBucket (pos n) v = (20 + n, omega arith, ground arith)
ValidNice-HasBucket (negsuc n) v = (19 - n, omega arith, ground arith)

-- A task departs from its CPU, from the end of a SwitchTo chain, from a run queue, or blocked.
abbrev pub CanDepart : O1Task → Bool → Type 0
CanDepart t from_switchto =
    CanLeave t from_switchto
    ⊎ ((from_switchto ≡ false)
        × ((t.run_state ≡ O1TaskState.queued) ⊎ (t.run_state ≡ O1TaskState.blocked)))

-- What holds of a task when a message for it comes.
abbrev pub AllowedTask : Kernel → TaskMessage → ℕ → ℕ → O1Task → Type 0
AllowedTask k (TaskMessage.new nice runnable) g seqnum t = Unit {0}
AllowedTask k (TaskMessage.wakeup deferrable) g seqnum t =
    (t.run_state ≡ O1TaskState.blocked) × ((c : ℕ) → k.associated g c seqnum ≡ true)
AllowedTask k (TaskMessage.preempt cpu from_switchto) g seqnum t = CanLeave t from_switchto
AllowedTask k (TaskMessage.blocked cpu from_switchto) g seqnum t = CanLeave t from_switchto
AllowedTask k (TaskMessage.yield cpu from_switchto) g seqnum t = CanLeave t from_switchto
AllowedTask k (TaskMessage.departed cpu from_switchto) g seqnum t = CanDepart t from_switchto
AllowedTask k (TaskMessage.priority_changed nice) g seqnum t = ValidNice nice
AllowedTask k TaskMessage.dead g seqnum t = t.run_state ≡ O1TaskState.blocked
AllowedTask k TaskMessage.switchto g seqnum t = t.run_state ≡ O1TaskState.on_cpu
AllowedTask k TaskMessage.affinity_changed g seqnum t = Unit {0}
AllowedTask k TaskMessage.on_cpu g seqnum t = Unit {0}
AllowedTask k TaskMessage.other g seqnum t = ⊥

-- What a message for a task that is not known yet keeps to: only MSG_TASK_NEW is not dropped.
abbrev pub AllowedNew : Kernel → TaskMessage → ℕ → ℕ → Type 0
AllowedNew k (TaskMessage.new nice runnable) g seqnum =
    ValidNice nice × ((c : ℕ) → k.associated g c seqnum ≡ true)
AllowedNew k m g seqnum = Unit {0}

abbrev pub Allowed : Kernel → O1Scheduler → Message → Type 0
Allowed k s nop = Unit {0}
Allowed k s (cpu_message CpuMessage.other cpu) = ⊥
Allowed k s (cpu_message m cpu) = Unit {0}
Allowed k s (task_message m g seqnum) =
    (g ≢ 0)
    × ((t : O1Task) → s.tasks g ≡ some t → AllowedTask k m g seqnum t × (t.seqnum < seqnum))
    × AllowedNew k m g seqnum
