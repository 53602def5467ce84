-- ===== src/Dispatch.antt =====
-- BasicDispatchScheduler::DispatchMessage of lib/scheduler.h, for any scheduler: its virtual
-- callbacks and its allocator are the record `Callbacks`, over the state of the scheduler.
use ghost_userspace_o.Base.{
  ℕ, Bool, true, false, not, if◌then◌else◌, ◌==◌, Outcome, ok, check_failed, bad_access, check,
  ◌>>=◌, ◌>>◌,
}
use ghost_userspace_o.Base.Int.{ℤ}
pub mod Messages
use Messages.{Message, nop, cpu_message, task_message, CpuMessage, TaskMessage}

pub record Callbacks (S : Type 0) : Type 0 where
  -- TaskAllocator: whether GetTask(gtid) finds a task, and what allocating one does.
  pub has_task : S → ℕ → Bool
  pub alloc_task : ℕ → S → S
  pub task_new : ℕ → ℕ → ℤ → Bool → S → Outcome S
  pub task_runnable : ℕ → ℕ → Bool → S → Outcome S
  pub task_dead : ℕ → S → Outcome S
  pub task_departed : ℕ → ℕ → Bool → S → Outcome S
  pub task_yield : ℕ → ℕ → Bool → S → Outcome S
  pub task_blocked : ℕ → ℕ → Bool → S → Outcome S
  pub task_preempted : ℕ → ℕ → Bool → S → Outcome S
  pub task_switchto : ℕ → S → Outcome S
  pub task_affinity_changed : ℕ → S → Outcome S
  pub task_priority_changed : ℕ → ℤ → S → Outcome S
  pub task_on_cpu : ℕ → S → Outcome S
  pub cpu_tick : ℕ → S → Outcome S
  pub cpu_not_idle : ℕ → S → Outcome S
  pub cpu_timer_expired : ℕ → S → Outcome S
  pub cpu_available : ℕ → S → Outcome S
  pub cpu_busy : ℕ → S → Outcome S
  pub agent_blocked : ℕ → S → Outcome S
  pub agent_wakeup : ℕ → S → Outcome S
  -- Task::Advance.
  pub advance : ℕ → ℕ → S → Outcome S

module _ {S : Type 0} (cb : Callbacks S) where
  unfoldable pub dispatch_cpu : CpuMessage → ℕ → S → Outcome S
  dispatch_cpu CpuMessage.tick cpu s = cb.cpu_tick cpu s
  dispatch_cpu CpuMessage.not_idle cpu s = cb.cpu_not_idle cpu s
  dispatch_cpu CpuMessage.timer_expired cpu s = cb.cpu_timer_expired cpu s
  dispatch_cpu CpuMessage.available cpu s = cb.cpu_available cpu s
  dispatch_cpu CpuMessage.busy cpu s = cb.cpu_busy cpu s
  dispatch_cpu CpuMessage.agent_blocked cpu s = cb.agent_blocked cpu s
  dispatch_cpu CpuMessage.agent_wakeup cpu s = cb.agent_wakeup cpu s
  dispatch_cpu CpuMessage.other cpu s = check_failed

  -- The switch over the types of messages that concern a task that the allocator has.
  unfoldable pub dispatch_task : TaskMessage → ℕ → ℕ → S → Outcome S
  dispatch_task (TaskMessage.new nice runnable) g seqnum s = cb.task_new g seqnum nice runnable s
  dispatch_task (TaskMessage.preempt cpu from_switchto) g seqnum s = do
    s ← cb.task_preempted g cpu from_switchto s
    cb.advance g seqnum s
  dispatch_task TaskMessage.dead g seqnum s = cb.task_dead g s
  dispatch_task (TaskMessage.wakeup deferrable) g seqnum s = do
    s ← cb.task_runnable g seqnum deferrable s
    cb.advance g seqnum s
  dispatch_task (TaskMessage.blocked cpu from_switchto) g seqnum s = do
    s ← cb.task_blocked g cpu from_switchto s
    cb.advance g seqnum s
  dispatch_task (TaskMessage.yield cpu from_switchto) g seqnum s = do
    s ← cb.task_yield g cpu from_switchto s
    cb.advance g seqnum s
  dispatch_task (TaskMessage.departed cpu from_switchto) g seqnum s =
      cb.task_departed g cpu from_switchto s
  dispatch_task TaskMessage.switchto g seqnum s = do s ← cb.task_switchto g s; cb.advance g seqnum s
  dispatch_task TaskMessage.affinity_changed g seqnum s = do
    s ← cb.task_affinity_changed g s
    cb.advance g seqnum s
  dispatch_task (TaskMessage.priority_changed nice) g seqnum s = do
    s ← cb.task_priority_changed g nice s
    cb.advance g seqnum s
  dispatch_task TaskMessage.on_cpu g seqnum s = do s ← cb.task_on_cpu g s; cb.advance g seqnum s
  dispatch_task TaskMessage.other g seqnum s = check_failed

  -- MSG_TASK_NEW allocates a task, and is dropped if there is one already; any other message is
  -- dropped if there is none.
  unfoldable pub dispatch_to_task : TaskMessage → ℕ → ℕ → S → Outcome S
  unfolding dispatch_task
  dispatch_to_task (TaskMessage.new nice runnable) g seqnum s =
      if cb.has_task s g
      then ok s
      else dispatch_task (TaskMessage.new nice runnable) g seqnum (cb.alloc_task g s)
  dispatch_to_task m g seqnum s = if cb.has_task s g then dispatch_task m g seqnum s else ok s

  unfoldable pub dispatch_message : Message → S → Outcome S
  unfolding dispatch_cpu dispatch_to_task
  dispatch_message nop s = ok s
  dispatch_message (cpu_message m cpu) s = dispatch_cpu m cpu s
  dispatch_message (task_message m g seqnum) s = do
    check (not (g == 0))
    dispatch_to_task m g seqnum s
