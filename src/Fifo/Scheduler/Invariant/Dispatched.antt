-- ===== src/Fifo/Scheduler/Invariant/Dispatched.antt =====
-- The dispatch of a message to FifoScheduler keeps its invariant.
use ghost_userspace_o.Base.{
  ℕ, ◌<◌, ◌≡◌, ◌≢◌, refl, inl, inr, Bool, true, false, not, if◌then◌else◌, ◌==◌, some, ok, arith,
  Option-cases, Returns, Returns-bind, Returns-map,
}
use ghost_userspace_o.Base.Int.{ℤ}
use ghost_userspace_o.Dispatch.{dispatch_message, dispatch_to_task, dispatch_task, dispatch_cpu}
use ghost_userspace_o.Dispatch.Messages.{
  Message, nop, cpu_message, task_message, CpuMessage, TaskMessage,
}
use ghost_userspace_o.Fifo.Task.{FifoTask}
use ghost_userspace_o.Fifo.Scheduler.{FifoScheduler, Kernel}
use ghost_userspace_o.Fifo.Scheduler.Handlers.{
  callbacks, is_some, advance, task_runnable, task_preempted, task_blocked, task_yield,
  task_departed, task_dead, task_switchto,
}
use ghost_userspace_o.Fifo.Scheduler.Invariant.{Inv}
use ghost_userspace_o.Fifo.Scheduler.Invariant.Runs.{advance-Inv}
use ghost_userspace_o.Fifo.Scheduler.Invariant.Allowed.{AllowedTask, AllowedNew, Allowed}
use ghost_userspace_o.Fifo.Scheduler.Invariant.Handled.{
  After, task_new-Inv, task_runnable-After, task_yield-After, task_blocked-After,
  task_preempted-After, task_switchto-After, task_dead-Inv, task_departed-Inv,
}

-- Advance after a handler.
advanced-Inv :
    (g n seqnum : ℕ) (s : FifoScheduler)
    → After g n s
    → n < seqnum
    → Returns (advance g seqnum s) Inv
advanced-Inv g n seqnum s a h = advance-Inv g seqnum a.task s a.left (omega (arith, a.numbered))

-- A message for a task that the allocator has.
dispatch_task-Inv :
    (k : Kernel) (m : TaskMessage) (s : FifoScheduler) (g seqnum : ℕ) (t : FifoTask)
    → Inv s
    → s.tasks g ≡ some t
    → AllowedTask k m g seqnum t
    → t.seqnum < seqnum
    → ((nice : ℤ) (runnable : Bool) → m ≢ TaskMessage.new nice runnable)
    → Returns (dispatch_task (callbacks k) m g seqnum s) Inv
unfolding dispatch_task
dispatch_task-Inv k (TaskMessage.new nice runnable) s g seqnum t v found a h old =
    absurd (old nice runnable refl)
dispatch_task-Inv k (TaskMessage.wakeup deferrable) s g seqnum t v found a h old =
    Returns-bind (task_runnable k g seqnum deferrable s) _ _ _
      (task_runnable-After k s g seqnum deferrable t v found a.0 a.1)
      λ s₁ _ w. advanced-Inv g t.seqnum seqnum s₁ w h
dispatch_task-Inv k (TaskMessage.preempt cpu b) s g seqnum t v found a h old =
    Returns-bind (task_preempted g cpu b s) _ _ _ (task_preempted-After s g cpu b t v found a)
      λ s₁ _ w. advanced-Inv g t.seqnum seqnum s₁ w h
dispatch_task-Inv k (TaskMessage.blocked cpu b) s g seqnum t v found a h old =
    Returns-bind (task_blocked g cpu b s) _ _ _ (task_blocked-After s g cpu b t v found a)
      λ s₁ _ w. advanced-Inv g t.seqnum seqnum s₁ w h
dispatch_task-Inv k (TaskMessage.yield cpu b) s g seqnum t v found a h old =
    Returns-bind (task_yield g cpu b s) _ _ _ (task_yield-After s g cpu b t v found a)
      λ s₁ _ w. advanced-Inv g t.seqnum seqnum s₁ w h
dispatch_task-Inv k (TaskMessage.departed cpu b) s g seqnum t v found a h old =
    Returns-map (task_departed g cpu b s) _ _ (task_departed-Inv s g cpu b t v found a) λ s₁ w. w.0
dispatch_task-Inv k (TaskMessage.priority_changed nice) s g seqnum t v found a h old =
    advance-Inv g seqnum t s (v, found) h
dispatch_task-Inv k TaskMessage.dead s g seqnum t v found a h old =
    Returns-map (task_dead g s) _ _ (task_dead-Inv s g t v found a) λ s₁ w. w.0
dispatch_task-Inv k TaskMessage.switchto s g seqnum t v found a h old =
    Returns-bind (task_switchto g s) _ _ _ (task_switchto-After s g t v found a)
      λ s₁ _ w. advanced-Inv g t.seqnum seqnum s₁ w h
dispatch_task-Inv k TaskMessage.affinity_changed s g seqnum t v found a h old =
    advance-Inv g seqnum t s (v, found) h
dispatch_task-Inv k TaskMessage.on_cpu s g seqnum t v found a h old =
    advance-Inv g seqnum t s (v, found) h
dispatch_task-Inv k TaskMessage.other s g seqnum t v found a h old = absurd a

-- Of any other message than MSG_TASK_NEW.
dispatch_known-Inv :
    (k : Kernel) (m : TaskMessage) (s : FifoScheduler) (g seqnum : ℕ)
    → Inv s
    → ((t : FifoTask) → s.tasks g ≡ some t → AllowedTask k m g seqnum t × (t.seqnum < seqnum))
    → ((nice : ℤ) (runnable : Bool) → m ≢ TaskMessage.new nice runnable)
    → Returns (if is_some (s.tasks g) then dispatch_task (callbacks k) m g seqnum s else ok s) Inv
dispatch_known-Inv k m s g seqnum v a old = elim (Option-cases (s.tasks g)) [
  | inl missing ↦ let unknown : is_some (s.tasks g) ≡ false = rw missing refl in rw unknown v
  | inr (t, found) ↦
      let known : is_some (s.tasks g) ≡ true = rw found refl in
      let (allowed, h) = a t found in
      rw known (dispatch_task-Inv k m s g seqnum t v found allowed h old)
]

dispatch_new-Inv :
    (k : Kernel) (nice : ℤ) (runnable : Bool) (s : FifoScheduler) (g seqnum : ℕ)
    → Inv s
    → ((c : ℕ) → k.associated g c seqnum ≡ true)
    → Returns (dispatch_to_task (callbacks k) (TaskMessage.new nice runnable) g seqnum s) Inv
unfolding dispatch_to_task dispatch_task
dispatch_new-Inv k nice runnable s g seqnum v assoc = elim (Option-cases (s.tasks g)) [
  | inl missing ↦
      let unknown : is_some (s.tasks g) ≡ false = rw missing refl in
      rw unknown (task_new-Inv k s g seqnum nice runnable v missing assoc)
  | inr (t, found) ↦ let known : is_some (s.tasks g) ≡ true = rw found refl in rw known v
]

dispatch_to_task-Inv :
    (k : Kernel) (m : TaskMessage) (s : FifoScheduler) (g seqnum : ℕ)
    → Inv s
    → ((t : FifoTask) → s.tasks g ≡ some t → AllowedTask k m g seqnum t × (t.seqnum < seqnum))
    → AllowedNew k m g seqnum
    → Returns (dispatch_to_task (callbacks k) m g seqnum s) Inv
unfolding dispatch_to_task
dispatch_to_task-Inv k (TaskMessage.new nice runnable) s g seqnum v a assoc =
    dispatch_new-Inv k nice runnable s g seqnum v assoc
dispatch_to_task-Inv k m s g seqnum v a n =
    dispatch_known-Inv k m s g seqnum v a (λ nice runnable e. cc)

-- A message that meets what the CHECKs ask of the state keeps the invariant.
pub dispatch_message-FifoInv :
    (k : Kernel) (m : Message) (s : FifoScheduler)
    → Inv s
    → Allowed k s m
    → Returns (dispatch_message (callbacks k) m s) Inv
unfolding dispatch_message dispatch_cpu
dispatch_message-FifoInv k nop s v a = v
dispatch_message-FifoInv k (cpu_message CpuMessage.other c) s v a = absurd a
dispatch_message-FifoInv k (cpu_message m c) s v a = v
dispatch_message-FifoInv k (task_message m g seqnum) s v (nonzero, a, n) =
    let named : not (g == 0) ≡ true = ground arith in
    rw named (dispatch_to_task-Inv k m s g seqnum v a n)
