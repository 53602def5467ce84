-- ===== src/O1/Scheduler/Invariant/Dispatched.antt =====
-- Dispatching a message to O1Scheduler (schedulers/o1/o1_scheduler.cc) keeps its invariant.
use ghost_userspace_o.Base.{
  ℕ, ◌<◌, ◌≡◌, ◌≢◌, refl, ap, ◌∙◌, inl, inr, Bool, true, false, not, if◌then◌else◌, ◌==◌, none,
  some, arith, Option-cases, ok, Returns, Returns-bind, Returns-map, ◌>>=◌,
}
use ghost_userspace_o.Base.Int.{ℤ, negsuc}
use ghost_userspace_o.O1.Task.{O1Task, O1TaskState, is_queued, is_on_cpu, new_task}
use ghost_userspace_o.O1.RunQueue.{with_state}
use ghost_userspace_o.O1.Scheduler.{O1Scheduler, Kernel, put_task, set_state, assign_cpu, migrate}
use ghost_userspace_o.O1.Scheduler.Handlers.{
  task_new, task_runnable, priority_of, task_departed, task_dead, task_yield, task_blocked,
  task_preempted, task_priority_changed, task_switchto,
}
use ghost_userspace_o.O1.Scheduler.Invariant.{TaskOk, Inv}
use ghost_userspace_o.O1.Scheduler.Invariant.Stores.{put_task-Inv, update_hit}
use ghost_userspace_o.O1.Scheduler.Invariant.Runs.{put_unqueued-Inv, set_state-Inv, Idle}
use ghost_userspace_o.O1.Scheduler.Invariant.Allowed.{ValidNice, ValidNice-HasBucket}
use ghost_userspace_o.O1.Scheduler.Invariant.Messages.{advance-Inv, assign_cpu-Inv, migrate-After}
use ghost_userspace_o.Dispatch.{dispatch_message, dispatch_to_task, dispatch_task, dispatch_cpu}
use ghost_userspace_o.Dispatch.Messages.{
  Message, nop, cpu_message, task_message, CpuMessage, TaskMessage,
}
use ghost_userspace_o.O1.Scheduler.Handlers.{callbacks, is_some}
use ghost_userspace_o.O1.Scheduler.Invariant.Allowed.{AllowedTask, AllowedNew, Allowed}
use ghost_userspace_o.O1.Scheduler.Invariant.Handled.{
  task_runnable-After, task_yield-After, task_blocked-After, task_switchto-After,
  task_preempted-After,
}
use ghost_userspace_o.O1.Task.{set_remaining_time}
use ghost_userspace_o.O1.Scheduler.Invariant.Freed.{task_dead-Inv, task_departed-Inv}
use ghost_userspace_o.O1.Scheduler.Invariant.Changed.{task_priority_changed-After, cpu_tick-Inv}

-- The dispatcher's new task, not runnable yet.
alloc-Inv : (s : O1Scheduler) (g : ℕ) → Inv s → s.tasks g ≡ none → Inv (put_task g (new_task g) s)
alloc-Inv s g v fresh =
    put_task-Inv s g (new_task g) v
      (record { key = refl; bucket = (20, omega arith, refl); home = inr (refl, refl, refl) })
      (λ d k. rw fresh refl)
      (λ d cur. let (u, same, on, at) = v.current_runs d g cur in absurd (ground arith))

Idle-unknown : (s : O1Scheduler) (g : ℕ) → Inv s → s.tasks g ≡ none → Idle s g
Idle-unknown s g v fresh d cur = let (u, same, on, at) = v.current_runs d g cur in ground arith

-- A task that TaskNew has filled in.
new_task-ok :
    (g seqnum : ℕ) (nice : ℤ) (state : O1TaskState)
    → ValidNice nice
    → is_queued state ≡ false
    → is_on_cpu state ≡ false
    → TaskOk g (record (set_remaining_time (new_task g)) {
      seqnum = seqnum;
      run_state = state;
      static_priority = priority_of nice;
    })
new_task-ok g seqnum nice state valid q o = record {
  key = refl;
  bucket = ValidNice-HasBucket nice valid;
  home = inr (refl, q, o);
}

-- The second half of TaskNew.
task_new_placed :
    (k : Kernel) (s : O1Scheduler) (g seqnum : ℕ) (t : O1Task) (runnable : Bool)
    → Inv s
    → s.tasks g ≡ some t
    → t.run_state ≡ O1TaskState.blocked
    → t.cpu ≡ negsuc 0
    → Idle s g
    → ((c : ℕ) → k.associated g c seqnum ≡ true)
    → Returns
        (if runnable
          then (do
            s ← set_state O1TaskState.runnable g s
            (c, s) ← assign_cpu s
            migrate k g c seqnum s)
          else ok s)
        Inv
task_new_placed k s g seqnum t false v found waits unassigned idle assoc = v
task_new_placed k s g seqnum t true v found waits unassigned idle assoc =
    Returns-bind (set_state O1TaskState.runnable g s) _ _ _
      (set_state-Inv s O1TaskState.runnable g t v found (rw waits refl) refl refl idle)
      λ s₁ _ p. Returns-bind (assign_cpu s₁) _ _ _ (assign_cpu-Inv s₁ p.0) λ r _ q.
        Returns-map (migrate k g r.0 seqnum r.1) _ _
          (migrate-After k r.1 g r.0 seqnum (with_state O1TaskState.runnable t) q.1
            (ap (λ f. f g) q.2 ∙ p.1) refl unassigned (assoc r.0) q.0)
          λ s₂ a. a.inv

task_new-Inv :
    (k : Kernel) (s : O1Scheduler) (g seqnum : ℕ) (nice : ℤ) (runnable : Bool)
    → Inv s
    → s.tasks g ≡ none
    → ValidNice nice
    → ((c : ℕ) → k.associated g c seqnum ≡ true)
    → Returns (task_new k g seqnum nice runnable (put_task g (new_task g) s)) Inv
unfolding task_new
task_new-Inv k s g seqnum nice runnable v fresh valid assoc =
    let s₀ = put_task g (new_task g) s in
    let v₀ = alloc-Inv s g v fresh in
    let found : s₀.tasks g ≡ some (new_task g) = update_hit s.tasks g (some (new_task g)) in
    let idle = Idle-unknown s g v fresh in
    let t : O1Task = record (set_remaining_time (new_task g)) {
      seqnum = seqnum;
      run_state = O1TaskState.blocked;
      static_priority = priority_of nice;
    } in
    let v₁ =
      put_unqueued-Inv s₀ g (new_task g) t v₀ found refl refl
        (new_task-ok g seqnum nice O1TaskState.blocked valid refl refl) idle in
    let s₁ = put_task g t s₀ in
    let found₁ : s₁.tasks g ≡ some t = update_hit s₀.tasks g (some t) in
    rw found (task_new_placed k s₁ g seqnum t runnable v₁ found₁ refl refl idle assoc)

-- A message for a task that the allocator has.
dispatch_task-Inv :
    (k : Kernel) (m : TaskMessage) (s : O1Scheduler) (g seqnum : ℕ) (t : O1Task)
    → Inv s
    → s.tasks g ≡ some t
    → AllowedTask k m g seqnum t
    → t.seqnum < seqnum
    → ((nice : ℤ) (runnable : Bool) → m ≢ TaskMessage.new nice runnable)
    → Returns (dispatch_task (callbacks k) m g seqnum s) Inv
unfolding dispatch_task
dispatch_task-Inv k (TaskMessage.new nice runnable) s g seqnum t v found a h old =
    absurd (old nice runnable refl)
dispatch_task-Inv k (TaskMessage.wakeup deferrable) s g seqnum t v found a h old =
    Returns-bind (task_runnable k g seqnum deferrable s) _ _ _
      (task_runnable-After k s g seqnum deferrable t v found a.0 a.1)
      λ s₁ _ w. advance-Inv g t.seqnum seqnum s₁ w h
dispatch_task-Inv k (TaskMessage.preempt cpu b) s g seqnum t v found a h old =
    Returns-bind (task_preempted k g cpu b s) _ _ _ (task_preempted-After k s g cpu b t v found a)
      λ s₁ _ w. advance-Inv g t.seqnum seqnum s₁ w h
dispatch_task-Inv k (TaskMessage.blocked cpu b) s g seqnum t v found a h old =
    Returns-bind (task_blocked k g cpu b s) _ _ _ (task_blocked-After k s g cpu b t v found a)
      λ s₁ _ w. advance-Inv g t.seqnum seqnum s₁ w h
dispatch_task-Inv k (TaskMessage.yield cpu b) s g seqnum t v found a h old =
    Returns-bind (task_yield k g cpu b s) _ _ _ (task_yield-After k s g cpu b t v found a)
      λ s₁ _ w. advance-Inv g t.seqnum seqnum s₁ w h
dispatch_task-Inv k (TaskMessage.departed cpu b) s g seqnum t v found a h old =
    Returns-map (task_departed k g cpu b s) _ _ (task_departed-Inv k s g cpu b t v found a)
      λ s₁ w. w.0
dispatch_task-Inv k (TaskMessage.priority_changed nice) s g seqnum t v found a h old =
    Returns-bind (task_priority_changed g nice s) _ _ _
      (task_priority_changed-After s g nice t v found a)
      λ s₁ _ w. advance-Inv g t.seqnum seqnum s₁ w h
dispatch_task-Inv k TaskMessage.dead s g seqnum t v found a h old =
    Returns-map (task_dead g s) _ _ (task_dead-Inv s g t v found a) λ s₁ w. w.0
dispatch_task-Inv k TaskMessage.switchto s g seqnum t v found a h old =
    Returns-bind (task_switchto k g s) _ _ _ (task_switchto-After k s g t v found a)
      λ s₁ _ w. advance-Inv g t.seqnum seqnum s₁ w h
dispatch_task-Inv k TaskMessage.affinity_changed s g seqnum t v found a h old =
    advance-Inv g t.seqnum seqnum s (record { inv = v; task = t; found = found; numbered = refl }) h
dispatch_task-Inv k TaskMessage.on_cpu s g seqnum t v found a h old =
    advance-Inv g t.seqnum seqnum s (record { inv = v; task = t; found = found; numbered = refl }) h
dispatch_task-Inv k TaskMessage.other s g seqnum t v found a h old = absurd a

-- Of any other message than MSG_TASK_NEW.
dispatch_known-Inv :
    (k : Kernel) (m : TaskMessage) (s : O1Scheduler) (g seqnum : ℕ)
    → Inv s
    → ((t : O1Task) → s.tasks g ≡ some t → AllowedTask k m g seqnum t × (t.seqnum < seqnum))
    → ((nice : ℤ) (runnable : Bool) → m ≢ TaskMessage.new nice runnable)
    → Returns (if is_some (s.tasks g) then dispatch_task (callbacks k) m g seqnum s else ok s) Inv
dispatch_known-Inv k m s g seqnum v a old = elim (Option-cases (s.tasks g)) [
  | inl missing ↦ let unknown : is_some (s.tasks g) ≡ false = rw missing refl in rw unknown v
  | inr (t, found) ↦
      let known : is_some (s.tasks g) ≡ true = rw found refl in
      let (allowed, h) = a t found in
      rw known (dispatch_task-Inv k m s g seqnum t v found allowed h old)
]

dispatch_new-Inv :
    (k : Kernel) (nice : ℤ) (runnable : Bool) (s : O1Scheduler) (g seqnum : ℕ)
    → Inv s
    → ValidNice nice
    → ((c : ℕ) → k.associated g c seqnum ≡ true)
    → Returns (dispatch_to_task (callbacks k) (TaskMessage.new nice runnable) g seqnum s) Inv
unfolding dispatch_to_task dispatch_task
dispatch_new-Inv k nice runnable s g seqnum v valid assoc = elim (Option-cases (s.tasks g)) [
  | inl missing ↦
      let unknown : is_some (s.tasks g) ≡ false = rw missing refl in
      rw unknown (task_new-Inv k s g seqnum nice runnable v missing valid assoc)
  | inr (t, found) ↦ let known : is_some (s.tasks g) ≡ true = rw found refl in rw known v
]

dispatch_to_task-Inv :
    (k : Kernel) (m : TaskMessage) (s : O1Scheduler) (g seqnum : ℕ)
    → Inv s
    → ((t : O1Task) → s.tasks g ≡ some t → AllowedTask k m g seqnum t × (t.seqnum < seqnum))
    → AllowedNew k m g seqnum
    → Returns (dispatch_to_task (callbacks k) m g seqnum s) Inv
unfolding dispatch_to_task
dispatch_to_task-Inv k (TaskMessage.new nice runnable) s g seqnum v a (valid, assoc) =
    dispatch_new-Inv k nice runnable s g seqnum v valid assoc
dispatch_to_task-Inv k m s g seqnum v a n =
    dispatch_known-Inv k m s g seqnum v a (λ nice runnable e. cc)

-- A message that meets what the CHECKs ask of the state keeps the invariant.
pub dispatch_message-Inv :
    (k : Kernel) (m : Message) (s : O1Scheduler)
    → Inv s
    → Allowed k s m
    → Returns (dispatch_message (callbacks k) m s) Inv
unfolding dispatch_message dispatch_cpu
dispatch_message-Inv k nop s v a = v
dispatch_message-Inv k (cpu_message CpuMessage.tick c) s v a = cpu_tick-Inv k s c v
dispatch_message-Inv k (cpu_message CpuMessage.other c) s v a = absurd a
dispatch_message-Inv k (cpu_message m c) s v a = v
dispatch_message-Inv k (task_message m g seqnum) s v (nonzero, a, n) =
    let named : not (g == 0) ≡ true = ground arith in
    rw named (dispatch_to_task-Inv k m s g seqnum v a n)
