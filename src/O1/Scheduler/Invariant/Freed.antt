-- ===== src/O1/Scheduler/Invariant/Freed.antt =====
-- TaskDead and TaskDeparted of O1Scheduler (schedulers/o1/o1_scheduler.cc) keep its invariant, and
-- the task is gone.
use ghost_userspace_o.Base.{
  ℕ, ◌≡◌, refl, inl, inr, Bool, true, false, none, some, arith, Returns, Returns-bind, Returns-map,
}
use ghost_userspace_o.Base.Int.{pos}
use ghost_userspace_o.O1.Task.{O1Task, O1TaskState, is_queued, is_on_cpu, is_blocked}
use ghost_userspace_o.O1.RunQueue.{with_state}
use ghost_userspace_o.O1.Scheduler.{O1Scheduler, Kernel, emit, task_off_cpu, free_task, ping}
use ghost_userspace_o.O1.Scheduler.Handlers.{ping_if, detach, task_departed, task_dead}
use ghost_userspace_o.O1.Scheduler.Invariant.{TaskOk, Inv, HasCpu}
use ghost_userspace_o.O1.Scheduler.Invariant.Stores.{emit-Inv}
use ghost_userspace_o.O1.Scheduler.Invariant.Moves.{not_current, erase_on-Inv}
use ghost_userspace_o.O1.Scheduler.Invariant.Runs.{
  cpu_of-pos, Idle, CanLeave, task_off_cpu-Inv, free_task-Inv,
}
use ghost_userspace_o.O1.Scheduler.Invariant.Allowed.{CanDepart}
use ghost_userspace_o.O1.Scheduler.{erase_on}

pub task_dead-Inv :
    (s : O1Scheduler) (g : ℕ) (t : O1Task)
    → Inv s
    → s.tasks g ≡ some t
    → t.run_state ≡ O1TaskState.blocked
    → Returns (task_dead g s) (λ s'. Inv s' × (s'.tasks g ≡ none))
unfolding task_dead
task_dead-Inv s g t v found waits =
    let is_waiting : is_blocked t.run_state ≡ true = rw waits refl in
    rw (found, is_waiting)
      (free_task-Inv s g t v found (rw waits refl) (not_current s g t v found (λ e. cc)))

-- What `detach` leaves: a task that may be freed.
record Detached (g : ℕ) (s : O1Scheduler) : Type 0 where
  inv : Inv s
  task : O1Task
  found : s.tasks g ≡ some task
  unqueued : is_queued task.run_state ≡ false
  idle : Idle s g

detach_left :
    (k : Kernel) (s : O1Scheduler) (g : ℕ) (b : Bool) (t : O1Task)
    → Inv s
    → s.tasks g ≡ some t
    → CanLeave t b
    → Returns (task_off_cpu k g false b s) (Detached g)
detach_left k s g b t v found can =
    Returns-map (task_off_cpu k g false b s) _ _ (task_off_cpu-Inv k s g false b t v found can)
      λ s₁ l. record {
        inv = l.inv;
        task = l.task;
        found = l.found;
        unqueued = rw l.in_state refl;
        idle = l.idle;
      }

detach_queued :
    (s : O1Scheduler) (g : ℕ) (t : O1Task) (c : ℕ)
    → Inv s
    → s.tasks g ≡ some t
    → t.run_state ≡ O1TaskState.queued
    → t.cpu ≡ pos c
    → Returns (erase_on c g s) (Detached g)
detach_queued s g t c v found queued cpu =
    Returns-map (erase_on c g s) _ _ (erase_on-Inv s g c t v found queued cpu) λ s₁ p. record {
      inv = p.0;
      task = with_state O1TaskState.runnable t;
      found = p.1;
      unqueued = refl;
      idle = not_current s₁ g (with_state O1TaskState.runnable t) p.0 p.1 (λ e. cc);
    }

pub queued_home :
    (g : ℕ) (t : O1Task) → TaskOk g t → t.run_state ≡ O1TaskState.queued → HasCpu t.cpu
queued_home g t tok q = elim tok.home [ inl c ↦ c | inr (_, off, _) ↦ absurd (ground arith) ]

detach-Detached :
    (k : Kernel) (s : O1Scheduler) (g : ℕ) (b : Bool) (t : O1Task)
    → Inv s
    → s.tasks g ≡ some t
    → CanDepart t b
    → Returns (detach k g b t s) (Detached g)
unfolding detach
detach-Detached k s g b t v found (inl (inl on)) =
    let running : is_on_cpu t.run_state ≡ true = rw on refl in
    rw running (detach_left k s g b t v found (inl on))
detach-Detached k s g b t v found (inl (inr (switched, off, home))) =
    let parked : is_on_cpu t.run_state ≡ false = rw off refl in
    rw (parked, switched) (detach_left k s g true t v found (inr (refl, off, home)))
detach-Detached k s g b t v found (inr (plain, inl queued)) =
    let parked : is_on_cpu t.run_state ≡ false = rw queued refl in
    let waits : is_queued t.run_state ≡ true = rw queued refl in
    let (c, low, cpu) = queued_home g t (v.tasks_ok g t found) queued in
    rw (parked, plain, waits, cpu_of-pos t c cpu low) (detach_queued s g t c v found queued cpu)
detach-Detached k s g b t v found (inr (plain, inr off)) =
    let parked : is_on_cpu t.run_state ≡ false = rw off refl in
    let unqueued : is_queued t.run_state ≡ false = rw off refl in
    let waits : is_blocked t.run_state ≡ true = rw off refl in
    rw (parked, plain, unqueued, waits)
      (record {
        inv = v;
        task = t;
        found = found;
        unqueued = unqueued;
        idle = not_current s g t v found (λ e. cc);
      })

free_pinged :
    (s : O1Scheduler) (g cpu : ℕ) (b : Bool)
    → Detached g s
    → Returns (free_task g (ping_if b cpu s)) (λ s'. Inv s' × (s'.tasks g ≡ none))
free_pinged s g cpu true d =
    free_task-Inv (emit (ping cpu) s) g d.task (emit-Inv s (ping cpu) d.inv) d.found d.unqueued
      d.idle
free_pinged s g cpu false d = free_task-Inv s g d.task d.inv d.found d.unqueued d.idle

pub task_departed-Inv :
    (k : Kernel) (s : O1Scheduler) (g cpu : ℕ) (b : Bool) (t : O1Task)
    → Inv s
    → s.tasks g ≡ some t
    → CanDepart t b
    → Returns (task_departed k g cpu b s) (λ s'. Inv s' × (s'.tasks g ≡ none))
unfolding task_departed
task_departed-Inv k s g cpu b t v found can = rw found (
    Returns-bind (detach k g b t s) _ _ _ (detach-Detached k s g b t v found can)
      (λ s₁ _ d. free_pinged s₁ g cpu b d))
