-- ===== src/O1/Scheduler/Invariant/Handled.antt =====
-- The handlers of O1Scheduler (schedulers/o1/o1_scheduler.cc) that place a task or take it off its
-- CPU keep the invariant.
use ghost_userspace_o.Base.{
  ℕ, ◌≡◌, refl, sym, ap, subst, ◌∙◌, inl, inr, Bool, true, false, not, some, arith, Returns,
  Returns-bind, Returns-map,
}
use ghost_userspace_o.Base.Int.{is_nonneg}
use ghost_userspace_o.O1.Task.{O1Task, O1TaskState, is_queued, is_blocked}
use ghost_userspace_o.O1.Scheduler.{O1Scheduler, Kernel, put_task, task_off_cpu, assign_cpu}
use ghost_userspace_o.O1.Scheduler.Handlers.{
  place, task_runnable, requeue, task_yield, task_blocked, task_preempted, boost_preempted,
  task_switchto,
}
use ghost_userspace_o.O1.Scheduler.Invariant.{Inv, HasCpu}
use ghost_userspace_o.O1.Scheduler.Invariant.Stores.{update_hit}
use ghost_userspace_o.O1.Scheduler.Invariant.Moves.{not_current}
use ghost_userspace_o.O1.Scheduler.Invariant.Runs.{
  put_unqueued-Inv, cpu_of-pos, Idle, CanLeave, task_off_cpu-Inv, home_of,
}
use ghost_userspace_o.O1.Scheduler.Invariant.Messages.{
  After, ping_if-After, assign_cpu-Inv, enqueue_on-After, migrate-After,
}

-- A runnable task in the table is placed in the run queue of its CPU, or of one that is assigned.
place-After :
    (k : Kernel) (s : O1Scheduler) (g seqnum : ℕ) (t : O1Task)
    → Inv s
    → s.tasks g ≡ some t
    → t.run_state ≡ O1TaskState.runnable
    → ((c : ℕ) → k.associated g c seqnum ≡ true)
    → Returns (place k g seqnum t s) (After g t.seqnum)
unfolding place
place-After k s g seqnum t v found ready assoc = elim (v.tasks_ok g t found).home [
  | inl (c, low, cpu) ↦
      let assigned : is_nonneg t.cpu ≡ true = rw cpu refl in
      rw (assigned, cpu_of-pos t c cpu low) (enqueue_on-After s g c t v found ready low cpu)
  | inr (cpu, _, _) ↦
      let unassigned : is_nonneg t.cpu ≡ false = rw cpu refl in
      rw unassigned (
        Returns-bind (assign_cpu s) _ _ _ (assign_cpu-Inv s v) (λ r _ p.
          migrate-After k r.1 g r.0 seqnum t p.1 (ap (λ f. f g) p.2 ∙ found) ready cpu (assoc r.0)
            p.0))
]

pub task_runnable-After :
    (k : Kernel) (s : O1Scheduler) (g seqnum : ℕ) (deferrable : Bool) (t : O1Task)
    → Inv s
    → s.tasks g ≡ some t
    → t.run_state ≡ O1TaskState.blocked
    → ((c : ℕ) → k.associated g c seqnum ≡ true)
    → Returns (task_runnable k g seqnum deferrable s) (After g t.seqnum)
unfolding task_runnable
task_runnable-After k s g seqnum deferrable t v found waits assoc =
    let tok = v.tasks_ok g t found in
    let t' : O1Task = record t { run_state = O1TaskState.runnable; prio_boost = not deferrable } in
    let is_waiting : is_blocked t.run_state ≡ true = rw waits refl in
    rw (found, is_waiting)
      (place-After k (put_task g t' s) g seqnum t'
        (put_unqueued-Inv s g t t' v found (rw waits refl) refl
          (record { key = tok.key; bucket = tok.bucket; home = ground (arith, tok.home) })
          (not_current s g t v found (λ e. cc)))
        (update_hit s.tasks g (some t')) refl assoc)

-- `cpu_state_of` and Enqueue of a task that just left its CPU.
requeue-After :
    (s : O1Scheduler) (g : ℕ) (t : O1Task)
    → Inv s
    → s.tasks g ≡ some t
    → t.run_state ≡ O1TaskState.runnable
    → HasCpu t.cpu
    → Returns (requeue g s) (After g t.seqnum)
unfolding requeue
requeue-After s g t v found ready (c, low, cpu) =
    rw (found, cpu_of-pos t c cpu low) (enqueue_on-After s g c t v found ready low cpu)

leaving_cpu :
    (s : O1Scheduler) (g : ℕ) (t : O1Task) (b : Bool)
    → Inv s
    → s.tasks g ≡ some t
    → CanLeave t b
    → HasCpu t.cpu
leaving_cpu s g t b v found (inl on) = home_of g t (v.tasks_ok g t found) on
leaving_cpu s g t b v found (inr (_, _, c)) = c

pub task_yield-After :
    (k : Kernel) (s : O1Scheduler) (g cpu : ℕ) (b : Bool) (t : O1Task)
    → Inv s
    → s.tasks g ≡ some t
    → CanLeave t b
    → Returns (task_yield k g cpu b s) (After g t.seqnum)
unfolding task_yield
task_yield-After k s g cpu b t v found can =
    let home = leaving_cpu s g t b v found can in
    Returns-bind (task_off_cpu k g false b s) _ _ _ (task_off_cpu-Inv k s g false b t v found can)
      λ s₁ _ l.
        Returns-bind (requeue g s₁) _ _ _
          (requeue-After s₁ g l.task l.inv l.found l.in_state (subst HasCpu (sym l.same_cpu) home))
          λ s₂ _ a. ping_if-After g t.seqnum cpu b s₂ (subst (λ n. After g n s₂) l.same_seqnum a)

pub task_blocked-After :
    (k : Kernel) (s : O1Scheduler) (g cpu : ℕ) (b : Bool) (t : O1Task)
    → Inv s
    → s.tasks g ≡ some t
    → CanLeave t b
    → Returns (task_blocked k g cpu b s) (After g t.seqnum)
unfolding task_blocked
task_blocked-After k s g cpu b t v found can =
    Returns-bind (task_off_cpu k g true b s) _ _ _ (task_off_cpu-Inv k s g true b t v found can)
      λ s₁ _ l.
        ping_if-After g t.seqnum cpu b s₁
          (record { inv = l.inv; task = l.task; found = l.found; numbered = l.same_seqnum })

pub task_switchto-After :
    (k : Kernel) (s : O1Scheduler) (g : ℕ) (t : O1Task)
    → Inv s
    → s.tasks g ≡ some t
    → t.run_state ≡ O1TaskState.on_cpu
    → Returns (task_switchto k g s) (After g t.seqnum)
unfolding task_switchto
task_switchto-After k s g t v found on =
    Returns-map (task_off_cpu k g true false s) _ _
      (task_off_cpu-Inv k s g true false t v found (inl on))
      λ s₁ l. record { inv = l.inv; task = l.task; found = l.found; numbered = l.same_seqnum }

boost_preempted-Inv :
    (s : O1Scheduler) (g : ℕ) (t : O1Task)
    → Inv s
    → s.tasks g ≡ some t
    → t.run_state ≡ O1TaskState.runnable
    → Idle s g
    → Returns
        (boost_preempted g s)
        (λ s'. Inv s' × (s'.tasks g ≡ some (record t { preempted = true; prio_boost = true })))
unfolding boost_preempted
boost_preempted-Inv s g t v found ready idle =
    let tok = v.tasks_ok g t found in
    let t' : O1Task = record t { preempted = true; prio_boost = true } in
    let unqueued : is_queued t.run_state ≡ false = rw ready refl in
    rw found (
      put_unqueued-Inv s g t t' v found unqueued unqueued
          (record { key = tok.key; bucket = tok.bucket; home = tok.home }) idle,
      update_hit s.tasks g (some t'),
    )

pub task_preempted-After :
    (k : Kernel) (s : O1Scheduler) (g cpu : ℕ) (b : Bool) (t : O1Task)
    → Inv s
    → s.tasks g ≡ some t
    → CanLeave t b
    → Returns (task_preempted k g cpu b s) (After g t.seqnum)
unfolding task_preempted
task_preempted-After k s g cpu b t v found can =
    let home = leaving_cpu s g t b v found can in
    Returns-bind (task_off_cpu k g false b s) _ _ _ (task_off_cpu-Inv k s g false b t v found can)
      λ s₁ _ l.
        Returns-bind (boost_preempted g s₁) _ _ _
          (boost_preempted-Inv s₁ g l.task l.inv l.found l.in_state l.idle)
          λ s₂ _ p.
            Returns-bind (requeue g s₂) _ _ _
              (requeue-After s₂ g _ p.0 p.1 l.in_state (subst HasCpu (sym l.same_cpu) home))
              λ s₃ _ a.
                ping_if-After g t.seqnum cpu b s₃ (subst (λ n. After g n s₃) l.same_seqnum a)
