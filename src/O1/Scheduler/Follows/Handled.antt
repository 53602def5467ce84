-- ===== src/O1/Scheduler/Follows/Handled.antt =====
-- What the handlers of O1Scheduler (schedulers/o1) do to the record of one task, if they return.
use ghost_userspace_o.Base.{
  ℕ, ◌≡◌, refl, sym, subst, inl, inr, Bool, true, false, Option, some, arith, Bool-cases, Yields,
  Yields-bind, Yields-map, Yields-check, ok, not, Outcome, ◌>>=◌,
}
use ghost_userspace_o.Base.Int.{ℤ, is_nonneg}
use ghost_userspace_o.O1.Task.{O1Task, O1TaskState, is_blocked, is_queued}
use ghost_userspace_o.O1.Scheduler.{
  O1Scheduler, Kernel, put_task, cpu_of, enqueue_on, erase_on, task_off_cpu,
}
use ghost_userspace_o.O1.Scheduler.Handlers.{
  place, task_runnable, requeue, task_yield, task_blocked, task_preempted, boost_preempted,
  task_switchto, set_priority, priority_of, ping_if, task_priority_changed,
}
use ghost_userspace_o.O1.Scheduler.Follows.{Turned}
use ghost_userspace_o.O1.Scheduler.Follows.Stores.{
  put-Turned, Turned-trans, Turned-bind, enqueue_on-Turned, erase_on-Turned, cpu_of-nonneg,
  task_off_cpu-Turned, requeue-Turned, send-Turned,
}

place-Turned :
    (k : Kernel) (g seqnum : ℕ) (s : O1Scheduler) (t : O1Task)
    → s.tasks g ≡ some t
    → Yields (place k g seqnum t s) (λ s'. Turned g O1TaskState.queued t s.tasks s'.tasks)
unfolding place
place-Turned k g seqnum s t found = elim (Bool-cases (is_nonneg t.cpu)) [
  | inl home ↦
      rw home
        (Yields-bind (cpu_of t) _ _ _ (cpu_of-nonneg t) (λ c _. enqueue_on-Turned c g s t found))
  | inr away ↦ rw away (send-Turned k g seqnum s t found)
]

pub task_runnable-Turned :
    (k : Kernel) (g seqnum : ℕ) (deferrable : Bool) (s : O1Scheduler) (t : O1Task)
    → s.tasks g ≡ some t
    → Yields
        (task_runnable k g seqnum deferrable s)
        (λ s'. Turned g O1TaskState.queued t s.tasks s'.tasks)
unfolding task_runnable
task_runnable-Turned k g seqnum deferrable s t found =
    let t' : O1Task = record t { run_state = O1TaskState.runnable; prio_boost = not deferrable } in
    let u = put-Turned g O1TaskState.runnable t t' s.tasks refl refl refl (λ h. h) in
    rw found (
      Yields-check (is_blocked t.run_state) _ _ (λ _.
        Yields-map (place k g seqnum t' (put_task g t' s)) _ _
          (place-Turned k g seqnum (put_task g t' s) t' u.found) (λ s₁ v. Turned-trans u v)))

-- TaskYield and TaskPreempted: the task leaves its CPU and is queued.
off_then_queued :
    (k : Kernel) (g : ℕ) (from_switchto : Bool) (next : O1Scheduler → Outcome O1Scheduler)
    (s : O1Scheduler) (t : O1Task)
    → s.tasks g ≡ some t
    → ((s₁ : O1Scheduler) (t₁ : O1Task)
        → s₁.tasks g ≡ some t₁
        → t₁.run_state ≡ O1TaskState.runnable
        → Yields (next s₁) (λ s₂. Turned g O1TaskState.queued t₁ s₁.tasks s₂.tasks))
    → Yields
        (task_off_cpu k g false from_switchto s >>= next)
        (λ s'. Turned g O1TaskState.queued t s.tasks s'.tasks)
off_then_queued k g b next s t found rest =
    Turned-bind g O1TaskState.runnable O1TaskState.queued t s (task_off_cpu k g false b s) next
      (Yields-map (task_off_cpu k g false b s) _ _ (task_off_cpu-Turned k g false b s t found)
        (λ s₁ u. u.1))
      rest

pub ping_if-tasks : (b : Bool) (cpu : ℕ) (s : O1Scheduler) → (ping_if b cpu s).tasks ≡ s.tasks
ping_if-tasks true cpu s = refl
ping_if-tasks false cpu s = refl

-- With the Ping of a SwitchTo chain's CPU.
pinged :
    (g : ℕ) (state : O1TaskState) (t : O1Task) (f : ℕ → Option O1Task) (b : Bool) (cpu : ℕ)
    (m : Outcome O1Scheduler)
    → Yields m (λ s'. Turned g state t f s'.tasks)
    → Yields (m >>= λ s. ok (ping_if b cpu s)) (λ s'. Turned g state t f s'.tasks)
pinged g state t f b cpu m h =
    Yields-bind m _ _ _ h λ s₁ u. subst (Turned g state t f) (sym (ping_if-tasks b cpu s₁)) u

pub task_yield-Turned :
    (k : Kernel) (g cpu : ℕ) (b : Bool) (s : O1Scheduler) (t : O1Task)
    → s.tasks g ≡ some t
    → Yields (task_yield k g cpu b s) (λ s'. Turned g O1TaskState.queued t s.tasks s'.tasks)
unfolding task_yield
task_yield-Turned k g cpu b s t found =
    off_then_queued k g b (λ s. requeue g s >>= λ s. ok (ping_if b cpu s)) s t found
      λ s₁ t₁ found₁ _.
        pinged g O1TaskState.queued t₁ s₁.tasks b cpu (requeue g s₁) (requeue-Turned g s₁ t₁ found₁)

pub task_blocked-Turned :
    (k : Kernel) (g cpu : ℕ) (b : Bool) (s : O1Scheduler) (t : O1Task)
    → s.tasks g ≡ some t
    → Yields
        (task_blocked k g cpu b s)
        (λ s'. (is_nonneg t.cpu ≡ true) × Turned g O1TaskState.blocked t s.tasks s'.tasks)
unfolding task_blocked
task_blocked-Turned k g cpu b s t found =
    Yields-bind (task_off_cpu k g true b s) _ _ _ (task_off_cpu-Turned k g true b s t found)
      λ s₁ (home, u).
        (home, subst (Turned g O1TaskState.blocked t s.tasks) (sym (ping_if-tasks b cpu s₁)) u)

boost_preempted-Turned :
    (g : ℕ) (s : O1Scheduler) (t : O1Task)
    → s.tasks g ≡ some t
    → Yields (boost_preempted g s) (λ s'. Turned g t.run_state t s.tasks s'.tasks)
unfolding boost_preempted
boost_preempted-Turned g s t found = rw found (
    put-Turned g t.run_state t (record t { preempted = true; prio_boost = true }) s.tasks refl refl
      refl (λ h. h))

pub task_preempted-Turned :
    (k : Kernel) (g cpu : ℕ) (b : Bool) (s : O1Scheduler) (t : O1Task)
    → s.tasks g ≡ some t
    → Yields (task_preempted k g cpu b s) (λ s'. Turned g O1TaskState.queued t s.tasks s'.tasks)
unfolding task_preempted
task_preempted-Turned k g cpu b s t found =
    let last : O1Scheduler → Outcome O1Scheduler = λ s. requeue g s >>= λ s. ok (ping_if b cpu s) in
    off_then_queued k g b (λ s. boost_preempted g s >>= last) s t found
      λ s₁ t₁ found₁ _.
        Turned-bind g t₁.run_state O1TaskState.queued t₁ s₁ (boost_preempted g s₁) last
          (boost_preempted-Turned g s₁ t₁ found₁)
          λ s₂ t₂ found₂ _.
            pinged g O1TaskState.queued t₂ s₂.tasks b cpu (requeue g s₂)
              (requeue-Turned g s₂ t₂ found₂)

pub task_switchto-Turned :
    (k : Kernel) (g : ℕ) (s : O1Scheduler) (t : O1Task)
    → s.tasks g ≡ some t
    → Yields
        (task_switchto k g s)
        (λ s'. (is_nonneg t.cpu ≡ true) × Turned g O1TaskState.blocked t s.tasks s'.tasks)
unfolding task_switchto
task_switchto-Turned k g s t found = task_off_cpu-Turned k g true false s t found

set_priority-Turned :
    (priority : ℤ) (g : ℕ) (s : O1Scheduler) (t : O1Task)
    → s.tasks g ≡ some t
    → Yields (set_priority priority g s) (λ s'. Turned g t.run_state t s.tasks s'.tasks)
unfolding set_priority
set_priority-Turned priority g s t found = rw found (
    put-Turned g t.run_state t (record t { static_priority = priority }) s.tasks refl refl refl
      (λ h. h))

is_queued-state : (state : O1TaskState) → is_queued state ≡ true → state ≡ O1TaskState.queued
is_queued-state state h = ground arith

pub task_priority_changed-Turned :
    (g : ℕ) (nice : ℤ) (s : O1Scheduler) (t : O1Task)
    → s.tasks g ≡ some t
    → Yields (task_priority_changed g nice s) (λ s'. Turned g t.run_state t s.tasks s'.tasks)
unfolding task_priority_changed
task_priority_changed-Turned g nice s t found =
    let priority = priority_of nice in
    elim (Bool-cases (is_queued t.run_state)) [
      | inl queued ↦
          let state : O1TaskState.queued ≡ t.run_state = sym (is_queued-state t.run_state queued) in
          rw (found, queued)
            (Yields-bind (cpu_of t) _ _ _ (cpu_of-nonneg t) (λ c _.
              subst
                (λ state.
                  Yields
                    (erase_on c g s >>= λ s. set_priority priority g s >>= λ s. enqueue_on c g s)
                    (λ s'. Turned g state t s.tasks s'.tasks))
                state
                (Turned-bind g O1TaskState.runnable O1TaskState.queued t s (erase_on c g s)
                  (λ s. set_priority priority g s >>= λ s. enqueue_on c g s)
                  (erase_on-Turned c g s t found)
                  (λ s₁ t₁ found₁ _.
                    Turned-bind g t₁.run_state O1TaskState.queued t₁ s₁ (set_priority priority g s₁)
                      (enqueue_on c g) (set_priority-Turned priority g s₁ t₁ found₁)
                      (λ s₂ t₂ found₂ _. enqueue_on-Turned c g s₂ t₂ found₂)))))
      | inr other ↦ rw (found, other) (set_priority-Turned priority g s t found)
    ]
