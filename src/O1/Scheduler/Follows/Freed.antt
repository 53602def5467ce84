-- ===== src/O1/Scheduler/Follows/Freed.antt =====
-- A task of an O1Scheduler (schedulers/o1) that is freed, and one that is new.
use ghost_userspace_o.Base.{
  ℕ, ◌≡◌, ◌≢◌, refl, ap, ◌∙◌, inl, inr, Bool, true, false, ◌||◌, if◌then◌else◌, Option, none, some,
  ok, arith, Bool-cases, Yields, Yields-bind, Yields-map, Yields-check, ◌>>=◌,
}
use ghost_userspace_o.Base.Int.{ℤ}
use ghost_userspace_o.ArrList.Links.{update_miss}
use ghost_userspace_o.O1.Task.{
  O1Task, O1TaskState, is_on_cpu, is_queued, is_blocked, new_task, set_remaining_time,
}
use ghost_userspace_o.O1.Scheduler.{
  O1Scheduler, Kernel, put_task, cpu_of, erase_on, task_off_cpu, free_task, set_state, assign_cpu,
  migrate,
}
use ghost_userspace_o.O1.Scheduler.Handlers.{
  detach, task_departed, task_dead, task_new, ping_if, priority_of,
}
use ghost_userspace_o.O1.Scheduler.Invariant.Stores.{update_hit}
use ghost_userspace_o.O1.Scheduler.Follows.{Turned, Entered}
use ghost_userspace_o.O1.Scheduler.Follows.Stores.{
  task_off_cpu-Turned, erase_on-Turned, set_state-Turned, send-Turned, cpu_of-nonneg,
}
use ghost_userspace_o.O1.Scheduler.Follows.Handled.{ping_if-tasks}

-- The task is in the table no more, and the others are as before.
pub record Gone (g : ℕ) (f f' : ℕ → Option O1Task) : Type 0 where
  pub missing : f' g ≡ none
  pub only : (h : ℕ) → g ≢ h → f' h ≡ f h

free_task-Gone :
    (g : ℕ) (s : O1Scheduler) (t : O1Task)
    → s.tasks g ≡ some t
    → t.gtid ≡ g
    → Yields (free_task g s) (λ s'. Gone g s.tasks s'.tasks)
unfolding free_task
free_task-Gone g s t found key =
    rw (found, key)
      (record {
        missing = update_hit s.tasks g none;
        only = λ h ne. update_miss s.tasks g h none ne;
      })

pub task_dead-Gone :
    (g : ℕ) (s : O1Scheduler) (t : O1Task)
    → s.tasks g ≡ some t
    → t.gtid ≡ g
    → Yields (task_dead g s) (λ s'. Gone g s.tasks s'.tasks)
unfolding task_dead
task_dead-Gone g s t found key =
    rw found (Yields-check (is_blocked t.run_state) _ _ (λ _. free_task-Gone g s t found key))

abbrev Somehow : ℕ → O1Task → (ℕ → Option O1Task) → (ℕ → Option O1Task) → Type 0
Somehow g t f f' = (state : O1TaskState) × Turned g state t f f'

detach-Somehow :
    (k : Kernel) (g : ℕ) (b : Bool) (s : O1Scheduler) (t : O1Task)
    → s.tasks g ≡ some t
    → Yields (detach k g b t s) (λ s'. Somehow g t s.tasks s'.tasks)
unfolding detach
detach-Somehow k g b s t found = elim (Bool-cases (is_on_cpu t.run_state || b)) [
  | inl off ↦ rw off (
      Yields-map (task_off_cpu k g false b s) _ _ (task_off_cpu-Turned k g false b s t found)
        (λ s₁ u. (O1TaskState.runnable, u.1)))
  | inr stays ↦ elim (Bool-cases (is_queued t.run_state)) [
    | inl queued ↦
        rw (stays, queued)
          (Yields-bind (cpu_of t) _ _ _ (cpu_of-nonneg t) (λ c _.
            Yields-map (erase_on c g s) _ _ (erase_on-Turned c g s t found)
              (λ s₁ u. (O1TaskState.runnable, u))))
    | inr idle ↦
        rw (stays, idle)
          (Yields-check (is_blocked t.run_state) _ _ (λ _. (
            t.run_state,
            record {
              task = t;
              found = found;
              in_state = refl;
              same_key = refl;
              same_seqnum = refl;
              keeps_cpu = λ h. h;
              only = λ h ne. refl;
            },
          )))
  ]
]

pub task_departed-Gone :
    (k : Kernel) (g cpu : ℕ) (b : Bool) (s : O1Scheduler) (t : O1Task)
    → s.tasks g ≡ some t
    → t.gtid ≡ g
    → Yields (task_departed k g cpu b s) (λ s'. Gone g s.tasks s'.tasks)
unfolding task_departed
task_departed-Gone k g cpu b s t found key = rw found (
    Yields-bind (detach k g b t s) _ _ _ (detach-Somehow k g b s t found) (λ s₁ (state, u).
      let same = ping_if-tasks b cpu s₁ in
      Yields-map (free_task g (ping_if b cpu s₁)) _ _
        (free_task-Gone g (ping_if b cpu s₁) u.task (ap (λ f. f g) same ∙ u.found)
          (u.same_key ∙ key))
        (λ s₂ e. record {
          missing = e.missing;
          only = λ h ne. e.only h ne ∙ ap (λ f. f h) same ∙ u.only h ne;
        })))

abbrev first_state : Bool → O1TaskState
first_state runnable = if runnable then O1TaskState.queued else O1TaskState.blocked

-- What TaskNew leaves of the task that the allocator made.
pub task_new-Entered :
    (k : Kernel) (g seqnum : ℕ) (nice : ℤ) (runnable : Bool) (s : O1Scheduler)
    → Yields
        (task_new k g seqnum nice runnable (put_task g (new_task g) s))
        (λ s'. Entered g (first_state runnable) seqnum (new_task g) s.tasks s'.tasks)
unfolding task_new
task_new-Entered k g seqnum nice runnable s =
    let t : O1Task = record (set_remaining_time (new_task g)) {
      seqnum = seqnum;
      run_state = O1TaskState.blocked;
      static_priority = priority_of nice;
    } in
    let s₀ = put_task g (new_task g) s in
    let s₁ = put_task g t s₀ in
    let found₀ : s₀.tasks g ≡ some (new_task g) = update_hit s.tasks g (some (new_task g)) in
    let found : s₁.tasks g ≡ some t = update_hit s₀.tasks g (some t) in
    let others : ((h : ℕ) → g ≢ h → s₁.tasks h ≡ s.tasks h) = λ h ne.
      update_miss s₀.tasks g h (some t) ne ∙ update_miss s.tasks g h (some (new_task g)) ne in
    rw found₀ (placed t s₁ found others refl refl runnable)
  where
    placed :
        (t : O1Task) (s₁ : O1Scheduler)
        → s₁.tasks g ≡ some t
        → ((h : ℕ) → g ≢ h → s₁.tasks h ≡ s.tasks h)
        → t.seqnum ≡ seqnum
        → t.run_state ≡ O1TaskState.blocked
        → (runnable : Bool)
        → Yields
            (if runnable
              then (set_state O1TaskState.runnable g s₁ >>= λ s.
                  assign_cpu s >>= λ r. migrate k g r.0 seqnum r.1)
              else ok s₁)
            (λ s'. Entered g (first_state runnable) seqnum (new_task g) s.tasks s'.tasks)
    placed t s₁ found others numbered waits false = record {
      task = t;
      found = found;
      in_state = waits;
      numbered = numbered;
      keeps_cpu = λ h. ground arith;
      only = others;
    }
    placed t s₁ found others numbered waits true =
        Yields-bind (set_state O1TaskState.runnable g s₁) _ _ _
          (set_state-Turned O1TaskState.runnable g s₁ t found)
          λ s₂ u.
            Yields-map (assign_cpu s₂ >>= λ r. migrate k g r.0 seqnum r.1) _ _
              (send-Turned k g seqnum s₂ u.task u.found)
              λ s₃ v. record {
                task = v.task;
                found = v.found;
                in_state = v.in_state;
                numbered = v.same_seqnum ∙ u.same_seqnum ∙ numbered;
                keeps_cpu = λ h. ground arith;
                only = λ h ne. v.only h ne ∙ u.only h ne ∙ others h ne;
              }
