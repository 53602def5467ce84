-- ===== src/O1/Scheduler/Follows/Stores.antt =====
-- What the operations of O1Scheduler (schedulers/o1) do to the record of one task, if they return.
use ghost_userspace_o.Base.{
  ℕ, ◌≡◌, refl, ap, subst, ◌∙◌, inl, inr, Bool, true, Option, some, update, ◌==◌, Bool-cases,
  Yields, Yields-bind, Yields-map, Yields-check, Yields-deref, ok, get_elem?, length, if◌then◌else◌,
  check_failed, check, ltb, Outcome, ◌>>=◌, ◌>>◌,
}
use ghost_userspace_o.Base.Int.{ℤ, pos, negsuc, is_nonneg}
use ghost_userspace_o.O1.Task.{
  O1Task, O1TaskState, is_runnable, is_on_cpu, is_blocked, update_remaining_time,
}
use ghost_userspace_o.O1.RunQueue.{O1Rq, with_state}
use ghost_userspace_o.O1.RunQueue
use ghost_userspace_o.O1.RunQueue.Marked.{Marked, enqueue-Marked, erase-Marked}
use ghost_userspace_o.O1.Scheduler.{
  O1Scheduler, Kernel, put_task, cpu_of, enqueue_on, erase_on, assign_cpu, migrate, task_off_cpu,
  set_state, after_off_cpu, leave_cpu, is_unassigned, emit, max_cpus, associate_task,
}
use ghost_userspace_o.O1.Scheduler.Handlers.{requeue}
use ghost_userspace_o.ArrList.Links.{update_miss}
use ghost_userspace_o.O1.Scheduler.Invariant.Stores.{update_hit}
use ghost_userspace_o.O1.Scheduler.Follows.{Turned}

-- A record with the same key and sequence number is written.
abbrev pub put-Turned :
    (g : ℕ) (state : O1TaskState) (t t' : O1Task) (f : ℕ → Option O1Task)
    → t'.run_state ≡ state
    → t'.gtid ≡ t.gtid
    → t'.seqnum ≡ t.seqnum
    → (is_nonneg t.cpu ≡ true → is_nonneg t'.cpu ≡ true)
    → Turned g state t f (update f g (some t'))
put-Turned g state t t' f in_state key seqnum cpu = record {
  task = t';
  found = update_hit f g (some t');
  in_state = in_state;
  same_key = key;
  same_seqnum = seqnum;
  keeps_cpu = cpu;
  only = λ h ne. update_miss f g h (some t') ne;
}

pub Turned-trans :
    {g : ℕ} {a b : O1TaskState} {t : O1Task} {f f' f'' : ℕ → Option O1Task}
    → (u : Turned g a t f f') → Turned g b u.task f' f''
    → Turned g b t f f''
Turned-trans u v = record {
  task = v.task;
  found = v.found;
  in_state = v.in_state;
  same_key = v.same_key ∙ u.same_key;
  same_seqnum = v.same_seqnum ∙ u.same_seqnum;
  keeps_cpu = λ h. v.keeps_cpu (u.keeps_cpu h);
  only = λ h ne. v.only h ne ∙ u.only h ne;
}

pub Marked-Turned :
    (g : ℕ) (state : O1TaskState) (t t' : O1Task) (f : ℕ → Option O1Task)
    → Marked state t t'
    → Turned g state t f (update f g (some t'))
Marked-Turned g state t t' f m =
    put-Turned g state t t' f m.in_state m.same_key m.same_seqnum (λ h. rw (m.same_cpu) h)

-- The changes of a step and those of what follows it.
pub Turned-bind :
    (g : ℕ) (a b : O1TaskState) (t : O1Task) (s : O1Scheduler) (m : Outcome O1Scheduler)
    (next : O1Scheduler → Outcome O1Scheduler)
    → Yields m (λ s₁. Turned g a t s.tasks s₁.tasks)
    → ((s₁ : O1Scheduler) (t₁ : O1Task)
        → s₁.tasks g ≡ some t₁
        → t₁.run_state ≡ a
        → Yields (next s₁) (λ s₂. Turned g b t₁ s₁.tasks s₂.tasks))
    → Yields (m >>= next) (λ s₂. Turned g b t s.tasks s₂.tasks)
Turned-bind g a b t s m next first rest =
    Yields-bind m next _ _ first
      λ s₁ u. Yields-map (next s₁) _ _ (rest s₁ u.task u.found u.in_state) λ s₂ v. Turned-trans u v

pub enqueue_on-Turned :
    (c g : ℕ) (s : O1Scheduler) (t : O1Task)
    → s.tasks g ≡ some t
    → Yields (enqueue_on c g s) (λ s'. Turned g O1TaskState.queued t s.tasks s'.tasks)
unfolding enqueue_on
enqueue_on-Turned c g s t found = rw found (
    Yields-bind (RunQueue.enqueue (s.cpu_states c).run_queue t) _ _ _
      (enqueue-Marked (s.cpu_states c).run_queue t)
      (λ r m. Marked-Turned g O1TaskState.queued t r.1 s.tasks m))

pub erase_on-Turned :
    (c g : ℕ) (s : O1Scheduler) (t : O1Task)
    → s.tasks g ≡ some t
    → Yields (erase_on c g s) (λ s'. Turned g O1TaskState.runnable t s.tasks s'.tasks)
unfolding erase_on
erase_on-Turned c g s t found = rw found (
    Yields-bind (RunQueue.erase (s.cpu_states c).run_queue t) _ _ _
      (erase-Marked (s.cpu_states c).run_queue t)
      (λ r m. Marked-Turned g O1TaskState.runnable t r.1 s.tasks m))

-- AssignCpu writes no task.
pub assign_cpu-tasks : (s : O1Scheduler) → Yields (assign_cpu s) (λ r. r.1.tasks ≡ s.tasks)
unfolding assign_cpu
assign_cpu-tasks s =
    Yields-deref (get_elem? s.cpus (if s.next == length s.cpus then 0 else s.next)) _ _ λ c e. refl

pub migrate-Turned :
    (k : Kernel) (g c seqnum : ℕ) (s : O1Scheduler) (t : O1Task)
    → s.tasks g ≡ some t
    → Yields (migrate k g c seqnum s) (λ s'. Turned g O1TaskState.queued t s.tasks s'.tasks)
unfolding migrate
migrate-Turned k g c seqnum s t found =
    let t' : O1Task = record t { cpu = pos c } in
    let s₀ = put_task g t' (emit (associate_task g c seqnum) s) in
    let u = put-Turned g t.run_state t t' s.tasks refl refl refl (λ _. refl) in
    rw found (
      Yields-check (is_runnable t.run_state) _ _ (λ _. Yields-check (is_unassigned t.cpu) _ _ (λ _.
        Yields-check (k.associated g c seqnum) _ _ (λ _.
          Yields-bind (enqueue_on c g s₀) _ _ _ (enqueue_on-Turned c g s₀ t' u.found)
            (λ s₁ v. Turned-trans u v)))))

-- cpu_state_of lets only a task with a CPU through.
pub cpu_of-nonneg : (t : O1Task) → Yields (cpu_of t) (λ c. is_nonneg t.cpu ≡ true)
unfolding cpu_of
cpu_of-nonneg t = go t.cpu
  where
    go :
        (z : ℤ)
        → Yields
            (elim z [ pos c ↦ (check (ltb c max_cpus) >> ok c) | negsuc n ↦ check_failed ])
            (λ c. is_nonneg z ≡ true)
    go (pos c) = Yields-check (ltb c max_cpus) _ _ λ _. refl
    go (negsuc n) = tt

pub set_state-Turned :
    (state : O1TaskState) (g : ℕ) (s : O1Scheduler) (t : O1Task)
    → s.tasks g ≡ some t
    → Yields (set_state state g s) (λ s'. Turned g state t s.tasks s'.tasks)
unfolding set_state
set_state-Turned state g s t found =
    rw found (put-Turned g state t (with_state state t) s.tasks refl refl refl (λ h. h))

leave_cpu-Turned :
    (k : Kernel) (c g : ℕ) (s : O1Scheduler) (t : O1Task)
    → Turned g t.run_state t s.tasks (leave_cpu k c g t s).tasks
unfolding update_remaining_time
leave_cpu-Turned k c g s t =
    put-Turned g t.run_state t (update_remaining_time true k.now k.later t).1 s.tasks refl refl refl
      (λ h. h)

-- A task that TaskOffCpu takes has a CPU, and it was on it or blocked.
pub task_off_cpu-Turned :
    (k : Kernel) (g : ℕ) (blocked from_switchto : Bool) (s : O1Scheduler) (t : O1Task)
    → s.tasks g ≡ some t
    → Yields
        (task_off_cpu k g blocked from_switchto s)
        (λ s'. (is_nonneg t.cpu ≡ true) × Turned g (after_off_cpu blocked) t s.tasks s'.tasks)
unfolding task_off_cpu
task_off_cpu-Turned k g blocked from_switchto s t found =
    let state = after_off_cpu blocked in
    rw found (
      Yields-bind (cpu_of t) _ _ _ (cpu_of-nonneg t) (λ c home.
        let s₁ = leave_cpu k c g t s in
        let u = leave_cpu-Turned k c g s t in
        elim (Bool-cases (is_on_cpu t.run_state)) [
          | inl on ↦ rw on (
              Yields-map (set_state state g s₁) _ _ (set_state-Turned state g s₁ u.task u.found)
                (λ s₂ v. (home, Turned-trans u v)))
          | inr off ↦ rw off (
              Yields-check from_switchto _ _ (λ _. Yields-check (is_blocked t.run_state) _ _ (λ _.
                Yields-map (set_state state g s) _ _ (set_state-Turned state g s t found)
                  (λ s₂ v. (home, v)))))
        ]))

pub requeue-Turned :
    (g : ℕ) (s : O1Scheduler) (t : O1Task)
    → s.tasks g ≡ some t
    → Yields (requeue g s) (λ s'. Turned g O1TaskState.queued t s.tasks s'.tasks)
unfolding requeue
requeue-Turned g s t found =
    rw found
      (Yields-bind (cpu_of t) _ _ _ (cpu_of-nonneg t) (λ c _. enqueue_on-Turned c g s t found))

pub send-Turned :
    (k : Kernel) (g seqnum : ℕ) (s : O1Scheduler) (t : O1Task)
    → s.tasks g ≡ some t
    → Yields
        (assign_cpu s >>= λ r. migrate k g r.0 seqnum r.1)
        (λ s'. Turned g O1TaskState.queued t s.tasks s'.tasks)
send-Turned k g seqnum s t found = Yields-bind (assign_cpu s) _ _ _ (assign_cpu-tasks s) λ r same.
    subst
      (λ f. Yields (migrate k g r.0 seqnum r.1) (λ s'. Turned g O1TaskState.queued t f s'.tasks))
      same (migrate-Turned k g r.0 seqnum r.1 t (ap (λ f. f g) same ∙ found))
