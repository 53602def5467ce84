-- ===== src/O1/Scheduler/Invariant/Runs.antt =====
-- TaskOffCpu, TaskOnCpu, FreeTask and the small writes of O1Scheduler keep the invariant.
use ghost_userspace_o.Base.{
  ℕ, ◌<◌, ◌≡◌, ◌≢◌, refl, sym, subst, ◌∙◌, ◌⊎◌, inl, inr, Bool, true, false, if◌then◌else◌, Option,
  none, some, arith, ok, Returns, Returns-map,
}
use ghost_userspace_o.Base.Int.{pos}
use ghost_userspace_o.O1.Task.{
  O1Task, O1TaskState, is_queued, is_on_cpu, is_blocked, update_remaining_time,
  set_runtime_at_last_pick,
}
use ghost_userspace_o.O1.RunQueue.{with_state}
use ghost_userspace_o.O1.RunQueue.Laws.{occurs}
use ghost_userspace_o.O1.Scheduler.{
  O1Scheduler, Kernel, put_task, cpu_of, points_to, leave_cpu, after_off_cpu, set_state,
  task_off_cpu, task_on_cpu, free_task, max_cpus,
}
use ghost_userspace_o.O1.Scheduler.Invariant.{expected, TaskOk, RunsOn, Inv, HasCpu, HasBucket}
use ghost_userspace_o.O1.Scheduler.Invariant.Stores.{
  stored-Inv, put_task-Inv, update_hit, update_cases,
}
use ghost_userspace_o.O1.Scheduler.Invariant.Moves.{not_current}

-- Task `g` is current on no CPU.
abbrev pub Idle : O1Scheduler → ℕ → Type 0
Idle s g = (d : ℕ) → (s.cpu_states d).current ≢ some g

-- A task that is not queued may be written anew, not queued either.
pub put_unqueued-Inv :
    (s : O1Scheduler) (g : ℕ) (t t' : O1Task)
    → Inv s
    → s.tasks g ≡ some t
    → is_queued t.run_state ≡ false
    → is_queued t'.run_state ≡ false
    → TaskOk g t'
    → Idle s g
    → Inv (put_task g t' s)
put_unqueued-Inv s g t t' v found before after task_ok idle =
    put_task-Inv s g t' v task_ok (λ d k. ground arith) (λ d e. absurd (idle d e))

pub set_state-Inv :
    (s : O1Scheduler) (state : O1TaskState) (g : ℕ) (t : O1Task)
    → Inv s
    → s.tasks g ≡ some t
    → is_queued t.run_state ≡ false
    → is_queued state ≡ false
    → is_on_cpu state ≡ false
    → Idle s g
    → Returns
        (set_state state g s)
        (λ s'. Inv s' × (s'.tasks g ≡ some (with_state state t)) × (s'.cpu_states ≡ s.cpu_states))
unfolding set_state
set_state-Inv s state g t v found before q o idle =
    let tok = v.tasks_ok g t found in
    rw found (
      put_unqueued-Inv s g t (with_state state t) v found before q
          (record { key = tok.key; bucket = tok.bucket; home = ground (arith, tok.home) }) idle,
      update_hit s.tasks g (some (with_state state t)),
      refl,
    )

pub home_of : (g : ℕ) (t : O1Task) → TaskOk g t → t.run_state ≡ O1TaskState.on_cpu → HasCpu t.cpu
home_of g t tok on = elim tok.home [ inl c ↦ c | inr (_, _, off) ↦ absurd (ground arith) ]

charged_facts :
    (k : Kernel) (t : O1Task)
    → let t' = (update_remaining_time true k.now k.later t).1 in
      (t'.run_state ≡ t.run_state)
      × (t'.cpu ≡ t.cpu)
      × (t'.static_priority ≡ t.static_priority)
      × (t'.gtid ≡ t.gtid)
      × (t'.seqnum ≡ t.seqnum)
unfolding update_remaining_time
charged_facts k t = ground arith

-- What is current once `g` was cleared.
cleared :
    (o : Option ℕ) (g h : ℕ) → (if points_to o g then none else o) ≡ some h → (o ≡ some h) × (g ≢ h)
cleared none g h e = cc
cleared (some x) g h e = ground arith

-- A task runs on one CPU.
runs_at :
    (s : O1Scheduler) (g c d : ℕ) (t : O1Task)
    → Inv s
    → s.tasks g ≡ some t
    → t.cpu ≡ pos c
    → (s.cpu_states d).current ≡ some g
    → c ≡ d
runs_at s g c d t v found cpu cur = let (u, same, on, at) = v.current_runs d g cur in ground arith

leave_cpu-Inv :
    (k : Kernel) (s : O1Scheduler) (g c : ℕ) (t : O1Task)
    → Inv s
    → s.tasks g ≡ some t
    → t.run_state ≡ O1TaskState.on_cpu
    → t.cpu ≡ pos c
    → Inv (leave_cpu k c g t s) × Idle (leave_cpu k c g t s) g
leave_cpu-Inv k s g c t v found on cpu =
    let t' = (update_remaining_time true k.now k.later t).1 in
    let tok = v.tasks_ok g t found in
    let (es, ec, ep, eg, eq) = charged_facts k t in
    (
      stored-Inv s g t' c _ v
          (record {
            key = eg ∙ tok.key;
            bucket = subst HasBucket (sym ep) tok.bucket;
            home = ground (arith, tok.home);
          })
          (v.indexed c)
          (λ j h.
            update_cases (λ i o. occurs (s.cpu_states c).run_queue j i ≡ expected o c j) s.tasks g
              (some t') h (ground (arith, v.placed c j g)) (λ ne. v.placed c j h))
          (λ d j ne. ground arith)
          (λ h cur.
            let (was, other) = cleared (s.cpu_states c).current g h cur in
            update_cases (λ i o. g ≢ i → (s.cpu_states c).current ≡ some i → RunsOn o c) s.tasks g
              (some t') h (λ ne _. absurd (ne refl)) (λ _ _ e. v.current_runs c h e) other was)
          (λ d ne cur. absurd (ne (runs_at s g c d t v found cpu cur))),
      λ d.
          update_cases (λ i x. x.current ≢ some g) s.cpu_states c _ d
            (λ e. (cleared (s.cpu_states c).current g g e).1 refl)
            (λ ne e. ne (runs_at s g c d t v found cpu e)),
    )

-- Who may leave a CPU: the task that is on it, or a blocked one at the end of a SwitchTo chain.
abbrev pub CanLeave : O1Task → Bool → Type 0
CanLeave t from_switchto =
    (t.run_state ≡ O1TaskState.on_cpu)
    ⊎ ((from_switchto ≡ true) × (t.run_state ≡ O1TaskState.blocked) × HasCpu t.cpu)

-- The task stands in the table with this state, on its CPU, and is current nowhere.
pub record Left (g : ℕ) (state : O1TaskState) (t : O1Task) (s : O1Scheduler) : Type 0 where
  pub inv : Inv s
  pub task : O1Task
  pub found : s.tasks g ≡ some task
  pub in_state : task.run_state ≡ state
  pub same_cpu : task.cpu ≡ t.cpu
  pub same_seqnum : task.seqnum ≡ t.seqnum
  pub idle : Idle s g

pub cpu_of-pos : (t : O1Task) (c : ℕ) → t.cpu ≡ pos c → c < max_cpus → cpu_of t ≡ ok c
unfolding cpu_of
cpu_of-pos t c e h = ground arith

after_facts :
    (blocked : Bool)
    → (is_queued (after_off_cpu blocked) ≡ false) × (is_on_cpu (after_off_cpu blocked) ≡ false)
after_facts true = (refl, refl)
after_facts false = (refl, refl)

-- The last write of TaskOffCpu.
state-Left :
    (s : O1Scheduler) (g : ℕ) (blocked : Bool) (t u : O1Task)
    → Inv s
    → s.tasks g ≡ some u
    → is_queued u.run_state ≡ false
    → u.cpu ≡ t.cpu
    → u.seqnum ≡ t.seqnum
    → Idle s g
    → Returns (set_state (after_off_cpu blocked) g s) (Left g (after_off_cpu blocked) t)
state-Left s g blocked t u v found q same same_seq idle =
    let state = after_off_cpu blocked in
    let (unqueued, off) = after_facts blocked in
    Returns-map (set_state state g s) _ _ (set_state-Inv s state g u v found q unqueued off idle)
      λ s' p. record {
        inv = p.0;
        task = with_state state u;
        found = p.1;
        in_state = refl;
        same_cpu = same;
        same_seqnum = same_seq;
        idle = subst (λ f. (d : ℕ) → (f d).current ≢ some g) (sym p.2) idle;
      }

-- TaskOffCpu of a task that may leave its CPU fails no CHECK: the task is blocked or runnable then,
-- current nowhere, and the invariant holds.
pub task_off_cpu-Inv :
    (k : Kernel) (s : O1Scheduler) (g : ℕ) (blocked from_switchto : Bool) (t : O1Task)
    → Inv s
    → s.tasks g ≡ some t
    → CanLeave t from_switchto
    → Returns (task_off_cpu k g blocked from_switchto s) (Left g (after_off_cpu blocked) t)
unfolding task_off_cpu
task_off_cpu-Inv k s g blocked from_switchto t v found (inl on) =
    let (c, low, cpu) = home_of g t (v.tasks_ok g t found) on in
    let (w, idle) = leave_cpu-Inv k s g c t v found on cpu in
    let t' = (update_remaining_time true k.now k.later t).1 in
    let (es, ec, ep, eg, eq) = charged_facts k t in
    let running : is_on_cpu t.run_state ≡ true = rw on refl in
    let unqueued : is_queued t'.run_state ≡ false = ground arith in
    rw (found, cpu_of-pos t c cpu low, running)
      (state-Left (leave_cpu k c g t s) g blocked t t' w (update_hit s.tasks g (some t')) unqueued
        ec eq idle)
task_off_cpu-Inv k s g blocked from_switchto t v found (inr (switched, off, (c, low, cpu))) =
    let parked : is_on_cpu t.run_state ≡ false = rw off refl in
    let waits : is_blocked t.run_state ≡ true = rw off refl in
    let unqueued : is_queued t.run_state ≡ false = rw off refl in
    rw (found, cpu_of-pos t c cpu low, parked, switched, waits)
      (state-Left s g blocked t t v found unqueued refl refl (not_current s g t v found (λ e. cc)))

pub task_on_cpu-Inv :
    (k : Kernel) (s : O1Scheduler) (g c : ℕ) (t : O1Task)
    → Inv s
    → s.tasks g ≡ some t
    → is_queued t.run_state ≡ false
    → t.cpu ≡ pos c
    → c < max_cpus
    → Returns (task_on_cpu k g c s) Inv
unfolding task_on_cpu
task_on_cpu-Inv k s g c t v found q cpu low =
    let tok = v.tasks_ok g t found in
    let t' : O1Task = record (set_runtime_at_last_pick k.later t) {
      run_state = O1TaskState.on_cpu;
      cpu = pos c;
      preempted = false;
      prio_boost = false;
    } in
    let here : RunsOn (some t') c = (t', refl, refl, refl) in
    rw found (
      stored-Inv s g t' c _ v
        (record { key = tok.key; bucket = tok.bucket; home = inl (c, low, refl) }) (v.indexed c)
        (λ j h.
          update_cases (λ i o. occurs (s.cpu_states c).run_queue j i ≡ expected o c j) s.tasks g
            (some t') h (ground (arith, v.placed c j g)) (λ ne. v.placed c j h))
        (λ d j ne. ground arith)
        (λ h cur.
          update_cases (λ i o. g ≡ i → RunsOn o c) s.tasks g (some t') h (λ _. here)
            (λ ne e. absurd (ne e)) (cc))
        (λ d ne cur. absurd (ne (runs_at s g c d t v found cpu cur))))

-- A task that is neither queued nor current leaves the table.
pub free_task-Inv :
    (s : O1Scheduler) (g : ℕ) (t : O1Task)
    → Inv s
    → s.tasks g ≡ some t
    → is_queued t.run_state ≡ false
    → Idle s g
    → Returns (free_task g s) (λ s'. Inv s' × (s'.tasks g ≡ none))
unfolding free_task
free_task-Inv s g t v found q idle =
    let e = (v.tasks_ok g t found).key in
    rw found (
      record {
        cpus_ok = v.cpus_ok;
        tasks_ok = λ h u.
            update_cases (λ i o. o ≡ some u → TaskOk i u) s.tasks t.gtid none h (λ z. cc)
              (λ _ z. v.tasks_ok h u z);
        indexed = v.indexed;
        placed = λ d j h.
            update_cases (λ i o. occurs (s.cpu_states d).run_queue j i ≡ expected o d j) s.tasks
              t.gtid none h (rw e (ground (arith, v.placed d j g))) (λ ne. v.placed d j h);
        current_runs = λ d h.
            update_cases (λ i o. (s.cpu_states d).current ≡ some i → RunsOn o d) s.tasks t.gtid none
              h (rw e (λ z. absurd (idle d z))) (λ _. v.current_runs d h);
      },
      rw e (update_hit s.tasks g none),
    )
