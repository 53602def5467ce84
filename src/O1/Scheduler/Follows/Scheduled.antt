-- ===== src/O1/Scheduler/Follows/Scheduled.antt =====
-- O1Schedule (schedulers/o1) beside the kernel's threads.
use ghost_userspace_o.Base.{
  ℕ, ◌≡◌, refl, sym, subst, ◌∙◌, inl, inr, Bool, true, false, if◌then◌else◌, Option, none, some,
  Option-cases, Yields, Yields-bind, Yields-map, Yields-also,
}
use ghost_userspace_o.Base.Int.{pos}
use ghost_userspace_o.Threads.{Phase, Threads, answered}
use ghost_userspace_o.O1.Task.{O1Task, O1TaskState, set_runtime_at_last_pick}
use ghost_userspace_o.O1.Scheduler.{O1Scheduler, Kernel, commit_txn, emit, task_on_cpu}
use ghost_userspace_o.O1.Scheduler.Schedule.{
  settle_preemption, pick_next, commit_failed, run_next, yield_cpu, dispose, o1_schedule,
}
use ghost_userspace_o.O1.Scheduler.Invariant.{Inv}
use ghost_userspace_o.O1.Scheduler.Invariant.Picks.{settle_preemption-Inv}
use ghost_userspace_o.O1.Scheduler.Follows.{FollowsAll, Turned}
use ghost_userspace_o.O1.Scheduler.Follows.Delivered.{Turned-refl}
use ghost_userspace_o.O1.Scheduler.Follows.Stores.{put-Turned, Turned-trans}
use ghost_userspace_o.O1.Scheduler.Follows.Answered.{
  settle-Follows, Picked, dequeue_on-Picked, commit_failed-Failed, committed-Follows,
}

-- What follows the commit: the kernel has answered the newest request.
abbrev Answers : Kernel → Threads → O1Scheduler → Type 0
Answers k w s = FollowsAll (answered k.committed s.effects w) s.tasks

task_on_cpu-Turned :
    (k : Kernel) (g c : ℕ) (s : O1Scheduler) (t : O1Task)
    → s.tasks g ≡ some t
    → Yields
        (task_on_cpu k g c s)
        (λ s'. Turned g O1TaskState.on_cpu t s.tasks s'.tasks × (s'.effects ≡ s.effects))
unfolding task_on_cpu
task_on_cpu-Turned k g c s t found =
    let t' = record (set_runtime_at_last_pick k.later t) {
      run_state = O1TaskState.on_cpu;
      cpu = pos c;
      preempted = false;
      prio_boost = false;
    } in
    rw found (put-Turned g O1TaskState.on_cpu t t' s.tasks refl refl refl (λ _. refl), refl)

-- The commit of a task that is picked, with the kernel's answer.
committed_or-Follows :
    (k : Kernel) (b : Bool) (c g seqnum agent_barrier : ℕ) (w : Threads) (f : ℕ → Option O1Task)
    (s : O1Scheduler) (t : O1Task) (state : O1TaskState)
    → FollowsAll w f
    → f g ≡ some t
    → Turned g state t f s.tasks
    → let s₁ = emit (commit_txn c g seqnum agent_barrier) s in
      Yields
        (if b then task_on_cpu k g c s₁ else commit_failed k c g s₁)
        (λ s'. FollowsAll (answered b s'.effects w) s'.tasks)
committed_or-Follows k true c g seqnum agent_barrier w f s t state all found u =
    let s₁ = emit (commit_txn c g seqnum agent_barrier) s in
    Yields-map (task_on_cpu k g c s₁) _ _ (task_on_cpu-Turned k g c s₁ u.task u.found) λ s₂ (v, e).
      rw e
        (committed-Follows true Phase.running w f s₂.tasks g t all found tt refl (Turned-trans u v))
committed_or-Follows k false c g seqnum agent_barrier w f s t state all found u =
    let s₁ = emit (commit_txn c g seqnum agent_barrier) s in
    Yields-map (commit_failed k c g s₁) _ _ (commit_failed-Failed k c g s₁ u.task u.found) λ s₂ v.
      rw (v.effects) (
        committed-Follows false Phase.ready w f s₂.tasks g t all found tt refl
          (Turned-trans u v.turned))

run_next-Follows :
    (k : Kernel) (c agent_barrier g : ℕ) (w : Threads) (f : ℕ → Option O1Task) (s : O1Scheduler)
    (t : O1Task) (state : O1TaskState)
    → FollowsAll w f
    → f g ≡ some t
    → t.gtid ≡ g
    → Turned g state t f s.tasks
    → Yields (run_next k c agent_barrier g s) (Answers k w)
unfolding run_next
run_next-Follows k c agent_barrier g w f s t state all found key u =
    rw (u.found, u.same_key ∙ key)
      (committed_or-Follows k k.committed c g u.task.seqnum agent_barrier w f s t state all found u)

dispose-Follows :
    (k : Kernel) (c agent_barrier : ℕ) (boosted : Bool) (next : Option ℕ) (w : Threads)
    (s₀ s : O1Scheduler)
    → Inv s₀
    → FollowsAll w s₀.tasks
    → Picked s₀.tasks next s.tasks
    → Yields (dispose k c agent_barrier boosted next s) (Answers k w)
unfolding dispose yield_cpu
dispose-Follows k c agent_barrier boosted none w s₀ s v all same =
    subst (λ f. FollowsAll w f) (sym same) all
dispose-Follows k c agent_barrier boosted (some g) w s₀ s v all (t, state, found, u) =
    run_next-Follows k c agent_barrier g w s₀.tasks s t state all found (v.tasks_ok g t found).key u

pick_next-Picked :
    (c : ℕ) (boosted : Bool) (s : O1Scheduler)
    → Inv s
    → Yields (pick_next c boosted s) (λ r. Picked s.tasks r.0 r.1.tasks)
unfolding pick_next
pick_next-Picked c true s v = refl
pick_next-Picked c false s v = elim (Option-cases (s.cpu_states c).current) [
  | inl idle ↦ rw (idle, pick_next) (dequeue_on-Picked c s v)
  | inr (g, current) ↦
      let (t, found, on, at) = v.current_runs c g current in
      rw (current, pick_next) (t, t.run_state, found, Turned-refl g t s.tasks found)
]

pub o1_schedule-Follows :
    (k : Kernel) (c agent_barrier : ℕ) (boosted : Bool) (w : Threads) (s : O1Scheduler)
    → Inv s
    → FollowsAll w s.tasks
    → Yields (o1_schedule k c agent_barrier boosted s) (Answers k w)
unfolding o1_schedule
o1_schedule-Follows k c agent_barrier boosted w s v all =
    Yields-bind (settle_preemption c s) _ _ _
      (Yields-also (settle_preemption c s) _ _ (settle_preemption-Inv s c v)
        (settle-Follows c w s all))
      λ s₁ (v₁, all₁).
        Yields-bind (pick_next c boosted s₁) _ _ _ (pick_next-Picked c boosted s₁ v₁)
          λ r picked. dispose-Follows k c agent_barrier boosted r.0 w s₁ r.1 v₁ all₁ picked
