-- ===== src/O1/Scheduler/Invariant/Picks.antt =====
-- O1Schedule (schedulers/o1/o1_scheduler.cc) keeps the invariant of O1Scheduler.
use ghost_userspace_o.Base.{
  ℕ, ◌<◌, ◌≡◌, refl, ap, ◌∙◌, ◌⊎◌, inl, inr, Bool, true, false, Option, none, some, arith,
  Bool-cases, Option-cases, ==_refl, ok, Returns, Returns-bind, Returns-map, ◌>>=◌,
}
use ghost_userspace_o.Base.Int.{pos}
use ghost_userspace_o.O1.Task.{O1Task, O1TaskState, is_queued, set_remaining_time}
use ghost_userspace_o.O1.Scheduler.{
  O1Scheduler, CpuState, Kernel, put_task, put_cpu, emit, task_off_cpu, max_cpus, enqueue_on,
}
use ghost_userspace_o.O1.Scheduler.Invariant.{Inv}
use ghost_userspace_o.O1.Scheduler.Invariant.Stores.{
  put_task-Inv, put_cpu-Inv, emit-Inv, update_hit,
}
use ghost_userspace_o.O1.Scheduler.Invariant.Moves.{not_current}
use ghost_userspace_o.O1.Scheduler.Invariant.Runs.{put_unqueued-Inv, Idle, task_off_cpu-Inv}
use ghost_userspace_o.O1.Scheduler.Invariant.Messages.{enqueue_on-After}
use ghost_userspace_o.O1.Scheduler.{points_to, dequeue_on, empty_on, commit_txn}
use ghost_userspace_o.O1.Scheduler.Schedule.{
  preempt_current, settle_preemption, pick_next, boost, commit_failed, run_next, yield_cpu, dispose,
  o1_schedule,
}
use ghost_userspace_o.O1.Scheduler.Invariant.Moves.{dequeue_on-Inv, Picked}
use ghost_userspace_o.O1.Scheduler.Invariant.Runs.{task_on_cpu-Inv}

preempt_current-Inv :
    (s : O1Scheduler) (c g : ℕ)
    → Inv s
    → (s.cpu_states c).current ≡ some g
    → Returns (preempt_current c g s) Inv
unfolding preempt_current
preempt_current-Inv s c g v cur = elim (Bool-cases (empty_on c s)) [
  | inl alone ↦
      let (t, found, on, at) = v.current_runs c g cur in
      let tok = v.tasks_ok g t found in
      let t' : O1Task = set_remaining_time t in
      rw (alone, found)
        (put_task-Inv s g t' v (record { key = tok.key; bucket = tok.bucket; home = tok.home })
          (λ d j. rw found refl)
          (λ d here.
            let (u, same, _, there) = v.current_runs d g here in (t', refl, on, ground arith)))
  | inr others ↦
      rw others (put_cpu-Inv s c (record (s.cpu_states c) { current = none }) v refl (λ h e. cc))
]

settle_current :
    (s : O1Scheduler) (c : ℕ) (cs : CpuState)
    → Inv (put_cpu c cs s)
    → (put_cpu c cs s).cpu_states c ≡ cs
    → (o : Option ℕ) → cs.current ≡ o
    → Returns
        (elim o [
          | none ↦ ok (put_cpu c cs s)
          | some prev ↦ preempt_current c prev (put_cpu c cs s)
        ])
        Inv
settle_current s c cs w hit none e = w
settle_current s c cs w hit (some prev) e =
    preempt_current-Inv (put_cpu c cs s) c prev w (ap (λ x. x.current) hit ∙ e)

pub settle_preemption-Inv : (s : O1Scheduler) (c : ℕ) → Inv s → Returns (settle_preemption c s) Inv
unfolding settle_preemption
settle_preemption-Inv s c v = elim (Bool-cases (s.cpu_states c).preempt_curr) [
  | inr calm ↦ rw calm v
  | inl asked ↦
      let cs : CpuState = record (s.cpu_states c) { preempt_curr = false } in
      let w = put_cpu-Inv s c cs v refl (v.current_runs c) in
      rw asked
        (settle_current s c cs w (update_hit s.cpu_states c cs) (s.cpu_states c).current refl)
]

-- What O1Schedule picks: nothing, or a task of this CPU that is runnable or current.
abbrev Chosen : ℕ → Option ℕ × O1Scheduler → Type 0
Chosen c (none, s) = Unit {0}
Chosen c (some g, s) =
    (t : O1Task) × (s.tasks g ≡ some t)
    × (t.cpu ≡ pos c)
    × ((t.run_state ≡ O1TaskState.runnable)
        ⊎ ((t.run_state ≡ O1TaskState.on_cpu) × ((s.cpu_states c).current ≡ some g)))

Picked-Chosen : (c : ℕ) (r : Option ℕ × O1Scheduler) → Picked c r → Chosen c r
Picked-Chosen c (none, s) p = tt
Picked-Chosen c (some g, s) (t, found, ready, cpu) = (t, found, cpu, inl ready)

pick_next-Inv :
    (s : O1Scheduler) (c : ℕ) (b : Bool)
    → Inv s
    → Returns (pick_next c b s) (λ r. Inv r.1 × Chosen c r)
unfolding pick_next
pick_next-Inv s c true v = (v, tt)
pick_next-Inv s c false v = elim (Option-cases (s.cpu_states c).current) [
  | inl nobody ↦
      rw (nobody, pick_next)
        (Returns-map (dequeue_on c s) _ _ (dequeue_on-Inv s c v)
          (λ r p. (p.0, Picked-Chosen c r p.1)))
  | inr (g, cur) ↦
      let (t, found, on, at) = v.current_runs c g cur in
      rw (cur, pick_next) (v, (t, found, at, inr (on, cur)))
]

boost_enqueued :
    (s : O1Scheduler) (c g : ℕ) (t : O1Task)
    → Inv s
    → s.tasks g ≡ some t
    → t.run_state ≡ O1TaskState.runnable
    → t.cpu ≡ pos c
    → c < max_cpus
    → Idle s g
    → Returns (boost g s >>= enqueue_on c g) Inv
unfolding boost
boost_enqueued s c g t v found ready cpu low idle =
    let tok = v.tasks_ok g t found in
    let t' : O1Task = record t { prio_boost = true } in
    let unqueued : is_queued t.run_state ≡ false = rw ready refl in
    let w =
      put_unqueued-Inv s g t t' v found unqueued unqueued
        (record { key = tok.key; bucket = tok.bucket; home = tok.home }) idle in
    rw found (
      Returns-map (enqueue_on c g (put_task g t' s)) _ _
        (enqueue_on-After (put_task g t' s) g c t' w (update_hit s.tasks g (some t')) ready low cpu)
        (λ s' a. a.inv))

points_to-eq : (o : Option ℕ) (g : ℕ) → points_to o g ≡ true → o ≡ some g
points_to-eq none g e = cc
points_to-eq (some x) g e = ground arith

commit_failed-Inv :
    (k : Kernel) (s : O1Scheduler) (c g : ℕ) (t : O1Task)
    → Inv s
    → s.tasks g ≡ some t
    → t.cpu ≡ pos c
    → c < max_cpus
    → (t.run_state ≡ O1TaskState.runnable)
      ⊎ ((t.run_state ≡ O1TaskState.on_cpu) × ((s.cpu_states c).current ≡ some g))
    → Returns (commit_failed k c g s) Inv
unfolding commit_failed
commit_failed-Inv k s c g t v found cpu low (inl ready) =
    let idle = not_current s g t v found (λ e. cc) in
    elim (Bool-cases (points_to (s.cpu_states c).current g)) [
      | inl hit ↦ absurd (idle c (points_to-eq (s.cpu_states c).current g hit))
      | inr miss ↦ rw miss (boost_enqueued s c g t v found ready cpu low idle)
    ]
commit_failed-Inv k s c g t v found cpu low (inr (on, cur)) =
    let hit : points_to (s.cpu_states c).current g ≡ true = rw cur (==_refl g) in
    rw hit (
      Returns-bind (task_off_cpu k g false false s) _ _ _
        (task_off_cpu-Inv k s g false false t v found (inl on))
        (λ s₁ _ l.
          boost_enqueued s₁ c g l.task l.inv l.found l.in_state (l.same_cpu ∙ cpu) low l.idle))

unqueued_of :
    (t : O1Task) {A : Type 0}
    → (t.run_state ≡ O1TaskState.runnable) ⊎ ((t.run_state ≡ O1TaskState.on_cpu) × A)
    → is_queued t.run_state ≡ false
unqueued_of t (inl e) = rw e refl
unqueued_of t (inr (e, _)) = rw e refl

dispose-Inv :
    (k : Kernel) (c barrier : ℕ) (b : Bool) (r : Option ℕ × O1Scheduler)
    → Inv r.1
    → Chosen c r
    → c < max_cpus
    → Returns (dispose k c barrier b r.0 r.1) Inv
unfolding dispose run_next yield_cpu
dispose-Inv k c barrier b (none, s) v chosen low = emit-Inv s _ v
dispose-Inv k c barrier b (some g, s) v (t, found, cpu, mode) low =
    let e = commit_txn c t.gtid t.seqnum barrier in
    let w = emit-Inv s e v in
    rw found (elim (Bool-cases k.committed) [
      | inl yes_txn ↦
          simp yes_txn (task_on_cpu-Inv k (emit e s) g c t w found (unqueued_of t mode) cpu low)
      | inr no_txn ↦ simp no_txn (commit_failed-Inv k (emit e s) c g t w found cpu low mode)
    ])

-- From a state of O1Scheduler that satisfies the invariant, O1Schedule of a CPU below MAX_CPUS
-- returns and keeps the invariant, whether or not the agent is boosted, a preemption is pending,
-- or the commit succeeds.
pub o1_schedule-Inv :
    (k : Kernel) (c agent_barrier : ℕ) (boosted : Bool) (s : O1Scheduler)
    → Inv s
    → c < max_cpus
    → Returns (o1_schedule k c agent_barrier boosted s) Inv
unfolding o1_schedule
o1_schedule-Inv k c agent_barrier boosted s v low =
    Returns-bind (settle_preemption c s) _ _ _ (settle_preemption-Inv s c v) λ s₁ _ w.
      Returns-bind (pick_next c boosted s₁) _ _ _ (pick_next-Inv s₁ c boosted w)
        λ r _ p. dispose-Inv k c agent_barrier boosted r p.0 p.1 low
