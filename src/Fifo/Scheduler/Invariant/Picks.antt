-- ===== src/Fifo/Scheduler/Invariant/Picks.antt =====
-- FifoSchedule (schedulers/fifo/per_cpu/fifo_scheduler.cc) keeps the invariant of FifoScheduler.
use ghost_userspace_o.Base.{
  ℕ, ◌<◌, ◌≡◌, refl, sym, ◌∙◌, ◌⊎◌, inl, inr, Bool, true, false, Option, none, some, arith,
  Bool-cases, Option-cases, ==_refl, Returns, Returns-bind, Returns-map, ◌>>=◌,
}
use ghost_userspace_o.Base.Int.{pos}
use ghost_userspace_o.Enclave.{max_cpus, commit_txn}
use ghost_userspace_o.Fifo.Task.{FifoTask, FifoTaskState, is_queued, is_on_cpu, with_state}
use ghost_userspace_o.Fifo.Scheduler.{
  FifoScheduler, Kernel, put_task, emit, points_to, enqueue_on, dequeue_on, task_off_cpu,
}
use ghost_userspace_o.Fifo.Scheduler.Schedule.{
  pick_next, boost, commit_failed, run_next, yield_cpu, dispose, fifo_schedule,
}
use ghost_userspace_o.Fifo.Scheduler.Invariant.{running, Inv}
use ghost_userspace_o.Fifo.Scheduler.Invariant.Stores.{emit-Inv}
use ghost_userspace_o.Fifo.Scheduler.Invariant.Moves.{enqueue_on-Inv, dequeue_on-Inv, Picked}
use ghost_userspace_o.Fifo.Scheduler.Invariant.Runs.{
  put_idle-Inv, task_off_cpu-Inv, task_on_cpu-Inv,
}

-- A CPU's current task is on that CPU.
current_facts :
    (s : FifoScheduler) (c g : ℕ)
    → Inv s
    → (s.cpu_states c).current ≡ some g
    → (t : FifoTask) × (s.tasks g ≡ some t) × (t.run_state ≡ FifoTaskState.on_cpu) × (t.cpu ≡ pos c)
current_facts s c g v cur =
    let is : running (s.tasks g) c ≡ true = sym (v.current_ok c g) ∙ rw cur (==_refl g) in
    elim (Option-cases (s.tasks g)) [
      | inl e ↦ absurd (ground arith)
      | inr (t, e) ↦ (t, e, ground arith, ground arith)
    ]

-- A runnable task of a CPU without a current task, or the current task.
abbrev pub Mode : FifoScheduler → ℕ → ℕ → FifoTask → Type 0
Mode s c g t =
    ((t.run_state ≡ FifoTaskState.runnable) × ((s.cpu_states c).current ≡ none))
    ⊎ ((t.run_state ≡ FifoTaskState.on_cpu) × ((s.cpu_states c).current ≡ some g))

-- What FifoSchedule picks.
abbrev Chosen : ℕ → Option ℕ × FifoScheduler → Type 0
Chosen c (none, s) = Unit {0}
Chosen c (some g, s) = (t : FifoTask) × (s.tasks g ≡ some t) × (t.cpu ≡ pos c) × Mode s c g t

Picked-Chosen :
    (c : ℕ) (r : Option ℕ × FifoScheduler)
    → Picked c r
    → (r.1.cpu_states c).current ≡ none
    → Chosen c r
Picked-Chosen c (none, s) p e = tt
Picked-Chosen c (some g, s) (t, found, ready, cpu) e = (t, found, cpu, inl (ready, e))

pick_next-Inv :
    (s : FifoScheduler) (c : ℕ) (b : Bool)
    → Inv s
    → Returns (pick_next c b s) (λ r. Inv r.1 × Chosen c r)
unfolding pick_next
pick_next-Inv s c true v = (v, tt)
pick_next-Inv s c false v = elim (Option-cases (s.cpu_states c).current) [
  | inl nobody ↦
      rw (nobody, pick_next)
        (Returns-map (dequeue_on c s) _ _ (dequeue_on-Inv s c v)
          (λ r p. (p.0, Picked-Chosen c r p.1 (p.2 ∙ nobody))))
  | inr (g, cur) ↦
      let (t, found, on, at) = current_facts s c g v cur in
      rw (cur, pick_next) (v, (t, found, at, inr (on, cur)))
]

boost_enqueued :
    (s : FifoScheduler) (c g : ℕ) (t : FifoTask)
    → Inv s
    → s.tasks g ≡ some t
    → t.run_state ≡ FifoTaskState.runnable
    → t.cpu ≡ pos c
    → c < max_cpus
    → Returns (boost g s >>= enqueue_on c g) Inv
unfolding boost
boost_enqueued s c g t v found ready cpu low =
    let tok = v.tasks_ok g t found in
    let t' : FifoTask = record t { prio_boost = true } in
    let idle : (is_queued t.run_state ≡ false) × (is_on_cpu t.run_state ≡ false) =
      (rw ready refl, rw ready refl) in
    let (w, hit) =
      put_idle-Inv s g t t' v found idle idle (record { key = tok.key; home = tok.home }) in
    rw found (
      Returns-map (enqueue_on c g (put_task g t' s)) _ _
        (enqueue_on-Inv (put_task g t' s) g c t' w hit ready low cpu) (λ s' a. a.0))

commit_failed-Inv :
    (s : FifoScheduler) (c g : ℕ) (t : FifoTask)
    → Inv s
    → s.tasks g ≡ some t
    → t.cpu ≡ pos c
    → c < max_cpus
    → Mode s c g t
    → Returns (commit_failed c g s) Inv
unfolding commit_failed
commit_failed-Inv s c g t v found cpu low (inl (ready, nobody)) =
    let miss : points_to (s.cpu_states c).current g ≡ false = rw nobody refl in
    rw miss (boost_enqueued s c g t v found ready cpu low)
commit_failed-Inv s c g t v found cpu low (inr (on, cur)) =
    let hit : points_to (s.cpu_states c).current g ≡ true = rw cur (==_refl g) in
    rw hit (
      Returns-bind (task_off_cpu g false false s) _ _ _
        (task_off_cpu-Inv s g false false t v found (inl on))
        (λ s₁ _ l.
          boost_enqueued s₁ c g (with_state FifoTaskState.runnable t) l.0 l.1 refl cpu low))

Mode-unqueued :
    (s : FifoScheduler) (c g : ℕ) (t : FifoTask) → Mode s c g t → is_queued t.run_state ≡ false
Mode-unqueued s c g t (inl (e, _)) = rw e refl
Mode-unqueued s c g t (inr (e, _)) = rw e refl

vacant :
    (s : FifoScheduler) (c g : ℕ) (t : FifoTask)
    → Mode s c g t
    → ((s.cpu_states c).current ≡ none) ⊎ ((s.cpu_states c).current ≡ some g)
vacant s c g t (inl (_, e)) = inl e
vacant s c g t (inr (_, e)) = inr e

dispose-Inv :
    (k : Kernel) (c barrier : ℕ) (b : Bool) (r : Option ℕ × FifoScheduler)
    → Inv r.1
    → Chosen c r
    → c < max_cpus
    → Returns (dispose k c barrier b r.0 r.1) Inv
unfolding dispose run_next yield_cpu
dispose-Inv k c barrier b (none, s) v chosen low = emit-Inv s _ v
dispose-Inv k c barrier b (some g, s) v (t, found, cpu, mode) low =
    let e = commit_txn c t.gtid t.seqnum barrier in
    let w = emit-Inv s e v in
    rw found (elim (Bool-cases k.committed) [
      | inl yes_txn ↦ simp yes_txn (
          task_on_cpu-Inv (emit e s) g c t w found (Mode-unqueued s c g t mode) cpu low
            (vacant s c g t mode))
      | inr no_txn ↦ simp no_txn (commit_failed-Inv (emit e s) c g t w found cpu low mode)
    ])

-- From a state of FifoScheduler that satisfies the invariant, FifoSchedule of a CPU below
-- MAX_CPUS returns and keeps the invariant, whether or not the agent is boosted or the commit
-- succeeds.
pub fifo_schedule-Inv :
    (k : Kernel) (c agent_barrier : ℕ) (boosted : Bool) (s : FifoScheduler)
    → Inv s
    → c < max_cpus
    → Returns (fifo_schedule k c agent_barrier boosted s) Inv
unfolding fifo_schedule
fifo_schedule-Inv k c agent_barrier boosted s v low =
    Returns-bind (pick_next c boosted s) _ _ _ (pick_next-Inv s c boosted v)
      λ r _ p. dispose-Inv k c agent_barrier boosted r p.0 p.1 low
