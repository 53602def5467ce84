-- ===== src/Fifo/Scheduler/Invariant/Moves.antt =====
-- The operations that the handlers of FifoScheduler share (enqueue, erase, dequeue, TaskOffCpu,
-- TaskOnCpu, Migrate, FreeTask) keep its invariant.
use ghost_userspace_o.Base.{
  ℕ, ◌+◌, ◌<◌, ◌≡◌, ◌≢◌, refl, ap, inl, inr, true, ltb, ◌==◌, Option, none, some, List, [], ◌∷◌,
  count, update, arith, Option-cases, Returns, ok, sym, subst,
}
use ghost_userspace_o.Base.Int.{pos}
use ghost_userspace_o.Enclave.{max_cpus}
use ghost_userspace_o.Fifo.Task.{FifoTask, FifoTaskState, is_queued, with_state}
use ghost_userspace_o.Fifo.RunQueue.{push, dequeue}
use ghost_userspace_o.Fifo.RunQueue.Laws.{
  one, remove, count-push, count-remove, fifo_erase_refines, enqueue_ready,
}
use ghost_userspace_o.Fifo.Scheduler.{
  FifoScheduler, CpuState, cpu_of, enqueue_on, erase_on, dequeue_on, store_dequeued,
}
use ghost_userspace_o.Fifo.Scheduler.Invariant.{TaskOk, Inv, HasCpu}
use ghost_userspace_o.Fifo.Scheduler.Invariant.Stores.{update_hit, stored-Inv, put_same-Inv}

-- What an operation leaves: the invariant, and the task as `t`.
abbrev pub Leaves : ℕ → FifoTask → FifoScheduler → Type 0
Leaves g t s = Inv s × (s.tasks g ≡ some t)

pub cpu_of-pos : (t : FifoTask) (c : ℕ) → t.cpu ≡ pos c → c < max_cpus → cpu_of t ≡ ok c
unfolding cpu_of
cpu_of-pos t c e h = let low : ltb c max_cpus ≡ true = ground arith in rw (e, low) refl

pub enqueue_on-Inv :
    (s : FifoScheduler) (g c : ℕ) (t : FifoTask)
    → Inv s
    → s.tasks g ≡ some t
    → t.run_state ≡ FifoTaskState.runnable
    → c < max_cpus
    → t.cpu ≡ pos c
    → Returns (enqueue_on c g s) (Leaves g (with_state FifoTaskState.queued t))
unfolding enqueue_on
enqueue_on-Inv s g c t v found ready low cpu =
    let tok = v.tasks_ok g t found in
    let t' : FifoTask = with_state FifoTaskState.queued t in
    let old = (s.cpu_states c).run_queue.rq in
    let rq = push t.prio_boost t.gtid old in
    let counts = λ (h : ℕ). count-push t.prio_boost t.gtid h old in
    rw (found, enqueue_ready (s.cpu_states c).run_queue t c ready cpu)
      (
        stored-Inv s g t' c (record (s.cpu_states c) { run_queue = record { rq = rq } }) v
            (record { key = tok.key; home = inl (c, low, cpu) })
            (record {
              counted = ground (arith, tok.key, counts g, v.placed c g);
              others = λ h ne. ground (arith, tok.key, counts h);
              current_here = ground (arith, v.current_ok c g);
              current_others = λ h ne. refl;
              elsewhere = λ d ne. (ground arith, ground arith);
            }),
        update_hit s.tasks g (some t'),
      )

pub queued_home :
    (g : ℕ) (t : FifoTask) → TaskOk g t → t.run_state ≡ FifoTaskState.queued → HasCpu t.cpu
queued_home g t tok q = elim tok.home [ inl c ↦ c | inr (_, off, _) ↦ absurd (ground arith) ]

pub on_cpu_home :
    (g : ℕ) (t : FifoTask) → TaskOk g t → t.run_state ≡ FifoTaskState.on_cpu → HasCpu t.cpu
on_cpu_home g t tok on = elim tok.home [ inl c ↦ c | inr (_, _, off) ↦ absurd (ground arith) ]

-- The state after a queued task was taken out of the run queue of its CPU.
taken-Inv :
    (s : FifoScheduler) (g c : ℕ) (t : FifoTask)
    → Inv s
    → s.tasks g ≡ some t
    → t.run_state ≡ FifoTaskState.queued
    → t.cpu ≡ pos c
    → (rq : List ℕ) → ((h : ℕ) → count h (s.cpu_states c).run_queue.rq ≡ count h rq + one (g == h))
    → let t' : FifoTask = with_state FifoTaskState.runnable t in
      let cs : CpuState = record (s.cpu_states c) { run_queue = record { rq = rq } } in
      Leaves g t'
        (record s { tasks = update s.tasks g (some t'); cpu_states = update s.cpu_states c cs })
taken-Inv s g c t v found queued cpu rq counts =
    let tok = v.tasks_ok g t found in
    let t' : FifoTask = with_state FifoTaskState.runnable t in
    let (d, low, at) = queued_home g t tok queued in
    (
      stored-Inv s g t' c (record (s.cpu_states c) { run_queue = record { rq = rq } }) v
          (record { key = tok.key; home = inl (d, low, at) })
          (record {
            counted = ground (arith, counts g, v.placed c g);
            others = λ h ne. ground (arith, counts h);
            current_here = ground (arith, v.current_ok c g);
            current_others = λ h ne. refl;
            elsewhere = λ e ne. (ground arith, ground arith);
          }),
      update_hit s.tasks g (some t'),
    )

pub erase_on-Inv :
    (s : FifoScheduler) (g c : ℕ) (t : FifoTask)
    → Inv s
    → s.tasks g ≡ some t
    → t.run_state ≡ FifoTaskState.queued
    → t.cpu ≡ pos c
    → Returns (erase_on c g s) (Leaves g (with_state FifoTaskState.runnable t))
unfolding erase_on
erase_on-Inv s g c t v found queued cpu =
    let tok = v.tasks_ok g t found in
    let old = (s.cpu_states c).run_queue.rq in
    let once : count t.gtid old ≡ 1 = ground (arith, tok.key, v.placed c g) in
    let counts : (h : ℕ) → count h old ≡ count h (remove t.gtid old) + one (g == h) =
      λ h. ground (arith, tok.key, count-remove t.gtid h old (λ z. omega arith)) in
    rw (found, fifo_erase_refines (s.cpu_states c).run_queue t queued once)
      (taken-Inv s g c t v found queued cpu (remove t.gtid old) counts)

-- What Dequeue shows: no task, or one that is runnable now, of a CPU without a current task.
abbrev pub Picked : ℕ → Option ℕ × FifoScheduler → Type 0
Picked c (none, s) = Unit {0}
Picked c (some g, s) =
    (t : FifoTask) × (s.tasks g ≡ some t) × (t.run_state ≡ FifoTaskState.runnable) × (t.cpu ≡ pos c)

-- A task that stands in a run queue is live, queued, and belongs there.
standing :
    (s : FifoScheduler) (c g : ℕ)
    → Inv s
    → count g (s.cpu_states c).run_queue.rq ≢ 0
    → (t : FifoTask) × (s.tasks g ≡ some t) × (t.run_state ≡ FifoTaskState.queued) × (t.cpu ≡ pos c)
standing s c g v h = elim (Option-cases (s.tasks g)) [
  | inl e ↦ absurd (h (ground (arith, v.placed c g)))
  | inr (t, e) ↦ (t, e, ground (arith, v.placed c g), ground (arith, v.placed c g))
]

dequeued-Inv :
    (s : FifoScheduler) (c : ℕ) (t : FifoTask) (q : List ℕ)
    → Inv s
    → s.tasks t.gtid ≡ some t
    → t.run_state ≡ FifoTaskState.queued
    → t.cpu ≡ pos c
    → ((h : ℕ) → count h (s.cpu_states c).run_queue.rq ≡ count h q + one (t.gtid == h))
    → let r = store_dequeued c s (some (with_state FifoTaskState.runnable t), record { rq = q }) in
      Inv r.1 × Picked c r × (r.1.cpu_states c).current ≡ (s.cpu_states c).current
unfolding store_dequeued
dequeued-Inv s c t q v found queued cpu counts =
    let t' : FifoTask = with_state FifoTaskState.runnable t in
    let cs : CpuState = record (s.cpu_states c) { run_queue = record { rq = q } } in
    let (w, hit) = taken-Inv s t.gtid c t v found queued cpu q counts in
    (w, (t', hit, refl, cpu), ap (λ x. x.current) (update_hit s.cpu_states c cs))

dequeue_first-Inv :
    (s : FifoScheduler) (c : ℕ) (q : List ℕ)
    → Inv s
    → (s.cpu_states c).run_queue.rq ≡ q
    → Returns
        (dequeue_on c s)
        (λ r. Inv r.1 × Picked c r × (r.1.cpu_states c).current ≡ (s.cpu_states c).current)
unfolding dequeue_on dequeue store_dequeued
dequeue_first-Inv s c [] v e =
    let with_queue : List ℕ → CpuState =
      λ r. record (s.cpu_states c) { run_queue = record { rq = r } } in
    rw e (
      put_same-Inv s c (with_queue []) v (ap with_queue (sym e)),
      tt,
      ap (λ x. x.current) (update_hit s.cpu_states c (with_queue [])),
    )
dequeue_first-Inv s c (g ∷ q) v e =
    let (t, found, queued, cpu) = standing s c g v (λ z. ground arith) in
    let ready : is_queued t.run_state ≡ true = rw queued refl in
    let key = (v.tasks_ok g t found).key in
    let counts : (h : ℕ) → count h (s.cpu_states c).run_queue.rq ≡ count h q + one (t.gtid == h) =
      λ h. ground (arith, e, key) in
    let all =
      dequeued-Inv s c t q v (subst (λ x. s.tasks x ≡ some t) (sym key) found) queued cpu counts in
    rw (e, found, ready) all

pub dequeue_on-Inv :
    (s : FifoScheduler) (c : ℕ)
    → Inv s
    → Returns
        (dequeue_on c s)
        (λ r. Inv r.1 × Picked c r × (r.1.cpu_states c).current ≡ (s.cpu_states c).current)
dequeue_on-Inv s c v = dequeue_first-Inv s c (s.cpu_states c).run_queue.rq v refl
