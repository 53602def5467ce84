-- ===== src/O1/Scheduler/Invariant/Stores.antt =====
-- Writes to the state of O1Scheduler that keep its invariant.
use ghost_userspace_o.Base.{
  ℕ, ◌≡◌, ◌≢◌, sym, subst, ◌∙◌, inl, inr, ◌==◌, some, update, arith, Bool-cases, ==_iff, ==_refl,
}
use ghost_userspace_o.O1.Task.{O1Task}
use ghost_userspace_o.O1.RunQueue.Laws.{IsIndexedRq, occurs}
use ghost_userspace_o.O1.Scheduler.{O1Scheduler, CpuState, put_task, put_cpu, Effect, emit}
use ghost_userspace_o.O1.Scheduler.Invariant.{expected, TaskOk, RunsOn, Inv}

some_eq {ℓ} : {A : Type ℓ} {a b : A} → some a ≡ some b → a ≡ b
some_eq e = cc

-- The entry that a table has after a write.
pub update_hit {ℓ} : {A : Type ℓ} (f : ℕ → A) (i : ℕ) (v : A) → update f i v i ≡ v
update_hit f i v = rw (==_refl i)

pub update_cases {ℓ κ} :
    {A : Type ℓ} (P : ℕ → A → Type κ) (f : ℕ → A) (i : ℕ) (v : A) (j : ℕ)
    → P i v
    → (i ≢ j → P j (f j))
    → P j (update f i v j)
update_cases P f i v j hit miss = elim (Bool-cases (i == j)) [
  | inl e ↦ rw e (subst (λ k. P k v) ((==_iff i j).0 e) hit)
  | inr e ↦ rw e (miss (λ q. ground arith))
]

-- The state after a task record and a CPU record were written.
abbrev pub stored : ℕ → O1Task → ℕ → CpuState → O1Scheduler → O1Scheduler
stored g t c cs s = put_task g t (put_cpu c cs s)

pub stored-Inv :
    (s : O1Scheduler) (g : ℕ) (t : O1Task) (c : ℕ) (cs : CpuState)
    → Inv s
    → TaskOk g t
    → IsIndexedRq cs.run_queue
    → ((k h : ℕ) → occurs cs.run_queue k h ≡ expected (update s.tasks g (some t) h) c k)
    → ((d k : ℕ) → c ≢ d → expected (some t) d k ≡ expected (s.tasks g) d k)
    → ((h : ℕ) → cs.current ≡ some h → RunsOn (update s.tasks g (some t) h) c)
    → ((d : ℕ) → c ≢ d → (s.cpu_states d).current ≡ some g → RunsOn (some t) d)
    → Inv (stored g t c cs s)
stored-Inv s g t c cs v task_ok index here there current_here current_there = record {
  cpus_ok = v.cpus_ok;
  tasks_ok = λ h u.
      update_cases (λ i o. o ≡ some u → TaskOk i u) s.tasks g (some t) h
        (λ e. subst (TaskOk g) (some_eq e) task_ok) (λ _ e. v.tasks_ok h u e);
  indexed = λ d.
      update_cases (λ i x. IsIndexedRq x.run_queue) s.cpu_states c cs d index (λ _. v.indexed d);
  placed = λ d k h.
      update_cases (λ i x. occurs x.run_queue k h ≡ expected (update s.tasks g (some t) h) i k)
        s.cpu_states c cs d (here k h)
        (λ ne.
          update_cases (λ i o. occurs (s.cpu_states d).run_queue k i ≡ expected o d k) s.tasks g
            (some t) h (v.placed d k g ∙ sym (there d k ne)) (λ _. v.placed d k h));
  current_runs = λ d h.
      update_cases (λ i x. x.current ≡ some h → RunsOn (update s.tasks g (some t) h) i) s.cpu_states
        c cs d (current_here h)
        (λ ne.
          update_cases (λ i o. (s.cpu_states d).current ≡ some i → RunsOn o d) s.tasks g (some t) h
            (current_there d ne) (λ _. v.current_runs d h));
}

-- A task record whose place in the run queues is the same.
pub put_task-Inv :
    (s : O1Scheduler) (g : ℕ) (t : O1Task)
    → Inv s
    → TaskOk g t
    → ((d k : ℕ) → expected (some t) d k ≡ expected (s.tasks g) d k)
    → ((d : ℕ) → (s.cpu_states d).current ≡ some g → RunsOn (some t) d)
    → Inv (put_task g t s)
put_task-Inv s g t v task_ok same current = record {
  cpus_ok = v.cpus_ok;
  tasks_ok = λ h u.
      update_cases (λ i o. o ≡ some u → TaskOk i u) s.tasks g (some t) h
        (λ e. subst (TaskOk g) (some_eq e) task_ok) (λ _ e. v.tasks_ok h u e);
  indexed = v.indexed;
  placed = λ d k h.
      update_cases (λ i o. occurs (s.cpu_states d).run_queue k i ≡ expected o d k) s.tasks g
        (some t) h (v.placed d k g ∙ sym (same d k)) (λ _. v.placed d k h);
  current_runs = λ d h.
      update_cases (λ i o. (s.cpu_states d).current ≡ some i → RunsOn o d) s.tasks g (some t) h
        (current d) (λ _. v.current_runs d h);
}

-- A CPU record with the same run queue.
pub put_cpu-Inv :
    (s : O1Scheduler) (c : ℕ) (cs : CpuState)
    → Inv s
    → cs.run_queue ≡ (s.cpu_states c).run_queue
    → ((h : ℕ) → cs.current ≡ some h → RunsOn (s.tasks h) c)
    → Inv (put_cpu c cs s)
put_cpu-Inv s c cs v same current = record {
  cpus_ok = v.cpus_ok;
  tasks_ok = v.tasks_ok;
  indexed = λ d.
      update_cases (λ i x. IsIndexedRq x.run_queue) s.cpu_states c cs d
        (subst IsIndexedRq (sym same) (v.indexed c)) (λ _. v.indexed d);
  placed = λ d k h.
      update_cases (λ i x. occurs x.run_queue k h ≡ expected (s.tasks h) i k) s.cpu_states c cs d
        (subst (λ rq. occurs rq k h ≡ expected (s.tasks h) c k) (sym same) (v.placed c k h))
        (λ _. v.placed d k h);
  current_runs = λ d h.
      update_cases (λ i x. x.current ≡ some h → RunsOn (s.tasks h) i) s.cpu_states c cs d
        (current h) (λ _. v.current_runs d h);
}

-- An effect changes no state.
pub emit-Inv : (s : O1Scheduler) (e : Effect) → Inv s → Inv (emit e s)
emit-Inv s e v = record {
  cpus_ok = v.cpus_ok;
  tasks_ok = v.tasks_ok;
  indexed = v.indexed;
  placed = v.placed;
  current_runs = v.current_runs;
}
