-- ===== src/Fifo/Scheduler/Invariant/Stores.antt =====
-- Writes to the state of FifoScheduler that keep its invariant.
use ghost_userspace_o.Base.{
  ℕ, ◌≡◌, ◌≢◌, sym, ap, subst, ◌∙◌, inl, inr, ◌==◌, Option, some, update, count, arith, Bool-cases,
  ==_iff, ==_refl,
}
use ghost_userspace_o.Enclave.{Effect}
use ghost_userspace_o.Fifo.Task.{FifoTask}
use ghost_userspace_o.Fifo.Scheduler.{FifoScheduler, CpuState, put_task, put_cpu, points_to, emit}
use ghost_userspace_o.Fifo.Scheduler.Invariant.{expected, running, TaskOk, Inv}

-- The entry that a table has after a write.
pub update_hit {ℓ} : {A : Type ℓ} (f : ℕ → A) (i : ℕ) (v : A) → update f i v i ≡ v
update_hit f i v = rw (==_refl i)

update_cases {ℓ κ} :
    {A : Type ℓ} (P : ℕ → A → Type κ) (f : ℕ → A) (i : ℕ) (v : A) (j : ℕ)
    → P i v
    → (i ≢ j → P j (f j))
    → P j (update f i v j)
update_cases P f i v j hit miss = elim (Bool-cases (i == j)) [
  | inl e ↦ rw e (subst (λ k. P k v) ((==_iff i j).0 e) hit)
  | inr e ↦ rw e (miss (λ q. ground arith))
]

abbrev pub OptionOk : ℕ → Option FifoTask → Type 0
OptionOk g o = (t : FifoTask) → o ≡ some t → TaskOk g t

pub some-OptionOk : (g : ℕ) (t : FifoTask) → TaskOk g t → OptionOk g (some t)
some-OptionOk g t ok u e = let same : t ≡ u = cc in subst (TaskOk g) same ok

-- A task record whose place on the CPUs is the same.
pub table-Inv :
    (s : FifoScheduler) (g : ℕ) (o : Option FifoTask)
    → Inv s
    → OptionOk g o
    → ((d : ℕ) → expected o d ≡ expected (s.tasks g) d)
    → ((d : ℕ) → running o d ≡ running (s.tasks g) d)
    → Inv (record s { tasks = update s.tasks g o })
table-Inv s g o v ok place run = record {
  cpus_ok = v.cpus_ok;
  tasks_ok = λ h u.
      update_cases (λ i x. x ≡ some u → TaskOk i u) s.tasks g o h (ok u) (λ _ e. v.tasks_ok h u e);
  placed = λ d h.
      update_cases (λ i x. count i (s.cpu_states d).run_queue.rq ≡ expected x d) s.tasks g o h
        (v.placed d g ∙ sym (place d)) (λ _. v.placed d h);
  current_ok = λ d h.
      update_cases (λ i x. points_to (s.cpu_states d).current i ≡ running x d) s.tasks g o h
        (v.current_ok d g ∙ sym (run d)) (λ _. v.current_ok d h);
}

-- What a record of CPU `c` must agree with when it is written together with task `g`.
pub record Agrees (s : FifoScheduler) (g : ℕ) (t : FifoTask) (c : ℕ) (cs : CpuState) : Type 0 where
  pub counted : count g cs.run_queue.rq ≡ expected (some t) c
  pub others : (h : ℕ) → g ≢ h → count h cs.run_queue.rq ≡ count h (s.cpu_states c).run_queue.rq
  pub current_here : points_to cs.current g ≡ running (some t) c
  pub current_others :
      (h : ℕ) → g ≢ h → points_to cs.current h ≡ points_to (s.cpu_states c).current h
  pub elsewhere :
      (d : ℕ)
      → c ≢ d
      → (expected (some t) d ≡ expected (s.tasks g) d)
        × (running (some t) d ≡ running (s.tasks g) d)

pub stored-Inv :
    (s : FifoScheduler) (g : ℕ) (t : FifoTask) (c : ℕ) (cs : CpuState)
    → Inv s
    → TaskOk g t
    → Agrees s g t c cs
    → Inv (put_task g t (put_cpu c cs s))
stored-Inv s g t c cs v ok a = record {
  cpus_ok = v.cpus_ok;
  tasks_ok = λ h u.
      update_cases (λ i x. x ≡ some u → TaskOk i u) s.tasks g (some t) h (some-OptionOk g t ok u)
        (λ _ e. v.tasks_ok h u e);
  placed = λ d h.
      update_cases (λ i x. count h x.run_queue.rq ≡ expected (update s.tasks g (some t) h) i)
        s.cpu_states c cs d
        (update_cases (λ i x. count i cs.run_queue.rq ≡ expected x c) s.tasks g (some t) h a.counted
          (λ ne. a.others h ne ∙ v.placed c h))
        (λ ne.
          update_cases (λ i x. count i (s.cpu_states d).run_queue.rq ≡ expected x d) s.tasks g
            (some t) h (v.placed d g ∙ sym (a.elsewhere d ne).0) (λ _. v.placed d h));
  current_ok = λ d h.
      update_cases (λ i x. points_to x.current h ≡ running (update s.tasks g (some t) h) i)
        s.cpu_states c cs d
        (update_cases (λ i x. points_to cs.current i ≡ running x c) s.tasks g (some t) h
          a.current_here (λ ne. a.current_others h ne ∙ v.current_ok c h))
        (λ ne.
          update_cases (λ i x. points_to (s.cpu_states d).current i ≡ running x d) s.tasks g
            (some t) h (v.current_ok d g ∙ sym (a.elsewhere d ne).1) (λ _. v.current_ok d h));
}

-- A CPU record that is written again as it was.
pub put_same-Inv :
    (s : FifoScheduler) (c : ℕ) (cs : CpuState) → Inv s → cs ≡ s.cpu_states c → Inv (put_cpu c cs s)
put_same-Inv s c cs v e = record {
  cpus_ok = v.cpus_ok;
  tasks_ok = v.tasks_ok;
  placed = λ d h.
      update_cases (λ i x. count h x.run_queue.rq ≡ expected (s.tasks h) i) s.cpu_states c cs d
        (ap (λ x. count h x.run_queue.rq) e ∙ v.placed c h) (λ _. v.placed d h);
  current_ok = λ d h.
      update_cases (λ i x. points_to x.current h ≡ running (s.tasks h) i) s.cpu_states c cs d
        (ap (λ x. points_to x.current h) e ∙ v.current_ok c h) (λ _. v.current_ok d h);
}

-- An effect changes no state.
pub emit-Inv : (s : FifoScheduler) (e : Effect) → Inv s → Inv (emit e s)
emit-Inv s e v = record {
  cpus_ok = v.cpus_ok;
  tasks_ok = v.tasks_ok;
  placed = v.placed;
  current_ok = v.current_ok;
}
