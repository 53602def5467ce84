-- ===== src/Fifo/Scheduler/Invariant/Runs.antt =====
-- TaskOffCpu, TaskOnCpu, AssignCpu, Migrate, FreeTask and Advance of FifoScheduler keep its
-- invariant.
use ghost_userspace_o.Base.{
  ℕ, ◌<◌, ◌≡◌, ◌≢◌, refl, ap, sym, ◌∙◌, ◌⊎◌, inl, inr, Bool, true, false, if◌then◌else◌, ltb, ◌==◌,
  Option, none, some, length, get_elem?-some, update, arith, ==_refl, Returns, Returns-bind,
}
use ghost_userspace_o.Base.Int.{pos, negsuc}
use ghost_userspace_o.Enclave.{max_cpus, associate_task, ping, free_status_word}
use ghost_userspace_o.Fifo.Task.{
  FifoTask, FifoTaskState, is_queued, is_on_cpu, is_runnable, is_blocked, with_state,
}
use ghost_userspace_o.Fifo.Scheduler.{
  FifoScheduler, Kernel, points_to, put_task, emit, enqueue_on, assign_cpu, migrate, task_off_cpu,
  task_on_cpu, free_task, after_off_cpu, is_unassigned,
}
use ghost_userspace_o.Fifo.Scheduler.Handlers.{advance, ping_if, send_away}
use ghost_userspace_o.Fifo.Scheduler.Invariant.{TaskOk, Inv, HasCpu}
use ghost_userspace_o.Fifo.Scheduler.Invariant.Stores.{
  update_hit, table-Inv, some-OptionOk, stored-Inv, emit-Inv,
}
use ghost_userspace_o.Fifo.Scheduler.Invariant.Moves.{
  Leaves, cpu_of-pos, enqueue_on-Inv, on_cpu_home,
}

-- A task leaves the CPU that it is on, or, from a SwitchTo chain, is blocked with a CPU.
abbrev pub CanLeave : FifoTask → Bool → Type 0
CanLeave t from_switchto =
    (t.run_state ≡ FifoTaskState.on_cpu)
    ⊎ ((from_switchto ≡ true) × (t.run_state ≡ FifoTaskState.blocked) × HasCpu t.cpu)

points_to-eq : (o : Option ℕ) (g : ℕ) → points_to o g ≡ true → o ≡ some g
points_to-eq none g e = cc
points_to-eq (some x) g e = ground arith

-- A task that is on a CPU is that CPU's current task.
pub on_cpu-current :
    (s : FifoScheduler) (g c : ℕ) (t : FifoTask)
    → Inv s
    → s.tasks g ≡ some t
    → t.run_state ≡ FifoTaskState.on_cpu
    → t.cpu ≡ pos c
    → (s.cpu_states c).current ≡ some g
on_cpu-current s g c t v found on cpu =
    points_to-eq (s.cpu_states c).current g (ground (arith, v.current_ok c g))

off_cpu-unqueued : (b : Bool) → is_queued (after_off_cpu b) ≡ false
off_cpu-unqueued true = refl
off_cpu-unqueued false = refl

off_cpu-off : (b : Bool) → is_on_cpu (after_off_cpu b) ≡ false
off_cpu-off true = refl
off_cpu-off false = refl

-- A task that is neither queued nor on a CPU may be written anew, neither as well.
pub put_idle-Inv :
    (s : FifoScheduler) (g : ℕ) (t t' : FifoTask)
    → Inv s
    → s.tasks g ≡ some t
    → (is_queued t.run_state ≡ false) × (is_on_cpu t.run_state ≡ false)
    → (is_queued t'.run_state ≡ false) × (is_on_cpu t'.run_state ≡ false)
    → TaskOk g t'
    → Leaves g t' (put_task g t' s)
put_idle-Inv s g t t' v found (q, o) (q', o') ok = (
  table-Inv s g (some t') v (some-OptionOk g t' ok) (λ d. ground arith) (λ d. ground arith),
  update_hit s.tasks g (some t'),
)

pub task_off_cpu-Inv :
    (s : FifoScheduler) (g : ℕ) (blocked b : Bool) (t : FifoTask)
    → Inv s
    → s.tasks g ≡ some t
    → CanLeave t b
    → Returns (task_off_cpu g blocked b s) (Leaves g (with_state (after_off_cpu blocked) t))
unfolding task_off_cpu
task_off_cpu-Inv s g blocked b t v found (inl on) =
    let tok = v.tasks_ok g t found in
    let (c, low, cpu) = on_cpu_home g t tok on in
    let is : is_on_cpu t.run_state ≡ true = rw on refl in
    let cur = on_cpu-current s g c t v found on cpu in
    let hit : points_to (s.cpu_states c).current g ≡ true = rw cur (==_refl g) in
    let t' : FifoTask = with_state (after_off_cpu blocked) t in
    let q = off_cpu-unqueued blocked in
    let o = off_cpu-off blocked in
    rw (found, cpu_of-pos t c cpu low, is, hit)
      (
        stored-Inv s g t' c (record (s.cpu_states c) { current = none }) v
            (record { key = tok.key; home = inl (c, low, cpu) })
            (record {
              counted = ground (arith, v.placed c g);
              others = λ h ne. refl;
              current_here = ground arith;
              current_others = λ h ne. ground arith;
              elsewhere = λ d ne. (ground arith, ground arith);
            }),
        update_hit s.tasks g (some t'),
      )
task_off_cpu-Inv s g blocked b t v found (inr (switched, off, (c, low, cpu))) =
    let tok = v.tasks_ok g t found in
    let parked : is_on_cpu t.run_state ≡ false = rw off refl in
    let waits : is_blocked t.run_state ≡ true = rw off refl in
    rw (found, cpu_of-pos t c cpu low, parked, switched, waits)
      (put_idle-Inv s g t (with_state (after_off_cpu blocked) t) v found (rw off refl, parked)
        (off_cpu-unqueued blocked, off_cpu-off blocked)
        (record { key = tok.key; home = inl (c, low, cpu) }))

-- Of a CPU that has no current task, or has this one.
pub task_on_cpu-Inv :
    (s : FifoScheduler) (g c : ℕ) (t : FifoTask)
    → Inv s
    → s.tasks g ≡ some t
    → is_queued t.run_state ≡ false
    → t.cpu ≡ pos c
    → c < max_cpus
    → ((s.cpu_states c).current ≡ none) ⊎ ((s.cpu_states c).current ≡ some g)
    → Returns (task_on_cpu g c s) Inv
unfolding task_on_cpu
task_on_cpu-Inv s g c t v found unqueued cpu low vacant =
    let tok = v.tasks_ok g t found in
    let here : (c == c) ≡ true = ==_refl c in
    let self : (g == g) ≡ true = ==_refl g in
    let others : (h : ℕ) → g ≢ h → points_to (some g) h ≡ points_to (s.cpu_states c).current h =
      λ h ne. elim vacant [ inl e ↦ ground arith | inr e ↦ ap (λ o. points_to o h) (sym e) ] in
    rw found (
      stored-Inv s g _ c (record (s.cpu_states c) { current = some g }) v
        (record { key = tok.key; home = inl (c, low, refl) })
        (record {
          counted = ground (arith, v.placed c g);
          others = λ h ne. refl;
          current_here = ground arith;
          current_others = others;
          elsewhere = λ d ne. (ground arith, ground arith);
        }))

-- AssignCpu gives a CPU of the enclave and moves its iterator only.
assign_cpu-Inv :
    (s : FifoScheduler)
    → Inv s
    → Returns (assign_cpu s) (λ r. (r.0 < max_cpus) × Inv r.1 × (r.1.tasks ≡ s.tasks))
unfolding assign_cpu
assign_cpu-Inv s v =
    let (low, some_cpu, all) = v.cpus_ok in
    let n : ℕ = if s.next == length s.cpus then 0 else s.next in
    let (c, e) = get_elem?-some s.cpus n (ground arith) in
    rw e (
      all n c e,
      record {
        cpus_ok = (ground arith, some_cpu, all);
        tasks_ok = v.tasks_ok;
        placed = v.placed;
        current_ok = v.current_ok;
      },
      refl,
    )

-- The task after Migrate to a CPU.
abbrev pub Migrated : ℕ → FifoTask → FifoScheduler → Type 0
Migrated g t s = (c : ℕ) × Leaves g (with_state FifoTaskState.queued (record t { cpu = pos c })) s

migrate-Inv :
    (k : Kernel) (s : FifoScheduler) (g c seqnum : ℕ) (t : FifoTask)
    → Inv s
    → s.tasks g ≡ some t
    → t.run_state ≡ FifoTaskState.runnable
    → t.cpu ≡ negsuc 0
    → k.associated g c seqnum ≡ true
    → c < max_cpus
    → Returns (migrate k g c seqnum s) (Migrated g t)
unfolding migrate
migrate-Inv k s g c seqnum t v found ready unassigned assoc low =
    let tok = v.tasks_ok g t found in
    let is_ready : is_runnable t.run_state ≡ true = rw ready refl in
    let idle : (is_queued t.run_state ≡ false) × (is_on_cpu t.run_state ≡ false) =
      (rw ready refl, rw ready refl) in
    let is_new : is_unassigned t.cpu ≡ true = rw unassigned refl in
    let t' : FifoTask = record t { cpu = pos c } in
    let s₁ = emit (associate_task g c seqnum) s in
    let (w, hit) =
      put_idle-Inv s₁ g t t' (emit-Inv s (associate_task g c seqnum) v) found idle idle
        (record { key = tok.key; home = inl (c, low, refl) }) in
    rw (found, is_ready, is_new, assoc)
      (Returns-bind (enqueue_on c g (put_task g t' s₁)) _ _ _
        (enqueue_on-Inv (put_task g t' s₁) g c t' w hit ready low refl)
        (λ s' _ a. (c, (emit-Inv s' (ping c) a.0, a.1))))

-- AssignCpu and Migrate of a runnable task that has no CPU yet.
pub send_away-Inv :
    (k : Kernel) (s : FifoScheduler) (g seqnum : ℕ) (t : FifoTask)
    → Inv s
    → s.tasks g ≡ some t
    → t.run_state ≡ FifoTaskState.runnable
    → t.cpu ≡ negsuc 0
    → ((c : ℕ) → k.associated g c seqnum ≡ true)
    → Returns (send_away k g seqnum s) (Migrated g t)
unfolding send_away
send_away-Inv k s g seqnum t v found ready unassigned assoc =
    Returns-bind (assign_cpu s) _ _ _ (assign_cpu-Inv s v) λ r _ p.
      migrate-Inv k r.1 g r.0 seqnum t p.1 (ap (λ f. f g) p.2 ∙ found) ready unassigned (assoc r.0)
        p.0

pub free_task-Inv :
    (s : FifoScheduler) (g : ℕ) (t : FifoTask)
    → Inv s
    → s.tasks g ≡ some t
    → (is_queued t.run_state ≡ false) × (is_on_cpu t.run_state ≡ false)
    → Returns (free_task g s) (λ s'. Inv s' × (s'.tasks g ≡ none))
unfolding free_task
free_task-Inv s g t v found (q, o) =
    let key = (v.tasks_ok g t found).key in
    rw (found, key)
      (
        emit-Inv (record s { tasks = update s.tasks g none }) (free_status_word g)
            (table-Inv s g none v (λ u e. cc) (λ d. ground arith) (λ d. ground arith)),
        update_hit s.tasks g none,
      )

pub advance-Inv :
    (g seqnum : ℕ) (t : FifoTask) (s : FifoScheduler)
    → Leaves g t s
    → t.seqnum < seqnum
    → Returns (advance g seqnum s) Inv
unfolding advance
advance-Inv g seqnum t s (v, found) h =
    let newer : ltb t.seqnum seqnum ≡ true = ground arith in
    let tok = v.tasks_ok g t found in
    let t' : FifoTask = record t { seqnum = seqnum } in
    rw (found, newer)
      (table-Inv s g (some t') v (some-OptionOk g t' (record { key = tok.key; home = tok.home }))
        (λ d. rw found refl) (λ d. rw found refl))

pub ping_if-Leaves :
    (g cpu : ℕ) (b : Bool) (t : FifoTask) (s : FifoScheduler)
    → Leaves g t s
    → Leaves g t (ping_if b cpu s)
ping_if-Leaves g cpu true t s (v, found) = (emit-Inv s (ping cpu) v, found)
ping_if-Leaves g cpu false t s (v, found) = (v, found)
