-- ===== src/Fifo/Scheduler/Invariant/Handled.antt =====
-- Every handler of FifoScheduler, given a message that the kernel may send, fails no CHECK and keeps
-- the invariant.
use ghost_userspace_o.Base.{
  ℕ, ◌≡◌, refl, inl, inr, Bool, true, false, not, some, none, arith, Returns, Returns-bind,
  Returns-map, if◌then◌else◌, ok,
}
use ghost_userspace_o.Base.Int.{ℤ, is_nonneg}
use ghost_userspace_o.Fifo.Task.{
  FifoTask, FifoTaskState, is_queued, is_on_cpu, is_blocked, with_state, new_task,
}
use ghost_userspace_o.Fifo.Scheduler.{
  FifoScheduler, Kernel, put_task, enqueue_on, erase_on, task_off_cpu,
}
use ghost_userspace_o.Fifo.Scheduler.Handlers.{
  send_away, task_new, place, task_runnable, detach, task_departed, task_dead, requeue, task_yield,
  task_blocked, boost_preempted, task_preempted, task_switchto, ping_if,
}
use ghost_userspace_o.Fifo.Scheduler.Invariant.{TaskOk, Inv, HasCpu}
use ghost_userspace_o.Fifo.Scheduler.Invariant.Stores.{table-Inv, some-OptionOk, update_hit}
use ghost_userspace_o.Fifo.Scheduler.Invariant.Moves.{
  Leaves, cpu_of-pos, enqueue_on-Inv, erase_on-Inv, queued_home, on_cpu_home,
}
use ghost_userspace_o.Fifo.Scheduler.Invariant.Runs.{
  CanLeave, put_idle-Inv, task_off_cpu-Inv, Migrated, send_away-Inv, free_task-Inv, ping_if-Leaves,
}
use ghost_userspace_o.Fifo.Scheduler.Invariant.Allowed.{CanDepart}

-- The invariant holds, and the task has this sequence number.
pub record After (g seqnum : ℕ) (s : FifoScheduler) : Type 0 where
  pub task : FifoTask
  pub left : Leaves g task s
  pub numbered : task.seqnum ≡ seqnum

abbrev Off : FifoTask → Type 0
Off t = (is_queued t.run_state ≡ false) × (is_on_cpu t.run_state ≡ false)

leave_home : (g : ℕ) (t : FifoTask) (b : Bool) → TaskOk g t → CanLeave t b → HasCpu t.cpu
leave_home g t b tok (inl on) = on_cpu_home g t tok on
leave_home g t b tok (inr (_, _, home)) = home

migrated-After : (g : ℕ) (t : FifoTask) (s : FifoScheduler) → Migrated g t s → After g t.seqnum s
migrated-After g t s (c, left) = record { task = _; left = left; numbered = refl }

pub task_new-Inv :
    (k : Kernel) (s : FifoScheduler) (g seqnum : ℕ) (nice : ℤ) (runnable : Bool)
    → Inv s
    → s.tasks g ≡ none
    → ((c : ℕ) → k.associated g c seqnum ≡ true)
    → Returns (task_new k g seqnum nice runnable (put_task g (new_task g) s)) Inv
unfolding task_new
task_new-Inv k s g seqnum nice runnable v fresh assoc =
    let t : FifoTask = record (new_task g) { seqnum = seqnum } in
    let fresh_ok : TaskOk g (new_task g) = record { key = refl; home = inr (refl, refl, refl) } in
    let ok' : (state : FifoTaskState)
        → is_queued state ≡ false
        → is_on_cpu state ≡ false
        → TaskOk g (with_state state t) =
      λ state q o. record { key = refl; home = inr (refl, q, o) } in
    let w =
      table-Inv s g (some (new_task g)) v (some-OptionOk g (new_task g) fresh_ok)
        (λ d. rw fresh refl) (λ d. rw fresh refl) in
    let s₀ = put_task g (new_task g) s in
    let found = update_hit s.tasks g (some (new_task g)) in rw found (go runnable s₀ found w ok')
  where
    go :
        (b : Bool) (s₀ : FifoScheduler)
        → s₀.tasks g ≡ some (new_task g)
        → Inv s₀
        → ((state : FifoTaskState)
            → is_queued state ≡ false
            → is_on_cpu state ≡ false
            → TaskOk g (with_state state (record (new_task g) { seqnum = seqnum })))
        → let t : FifoTask = record (new_task g) { seqnum = seqnum } in
          Returns
            (if b
              then send_away k g seqnum (put_task g (with_state FifoTaskState.runnable t) s₀)
              else ok (put_task g t s₀))
            Inv
    go true s₀ found w ok' =
        let t : FifoTask = record (new_task g) {
          seqnum = seqnum;
          run_state = FifoTaskState.runnable;
        } in
        let (u, hit) =
          put_idle-Inv s₀ g (new_task g) t w found (refl, refl) (refl, refl)
            (ok' FifoTaskState.runnable refl refl) in
        Returns-map (send_away k g seqnum (put_task g t s₀)) _ _
          (send_away-Inv k (put_task g t s₀) g seqnum t u hit refl refl assoc) (λ s' p. p.1.0)
    go false s₀ found w ok' =
        (put_idle-Inv s₀ g (new_task g) (record (new_task g) { seqnum = seqnum }) w found
          (refl, refl) (refl, refl) (ok' FifoTaskState.blocked refl refl)).0

place-After :
    (k : Kernel) (s : FifoScheduler) (g seqnum : ℕ) (t : FifoTask)
    → Inv s
    → s.tasks g ≡ some t
    → t.run_state ≡ FifoTaskState.runnable
    → ((c : ℕ) → k.associated g c seqnum ≡ true)
    → Returns (place k g seqnum t s) (After g t.seqnum)
unfolding place
place-After k s g seqnum t v found ready assoc = elim (v.tasks_ok g t found).home [
  | inl (c, low, cpu) ↦
      let home : is_nonneg t.cpu ≡ true = rw cpu refl in
      rw (home, cpu_of-pos t c cpu low)
        (Returns-map (enqueue_on c g s) _ _ (enqueue_on-Inv s g c t v found ready low cpu)
          (λ s' p. record { task = _; left = p; numbered = refl }))
  | inr (unassigned, _, _) ↦
      let away : is_nonneg t.cpu ≡ false = rw unassigned refl in
      rw away (
        Returns-map (send_away k g seqnum s) _ _
          (send_away-Inv k s g seqnum t v found ready unassigned assoc) (migrated-After g t))
]

pub task_runnable-After :
    (k : Kernel) (s : FifoScheduler) (g seqnum : ℕ) (deferrable : Bool) (t : FifoTask)
    → Inv s
    → s.tasks g ≡ some t
    → t.run_state ≡ FifoTaskState.blocked
    → ((c : ℕ) → k.associated g c seqnum ≡ true)
    → Returns (task_runnable k g seqnum deferrable s) (After g t.seqnum)
unfolding task_runnable
task_runnable-After k s g seqnum deferrable t v found off assoc =
    let tok = v.tasks_ok g t found in
    let waits : is_blocked t.run_state ≡ true = rw off refl in
    let t' : FifoTask = record t {
      run_state = FifoTaskState.runnable;
      prio_boost = not deferrable;
    } in
    let (w, hit) =
      put_idle-Inv s g t t' v found (rw off refl, rw off refl) (refl, refl)
        (record { key = tok.key; home = ground (arith, tok.home) }) in
    rw (found, waits) (place-After k (put_task g t' s) g seqnum t' w hit refl assoc)

requeue-Leaves :
    (s : FifoScheduler) (g : ℕ) (t : FifoTask)
    → Leaves g t s
    → t.run_state ≡ FifoTaskState.runnable
    → HasCpu t.cpu
    → Returns (requeue g s) (Leaves g (with_state FifoTaskState.queued t))
unfolding requeue
requeue-Leaves s g t (v, found) ready (c, low, cpu) =
    rw (found, cpu_of-pos t c cpu low) (enqueue_on-Inv s g c t v found ready low cpu)

pub task_yield-After :
    (s : FifoScheduler) (g cpu : ℕ) (b : Bool) (t : FifoTask)
    → Inv s
    → s.tasks g ≡ some t
    → CanLeave t b
    → Returns (task_yield g cpu b s) (After g t.seqnum)
unfolding task_yield
task_yield-After s g cpu b t v found can =
    let t₁ : FifoTask = with_state FifoTaskState.runnable t in
    let home = leave_home g t b (v.tasks_ok g t found) can in
    Returns-bind (task_off_cpu g false b s) _ _ _ (task_off_cpu-Inv s g false b t v found can)
      λ s₁ _ l.
        Returns-bind (requeue g s₁) _ _ _ (requeue-Leaves s₁ g t₁ l refl home)
          λ s₂ _ m. record { task = _; left = ping_if-Leaves g cpu b _ s₂ m; numbered = refl }

pub task_blocked-After :
    (s : FifoScheduler) (g cpu : ℕ) (b : Bool) (t : FifoTask)
    → Inv s
    → s.tasks g ≡ some t
    → CanLeave t b
    → Returns (task_blocked g cpu b s) (After g t.seqnum)
unfolding task_blocked
task_blocked-After s g cpu b t v found can =
    Returns-bind (task_off_cpu g true b s) _ _ _ (task_off_cpu-Inv s g true b t v found can)
      λ s₁ _ l. record { task = _; left = ping_if-Leaves g cpu b _ s₁ l; numbered = refl }

boost_preempted-Leaves :
    (s : FifoScheduler) (g : ℕ) (t : FifoTask)
    → Leaves g t s
    → t.run_state ≡ FifoTaskState.runnable
    → Returns (boost_preempted g s) (Leaves g (record t { preempted = true; prio_boost = true }))
unfolding boost_preempted
boost_preempted-Leaves s g t (v, found) ready =
    let tok = v.tasks_ok g t found in
    let idle : Off t = (rw ready refl, rw ready refl) in
    rw found (
      put_idle-Inv s g t (record t { preempted = true; prio_boost = true }) v found idle idle
        (record { key = tok.key; home = tok.home }))

pub task_preempted-After :
    (s : FifoScheduler) (g cpu : ℕ) (b : Bool) (t : FifoTask)
    → Inv s
    → s.tasks g ≡ some t
    → CanLeave t b
    → Returns (task_preempted g cpu b s) (After g t.seqnum)
unfolding task_preempted
task_preempted-After s g cpu b t v found can =
    let t₁ : FifoTask = with_state FifoTaskState.runnable t in
    let t₂ : FifoTask = record t₁ { preempted = true; prio_boost = true } in
    let home = leave_home g t b (v.tasks_ok g t found) can in
    Returns-bind (task_off_cpu g false b s) _ _ _ (task_off_cpu-Inv s g false b t v found can)
      λ s₁ _ l.
        Returns-bind (boost_preempted g s₁) _ _ _ (boost_preempted-Leaves s₁ g t₁ l refl) λ s₂ _ m.
          Returns-bind (requeue g s₂) _ _ _ (requeue-Leaves s₂ g t₂ m refl home)
            λ s₃ _ n. record { task = _; left = ping_if-Leaves g cpu b _ s₃ n; numbered = refl }

pub task_switchto-After :
    (s : FifoScheduler) (g : ℕ) (t : FifoTask)
    → Inv s
    → s.tasks g ≡ some t
    → t.run_state ≡ FifoTaskState.on_cpu
    → Returns (task_switchto g s) (After g t.seqnum)
unfolding task_switchto
task_switchto-After s g t v found on =
    Returns-map (task_off_cpu g true false s) _ _
      (task_off_cpu-Inv s g true false t v found (inl on))
      λ s₁ l. record { task = _; left = l; numbered = refl }

pub task_dead-Inv :
    (s : FifoScheduler) (g : ℕ) (t : FifoTask)
    → Inv s
    → s.tasks g ≡ some t
    → t.run_state ≡ FifoTaskState.blocked
    → Returns (task_dead g s) (λ s'. Inv s' × (s'.tasks g ≡ none))
unfolding task_dead
task_dead-Inv s g t v found off =
    let waits : is_blocked t.run_state ≡ true = rw off refl in
    rw (found, waits) (free_task-Inv s g t v found (rw off refl, rw off refl))

-- What `detach` leaves: a task that may be freed.
abbrev Detached : ℕ → FifoScheduler → Type 0
Detached g s = (t : FifoTask) × Off t × Leaves g t s

detach-Detached :
    (s : FifoScheduler) (g : ℕ) (b : Bool) (t : FifoTask)
    → Inv s
    → s.tasks g ≡ some t
    → CanDepart t b
    → Returns (detach g b t s) (Detached g)
unfolding detach
detach-Detached s g b t v found (inl (inl on)) =
    let is : is_on_cpu t.run_state ≡ true = rw on refl in
    rw is (
      Returns-map (task_off_cpu g false b s) _ _ (task_off_cpu-Inv s g false b t v found (inl on))
        (λ s₁ l. (_, (refl, refl), l)))
detach-Detached s g b t v found (inl (inr (switched, off, home))) =
    let parked : is_on_cpu t.run_state ≡ false = rw off refl in
    rw (parked, switched)
      (Returns-map (task_off_cpu g false true s) _ _
        (task_off_cpu-Inv s g false true t v found (inr (refl, off, home)))
        (λ s₁ l. (_, (refl, refl), l)))
detach-Detached s g b t v found (inr (plain, inl queued)) =
    let parked : is_on_cpu t.run_state ≡ false = rw queued refl in
    let waits : is_queued t.run_state ≡ true = rw queued refl in
    let (c, low, cpu) = queued_home g t (v.tasks_ok g t found) queued in
    rw (parked, plain, waits, cpu_of-pos t c cpu low)
      (Returns-map (erase_on c g s) _ _ (erase_on-Inv s g c t v found queued cpu)
        (λ s₁ l. (_, (refl, refl), l)))
detach-Detached s g b t v found (inr (plain, inr off)) =
    let parked : is_on_cpu t.run_state ≡ false = rw off refl in
    let unqueued : is_queued t.run_state ≡ false = rw off refl in
    let waits : is_blocked t.run_state ≡ true = rw off refl in
    rw (parked, plain, unqueued, waits) (t, (unqueued, parked), (v, found))

pub task_departed-Inv :
    (s : FifoScheduler) (g cpu : ℕ) (b : Bool) (t : FifoTask)
    → Inv s
    → s.tasks g ≡ some t
    → CanDepart t b
    → Returns (task_departed g cpu b s) (λ s'. Inv s' × (s'.tasks g ≡ none))
unfolding task_departed
task_departed-Inv s g cpu b t v found can = rw found (
    Returns-bind (detach g b t s) _ _ _ (detach-Detached s g b t v found can) (λ s₁ _ d.
      let (w, hit) = ping_if-Leaves g cpu b d.0 s₁ d.2 in
      free_task-Inv (ping_if b cpu s₁) g d.0 w hit d.1))
