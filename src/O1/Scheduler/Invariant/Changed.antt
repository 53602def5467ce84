-- ===== src/O1/Scheduler/Invariant/Changed.antt =====
-- TaskPriorityChanged and CpuTick of O1Scheduler (schedulers/o1/o1_scheduler.cc) keep its invariant.
use ghost_userspace_o.Base.{
  ℕ, ◌<◌, ◌≡◌, refl, sym, subst, ◌∙◌, inl, inr, Bool, false, some, arith, Bool-cases, Option-cases,
  Returns, Returns-bind, Returns-map, ◌>>=◌,
}
use ghost_userspace_o.Base.Int.{ℤ, pos}
use ghost_userspace_o.O1.Task.{O1Task, O1TaskState, is_queued, update_remaining_time}
use ghost_userspace_o.O1.RunQueue.{with_state}
use ghost_userspace_o.O1.Scheduler.{
  O1Scheduler, CpuState, Kernel, put_task, put_cpu, max_cpus, enqueue_on,
}
use ghost_userspace_o.O1.Scheduler.Handlers.{
  priority_of, set_priority, task_priority_changed, check_preempt_tick, cpu_tick,
}
use ghost_userspace_o.O1.Scheduler.Invariant.{Inv, HasBucket}
use ghost_userspace_o.O1.Scheduler.Invariant.Stores.{put_task-Inv, put_cpu-Inv, update_hit}
use ghost_userspace_o.O1.Scheduler.Invariant.Moves.{erase_on-Inv}
use ghost_userspace_o.O1.Scheduler.Invariant.Runs.{cpu_of-pos}
use ghost_userspace_o.O1.Scheduler.Invariant.Allowed.{ValidNice, ValidNice-HasBucket}
use ghost_userspace_o.O1.Scheduler.Invariant.Messages.{After, enqueue_on-After}
use ghost_userspace_o.O1.Scheduler.{erase_on}
use ghost_userspace_o.O1.Scheduler.Invariant.Freed.{queued_home}

-- The other states than kQueued.
set_priority_in_place :
    (s : O1Scheduler) (g : ℕ) (priority : ℤ) (t : O1Task)
    → Inv s
    → s.tasks g ≡ some t
    → is_queued t.run_state ≡ false
    → HasBucket priority
    → Returns
        (set_priority priority g s)
        (λ s'. Inv s' × (s'.tasks g ≡ some (record t { static_priority = priority })))
unfolding set_priority
set_priority_in_place s g priority t v found unqueued bucket =
    let tok = v.tasks_ok g t found in
    let t' : O1Task = record t { static_priority = priority } in
    rw found (
      put_task-Inv s g t' v (record { key = tok.key; bucket = bucket; home = tok.home })
          (λ d j. ground arith)
          (λ d cur.
            let (u, same, on, at) = v.current_runs d g cur in
            (t', refl, ground arith, ground arith)),
      update_hit s.tasks g (some t'),
    )

set_priority_taken :
    (s : O1Scheduler) (g c : ℕ) (priority : ℤ) (t : O1Task)
    → Inv s
    → s.tasks g ≡ some (with_state O1TaskState.runnable t)
    → HasBucket priority
    → c < max_cpus
    → t.cpu ≡ pos c
    → Returns (set_priority priority g s >>= enqueue_on c g) (After g t.seqnum)
set_priority_taken s g c priority t v found bucket low cpu =
    Returns-bind (set_priority priority g s) _ _ _
      (set_priority_in_place s g priority (with_state O1TaskState.runnable t) v found refl bucket)
      λ s₁ _ p. enqueue_on-After s₁ g c _ p.0 p.1 refl low cpu

-- A queued task is taken out of its bucket and put back under its new priority; any other only gets
-- the new priority.
pub task_priority_changed-After :
    (s : O1Scheduler) (g : ℕ) (nice : ℤ) (t : O1Task)
    → Inv s
    → s.tasks g ≡ some t
    → ValidNice nice
    → Returns (task_priority_changed g nice s) (After g t.seqnum)
unfolding task_priority_changed
task_priority_changed-After s g nice t v found valid =
    rw found (elim (Bool-cases (is_queued t.run_state)) [
      | inl queued ↦
          let is : t.run_state ≡ O1TaskState.queued = ground arith in
          let (c, low, cpu) = queued_home g t (v.tasks_ok g t found) is in
          rw (queued, cpu_of-pos t c cpu low)
            (Returns-bind (erase_on c g s) _ _ _ (erase_on-Inv s g c t v found is cpu) (λ s₁ _ p.
              set_priority_taken s₁ g c (priority_of nice) t p.0 p.1
                (ValidNice-HasBucket nice valid) low cpu))
      | inr unqueued ↦ rw unqueued (
          Returns-map (set_priority (priority_of nice) g s) _ _
            (set_priority_in_place s g (priority_of nice) t v found unqueued
              (ValidNice-HasBucket nice valid))
            (λ s₁ p. record { inv = p.0; task = _; found = p.1; numbered = refl }))
    ])

ticked_facts :
    (k : Kernel) (t : O1Task)
    → let t' = (update_remaining_time false k.now k.later t).1 in
      (t'.run_state ≡ t.run_state)
      × (t'.cpu ≡ t.cpu)
      × (t'.static_priority ≡ t.static_priority)
      × (t'.gtid ≡ t.gtid)
unfolding update_remaining_time
ticked_facts k t = ground arith

ticked-Inv :
    (k : Kernel) (s : O1Scheduler) (c g : ℕ) (t : O1Task) (preempt : Bool)
    → Inv s
    → s.tasks g ≡ some t
    → t.run_state ≡ O1TaskState.on_cpu
    → Inv (
        put_task g
          (update_remaining_time false k.now k.later t).1
          (put_cpu c (record (s.cpu_states c) { preempt_curr = preempt }) s))
ticked-Inv k s c g t preempt v found on =
    let t' = (update_remaining_time false k.now k.later t).1 in
    let (es, ec, ep, eg) = ticked_facts k t in
    let tok = v.tasks_ok g t found in
    let cs : CpuState = record (s.cpu_states c) { preempt_curr = preempt } in
    let w = put_cpu-Inv s c cs v refl (v.current_runs c) in
    put_task-Inv (put_cpu c cs s) g t' w
      (record {
        key = eg ∙ tok.key;
        bucket = subst HasBucket (sym ep) tok.bucket;
        home = ground (arith, tok.home);
      })
      (λ d j. ground arith)
      (λ d cur. let (u, same, _, at) = w.current_runs d g cur in (t', refl, es ∙ on, ground arith))

-- The tick charges the current task and may ask for its preemption; it moves no task.
pub cpu_tick-Inv : (k : Kernel) (s : O1Scheduler) (c : ℕ) → Inv s → Returns (cpu_tick k c s) Inv
unfolding cpu_tick check_preempt_tick
cpu_tick-Inv k s c v = elim (Option-cases (s.cpu_states c).current) [
  | inl nobody ↦ rw (nobody, check_preempt_tick) v
  | inr (g, cur) ↦
      let (t, found, on, at) = v.current_runs c g cur in
      rw (cur, check_preempt_tick) (rw found (ticked-Inv k s c g t _ v found on))
]
