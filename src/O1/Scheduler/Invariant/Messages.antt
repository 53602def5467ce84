-- ===== src/O1/Scheduler/Invariant/Messages.antt =====
-- Every handler of O1Scheduler (schedulers/o1), given a message that the kernel may send, fails no
-- CHECK and keeps the invariant.
use ghost_userspace_o.Base.{
  ℕ, ◌<◌, ◌≡◌, refl, inl, Bool, true, false, if◌then◌else◌, ltb, ◌==◌, some, length, get_elem?-some,
  arith, Returns, Returns-bind, Returns-map,
}
use ghost_userspace_o.Base.Int.{pos, negsuc}
use ghost_userspace_o.O1.Task.{O1Task, O1TaskState, is_queued, is_runnable}
use ghost_userspace_o.O1.RunQueue.Laws.{enqueued}
use ghost_userspace_o.O1.Scheduler.{
  O1Scheduler, Kernel, put_task, emit, Effect, max_cpus, assign_cpu, migrate, enqueue_on,
  is_unassigned, associate_task, ping,
}
use ghost_userspace_o.O1.Scheduler.Handlers.{advance, ping_if}
use ghost_userspace_o.O1.Scheduler.Invariant.{Inv}
use ghost_userspace_o.O1.Scheduler.Invariant.Stores.{put_task-Inv, emit-Inv, update_hit}
use ghost_userspace_o.O1.Scheduler.Invariant.Moves.{not_current, enqueue_on-Inv}
use ghost_userspace_o.O1.Scheduler.Invariant.Runs.{put_unqueued-Inv}

-- The invariant holds, and the task stands in the table with this sequence number.
pub record After (g seqnum : ℕ) (s : O1Scheduler) : Type 0 where
  pub inv : Inv s
  pub task : O1Task
  pub found : s.tasks g ≡ some task
  pub numbered : task.seqnum ≡ seqnum

pub emit-After : (g n : ℕ) (s : O1Scheduler) (e : Effect) → After g n s → After g n (emit e s)
emit-After g n s e a = record {
  inv = emit-Inv s e a.inv;
  task = a.task;
  found = a.found;
  numbered = a.numbered;
}

pub ping_if-After :
    (g n cpu : ℕ) (b : Bool) (s : O1Scheduler) → After g n s → After g n (ping_if b cpu s)
ping_if-After g n cpu true s a = emit-After g n s (ping cpu) a
ping_if-After g n cpu false s a = a

pub advance-Inv :
    (g n seqnum : ℕ) (s : O1Scheduler) → After g n s → n < seqnum → Returns (advance g seqnum s) Inv
unfolding advance
advance-Inv g n seqnum s a h =
    let newer : ltb a.task.seqnum seqnum ≡ true = ground (arith, a.numbered) in
    let tok = a.inv.tasks_ok g a.task a.found in
    let t' : O1Task = record a.task { seqnum = seqnum } in
    rw (a.found, newer)
      (put_task-Inv s g t' a.inv (record { key = tok.key; bucket = tok.bucket; home = tok.home })
        (λ d k. rw a.found refl)
        (λ d cur.
          let (u, same, on, at) = a.inv.current_runs d g cur in
          (t', refl, ground (arith, a.found), ground (arith, a.found))))

-- AssignCpu gives a CPU of the enclave and moves its iterator only.
pub assign_cpu-Inv :
    (s : O1Scheduler)
    → Inv s
    → Returns
        (assign_cpu s)
        (λ r. (r.0 < max_cpus) × Inv r.1 × (r.1.tasks ≡ s.tasks) × (r.1.cpu_states ≡ s.cpu_states))
unfolding assign_cpu
assign_cpu-Inv s v =
    let (low, some_cpu, all) = v.cpus_ok in
    let n : ℕ = if s.next == length s.cpus then 0 else s.next in
    let (c, e) = get_elem?-some s.cpus n (ground arith) in
    rw e (
      all n c e,
      record {
        cpus_ok = (ground arith, some_cpu, all);
        tasks_ok = v.tasks_ok;
        indexed = v.indexed;
        placed = v.placed;
        current_runs = v.current_runs;
      },
      refl,
      refl,
    )

seqnum-enqueued : (t : O1Task) → (enqueued t).seqnum ≡ t.seqnum
seqnum-enqueued t = ground arith

pub enqueue_on-After :
    (s : O1Scheduler) (g c : ℕ) (t : O1Task)
    → Inv s
    → s.tasks g ≡ some t
    → t.run_state ≡ O1TaskState.runnable
    → c < max_cpus
    → t.cpu ≡ pos c
    → Returns (enqueue_on c g s) (After g t.seqnum)
enqueue_on-After s g c t v found ready low cpu =
    Returns-map (enqueue_on c g s) _ _ (enqueue_on-Inv s g c t v found ready low cpu)
      λ s' p. record { inv = p.0; task = enqueued t; found = p.1; numbered = seqnum-enqueued t }

pub migrate-After :
    (k : Kernel) (s : O1Scheduler) (g c seqnum : ℕ) (t : O1Task)
    → Inv s
    → s.tasks g ≡ some t
    → t.run_state ≡ O1TaskState.runnable
    → t.cpu ≡ negsuc 0
    → k.associated g c seqnum ≡ true
    → c < max_cpus
    → Returns (migrate k g c seqnum s) (After g t.seqnum)
unfolding migrate
migrate-After k s g c seqnum t v found ready unassigned assoc low =
    let tok = v.tasks_ok g t found in
    let is_ready : is_runnable t.run_state ≡ true = rw ready refl in
    let unqueued : is_queued t.run_state ≡ false = rw ready refl in
    let is_new : is_unassigned t.cpu ≡ true = rw unassigned refl in
    let t' : O1Task = record t { cpu = pos c } in
    let s₁ = emit (associate_task g c seqnum) s in
    let w =
      put_unqueued-Inv s₁ g t t' (emit-Inv s (associate_task g c seqnum) v) found unqueued unqueued
        (record { key = tok.key; bucket = tok.bucket; home = inl (c, low, refl) })
        (not_current s g t v found (λ e. cc)) in
    rw (found, is_ready, is_new, assoc)
      (Returns-bind (enqueue_on c g (put_task g t' s₁)) _ _ _
        (enqueue_on-After (put_task g t' s₁) g c t' w (update_hit s.tasks g (some t')) ready low
          refl)
        (λ s' _ a. emit-After g t.seqnum s' (ping c) a))
