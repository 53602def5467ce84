-- ===== src/O1/Scheduler/Invariant/Moves.antt =====
-- The operations of O1Scheduler on a run queue (enqueue, erase, dequeue) keep the invariant.
use ghost_userspace_o.Base.{
  ℕ, ◌+◌, ◌<◌, ◌≡◌, ◌≢◌, refl, sym, ap, subst, ◌∙◌, inl, inr, false, Option, none, some, update,
  arith, Option-cases, Returns, Returns-bind,
}
use ghost_userspace_o.Base.Int.{pos}
use ghost_userspace_o.O1.Task.{O1Task, O1TaskState, is_queued}
use ghost_userspace_o.O1.PrioArray.{num_prio}
use ghost_userspace_o.O1.RunQueue.{O1Rq, with_state}
use ghost_userspace_o.O1.RunQueue
use ghost_userspace_o.O1.RunQueue.Laws.{
  IsIndexedRq, occurs, AddsRq, enqueued, enqueue_adds, erase_removes_task,
}
use ghost_userspace_o.O1.RunQueue.Dequeued.{Backed, Dequeues, dequeue-Dequeues}
use ghost_userspace_o.O1.Scheduler.{
  O1Scheduler, CpuState, enqueue_on, erase_on, dequeue_on, store_dequeued, max_cpus,
}
use ghost_userspace_o.O1.Scheduler.Invariant.{expected, RunsOn, Inv}
use ghost_userspace_o.O1.Scheduler.Invariant.Stores.{
  stored, stored-Inv, put_cpu-Inv, update_hit, update_cases,
}

-- A task that is on no CPU is current nowhere.
pub not_current :
    (s : O1Scheduler) (g : ℕ) (t : O1Task)
    → Inv s
    → s.tasks g ≡ some t
    → t.run_state ≢ O1TaskState.on_cpu
    → (d : ℕ) → (s.cpu_states d).current ≢ some g
not_current s g t v found off d e = let (u, same, on, _) = v.current_runs d g e in off (cc)

enqueued_facts :
    (t : O1Task)
    → ((enqueued t).run_state ≡ O1TaskState.queued)
      × ((enqueued t).cpu ≡ t.cpu)
      × ((enqueued t).static_priority ≡ t.static_priority)
      × ((enqueued t).gtid ≡ t.gtid)
enqueued_facts t = ground arith

-- Run queue and table agree after task `g` was added under its bucket.
added_placed :
    (s : O1Scheduler) (g k c : ℕ) (t t' : O1Task) (rq : O1Rq)
    → Inv s
    → s.tasks g ≡ some t
    → is_queued t.run_state ≡ false
    → t'.run_state ≡ O1TaskState.queued
    → t'.cpu ≡ pos c
    → t'.static_priority ≡ pos (100 + k)
    → AddsRq (s.cpu_states c).run_queue k g rq
    → (j h : ℕ) → occurs rq j h ≡ expected (update s.tasks g (some t') h) c j
added_placed s g k c t t' rq v found before queued cpu prio adds j h =
    update_cases (λ i o. occurs rq j i ≡ expected o c j) s.tasks g (some t') h
      (ground (arith, adds j g, v.placed c j g)) (λ ne. ground (arith, adds j h, v.placed c j h))

added_elsewhere :
    (s : O1Scheduler) (g c d j : ℕ) (t : O1Task)
    → s.tasks g ≡ some t
    → t.run_state ≡ O1TaskState.runnable
    → t.cpu ≡ pos c
    → c ≢ d
    → expected (some (enqueued t)) d j ≡ expected (s.tasks g) d j
added_elsewhere s g c d j t found ready cpu ne =
    let (eq, ec, ep, eg) = enqueued_facts t in ground arith

-- A current task other than `g` is untouched by a write to `g`.
pub current_kept :
    (s : O1Scheduler) (g c : ℕ) (t' : O1Task)
    → Inv s
    → ((d : ℕ) → (s.cpu_states d).current ≢ some g)
    → (i : ℕ) → (s.cpu_states c).current ≡ some i
    → RunsOn (update s.tasks g (some t') i) c
current_kept s g c t' v idle i cur =
    update_cases (λ h o. (s.cpu_states c).current ≡ some h → RunsOn o c) s.tasks g (some t') i
      (λ e. absurd (idle c e)) (λ _ e. v.current_runs c i e) cur

enqueued-stored-Inv :
    (s : O1Scheduler) (g c k : ℕ) (t : O1Task) (rq : O1Rq)
    → Inv s
    → s.tasks g ≡ some t
    → t.run_state ≡ O1TaskState.runnable
    → c < max_cpus
    → t.cpu ≡ pos c
    → k < num_prio
    → t.static_priority ≡ pos (100 + k)
    → IsIndexedRq rq
    → AddsRq (s.cpu_states c).run_queue k g rq
    → Inv (stored g (enqueued t) c (record (s.cpu_states c) { run_queue = rq }) s)
enqueued-stored-Inv s g c k t rq v found ready low cpu h prio index adds =
    let (eq, ec, ep, eg) = enqueued_facts t in
    let idle = not_current s g t v found (λ e. cc) in
    stored-Inv s g (enqueued t) c (record (s.cpu_states c) { run_queue = rq }) v
      (record {
        key = eg ∙ (v.tasks_ok g t found).key;
        bucket = (k, h, ep ∙ prio);
        home = inl (c, low, ec ∙ cpu);
      })
      index
      (added_placed s g k c t (enqueued t) rq v found (rw ready refl) eq (ec ∙ cpu) (ep ∙ prio)
        adds)
      (λ d j ne. added_elsewhere s g c d j t found ready cpu ne)
      (current_kept s g c (enqueued t) v idle) (λ d ne cur. absurd (idle d cur))

pub enqueue_on-Inv :
    (s : O1Scheduler) (g c : ℕ) (t : O1Task)
    → Inv s
    → s.tasks g ≡ some t
    → t.run_state ≡ O1TaskState.runnable
    → c < max_cpus
    → t.cpu ≡ pos c
    → Returns (enqueue_on c g s) (λ s'. Inv s' × (s'.tasks g ≡ some (enqueued t)))
unfolding enqueue_on
enqueue_on-Inv s g c t v found ready low cpu =
    let tok = v.tasks_ok g t found in
    let (k, h, prio) = tok.bucket in
    rw found (
      Returns-bind (RunQueue.enqueue (s.cpu_states c).run_queue t) _ _ _
        (enqueue_adds (s.cpu_states c).run_queue t k c cpu ready prio h (v.indexed c))
        (λ r e p. (
          subst (λ u. Inv (stored g u c (record (s.cpu_states c) { run_queue = r.0 }) s)) (sym p.2)
              (enqueued-stored-Inv s g c k t r.0 v found ready low cpu h prio p.0
                (subst (λ x. AddsRq (s.cpu_states c).run_queue k x r.0) tok.key p.1)),
          update_hit s.tasks g (some r.1) ∙ ap some p.2,
        )))

-- Run queue and table agree after task `g` was taken out of its bucket.
taken_placed :
    (s : O1Scheduler) (g k c : ℕ) (t : O1Task) (rq : O1Rq)
    → Inv s
    → s.tasks g ≡ some t
    → t.cpu ≡ pos c
    → t.run_state ≡ O1TaskState.queued
    → t.static_priority ≡ pos (100 + k)
    → AddsRq rq k g (s.cpu_states c).run_queue
    → (j h : ℕ)
    → occurs rq j h ≡ expected (update s.tasks g (some (with_state O1TaskState.runnable t)) h) c j
taken_placed s g k c t rq v found cpu queued prio adds j h =
    update_cases (λ i o. occurs rq j i ≡ expected o c j) s.tasks g
      (some (with_state O1TaskState.runnable t)) h (ground (arith, adds j g, v.placed c j g))
      (λ ne. ground (arith, adds j h, v.placed c j h))

taken_elsewhere :
    (s : O1Scheduler) (g c d j : ℕ) (t : O1Task)
    → s.tasks g ≡ some t
    → t.cpu ≡ pos c
    → c ≢ d
    → expected (some (with_state O1TaskState.runnable t)) d j ≡ expected (s.tasks g) d j
taken_elsewhere s g c d j t found cpu ne = ground arith

taken_stored-Inv :
    (s : O1Scheduler) (g c k : ℕ) (t : O1Task) (rq : O1Rq)
    → Inv s
    → s.tasks g ≡ some t
    → t.run_state ≡ O1TaskState.queued
    → t.cpu ≡ pos c
    → t.static_priority ≡ pos (100 + k)
    → IsIndexedRq rq
    → AddsRq rq k g (s.cpu_states c).run_queue
    → Inv (
        stored g
          (with_state O1TaskState.runnable t)
          c
          (record (s.cpu_states c) { run_queue = rq })
          s)
taken_stored-Inv s g c k t rq v found queued cpu prio index adds =
    let tok = v.tasks_ok g t found in
    let idle = not_current s g t v found (λ e. cc) in
    let t' = with_state O1TaskState.runnable t in
    stored-Inv s g t' c (record (s.cpu_states c) { run_queue = rq }) v
      (record { key = tok.key; bucket = tok.bucket; home = ground (arith, tok.home) }) index
      (taken_placed s g k c t rq v found cpu queued prio adds)
      (λ d j ne. taken_elsewhere s g c d j t found cpu ne) (current_kept s g c t' v idle)
      (λ d ne cur. absurd (idle d cur))

pub erase_on-Inv :
    (s : O1Scheduler) (g c : ℕ) (t : O1Task)
    → Inv s
    → s.tasks g ≡ some t
    → t.run_state ≡ O1TaskState.queued
    → t.cpu ≡ pos c
    → Returns
        (erase_on c g s)
        (λ s'. Inv s' × (s'.tasks g ≡ some (with_state O1TaskState.runnable t)))
unfolding erase_on
erase_on-Inv s g c t v found queued cpu =
    let tok = v.tasks_ok g t found in
    let (k, h, prio) = tok.bucket in
    let stands : occurs (s.cpu_states c).run_queue k t.gtid ≢ 0 =
      (λ z. ground (arith, v.placed c k g, tok.key)) in
    rw found (
      Returns-bind (RunQueue.erase (s.cpu_states c).run_queue t) _ _ _
        (erase_removes_task (s.cpu_states c).run_queue t k queued prio h stands (v.indexed c))
        (λ r e p. (
          subst (λ u. Inv (stored g u c (record (s.cpu_states c) { run_queue = r.0 }) s)) (sym p.2)
              (taken_stored-Inv s g c k t r.0 v found queued cpu prio p.0
                (subst (λ x. AddsRq r.0 k x (s.cpu_states c).run_queue) tok.key p.1)),
          update_hit s.tasks g (some r.1) ∙ ap some p.2,
        )))

pub queue-Backed : (s : O1Scheduler) (c : ℕ) → Inv s → Backed s.tasks (s.cpu_states c).run_queue
queue-Backed s c v k g here = elim (Option-cases (s.tasks g)) [
  | inl e ↦ absurd (here (ground (arith, v.placed c k g)))
  | inr (t, e) ↦ (t, e, ground (arith, v.placed c k g))
]

-- What DequeueOn shows: no task, or one that is runnable now and belongs to the CPU.
abbrev pub Picked : ℕ → Option ℕ × O1Scheduler → Type 0
Picked c (none, s) = Unit {0}
Picked c (some g, s) =
    (t : O1Task) × (s.tasks g ≡ some t) × (t.run_state ≡ O1TaskState.runnable) × (t.cpu ≡ pos c)

-- A task that could be taken out of a bucket was queued there.
taken_facts :
    (s : O1Scheduler) (c k g : ℕ) (t : O1Task) (rq : O1Rq)
    → Inv s
    → s.tasks g ≡ some t
    → AddsRq rq k g (s.cpu_states c).run_queue
    → (t.run_state ≡ O1TaskState.queued) × (t.cpu ≡ pos c) × (t.static_priority ≡ pos (100 + k))
taken_facts s c k g t rq v found adds = ground (arith, v.placed c k g, adds k g)

store_dequeued-Inv :
    (s : O1Scheduler) (c : ℕ) (r : Option O1Task × O1Rq)
    → Inv s
    → IsIndexedRq r.1
    → Dequeues s.tasks (s.cpu_states c).run_queue r
    → Inv (store_dequeued c s r).1 × Picked c (store_dequeued c s r)
unfolding store_dequeued
store_dequeued-Inv s c (none, rq) v w (same, clear) =
    (put_cpu-Inv s c (record (s.cpu_states c) { run_queue = rq }) v same (v.current_runs c), tt)
store_dequeued-Inv s c (some t', rq) v w (k, g, t, found, e, h, adds) =
    let t₁ = with_state O1TaskState.runnable t in
    let cs : CpuState = record (s.cpu_states c) { run_queue = rq } in
    let (queued, cpu, prio) = taken_facts s c k g t rq v found adds in
    (
      subst (λ u. Inv (stored u.gtid u c cs s)) (sym e)
          (subst (λ x. Inv (stored x t₁ c cs s)) (sym (v.tasks_ok g t found).key)
            (taken_stored-Inv s g c k t rq v found queued cpu prio w adds)),
      (t', update_hit s.tasks t'.gtid (some t'), ap (λ u. u.run_state) e, ap (λ u. u.cpu) e ∙ cpu),
    )

pub dequeue_on-Inv :
    (s : O1Scheduler) (c : ℕ) → Inv s → Returns (dequeue_on c s) (λ r. Inv r.1 × Picked c r)
unfolding dequeue_on
dequeue_on-Inv s c v =
    Returns-bind (RunQueue.dequeue s.tasks (s.cpu_states c).run_queue) _ _ _
      (dequeue-Dequeues s.tasks (s.cpu_states c).run_queue (v.indexed c) (queue-Backed s c v))
      λ r e p. store_dequeued-Inv s c r v p.0 p.1
