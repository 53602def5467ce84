-- ===== src/O1/Scheduler/Follows/Answered.antt =====
-- The parts of O1Schedule (schedulers/o1) beside the kernel's threads: the thread that it commits is
-- on its CPU, or runnable if the commit fails.
use ghost_userspace_o.Base.{
  ℕ, ◌≡◌, refl, sym, subst, ap, ◌∙◌, inl, inr, Bool, true, false, if◌then◌else◌, Option, none, some,
  Option-cases, Bool-cases, update, Yields, Yields-bind, Yields-map, Yields-check, Yields-deref,
  Yields-both, Yields-any, ◌>>=◌,
}
use ghost_userspace_o.ArrList.Links.{update_miss}
use ghost_userspace_o.Threads.{Phase, Threads, settled}
use ghost_userspace_o.O1.Task.{O1Task, O1TaskState, set_remaining_time, is_on_cpu, is_blocked}
use ghost_userspace_o.O1.RunQueue.{O1Rq, with_state}
use ghost_userspace_o.O1.RunQueue
use ghost_userspace_o.O1.RunQueue.Marked.{Shown, dequeue-Shown}
use ghost_userspace_o.O1.Scheduler.{
  O1Scheduler, Kernel, put_task, put_cpu, points_to, empty_on, enqueue_on, dequeue_on,
  store_dequeued, task_off_cpu, cpu_of, set_state, leave_cpu, after_off_cpu,
}
use ghost_userspace_o.O1.Scheduler.Schedule.{
  preempt_current, settle_preemption, boost, commit_failed,
}
use ghost_userspace_o.O1.Scheduler.Invariant.{Inv}
use ghost_userspace_o.O1.Scheduler.Invariant.Stores.{update_hit}
use ghost_userspace_o.O1.Scheduler.Follows.{FollowsAll, Knows, Turned, Assigned, state_in}
use ghost_userspace_o.O1.Scheduler.Follows.Known.{Entered-Follows, Same-Follows}
use ghost_userspace_o.O1.Scheduler.Follows.Delivered.{follows-cases}
use ghost_userspace_o.O1.Scheduler.Follows.Stores.{
  put-Turned, Turned-trans, task_off_cpu-Turned, enqueue_on-Turned,
}

preempted-Follows :
    (c g : ℕ) (w : Threads) (s : O1Scheduler)
    → FollowsAll w s.tasks
    → Yields (preempt_current c g s) (λ s'. FollowsAll w s'.tasks)
unfolding preempt_current
preempted-Follows c g w s all = elim (Bool-cases (empty_on c s)) [
  | inl alone ↦ rw alone (
      Yields-deref (s.tasks g) _ _ (λ t found.
        Same-Follows w s.tasks _ g t all found
          (put-Turned g t.run_state t (set_remaining_time t) s.tasks refl refl refl (λ h. h))))
  | inr others ↦ rw others all
]

pub settle-Follows :
    (c : ℕ) (w : Threads) (s : O1Scheduler)
    → FollowsAll w s.tasks
    → Yields (settle_preemption c s) (λ s'. FollowsAll w s'.tasks)
unfolding settle_preemption
settle-Follows c w s all = elim (Bool-cases (s.cpu_states c).preempt_curr) [
  | inl wanted ↦ elim (Option-cases (s.cpu_states c).current) [
    | inl idle ↦ rw (wanted, idle) all
    | inr (g, current) ↦
        let s' = put_cpu c (record (s.cpu_states c) { preempt_curr = false }) s in
        rw (wanted, current) (preempted-Follows c g w s' all)
  ]
  | inr calm ↦ rw calm all
]

-- The task that is picked is as it was, but for its state.
abbrev pub Picked : (ℕ → Option O1Task) → Option ℕ → (ℕ → Option O1Task) → Type 0
Picked f none f' = f' ≡ f
Picked f (some g) f' = (t : O1Task) × (state : O1TaskState) × (f g ≡ some t) × Turned g state t f f'

pub dequeue_on-Picked :
    (c : ℕ) (s : O1Scheduler) → Inv s → Yields (dequeue_on c s) (λ r. Picked s.tasks r.0 r.1.tasks)
unfolding dequeue_on store_dequeued
dequeue_on-Picked c s v =
    Yields-bind (RunQueue.dequeue s.tasks (s.cpu_states c).run_queue) _ _ _
      (dequeue-Shown s.tasks (s.cpu_states c).run_queue) λ r shown. stored r.0 r.1 shown
  where
    stored :
        (o : Option O1Task) (rq : O1Rq)
        → Shown s.tasks o
        → Picked s.tasks (store_dequeued c s (o, rq)).0 (store_dequeued c s (o, rq)).1.tasks
    stored none rq h = refl
    stored (some t') rq (g, t, found, queued, same) =
        let key = (v.tasks_ok g t found).key in
        let turned =
          put-Turned g O1TaskState.runnable t (with_state O1TaskState.runnable t) s.tasks refl refl
            refl (λ h. h) in
        subst
          (λ u.
            Picked s.tasks (store_dequeued c s (some u, rq)).0
              (store_dequeued c s (some u, rq)).1.tasks)
          (sym same)
          (subst
            (λ i.
              (t₁ : O1Task) × (state : O1TaskState) × (s.tasks i ≡ some t₁)
              × Turned i state t₁ s.tasks
                  (update s.tasks i (some (with_state O1TaskState.runnable t))))
            (sym key) (t, O1TaskState.runnable, found, turned))

enqueue_on-effects :
    (c g : ℕ) (s : O1Scheduler) → Yields (enqueue_on c g s) (λ s'. s'.effects ≡ s.effects)
unfolding enqueue_on
enqueue_on-effects c g s = Yields-deref (s.tasks g) _ _ λ t _.
    Yields-bind (RunQueue.enqueue (s.cpu_states c).run_queue t) _ (λ _. Unit {0}) _
      (Yields-any (RunQueue.enqueue (s.cpu_states c).run_queue t)) λ r _. refl

set_state-effects :
    (state : O1TaskState) (g : ℕ) (s : O1Scheduler)
    → Yields (set_state state g s) (λ s'. s'.effects ≡ s.effects)
unfolding set_state
set_state-effects state g s = Yields-deref (s.tasks g) _ _ λ t _. refl

task_off_cpu-effects :
    (k : Kernel) (g : ℕ) (b from_switchto : Bool) (s : O1Scheduler)
    → Yields (task_off_cpu k g b from_switchto s) (λ s'. s'.effects ≡ s.effects)
unfolding task_off_cpu
task_off_cpu-effects k g b from_switchto s = Yields-deref (s.tasks g) _ _ λ t _.
    Yields-bind (cpu_of t) _ (λ _. Unit {0}) _ (Yields-any (cpu_of t))
      λ c _. elim (Bool-cases (is_on_cpu t.run_state)) [
        | inl on ↦ rw on (set_state-effects (after_off_cpu b) g (leave_cpu k c g t s))
        | inr off ↦ rw off (
            Yields-check from_switchto _ _ (λ _.
              Yields-check (is_blocked t.run_state) _ _
                (λ _. set_state-effects (after_off_cpu b) g s)))
      ]

-- The task is queued, and nothing is asked of the kernel.
pub record Failed (g : ℕ) (t : O1Task) (s s' : O1Scheduler) : Type 0 where
  pub turned : Turned g O1TaskState.queued t s.tasks s'.tasks
  pub effects : s'.effects ≡ s.effects

enqueued-Failed :
    (c g : ℕ) (s : O1Scheduler) (t : O1Task)
    → s.tasks g ≡ some t
    → Yields (boost g s >>= enqueue_on c g) (Failed g t s)
unfolding boost
enqueued-Failed c g s t found =
    let t' : O1Task = record t { prio_boost = true } in
    let s₁ = put_task g t' s in
    let u = put-Turned g t.run_state t t' s.tasks refl refl refl (λ h. h) in
    rw found (
      Yields-map (enqueue_on c g s₁) _ _
        (Yields-both (enqueue_on c g s₁) _ _ (enqueue_on-Turned c g s₁ t' u.found)
          (enqueue_on-effects c g s₁))
        (λ s₂ (v, e). record { turned = Turned-trans u v; effects = e }))

pub commit_failed-Failed :
    (k : Kernel) (c g : ℕ) (s : O1Scheduler) (t : O1Task)
    → s.tasks g ≡ some t
    → Yields (commit_failed k c g s) (Failed g t s)
unfolding commit_failed
commit_failed-Failed k c g s t found = elim (Bool-cases (points_to (s.cpu_states c).current g)) [
  | inr waits ↦ rw waits (enqueued-Failed c g s t found)
  | inl runs ↦ rw runs (
      Yields-bind (task_off_cpu k g false false s) _ _ _
        (Yields-both (task_off_cpu k g false false s) _ _
          (task_off_cpu-Turned k g false false s t found) (task_off_cpu-effects k g false false s))
        (λ s₁ ((_, u), e).
          Yields-map (boost g s₁ >>= enqueue_on c g) _ _ (enqueued-Failed c g s₁ u.task u.found)
            (λ s₂ f. record { turned = Turned-trans u f.turned; effects = f.effects ∙ e })))
]

-- The kernel's answer to a commit of `g`.
pub committed-Follows :
    (b : Bool) (phase : Phase) (w : Threads) (f f' : ℕ → Option O1Task) (g : ℕ) (t : O1Task)
    → FollowsAll w f
    → f g ≡ some t
    → Assigned phase t
    → (if b then Phase.running else Phase.ready) ≡ phase
    → Turned g (state_in phase) t f f'
    → FollowsAll (update w g (settled b (w g))) f'
committed-Follows b phase w f f' g t all found home same u = elim (follows-cases w f g all) [
  | inl (_, missing) ↦ absurd (let q = missing in cc)
  | inr (th, t', now, found', kn) ↦
      let t_same : t' ≡ t = cc in
      let kt : Knows th.phase th.sent t = subst (Knows th.phase th.sent) t_same kn in
      let w' = update w g (settled b (w g)) in
      let here : w' g ≡ some (record { phase = phase; sent = th.sent }) =
        update_hit w g (settled b (w g))
        ∙ ap (settled b) now
        ∙ ap (λ p. some (record th { phase = p })) same in
      Entered-Follows w w' f f' g phase th.sent t all here
        (λ h ne. update_miss w g h (settled b (w g)) ne) home
        (record {
          task = u.task;
          found = u.found;
          in_state = u.in_state;
          numbered = u.same_seqnum ∙ kt.numbered;
          keeps_cpu = u.keeps_cpu;
          only = u.only;
        })
]
