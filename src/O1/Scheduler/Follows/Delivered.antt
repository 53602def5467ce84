-- ===== src/O1/Scheduler/Follows/Delivered.antt =====
-- After a message of the kernel is dispatched to O1Scheduler (schedulers/o1), its task records
-- follow the kernel's threads again.
use ghost_userspace_o.Base.{
  ℕ, ◌≡◌, ◌≢◌, refl, subst, ◌∙◌, inl, inr, Bool, true, false, Option, none, some, Outcome, ok, ◌⊎◌,
  Yields, Yields-bind, Yields-map, ◌>>=◌,
}
use ghost_userspace_o.Base.Int.{ℤ}
use ghost_userspace_o.Dispatch.{dispatch_task}
use ghost_userspace_o.Dispatch.Messages.{TaskMessage}
use ghost_userspace_o.Threads.{
  Phase, Thread, Threads, goes, leaves, departs, dies, wakes, switches, moved, MovesTo,
}
use ghost_userspace_o.O1.Task.{O1Task, O1TaskState}
use ghost_userspace_o.O1.Scheduler.{O1Scheduler, Kernel}
use ghost_userspace_o.O1.Scheduler.Handlers.{
  callbacks, advance, task_runnable, task_yield, task_blocked, task_preempted, task_switchto,
  task_departed, task_dead, task_priority_changed,
}
use ghost_userspace_o.O1.Scheduler.Follows.{state_in, Assigned, Knows, Follows, FollowsAll, Turned}
use ghost_userspace_o.O1.Scheduler.Follows.Known.{FollowsAll-at, Entered-Follows, advance-Entered}
use ghost_userspace_o.O1.Scheduler.Follows.Freed.{Gone, task_dead-Gone, task_departed-Gone}
use ghost_userspace_o.O1.Scheduler.Follows.Handled.{
  task_runnable-Turned, task_yield-Turned, task_blocked-Turned, task_preempted-Turned,
  task_switchto-Turned, task_priority_changed-Turned,
}

-- The only phases from and to which a thread moves by these messages.
leaves-goes :
    (n : ℕ) (p phase : Phase) (b : Bool) (o : Option Thread)
    → MovesTo n (leaves (goes p) b phase) o
    → o ≡ some (record { phase = p; sent = n })
leaves-goes n p Phase.running b o m = m
leaves-goes n p Phase.blocked true o m = m
leaves-goes n p Phase.blocked false o m = absurd m
leaves-goes n p Phase.ready b o m = absurd m
leaves-goes n p Phase.parked b o m = absurd m

departs-gone :
    (n : ℕ) (phase : Phase) (b : Bool) (o : Option Thread)
    → MovesTo n (departs b phase) o
    → o ≡ none
departs-gone n Phase.running b o m = m
departs-gone n Phase.blocked b o m = m
departs-gone n Phase.ready true o m = absurd m
departs-gone n Phase.ready false o m = m
departs-gone n Phase.parked true o m = absurd m
departs-gone n Phase.parked false o m = m

wakes-ready :
    (n : ℕ) (phase : Phase) (o : Option Thread)
    → MovesTo n (wakes phase) o
    → o ≡ some (record { phase = Phase.ready; sent = n })
wakes-ready n Phase.parked o m = m
wakes-ready n Phase.blocked o m = m
wakes-ready n Phase.ready o m = absurd m
wakes-ready n Phase.running o m = absurd m

dies-gone : (n : ℕ) (phase : Phase) (o : Option Thread) → MovesTo n (dies phase) o → o ≡ none
dies-gone n Phase.parked o m = m
dies-gone n Phase.blocked o m = m
dies-gone n Phase.ready o m = absurd m
dies-gone n Phase.running o m = absurd m

switches-blocked :
    (n : ℕ) (phase : Phase) (o : Option Thread)
    → MovesTo n (switches phase) o
    → o ≡ some (record { phase = Phase.blocked; sent = n })
switches-blocked n Phase.running o m = m
switches-blocked n Phase.parked o m = absurd m
switches-blocked n Phase.blocked o m = absurd m
switches-blocked n Phase.ready o m = absurd m

module _ (w w' : Threads) (s : O1Scheduler) (g : ℕ) (t : O1Task) (all : FollowsAll w s.tasks)
    (others : (h : ℕ) → g ≢ h → w' h ≡ w h) where
  -- A handler and Advance.
  advanced :
      (phase : Phase) (n : ℕ) (m : Outcome O1Scheduler)
      → w' g ≡ some (record { phase = phase; sent = n })
      → Yields m (λ s'. Assigned phase t × Turned g (state_in phase) t s.tasks s'.tasks)
      → Yields (m >>= advance g n) (λ s'. FollowsAll w' s'.tasks)
  advanced phase n m now first = Yields-bind m (advance g n) _ _ first λ s₁ (home, u).
      Yields-map (advance g n s₁) _ _ (advance-Entered g n (state_in phase) t s.tasks s₁ u)
        λ s₂ e. Entered-Follows w w' s.tasks s₂.tasks g phase n t all now others home e

  -- A handler that queues the task.
  queued :
      (n : ℕ) (m : Outcome O1Scheduler)
      → w' g ≡ some (record { phase = Phase.ready; sent = n })
      → Yields m (λ s'. Turned g O1TaskState.queued t s.tasks s'.tasks)
      → Yields (m >>= advance g n) (λ s'. FollowsAll w' s'.tasks)
  queued n m now first = advanced Phase.ready n m now (Yields-map m _ _ first (λ s' u. (tt, u)))

  -- A handler that leaves the state as it is.
  unmoved :
      (phase : Phase) (sent n : ℕ) (m : Outcome O1Scheduler)
      → Knows phase sent t
      → w' g ≡ some (record { phase = phase; sent = n })
      → Yields m (λ s'. Turned g t.run_state t s.tasks s'.tasks)
      → Yields (m >>= advance g n) (λ s'. FollowsAll w' s'.tasks)
  unmoved phase sent n m k now first = advanced phase n m now (
      Yields-map m _ _ first
        (λ s' u. (k.assigned, subst (λ state. Turned g state t s.tasks s'.tasks) k.state u)))

  freed :
      (m : Outcome O1Scheduler)
      → w' g ≡ none
      → Yields m (λ s'. Gone g s.tasks s'.tasks)
      → Yields m (λ s'. FollowsAll w' s'.tasks)
  freed m now first =
      Yields-map m _ _ first
        λ s' e. FollowsAll-at w w' s.tasks s'.tasks g all (rw (now, e.missing) refl) others e.only

pub Turned-refl :
    (g : ℕ) (t : O1Task) (f : ℕ → Option O1Task) → f g ≡ some t → Turned g t.run_state t f f
Turned-refl g t f found = record {
  task = t;
  found = found;
  in_state = refl;
  same_key = refl;
  same_seqnum = refl;
  keeps_cpu = λ h. h;
  only = λ h ne. refl;
}

-- A message for a task that the allocator has.
pub dispatch_task-Follows :
    (k : Kernel) (m : TaskMessage) (g n : ℕ) (w w' : Threads) (s : O1Scheduler) (th : Thread)
    (t : O1Task)
    → FollowsAll w s.tasks
    → s.tasks g ≡ some t
    → t.gtid ≡ g
    → Knows th.phase th.sent t
    → MovesTo n (moved m th.phase) (w' g)
    → ((h : ℕ) → g ≢ h → w' h ≡ w h)
    → ((nice : ℤ) (runnable : Bool) → m ≢ TaskMessage.new nice runnable)
    → Yields (dispatch_task (callbacks k) m g n s) (λ s'. FollowsAll w' s'.tasks)
unfolding dispatch_task
dispatch_task-Follows k (TaskMessage.new nice runnable) g n w w' s th t all found key kn m o old =
    absurd (old nice runnable refl)
dispatch_task-Follows k (TaskMessage.wakeup deferrable) g n w w' s th t all found key kn m o old =
    queued w w' s g t all o n (task_runnable k g n deferrable s) (wakes-ready n th.phase (w' g) m)
      (task_runnable-Turned k g n deferrable s t found)
dispatch_task-Follows k (TaskMessage.preempt cpu b) g n w w' s th t all found key kn m o old =
    queued w w' s g t all o n (task_preempted k g cpu b s)
      (leaves-goes n Phase.ready th.phase b (w' g) m) (task_preempted-Turned k g cpu b s t found)
dispatch_task-Follows k (TaskMessage.blocked cpu b) g n w w' s th t all found key kn m o old =
    advanced w w' s g t all o Phase.blocked n (task_blocked k g cpu b s)
      (leaves-goes n Phase.blocked th.phase b (w' g) m) (task_blocked-Turned k g cpu b s t found)
dispatch_task-Follows k (TaskMessage.yield cpu b) g n w w' s th t all found key kn m o old =
    queued w w' s g t all o n (task_yield k g cpu b s)
      (leaves-goes n Phase.ready th.phase b (w' g) m) (task_yield-Turned k g cpu b s t found)
dispatch_task-Follows k (TaskMessage.departed cpu b) g n w w' s th t all found key kn m o old =
    freed w w' s g t all o (task_departed k g cpu b s) (departs-gone n th.phase b (w' g) m)
      (task_departed-Gone k g cpu b s t found key)
dispatch_task-Follows k (TaskMessage.priority_changed nice) g n w w' s th t all found key kn m o
      old =
    unmoved w w' s g t all o th.phase th.sent n (task_priority_changed g nice s) kn m
      (task_priority_changed-Turned g nice s t found)
dispatch_task-Follows k TaskMessage.dead g n w w' s th t all found key kn m o old =
    freed w w' s g t all o (task_dead g s) (dies-gone n th.phase (w' g) m)
      (task_dead-Gone g s t found key)
dispatch_task-Follows k TaskMessage.switchto g n w w' s th t all found key kn m o old =
    advanced w w' s g t all o Phase.blocked n (task_switchto k g s)
      (switches-blocked n th.phase (w' g) m) (task_switchto-Turned k g s t found)
dispatch_task-Follows k TaskMessage.affinity_changed g n w w' s th t all found key kn m o old =
    unmoved w w' s g t all o th.phase th.sent n (ok s) kn m (Turned-refl g t s.tasks found)
dispatch_task-Follows k TaskMessage.on_cpu g n w w' s th t all found key kn m o old =
    unmoved w w' s g t all o th.phase th.sent n (ok s) kn m (Turned-refl g t s.tasks found)
dispatch_task-Follows k TaskMessage.other g n w w' s th t all found key kn m o old = absurd m

-- The kernel's thread is known exactly if the task is.
pub follows-cases :
    (w : Threads) (f : ℕ → Option O1Task) (g : ℕ)
    → FollowsAll w f
    → ((w g ≡ none) × (f g ≡ none))
      ⊎ ((th : Thread) × (t : O1Task) × (w g ≡ some th) × (f g ≡ some t) × Knows th.phase th.sent t)
follows-cases w f g all = go (w g) (f g) refl refl (all g)
  where
    go :
        (o : Option Thread) (p : Option O1Task)
        → w g ≡ o
        → f g ≡ p
        → Follows o p
        → ((w g ≡ none) × (f g ≡ none))
          ⊎ ((th : Thread) × (t : O1Task) × (w g ≡ some th)
              × (f g ≡ some t)
              × Knows th.phase th.sent t)
    go none p e d k = inl (e, d ∙ k)
    go (some th) none e d k = absurd k
    go (some th) (some t) e d k = inr (th, t, e, d, k)
