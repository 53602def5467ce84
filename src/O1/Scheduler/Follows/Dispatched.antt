-- ===== src/O1/Scheduler/Follows/Dispatched.antt =====
-- DispatchMessage to O1Scheduler (schedulers/o1) beside the kernel's threads.
use ghost_userspace_o.Base.{
  ℕ, ◌≡◌, ◌≢◌, refl, sym, subst, ◌∙◌, inl, inr, Bool, true, false, not, if◌then◌else◌, Option, none,
  some, ok, arith, ◌==◌, Option-cases, Bool-cases, Yields, Yields-map, Yields-check, Yields-deref,
}
use ghost_userspace_o.Base.Int.{ℤ}
use ghost_userspace_o.Dispatch.{dispatch_message, dispatch_to_task, dispatch_task, dispatch_cpu}
use ghost_userspace_o.Dispatch.Messages.{
  Message, nop, cpu_message, task_message, CpuMessage, TaskMessage,
}
use ghost_userspace_o.Threads.{
  Phase, Thread, Threads, moved, MovesTo, Enters, Tells, Sends, Delivers,
}
use ghost_userspace_o.O1.Task.{O1Task, update_remaining_time, new_task}
use ghost_userspace_o.O1.Scheduler.{O1Scheduler, Kernel, put_task}
use ghost_userspace_o.O1.Scheduler.Handlers.{
  callbacks, is_some, cpu_tick, check_preempt_tick, task_new,
}
use ghost_userspace_o.O1.Scheduler.Invariant.{Inv}
use ghost_userspace_o.O1.Scheduler.Follows.{FollowsAll}
use ghost_userspace_o.O1.Scheduler.Follows.Known.{Entered-Follows, Same-Follows}
use ghost_userspace_o.O1.Scheduler.Follows.Freed.{task_new-Entered}
use ghost_userspace_o.O1.Scheduler.Follows.Stores.{put-Turned}
use ghost_userspace_o.O1.Scheduler.Follows.Delivered.{dispatch_task-Follows, follows-cases}

FollowsAll-same :
    (w w' : Threads) (f : ℕ → Option O1Task)
    → FollowsAll w f
    → ((h : ℕ) → w' h ≡ w h)
    → FollowsAll w' f
FollowsAll-same w w' f all same h = rw (same h) (all h)

-- CpuTick charges the current task for its time.
cpu_tick-Follows :
    (k : Kernel) (c : ℕ) (w : Threads) (s : O1Scheduler)
    → FollowsAll w s.tasks
    → Yields (cpu_tick k c s) (λ s'. FollowsAll w s'.tasks)
unfolding cpu_tick check_preempt_tick update_remaining_time
cpu_tick-Follows k c w s all = elim (Option-cases (s.cpu_states c).current) [
  | inl idle ↦ rw (idle, check_preempt_tick) all
  | inr (g, current) ↦
      rw (current, check_preempt_tick)
        (Yields-deref (s.tasks g) _ _ (λ t found. Same-Follows w s.tasks _ g t all found (
          put-Turned g t.run_state t (update_remaining_time false k.now k.later t).1 s.tasks refl
            refl refl (λ h. h))))
]

-- MSG_TASK_NEW.
new-Follows :
    (k : Kernel) (nice : ℤ) (runnable : Bool) (g n : ℕ) (w w' : Threads) (s : O1Scheduler)
    → FollowsAll w s.tasks
    → w' g ≡ some (record { phase = if runnable then Phase.ready else Phase.parked; sent = n })
    → ((h : ℕ) → g ≢ h → w' h ≡ w h)
    → Yields
        (task_new k g n nice runnable (put_task g (new_task g) s))
        (λ s'. FollowsAll w' s'.tasks)
new-Follows k nice true g n w w' s all now others =
    Yields-map (task_new k g n nice true (put_task g (new_task g) s)) _ _
      (task_new-Entered k g n nice true s)
      λ s' e. Entered-Follows w w' s.tasks s'.tasks g Phase.ready n (new_task g) all now others tt e
new-Follows k nice false g n w w' s all now others =
    Yields-map (task_new k g n nice false (put_task g (new_task g) s)) _ _
      (task_new-Entered k g n nice false s)
      λ s' e.
        Entered-Follows w w' s.tasks s'.tasks g Phase.parked n (new_task g) all now others tt e

-- Any other message.
known-Follows :
    (k : Kernel) (m : TaskMessage) (g n : ℕ) (w w' : Threads) (s : O1Scheduler)
    → Inv s
    → FollowsAll w s.tasks
    → Tells m n (w g) (w' g)
    → ((h : ℕ) → g ≢ h → w' h ≡ w h)
    → ((nice : ℤ) (runnable : Bool) → m ≢ TaskMessage.new nice runnable)
    → Yields
        (if is_some (s.tasks g) then dispatch_task (callbacks k) m g n s else ok s)
        (λ s'. FollowsAll w' s'.tasks)
known-Follows k m g n w w' s v all tells others old = elim (follows-cases w s.tasks g all) [
  | inl (missing, absent) ↦
      let none_here : is_some (s.tasks g) ≡ false = rw absent refl in
      rw none_here (
        FollowsAll-same w w' s.tasks all (λ h. elim (Bool-cases (g == h)) [
          | inl e ↦
              let p : g ≡ h = ground arith in
              subst (λ i. w' i ≡ w i) p (unknown missing tells ∙ sym missing)
          | inr e ↦ others h (λ q. ground arith)
        ]))
  | inr (th, t, now, found, kn) ↦
      let here : is_some (s.tasks g) ≡ true = rw found refl in
      rw here (
        dispatch_task-Follows k m g n w w' s th t all found (v.tasks_ok g t found).key kn
          (sent th now tells) others old)
]
  where
    unknown : w g ≡ none → Tells m n (w g) (w' g) → w' g ≡ none
    unknown e h = subst (λ o. Tells m n o (w' g)) e h

    sent :
        (th : Thread) → w g ≡ some th → Tells m n (w g) (w' g) → MovesTo n (moved m th.phase) (w' g)
    sent th e h = (subst (λ o. Tells m n o (w' g)) e h).1

fresh-Follows :
    (k : Kernel) (nice : ℤ) (runnable : Bool) (g n : ℕ) (w w' : Threads) (s : O1Scheduler)
    → FollowsAll w s.tasks
    → Enters n runnable (w g) (w' g)
    → ((h : ℕ) → g ≢ h → w' h ≡ w h)
    → Yields
        (dispatch_to_task (callbacks k) (TaskMessage.new nice runnable) g n s)
        (λ s'. FollowsAll w' s'.tasks)
unfolding dispatch_to_task dispatch_task
fresh-Follows k nice runnable g n w w' s all enters others = elim (follows-cases w s.tasks g all) [
  | inl (missing, absent) ↦
      let none_here : is_some (s.tasks g) ≡ false = rw absent refl in
      rw none_here (
        new-Follows k nice runnable g n w w' s all
          (subst (λ o. Enters n runnable o (w' g)) missing enters) others)
  | inr (th, t, now, found, kn) ↦ absurd (subst (λ o. Enters n runnable o (w' g)) now enters)
]

to_task-Follows :
    (k : Kernel) (m : TaskMessage) (g n : ℕ) (w w' : Threads) (s : O1Scheduler)
    → Inv s
    → FollowsAll w s.tasks
    → Sends m n (w g) (w' g)
    → ((h : ℕ) → g ≢ h → w' h ≡ w h)
    → Yields (dispatch_to_task (callbacks k) m g n s) (λ s'. FollowsAll w' s'.tasks)
unfolding dispatch_to_task
to_task-Follows k (TaskMessage.new nice runnable) g n w w' s v all sends others =
    fresh-Follows k nice runnable g n w w' s all sends others
to_task-Follows k m g n w w' s v all sends others =
    known-Follows k m g n w w' s v all sends others (λ nice runnable e. cc)

-- Of any message that the kernel delivers.
pub dispatch_message-Follows :
    (k : Kernel) (m : Message) (w w' : Threads) (s : O1Scheduler)
    → Inv s
    → FollowsAll w s.tasks
    → Delivers m w w'
    → Yields (dispatch_message (callbacks k) m s) (λ s'. FollowsAll w' s'.tasks)
unfolding dispatch_message dispatch_cpu
dispatch_message-Follows k nop w w' s v all same = FollowsAll-same w w' s.tasks all same
dispatch_message-Follows k (cpu_message CpuMessage.other c) w w' s v all same = absurd same
dispatch_message-Follows k (cpu_message CpuMessage.tick c) w w' s v all same =
    cpu_tick-Follows k c w' s (FollowsAll-same w w' s.tasks all same)
dispatch_message-Follows k (cpu_message m c) w w' s v all same =
    FollowsAll-same w w' s.tasks all same
dispatch_message-Follows k (task_message m g n) w w' s v all (nonzero, sends, others) =
    Yields-check (not (g == 0)) _ _ λ _. to_task-Follows k m g n w w' s v all sends others
