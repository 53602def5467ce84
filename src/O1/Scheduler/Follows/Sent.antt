-- ===== src/O1/Scheduler/Follows/Sent.antt =====
-- What the kernel delivers to O1Scheduler (schedulers/o1) passes the CHECKs of the handlers.
use ghost_userspace_o.Base.{
  ℕ, ◌<◌, ◌≡◌, refl, subst, inl, inr, Bool, true, false, Option, some, arith, if◌then◌else◌,
}
use ghost_userspace_o.Base.Int.{ℤ, negsuc, is_nonneg}
use ghost_userspace_o.Dispatch.Messages.{
  Message, nop, cpu_message, task_message, CpuMessage, TaskMessage,
}
use ghost_userspace_o.Threads.{
  Phase, Thread, Threads, Moved, goes, leaves, departs, dies, wakes, switches, moved, MovesTo,
  Enters, Tells, Delivers, Associates,
}
use ghost_userspace_o.O1.Task.{O1Task, O1TaskState}
use ghost_userspace_o.O1.Scheduler.{O1Scheduler, Kernel}
use ghost_userspace_o.O1.Scheduler.Invariant.{Inv, HasCpu}
use ghost_userspace_o.O1.Scheduler.Invariant.Runs.{CanLeave}
use ghost_userspace_o.O1.Scheduler.Invariant.Allowed.{ValidNice, CanDepart, AllowedTask, Allowed}
use ghost_userspace_o.O1.Scheduler.Follows.{Knows, FollowsAll}
use ghost_userspace_o.O1.Scheduler.Follows.Delivered.{follows-cases}

-- The nice values that a message carries lie in [-20, 19].
abbrev pub NiceOk : Message → Type 0
NiceOk (task_message (TaskMessage.new nice runnable) g n) = ValidNice nice
NiceOk (task_message (TaskMessage.priority_changed nice) g n) = ValidNice nice
NiceOk m = Unit {0}

module _ (s : O1Scheduler) (g n : ℕ) (t : O1Task) (sent : ℕ) (o : Option Thread) (v : Inv s)
    (found : s.tasks g ≡ some t) where
  home : is_nonneg t.cpu ≡ true → HasCpu t.cpu
  home h = elim (v.tasks_ok g t found).home [
    | inl c ↦ c
    | inr (e, _, _) ↦
        absurd (let q : is_nonneg (negsuc 0) ≡ true = subst (λ z. is_nonneg z ≡ true) e h in cc)
  ]

  leaves-CanLeave :
      (to : Moved) (b : Bool) (phase : Phase)
      → Knows phase sent t
      → MovesTo n (leaves to b phase) o
      → CanLeave t b
  leaves-CanLeave to b Phase.running k m = inl k.state
  leaves-CanLeave to true Phase.blocked k m = inr (refl, k.state, home k.assigned)
  leaves-CanLeave to false Phase.blocked k m = absurd m
  leaves-CanLeave to b Phase.ready k m = absurd m
  leaves-CanLeave to b Phase.parked k m = absurd m

  departs-CanDepart :
      (b : Bool) (phase : Phase)
      → Knows phase sent t
      → MovesTo n (departs b phase) o
      → CanDepart t b
  departs-CanDepart b Phase.running k m = inl (inl k.state)
  departs-CanDepart true Phase.blocked k m = inl (inr (refl, k.state, home k.assigned))
  departs-CanDepart false Phase.blocked k m = inr (refl, inr k.state)
  departs-CanDepart true Phase.ready k m = absurd m
  departs-CanDepart false Phase.ready k m = inr (refl, inl k.state)
  departs-CanDepart true Phase.parked k m = absurd m
  departs-CanDepart false Phase.parked k m = inr (refl, inr k.state)

  wakes-blocked :
      (phase : Phase)
      → Knows phase sent t
      → MovesTo n (wakes phase) o
      → (t.run_state ≡ O1TaskState.blocked) × (o ≡ some (record { phase = Phase.ready; sent = n }))
  wakes-blocked Phase.parked k m = (k.state, m)
  wakes-blocked Phase.blocked k m = (k.state, m)
  wakes-blocked Phase.ready k m = absurd m
  wakes-blocked Phase.running k m = absurd m

  dies-blocked :
      (phase : Phase)
      → Knows phase sent t
      → MovesTo n (dies phase) o
      → t.run_state ≡ O1TaskState.blocked
  dies-blocked Phase.parked k m = k.state
  dies-blocked Phase.blocked k m = k.state
  dies-blocked Phase.ready k m = absurd m
  dies-blocked Phase.running k m = absurd m

  switches-on_cpu :
      (phase : Phase)
      → Knows phase sent t
      → MovesTo n (switches phase) o
      → t.run_state ≡ O1TaskState.on_cpu
  switches-on_cpu Phase.running k m = k.state
  switches-on_cpu Phase.parked k m = absurd m
  switches-on_cpu Phase.blocked k m = absurd m
  switches-on_cpu Phase.ready k m = absurd m

-- AssociateTask with the number of the message that was just sent.
associates :
    (a : ℕ → ℕ → ℕ → Bool) (w : Threads) (g n : ℕ) (phase : Phase)
    → Associates a w
    → w g ≡ some (record { phase = phase; sent = n })
    → (c : ℕ) → a g c n ≡ true
associates a w g n phase h e c = h g c (record { phase = phase; sent = n }) e

AllowedTask-sent :
    (k : Kernel) (m : TaskMessage) (s : O1Scheduler) (w' : Threads) (g n : ℕ) (th : Thread)
    (t : O1Task)
    → Inv s
    → s.tasks g ≡ some t
    → Knows th.phase th.sent t
    → MovesTo n (moved m th.phase) (w' g)
    → Associates k.associated w'
    → NiceOk (task_message m g n)
    → AllowedTask k m g n t
AllowedTask-sent k (TaskMessage.new nice runnable) s w' g n th t v found kn m a nice_ok = tt
AllowedTask-sent k (TaskMessage.wakeup deferrable) s w' g n th t v found kn m a nice_ok =
    let (waits, now) = wakes-blocked s g n t th.sent (w' g) v found th.phase kn m in
    (waits, associates k.associated w' g n Phase.ready a now)
AllowedTask-sent k (TaskMessage.preempt cpu b) s w' g n th t v found kn m a nice_ok =
    leaves-CanLeave s g n t th.sent (w' g) v found (goes Phase.ready) b th.phase kn m
AllowedTask-sent k (TaskMessage.blocked cpu b) s w' g n th t v found kn m a nice_ok =
    leaves-CanLeave s g n t th.sent (w' g) v found (goes Phase.blocked) b th.phase kn m
AllowedTask-sent k (TaskMessage.yield cpu b) s w' g n th t v found kn m a nice_ok =
    leaves-CanLeave s g n t th.sent (w' g) v found (goes Phase.ready) b th.phase kn m
AllowedTask-sent k (TaskMessage.departed cpu b) s w' g n th t v found kn m a nice_ok =
    departs-CanDepart s g n t th.sent (w' g) v found b th.phase kn m
AllowedTask-sent k (TaskMessage.priority_changed nice) s w' g n th t v found kn m a nice_ok =
    nice_ok
AllowedTask-sent k TaskMessage.dead s w' g n th t v found kn m a nice_ok =
    dies-blocked s g n t th.sent (w' g) v found th.phase kn m
AllowedTask-sent k TaskMessage.switchto s w' g n th t v found kn m a nice_ok =
    switches-on_cpu s g n t th.sent (w' g) v found th.phase kn m
AllowedTask-sent k TaskMessage.affinity_changed s w' g n th t v found kn m a nice_ok = tt
AllowedTask-sent k TaskMessage.on_cpu s w' g n th t v found kn m a nice_ok = tt
AllowedTask-sent k TaskMessage.other s w' g n th t v found kn m a nice_ok = absurd m

told-AllowedTask :
    (k : Kernel) (m : TaskMessage) (s : O1Scheduler) (w w' : Threads) (g n : ℕ) (t : O1Task)
    → Inv s
    → FollowsAll w s.tasks
    → Tells m n (w g) (w' g)
    → Associates k.associated w'
    → NiceOk (task_message m g n)
    → s.tasks g ≡ some t
    → AllowedTask k m g n t × (t.seqnum < n)
told-AllowedTask k m s w w' g n t v all tells a nice_ok found =
    elim (follows-cases w s.tasks g all) [
      | inl (_, missing) ↦ absurd (let q = missing in cc)
      | inr (th, u, now, found', kn) ↦
          let (newer, goes_on) = subst (λ o. Tells m n o (w' g)) now tells in
          let same : u ≡ t = cc in
          let kt : Knows th.phase th.sent t = subst (Knows th.phase th.sent) same kn in
          (
            AllowedTask-sent k m s w' g n th t v found kt goes_on a nice_ok,
            ground (arith, newer, kt.numbered),
          )
    ]

entered-Allowed :
    (k : Kernel) (nice : ℤ) (runnable : Bool) (s : O1Scheduler) (w w' : Threads) (g n : ℕ)
    → FollowsAll w s.tasks
    → Enters n runnable (w g) (w' g)
    → Associates k.associated w'
    → ValidNice nice
    → ((t : O1Task) → s.tasks g ≡ some t → Unit {0} × (t.seqnum < n))
      × ValidNice nice
      × ((c : ℕ) → k.associated g c n ≡ true)
entered-Allowed k nice runnable s w w' g n all enters a nice_ok =
    elim (follows-cases w s.tasks g all) [
      | inl (missing, absent) ↦
          let now = subst (λ o. Enters n runnable o (w' g)) missing enters in
          (
            (λ t e. absurd (let q = absent in cc)),
            nice_ok,
            associates k.associated w' g n (if runnable then Phase.ready else Phase.parked) a now,
          )
      | inr (th, t, now, found, kn) ↦ absurd (subst (λ o. Enters n runnable o (w' g)) now enters)
    ]

-- A message that the kernel delivers to a scheduler that has followed its threads is allowed.
pub Delivers-Allowed :
    (k : Kernel) (m : Message) (w w' : Threads) (s : O1Scheduler)
    → Inv s
    → FollowsAll w s.tasks
    → Delivers m w w'
    → Associates k.associated w'
    → NiceOk m
    → Allowed k s m
Delivers-Allowed k nop w w' s v all d a nice_ok = tt
Delivers-Allowed k (cpu_message CpuMessage.other c) w w' s v all d a nice_ok = absurd d
Delivers-Allowed k (cpu_message m c) w w' s v all d a nice_ok = tt
Delivers-Allowed k (task_message (TaskMessage.new nice runnable) g n) w w' s v all (z, e, o) a
      nice_ok =
    let (first, valid, assoc) = entered-Allowed k nice runnable s w w' g n all e a nice_ok in
    (z, first, (valid, assoc))
Delivers-Allowed k (task_message m g n) w w' s v all (z, tells, o) a nice_ok =
    (z, (λ t found. told-AllowedTask k m s w w' g n t v all tells a nice_ok found), tt)
