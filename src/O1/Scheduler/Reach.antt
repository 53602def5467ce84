-- ===== src/O1/Scheduler/Reach.antt =====
-- Runs of O1Scheduler (schedulers/o1) beside the kernel's threads. The agents of the CPUs take their
-- steps in any order, a step being one message or one O1Schedule from its start to its end. The
-- mutexes of the source cover less: DispatchMessage calls Advance after Enqueue has released the run
-- queue, and what another agent does in between is not modelled.
use ghost_userspace_o.Base.{
  ℕ, ◌<◌, ◌≡◌, refl, Bool, false, none, some, List, [], ◌∷◌, length, get_elem?, Outcome, ok,
  Returns, Returns-Yields, arith,
}
use ghost_userspace_o.Dispatch.{dispatch_message}
use ghost_userspace_o.Dispatch.Messages.{Message}
use ghost_userspace_o.O1.RunQueue.{empty_rq}
use ghost_userspace_o.O1.PrioArray.Bitmap.{empty_array-IsIndexed}
use ghost_userspace_o.O1.Scheduler.{O1Scheduler, Kernel, max_cpus}
use ghost_userspace_o.O1.Scheduler.Handlers.{callbacks}
use ghost_userspace_o.O1.Scheduler.Schedule.{o1_schedule}
use ghost_userspace_o.O1.Scheduler.Invariant.{Inv}
use ghost_userspace_o.Threads.{Threads, Delivers, Associates, answered}
use ghost_userspace_o.O1.Scheduler.Follows.{FollowsAll}
use ghost_userspace_o.O1.Scheduler.Follows.Sent.{NiceOk, Delivers-Allowed}
use ghost_userspace_o.O1.Scheduler.Follows.Dispatched.{dispatch_message-Follows}
use ghost_userspace_o.O1.Scheduler.Follows.Scheduled.{o1_schedule-Follows}
use ghost_userspace_o.O1.Scheduler.Invariant.Dispatched.{dispatch_message-Inv}
use ghost_userspace_o.O1.Scheduler.Invariant.Picks.{o1_schedule-Inv}

-- The state that the constructor makes for the CPUs of an enclave: AssignCpu's iterator is at the
-- end.
abbrev pub initial : List ℕ → O1Scheduler
initial cpus = record {
  tasks = λ _. none;
  cpu_states = λ _. record { current = none; run_queue = empty_rq; preempt_curr = false };
  cpus = cpus;
  next = length cpus;
  effects = [];
}

abbrev pub ValidCpus : List ℕ → Type 0
ValidCpus cpus = (0 < length cpus) × ((n c : ℕ) → get_elem? cpus n ≡ some c → c < max_cpus)

pub initial-Inv : (cpus : List ℕ) → ValidCpus cpus → Inv (initial cpus)
initial-Inv cpus (some_cpu, all) = record {
  tasks_ok = λ g t e. cc;
  indexed = λ c. record { active_ok = empty_array-IsIndexed; expired_ok = empty_array-IsIndexed };
  placed = λ c k g. omega arith;
  current_runs = λ c g e. cc;
  cpus_ok = (omega arith, some_cpu, all);
}

-- The records follow the threads, and the invariant holds.
pub record Sound (w : Threads) (s : O1Scheduler) : Type 0 where
  pub inv : Inv s
  pub follows : FollowsAll w s.tasks

-- A message that the kernel may deliver now, and what it answers to AssociateTask meanwhile.
abbrev pub Arrives : Kernel → Message → Threads → Threads → Type 0
Arrives k m w w' = Delivers m w w' × Associates k.associated w' × NiceOk m

-- From a state of O1Scheduler that satisfies the invariant (the run queues hold exactly the
-- queued tasks, each once, on its CPU and in the bucket of its priority; a current task is on
-- that CPU) and whose task records follow the kernel's threads (a blocked thread is kBlocked, a
-- runnable one kQueued, one on a CPU kOnCpu, each with the sequence number last sent),
-- DispatchMessage of any message that the protocol of Threads sends next returns, and its result
-- satisfies the invariant and follows the threads as they are after the message, if
-- AssociateTask succeeds for the number last sent and the nice values lie in [-20, 19].
pub dispatch_message-Sound :
    (k : Kernel) (m : Message) (w w' : Threads) (s : O1Scheduler)
    → Sound w s
    → Arrives k m w w'
    → Returns (dispatch_message (callbacks k) m s) (Sound w')
dispatch_message-Sound k m w w' s v (d, a, nice_ok) =
    let allowed = Delivers-Allowed k m w w' s v.inv v.follows d a nice_ok in
    Returns-Yields (dispatch_message (callbacks k) m s) _ _ _
      (dispatch_message-Inv k m s v.inv allowed)
      (dispatch_message-Follows k m w w' s v.inv v.follows d)
      λ s' inv follows. record { inv = inv; follows = follows }

o1_schedule-Sound :
    (k : Kernel) (c agent_barrier : ℕ) (boosted : Bool) (w : Threads) (s : O1Scheduler)
    → Sound w s
    → c < max_cpus
    → Returns
        (o1_schedule k c agent_barrier boosted s)
        (λ s'. Sound (answered k.committed s'.effects w) s')
o1_schedule-Sound k c agent_barrier boosted w s v low =
    Returns-Yields (o1_schedule k c agent_barrier boosted s) _ _ _
      (o1_schedule-Inv k c agent_barrier boosted s v.inv low)
      (o1_schedule-Follows k c agent_barrier boosted w s v.inv v.follows)
      λ s' inv follows. record { inv = inv; follows = follows }

-- What an agent may do next: it receives a message, with the kernel's threads after it, or it picks
-- a task for its CPU.
pub data Step : Type 0 where
  receives : Kernel → Message → Threads → Step
  schedules : Kernel → ℕ → ℕ → Bool → Step

unfoldable pub take_step : Step → O1Scheduler → Outcome O1Scheduler
take_step (receives k m w') s = dispatch_message (callbacks k) m s
take_step (schedules k c agent_barrier boosted) s = o1_schedule k c agent_barrier boosted s

-- The kernel's threads after a step that ended in a state of the scheduler.
abbrev pub threads_after : Step → Threads → O1Scheduler → Threads
threads_after (receives k m w') w s = w'
threads_after (schedules k c agent_barrier boosted) w s = answered k.committed s.effects w

abbrev pub CanStep : Threads → Step → Type 0
CanStep w (receives k m w') = Arrives k m w w'
CanStep w (schedules k c agent_barrier boosted) = c < max_cpus

pub data Reach (cpus : List ℕ) : Threads → O1Scheduler → Type 0 where
  here : Reach cpus (λ _. none) (initial cpus)
  next :
      {w : Threads} {s s' : O1Scheduler} (step : Step)
      → Reach cpus w s
      → CanStep w step
      → take_step step s ≡ ok s'
      → Reach cpus (threads_after step w s') s'

take_step-Sound :
    (step : Step) (w : Threads) (s : O1Scheduler)
    → Sound w s
    → CanStep w step
    → Returns (take_step step s) (λ s'. Sound (threads_after step w s') s')
unfolding take_step
take_step-Sound (receives k m w') w s v can = dispatch_message-Sound k m w w' s v can
take_step-Sound (schedules k c agent_barrier boosted) w s v low =
    o1_schedule-Sound k c agent_barrier boosted w s v low

Returns-eq :
    (m : Outcome O1Scheduler) (P : O1Scheduler → Type 0) {s : O1Scheduler}
    → m ≡ ok s
    → Returns m P
    → P s
Returns-eq m P e h = rw e at h

pub initial-Sound : (cpus : List ℕ) → ValidCpus cpus → Sound (λ _. none) (initial cpus)
initial-Sound cpus valid = record { inv = initial-Inv cpus valid; follows = λ h. refl }

pub Reach-Sound :
    (cpus : List ℕ) {w : Threads} {s : O1Scheduler} → ValidCpus cpus → Reach cpus w s → Sound w s
Reach-Sound cpus valid here = initial-Sound cpus valid
Reach-Sound cpus valid (next {w} {s} {s'} step r can e) =
    Returns-eq (take_step step s) (λ s'. Sound (threads_after step w s') s') e
      (take_step-Sound step w s (Reach-Sound cpus valid r) can)

-- The messages of a channel, each delivered when its turn comes.
abbrev pub ArriveAll : List (Kernel × Message) → Threads → Threads → Type 0
ArriveAll [] w w' = (h : ℕ) → w' h ≡ w h
ArriveAll ((k, m) ∷ ms) w w' = (w₁ : Threads) × Arrives k m w w₁ × ArriveAll ms w₁ w'
