-- ===== src/Fifo/Scheduler/Reach.antt =====
-- Runs of FifoScheduler (schedulers/fifo/per_cpu): the agents of the CPUs take their steps in any
-- order, a step being one message or one FifoSchedule from its start to its end. As for O1Scheduler,
-- the mutexes of the source cover less than that.
use ghost_userspace_o.Base.{
  ℕ, ◌<◌, ◌≡◌, refl, Bool, none, some, List, [], length, get_elem?, Outcome, ok, Returns, arith,
}
use ghost_userspace_o.Dispatch.{dispatch_message}
use ghost_userspace_o.Dispatch.Messages.{Message}
use ghost_userspace_o.Base.Int.{pos}
use ghost_userspace_o.Enclave.{max_cpus}
use ghost_userspace_o.Fifo.Task.{FifoTask, FifoTaskState}
use ghost_userspace_o.Fifo.Scheduler.Invariant.Runs.{on_cpu-current}
use ghost_userspace_o.Fifo.RunQueue.{empty_rq}
use ghost_userspace_o.Fifo.Scheduler.{FifoScheduler, Kernel}
use ghost_userspace_o.Fifo.Scheduler.Handlers.{callbacks}
use ghost_userspace_o.Fifo.Scheduler.Schedule.{fifo_schedule}
use ghost_userspace_o.Fifo.Scheduler.Invariant.{Inv}
use ghost_userspace_o.Fifo.Scheduler.Invariant.Allowed.{Allowed}
use ghost_userspace_o.Fifo.Scheduler.Invariant.Dispatched.{dispatch_message-FifoInv}
use ghost_userspace_o.Fifo.Scheduler.Invariant.Picks.{fifo_schedule-Inv}

-- The state that the constructor makes for the CPUs of an enclave: AssignCpu's iterator is at the
-- end.
abbrev pub initial : List ℕ → FifoScheduler
initial cpus = record {
  tasks = λ _. none;
  cpu_states = λ _. record { current = none; run_queue = empty_rq };
  cpus = cpus;
  next = length cpus;
  effects = [];
}

abbrev pub ValidCpus : List ℕ → Type 0
ValidCpus cpus = (0 < length cpus) × ((n c : ℕ) → get_elem? cpus n ≡ some c → c < max_cpus)

pub initial-Inv : (cpus : List ℕ) → ValidCpus cpus → Inv (initial cpus)
initial-Inv cpus (some_cpu, all) = record {
  tasks_ok = λ g t e. cc;
  placed = λ c g. refl;
  current_ok = λ c g. refl;
  cpus_ok = (omega arith, some_cpu, all);
}

-- What an agent may do next: the kernel's answers and the message are the environment's choice.
pub data Step : Type 0 where
  receives : Kernel → Message → Step
  schedules : Kernel → ℕ → ℕ → Bool → Step

unfoldable pub take_step : Step → FifoScheduler → Outcome FifoScheduler
take_step (receives k m) s = dispatch_message (callbacks k) m s
take_step (schedules k c agent_barrier boosted) s = fifo_schedule k c agent_barrier boosted s

abbrev pub CanStep : FifoScheduler → Step → Type 0
CanStep s (receives k m) = Allowed k s m
CanStep s (schedules k c agent_barrier boosted) = c < max_cpus

pub data Reach (s : FifoScheduler) : FifoScheduler → Type 0 where
  here : Reach s s
  next :
      {t u : FifoScheduler} (step : Step)
      → Reach s t
      → CanStep t step
      → take_step step t ≡ ok u
      → Reach s u

take_step-Inv :
    (step : Step) (s : FifoScheduler) → Inv s → CanStep s step → Returns (take_step step s) Inv
unfolding take_step
take_step-Inv (receives k m) s v a = dispatch_message-FifoInv k m s v a
take_step-Inv (schedules k c agent_barrier boosted) s v a =
    fifo_schedule-Inv k c agent_barrier boosted s v a

Returns-eq : (m : Outcome FifoScheduler) {s : FifoScheduler} → m ≡ ok s → Returns m Inv → Inv s
Returns-eq m e h = rw e at h

-- Every state that is reached, by any sequence of steps that meet the CHECKs, keeps the
-- invariant.
pub Reach-Inv : {s t : FifoScheduler} → Inv s → Reach s t → Inv t
Reach-Inv v here = v
Reach-Inv v (next {t} step r can e) =
    Returns-eq (take_step step t) e (take_step-Inv step t (Reach-Inv v r) can)

-- In every state of FifoScheduler that is reached from the initial one, two tasks in state
-- kOnCpu with the same CPU are the same task.
pub one_task_per_cpu :
    (cpus : List ℕ) (s : FifoScheduler) (g h c : ℕ) (t u : FifoTask)
    → ValidCpus cpus
    → Reach (initial cpus) s
    → s.tasks g ≡ some t
    → s.tasks h ≡ some u
    → t.run_state ≡ FifoTaskState.on_cpu
    → u.run_state ≡ FifoTaskState.on_cpu
    → t.cpu ≡ pos c
    → u.cpu ≡ pos c
    → g ≡ h
one_task_per_cpu cpus s g h c t u valid r found found' on on' cpu cpu' =
    let v = Reach-Inv (initial-Inv cpus valid) r in
    let e = on_cpu-current s g c t v found on cpu in
    let e' = on_cpu-current s h c u v found' on' cpu' in cc
