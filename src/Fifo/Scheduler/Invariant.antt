-- ===== src/Fifo/Scheduler/Invariant.antt =====
-- What holds of a FifoScheduler (schedulers/fifo/per_cpu) before and after each operation: the run
-- queues hold exactly the queued tasks, each once, and a CPU's current task is exactly the task that
-- is on that CPU.
pub mod Stores
pub mod Moves
pub mod Runs
pub mod Allowed
pub mod Handled
pub mod Dispatched
pub mod Picks
use ghost_userspace_o.Base.{
  ℕ, ◌≤◌, ◌<◌, ◌≡◌, ◌⊎◌, Bool, true, false, ◌==◌, ◌&&◌, Option, none, some, List, length, get_elem?,
  count,
}
use ghost_userspace_o.Base.Int.{ℤ, pos, negsuc}
use ghost_userspace_o.Enclave.{max_cpus}
use ghost_userspace_o.Fifo.Task.{FifoTask, is_queued, is_on_cpu}
use ghost_userspace_o.Fifo.RunQueue.Laws.{one}
use ghost_userspace_o.Fifo.Scheduler.{FifoScheduler, points_to}

abbrev pub at_cpu : ℤ → ℕ → Bool
at_cpu (pos n) c = n == c
at_cpu (negsuc n) c = false

-- How often a task should stand in the run queue of CPU `c`.
abbrev pub expected : Option FifoTask → ℕ → ℕ
expected none c = 0
expected (some t) c = one (is_queued t.run_state && at_cpu t.cpu c)

-- Whether a task is on CPU `c`.
abbrev pub running : Option FifoTask → ℕ → Bool
running none c = false
running (some t) c = is_on_cpu t.run_state && at_cpu t.cpu c

abbrev pub HasCpu : ℤ → Type 0
HasCpu z = (c : ℕ) × (c < max_cpus) × (z ≡ pos c)

-- A task under its gtid: it has a CPU unless it waits for its first one.
pub record TaskOk (g : ℕ) (t : FifoTask) : Type 0 where
  pub key : t.gtid ≡ g
  pub home :
      HasCpu t.cpu
      ⊎ ((t.cpu ≡ negsuc 0) × (is_queued t.run_state ≡ false) × (is_on_cpu t.run_state ≡ false))

-- The CPUs of the enclave, and the place of AssignCpu among them.
abbrev pub CpusOk : List ℕ → ℕ → Type 0
CpusOk cpus next =
    (next ≤ length cpus)
    × (0 < length cpus)
    × ((n c : ℕ) → get_elem? cpus n ≡ some c → c < max_cpus)

pub record Inv (s : FifoScheduler) : Type 0 where
  pub tasks_ok : (g : ℕ) (t : FifoTask) → s.tasks g ≡ some t → TaskOk g t
  pub placed : (c g : ℕ) → count g (s.cpu_states c).run_queue.rq ≡ expected (s.tasks g) c
  pub current_ok : (c g : ℕ) → points_to (s.cpu_states c).current g ≡ running (s.tasks g) c
  pub cpus_ok : CpusOk s.cpus s.next
