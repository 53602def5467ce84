-- ===== src/O1/Scheduler/Invariant.antt =====
-- What holds of an O1Scheduler (schedulers/o1) before and after each operation: the run queues hold
-- exactly the queued tasks, each once and in its bucket, and a current task is one that is on a CPU.
pub mod Stores
pub mod Moves
pub mod Allowed
pub mod Messages
pub mod Handled
pub mod Freed
pub mod Changed
pub mod Dispatched
pub mod Picks
pub mod Runs
use ghost_userspace_o.Base.{
  ℕ, ◌+◌, ◌≤◌, ◌<◌, ◌≡◌, ◌⊎◌, Bool, true, false, if◌then◌else◌, ◌==◌, ◌&&◌, Option, none, some,
  List, length, get_elem?,
}
use ghost_userspace_o.Base.Int.{ℤ, pos, negsuc}
use ghost_userspace_o.O1.Task.{O1Task, O1TaskState, is_queued, is_on_cpu}
use ghost_userspace_o.O1.PrioArray.{num_prio}
use ghost_userspace_o.O1.PrioArray.Counts.{one}
use ghost_userspace_o.O1.RunQueue.Laws.{IsIndexedRq, occurs}
use ghost_userspace_o.O1.Scheduler.{O1Scheduler, max_cpus}

abbrev pub at_cpu : ℤ → ℕ → Bool
at_cpu (pos n) c = n == c
at_cpu (negsuc n) c = false

abbrev pub at_bucket : ℤ → ℕ → Bool
at_bucket (pos p) k = p == 100 + k
at_bucket (negsuc n) k = false

-- How often a task should stand in bucket `k` of the run queue of CPU `c`.
abbrev pub expected : Option O1Task → ℕ → ℕ → ℕ
expected none c k = 0
expected (some t) c k =
    one (is_queued t.run_state && at_cpu t.cpu c && at_bucket t.static_priority k)

abbrev pub HasBucket : ℤ → Type 0
HasBucket p = (k : ℕ) × (k < num_prio) × (p ≡ pos (100 + k))

abbrev pub HasCpu : ℤ → Type 0
HasCpu z = (c : ℕ) × (c < max_cpus) × (z ≡ pos c)

-- A task under its gtid: it has a bucket, and a CPU unless it waits for its first one.
pub record TaskOk (g : ℕ) (t : O1Task) : Type 0 where
  pub key : t.gtid ≡ g
  pub bucket : HasBucket t.static_priority
  pub home :
      HasCpu t.cpu
      ⊎ ((t.cpu ≡ negsuc 0) × (is_queued t.run_state ≡ false) × (is_on_cpu t.run_state ≡ false))

-- Task `g` is the one that runs on CPU `c`.
abbrev pub RunsOn : Option O1Task → ℕ → Type 0
RunsOn o c = (t : O1Task) × (o ≡ some t) × (t.run_state ≡ O1TaskState.on_cpu) × (t.cpu ≡ pos c)

-- The CPUs of the enclave, and the place of AssignCpu among them.
abbrev pub CpusOk : List ℕ → ℕ → Type 0
CpusOk cpus next =
    (next ≤ length cpus)
    × (0 < length cpus)
    × ((n c : ℕ) → get_elem? cpus n ≡ some c → c < max_cpus)

pub record Inv (s : O1Scheduler) : Type 0 where
  pub tasks_ok : (g : ℕ) (t : O1Task) → s.tasks g ≡ some t → TaskOk g t
  pub indexed : (c : ℕ) → IsIndexedRq (s.cpu_states c).run_queue
  pub placed : (c k g : ℕ) → occurs (s.cpu_states c).run_queue k g ≡ expected (s.tasks g) c k
  pub current_runs : (c g : ℕ) → (s.cpu_states c).current ≡ some g → RunsOn (s.tasks g) c
  pub cpus_ok : CpusOk s.cpus s.next
