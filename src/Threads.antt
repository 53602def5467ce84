-- ===== src/Threads.antt =====
-- The threads of an enclave on the kernel's side: what the messages about a thread and the commits
-- of it say in turn. It knows nothing of a scheduler: a thread has a phase and the sequence number
-- last sent for it, a message moves the phase as kernel/ghost_uapi.h describes, and a commit puts the
-- thread on a CPU or leaves it runnable.
use ghost_userspace_o.Base.{
  ℕ, ◌≡◌, ◌≢◌, Bool, true, if◌then◌else◌, ltb, Option, none, some, List, ◌∷◌, update,
}
use ghost_userspace_o.Dispatch.Messages.{
  Message, nop, cpu_message, task_message, CpuMessage, TaskMessage,
}
use ghost_userspace_o.Enclave.{Effect, commit_txn}

-- Blocked since it entered the enclave, blocked, runnable without a CPU, on a CPU.
pub data Phase : Type 0 where
  parked blocked ready running : Phase

pub record Thread : Type 0 where
  pub phase : Phase
  pub sent : ℕ

abbrev pub Threads : Type 0
Threads = ℕ → Option Thread

-- A message that is not sent in a phase, one after which the thread is gone, one after which it is
-- in another phase.
pub data Moved : Type 0 where
  unsent gone : Moved
  goes : Phase → Moved

-- A thread leaves its CPU. One that was blocked ran at the end of a SwitchTo chain, which it can
-- only have joined after it was on a CPU before.
abbrev pub leaves : Moved → Bool → Phase → Moved
leaves to from_switchto Phase.running = to
leaves to from_switchto Phase.blocked = if from_switchto then to else unsent
leaves to from_switchto Phase.ready = unsent
leaves to from_switchto Phase.parked = unsent

abbrev pub departs : Bool → Phase → Moved
departs from_switchto Phase.running = gone
departs from_switchto Phase.blocked = gone
departs from_switchto Phase.ready = if from_switchto then unsent else gone
departs from_switchto Phase.parked = if from_switchto then unsent else gone

abbrev pub wakes : Phase → Moved
wakes Phase.parked = goes Phase.ready
wakes Phase.blocked = goes Phase.ready
wakes Phase.ready = unsent
wakes Phase.running = unsent

abbrev pub dies : Phase → Moved
dies Phase.parked = gone
dies Phase.blocked = gone
dies Phase.ready = unsent
dies Phase.running = unsent

abbrev pub switches : Phase → Moved
switches Phase.running = goes Phase.blocked
switches _ = unsent

abbrev pub moved : TaskMessage → Phase → Moved
moved (TaskMessage.new nice runnable) phase = goes phase
moved (TaskMessage.wakeup deferrable) phase = wakes phase
moved (TaskMessage.preempt cpu from_switchto) phase = leaves (goes Phase.ready) from_switchto phase
moved (TaskMessage.blocked cpu from_switchto) phase =
    leaves (goes Phase.blocked) from_switchto phase
moved (TaskMessage.yield cpu from_switchto) phase = leaves (goes Phase.ready) from_switchto phase
moved (TaskMessage.departed cpu from_switchto) phase = departs from_switchto phase
moved (TaskMessage.priority_changed nice) phase = goes phase
moved TaskMessage.dead phase = dies phase
moved TaskMessage.switchto phase = switches phase
moved TaskMessage.affinity_changed phase = goes phase
moved TaskMessage.on_cpu phase = goes phase
moved TaskMessage.other phase = unsent

-- The thread after a message with sequence number `n`.
abbrev pub MovesTo : ℕ → Moved → Option Thread → Type 0
MovesTo n unsent after = ⊥
MovesTo n gone after = after ≡ none
MovesTo n (goes phase) after = after ≡ some (record { phase = phase; sent = n })

-- MSG_TASK_NEW makes a thread known, and is not sent of a known one. Any other message of a thread
-- that is not known changes nothing. The sequence numbers of a thread increase.
abbrev pub Enters : ℕ → Bool → Option Thread → Option Thread → Type 0
Enters n runnable none after =
    after ≡ some (record { phase = if runnable then Phase.ready else Phase.parked; sent = n })
Enters n runnable (some th) after = ⊥

abbrev pub Tells : TaskMessage → ℕ → Option Thread → Option Thread → Type 0
Tells m n none after = after ≡ none
Tells m n (some th) after = (ltb th.sent n ≡ true) × MovesTo n (moved m th.phase) after

abbrev pub Sends : TaskMessage → ℕ → Option Thread → Option Thread → Type 0
Sends (TaskMessage.new nice runnable) n before after = Enters n runnable before after
Sends m n before after = Tells m n before after

-- The kernel sends a message, and its threads are `w'` after it.
abbrev pub Delivers : Message → Threads → Threads → Type 0
Delivers nop w w' = (h : ℕ) → w' h ≡ w h
Delivers (cpu_message CpuMessage.other cpu) w w' = ⊥
Delivers (cpu_message m cpu) w w' = (h : ℕ) → w' h ≡ w h
Delivers (task_message m g seqnum) w w' =
    (g ≢ 0) × Sends m seqnum (w g) (w' g) × ((h : ℕ) → g ≢ h → w' h ≡ w h)

-- AssociateTask succeeds if the caller's barrier is the sequence number last sent for the thread.
abbrev pub Associates : (ℕ → ℕ → ℕ → Bool) → Threads → Type 0
Associates associated w = (g c : ℕ) (th : Thread) → w g ≡ some th → associated g c th.sent ≡ true

abbrev pub settled : Bool → Option Thread → Option Thread
settled committed none = none
settled committed (some th) =
    some (record th { phase = if committed then Phase.running else Phase.ready })

-- What the kernel's answer to a request does to the threads.
abbrev pub answered : Bool → List Effect → Threads → Threads
answered committed (commit_txn c g target_barrier agent_barrier ∷ es) w =
    update w g (settled committed (w g))
answered committed es w = w
