-- ===== src/O1/Scheduler/Follows.antt =====
-- The task records of an O1Scheduler (schedulers/o1) beside the kernel's threads, and what the steps
-- of the scheduler do to the record of one task, if they return.
pub mod Stores
pub mod Handled
pub mod Known
pub mod Freed
pub mod Delivered
pub mod Dispatched
pub mod Sent
pub mod Answered
pub mod Scheduled
use ghost_userspace_o.Base.{
  ℕ, ◌≡◌, ◌≢◌, refl, sym, ◌∙◌, Bool, true, false, Option, none, some, update, arith, ◌==◌,
}
use ghost_userspace_o.Base.Int.{is_nonneg}
use ghost_userspace_o.Threads.{Phase, Thread, Threads}
use ghost_userspace_o.O1.Task.{O1Task, O1TaskState}
use ghost_userspace_o.O1.Scheduler.{O1Scheduler}

abbrev pub state_in : Phase → O1TaskState
state_in Phase.parked = O1TaskState.blocked
state_in Phase.blocked = O1TaskState.blocked
state_in Phase.ready = O1TaskState.queued
state_in Phase.running = O1TaskState.on_cpu

-- A thread that was blocked on its CPU has one.
abbrev pub Assigned : Phase → O1Task → Type 0
Assigned Phase.blocked t = is_nonneg t.cpu ≡ true
Assigned _ t = Unit {0}

-- The record of a task is what the kernel's thread has gone through.
pub record Knows (phase : Phase) (sent : ℕ) (t : O1Task) : Type 0 where
  pub state : t.run_state ≡ state_in phase
  pub numbered : t.seqnum ≡ sent
  pub assigned : Assigned phase t

abbrev pub Follows : Option Thread → Option O1Task → Type 0
Follows none o = o ≡ none
Follows (some th) none = ⊥
Follows (some th) (some t) = Knows th.phase th.sent t

abbrev pub FollowsAll : Threads → (ℕ → Option O1Task) → Type 0
FollowsAll w tasks = (h : ℕ) → Follows (w h) (tasks h)

-- Only the record of `g` is changed: the task that had the record `t` has this state, its sequence
-- number, and a CPU if it had one.
pub record Turned (g : ℕ) (state : O1TaskState) (t : O1Task) (f f' : ℕ → Option O1Task)
    : Type 0 where
  pub task : O1Task
  pub found : f' g ≡ some task
  pub in_state : task.run_state ≡ state
  pub same_key : task.gtid ≡ t.gtid
  pub same_seqnum : task.seqnum ≡ t.seqnum
  pub keeps_cpu : is_nonneg t.cpu ≡ true → is_nonneg task.cpu ≡ true
  pub only : (h : ℕ) → g ≢ h → f' h ≡ f h

-- The same, with a new sequence number.
pub record Entered (g : ℕ) (state : O1TaskState) (seqnum : ℕ) (t : O1Task)
    (f f' : ℕ → Option O1Task) : Type 0 where
  pub task : O1Task
  pub found : f' g ≡ some task
  pub in_state : task.run_state ≡ state
  pub numbered : task.seqnum ≡ seqnum
  pub keeps_cpu : is_nonneg t.cpu ≡ true → is_nonneg task.cpu ≡ true
  pub only : (h : ℕ) → g ≢ h → f' h ≡ f h
