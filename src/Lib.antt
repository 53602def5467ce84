-- ===== src/Lib.antt =====
-- The per-CPU schedulers of ghOSt userspace, the dispatch of kernel messages that drives them,
-- the linked lists and the search tree that its BPF schedulers use, and the table that the agent
-- shares with applications.
--
-- The kernel sends each agent messages about tasks and CPUs through a channel. An agent's
-- Schedule reads them one by one, BasicDispatchScheduler::DispatchMessage (lib/scheduler.h)
-- calls a handler of the scheduler for each, and then the scheduler picks a task for its CPU and
-- commits it.
--
-- Files and what they model:
-- - Base and its children: Outcome (a value, a failed CHECK, or an undefined access), integers,
--   list and bit lemmas.
-- - Dispatch, Dispatch/Messages: lib/scheduler.h, DispatchMessage over any scheduler, whose virtual
--   callbacks and task allocator are the record Callbacks; the messages of kernel/ghost_uapi.h.
-- - Threads: the kernel's threads, as kernel/ghost_uapi.h describes what it sends of them.
-- - Enclave: what a scheduler asks of the kernel and of other agents, as a list of effects.
-- - O1/Task, O1/PrioArray, O1/RunQueue, O1/Scheduler and its children Handlers and Schedule:
--   schedulers/o1/o1_scheduler.h and .cc, namely O1Task, PrioArray, O1Rq and O1Scheduler. The
--   children of PrioArray, RunQueue and Scheduler/Invariant hold lemmas, O1/Scheduler/Follows what
--   keeps the task records in step with the kernel's threads, O1/Scheduler/Reach the runs.
-- - Fifo: the same for schedulers/fifo/per_cpu/fifo_scheduler.h and .cc.
-- - ArrList: lib/queue.bpf.h and lib/arr_structs.bpf.h; ArrList/Links says what it is for the head
--   and the array to hold a list.
-- - PrioTable: shared/prio_table.h and .cc, the stream of updated indices; PrioTable/Seqcount the
--   sequence counter and PrioTable/Layout the layout of the shared memory.
-- - Avl: lib/avl.bpf.h. Avl holds the nodes, the head and the walks that write nothing, Avl/Rotate,
--   Avl/Insert, Avl/Delete and Avl/Orphans the operations. Avl/Tree has binary trees and places in
--   them, Avl/Held and Avl/Spot say when the nodes hold these, Avl/Invariant when they are a search
--   tree; Avl/Rotated, Avl/Inserted and Avl/Deleted hold the proofs of the operations.
-- - O1/Tests, Fifo/Tests, ArrList/Tests, PrioTable/Tests, Avl/Tests: the theorems at concrete inputs.
--
-- How the state corresponds. A pointer to a task is its gtid; the map from gtids to tasks is the
-- allocator's map and the heap at once, so that a freed task's pointer dangles, and its use is
-- the outcome bad_access. CHECK and GHOST_ERROR are the outcome check_failed. What the kernel
-- answers during a step (AssociateTask by its arguments, whether Commit succeeds, the two clock
-- readings of the O(1) scheduler) is the record Kernel.
--
-- Steps. An agent's step is one message, from its dispatch to Task::Advance, or one pick, and
-- Reach is any sequence of such whole steps. That is coarser than the source: each mutex covers
-- one operation of a run queue or of the allocator, and Enqueue releases the run queue before
-- DispatchMessage calls Advance, so that another agent can act in between. Such interleavings
-- inside a step are not modelled.
--
-- The kernel's side. Threads is the protocol of kernel/ghost_uapi.h as an automaton for each
-- thread, of the messages sent and the commits answered, and knows nothing of a scheduler: a
-- thread is parked (blocked since it entered), blocked, ready or running. Assumed of the kernel
-- are that its messages follow this automaton with sequence numbers that increase, that one with
-- from_switchto set comes only of a running thread or of a blocked one that was on a run queue
-- before, that AssociateTask succeeds if its barrier is the number last sent, and that a thread
-- whose commit failed is ready. Of O1Scheduler the theorems of O1/Scheduler/Reach start from
-- these; O1/Scheduler/Follows keeps the task records in step with the threads. Of FifoScheduler,
-- Reach takes the messages that meet the CHECKs (Fifo/Scheduler/Invariant/Allowed), and no
-- theorem says that the kernel sends only such.
--
-- Bounds. Sequence numbers are numbers: the source's are 32-bit words that CHECK_GT compares, so
-- that a thread of which more than 2^32 messages are sent fails it, and the protocol's
-- increasing numbers leave that out. Clock readings are nanoseconds without an upper bound,
-- durations integers; the saturation of absl::Duration is not modelled. Priorities are integers:
-- 120 plus a nice value does not overflow an int. The bitmap of PrioArray is a 64-bit word, with
-- its complement taken in 64 bits. cpu_states is a total function, as the CPU ids of messages
-- and of the enclave lie below MAX_CPUS. AssignCpu's function-static iterator is the field
-- `next`. The loops of the AVL tree run on their MAX_AVL_HEIGHT rounds, as in the source, and
-- these are enough for every tree that avl_tree_insert makes; every other loop is a recursion on
-- a list or on the number of positions or tries left.
--
-- Not modelled: construction and readiness of the enclave, dumps, the agents' threads and RPC,
-- the wait for a target's on_cpu flag (it changes no state), the memory order of atomics, the
-- interleaving of single loads and stores in PrioTable, the channel's ring, CPU sets,
-- transactions below RunRequest, shared memory and file descriptor passing, and the loaders of
-- BPF programs.
pub mod ArrList
pub mod Avl
pub mod Base
pub mod Dispatch
pub mod Enclave
pub mod Threads
pub mod Fifo
pub mod O1
pub mod PrioTable
