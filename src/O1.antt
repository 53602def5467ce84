-- ===== src/O1.antt =====
-- schedulers/o1: the O(1) scheduler, its tasks, priority arrays, run queues and handlers.
pub mod Task
pub mod PrioArray
pub mod RunQueue
pub mod Scheduler
mod Tests
