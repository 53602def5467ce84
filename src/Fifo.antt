-- ===== src/Fifo.antt =====
-- The per-CPU FIFO scheduler (schedulers/fifo/per_cpu): one queue of tasks for each CPU.
pub mod Task
pub mod RunQueue
pub mod Scheduler
mod Tests
