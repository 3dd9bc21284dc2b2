-- ===== src/Process.antt =====
-- mi_so_completo/src/process.c: the process table, its operations and the scheduler.
pub mod Types
pub mod Table
pub mod Tick
pub mod Slots
pub mod Invariant
pub mod Best
pub mod Scheduler
pub mod Contexts
pub mod Sleep
pub mod Turns
pub mod Fairness
