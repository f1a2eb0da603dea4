-- ===== src/Task.antt =====
-- kernel/src/task: the parts of the task subsystem that are modelled.
pub mod Lineage
pub mod Sched
