-- ===== src/Tasks.antt =====
-- app/tasks: the assessments that run in the background.
pub mod Assess
pub mod Kept
mod Tests
