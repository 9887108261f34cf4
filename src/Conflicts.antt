-- ===== src/Conflicts.antt =====
-- app/conflicts: facts of one account that contradict each other across documents.
pub mod Detector
pub mod Groups
pub mod Agreement
pub mod Record
pub mod Tests
