-- ===== src/Api.antt =====
-- app/api: the submission of a document.
pub mod Tables
pub mod Documents
pub mod Handled
pub mod Submitted
pub mod Runs
mod Tests
