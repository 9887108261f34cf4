-- ===== src/Retrieve.antt =====
-- app/retrieve: the applicability filter, the searches, their fusion, and the candidate set.
pub mod Corpus
pub mod Applicability
pub mod Fusion
pub mod Rows
pub mod Service
pub mod Candidates
pub mod Scope
pub mod Offered
pub mod Excluded
pub mod Tests
