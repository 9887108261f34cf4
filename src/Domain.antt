-- ===== src/Domain.antt =====
-- app/domain: the enums, the typed fact values, clauses, documents and verdicts.
pub mod Enums
pub mod Facts
pub mod Clauses
pub mod Verdicts
