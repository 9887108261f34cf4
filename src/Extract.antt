-- ===== src/Extract.antt =====
-- app/extract: spans and their budget, typed values, redaction, and the facts of a document.
pub mod Spans
pub mod Budget
pub mod Normalise
pub mod Redact
pub mod Service
pub mod Evidence
pub mod Tests
