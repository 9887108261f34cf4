-- ===== src/Verdict.antt =====
-- app/verdict: the severity map, the citation validator, the orchestration of one fact's
-- assessment, the persistent compliance state and the report.
pub mod Severities
pub mod Coverage
pub mod Quotes
pub mod Words
pub mod Validator
pub mod Grounding
pub mod Downgrade
pub mod Store
pub mod Persist
pub mod State
pub mod Latest
pub mod History
pub mod Standing
pub mod Assess
pub mod Run
pub mod Decides
pub mod Assessed
pub mod Tests
pub mod RunTests
