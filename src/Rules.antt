-- ===== src/Rules.antt =====
-- app/rules: the fact index, the twenty-eight rules, and their registry.
pub mod Base
pub mod Release
pub mod Pricing
pub mod Digital
pub mod Disclosure
pub mod Data
pub mod Contact
pub mod Recovery
pub mod Device
pub mod Path
pub mod Registry
pub mod Contract
pub mod Registered
pub mod Timeline
pub mod Window
pub mod Preconditions
pub mod Tests
