-- ===== src/Validator.antt =====
-- validator/src/gm_validator/validator.py: one tick of the validator and what it keeps between ticks.
pub mod State
pub mod Target
pub mod Process
pub mod Loop
pub mod Selection
pub mod Guards
pub mod Climb
pub mod Window
pub mod Progress
pub mod Store
pub mod Report
pub mod Ledger
pub mod Keyed
pub mod Submission
pub mod Gauge
pub mod Examples
mod Records
mod Tests
