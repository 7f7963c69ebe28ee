-- ===== src/Reader.antt =====
-- The reader of the configuration.
pub mod Tree
pub mod Services
pub mod Settings
pub mod Entries
pub mod Ranges
pub mod Parameters
pub mod Example
mod Tests
pub mod Units
pub mod Experiment
