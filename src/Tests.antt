-- ===== src/Tests.antt =====
-- Concrete runs of the model: witnesses for the theorems that have hypotheses, and tests.
pub mod Fixtures
pub mod Polls
pub mod Writes
pub mod Parts
pub mod Api
pub mod Flushes
pub mod Rounds
pub mod Works
pub mod Natives
pub mod Rows
pub mod Scrapes
pub mod Locks
pub mod Expiries
pub mod Shutdowns
pub mod Starts
