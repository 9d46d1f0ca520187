-- ===== src/Orchestration.antt =====
-- services/ingestion/orchestration: the scheduler of the daily jobs.
pub mod Window
pub mod Rows
pub mod Runner
pub mod Coverage
pub mod Watermark
pub mod Isolation
mod Tests
