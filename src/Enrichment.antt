-- ===== src/Enrichment.antt =====
-- The durable enrichment queue, services/ingestion/enrichment_queue.py.
pub mod Job
pub mod Transitions
pub mod Queue
pub mod Consistency
pub mod Claiming
pub mod Keys
pub mod Retries
pub mod Stranded
pub mod Worker
pub mod Lookup
pub mod Sweep
mod Tests
