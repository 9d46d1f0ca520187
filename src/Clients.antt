-- ===== src/Clients.antt =====
-- packages/source_clients and packages/request_rate_limit.py: what limits the calls that the
-- platform makes and takes.
pub mod Circuit
pub mod Retry
pub mod SlidingWindow
pub mod Quota
pub mod TokenBucket
mod Tests
