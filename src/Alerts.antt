-- ===== src/Alerts.antt =====
-- services/alerts: the delivery of alert events.
pub mod Delivery
pub mod Webhook
pub mod DigestRuns
pub mod Digests
pub mod Matching
pub mod Rules
