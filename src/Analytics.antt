-- ===== src/Analytics.antt =====
-- services/analytics: the scores of opportunities.
pub mod Score
pub mod Scoring
