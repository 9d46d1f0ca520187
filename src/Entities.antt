-- ===== src/Entities.antt =====
-- services/entity_resolution and apps/api/routers/entity_review.py: pairs of entities that may be
-- one, their scores, and the merges that a reviewer makes and undoes.
pub mod Score
pub mod Candidates
pub mod Review
pub mod Scan
pub mod Resolve
pub mod Upsert
mod Tests
