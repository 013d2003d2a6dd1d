-- ===== src/Tests.antt =====
-- What the stages do with a document of one chunk, a plan and candidates of it.
pub mod Data
pub mod Documents
pub mod Candidates
pub mod Review
pub mod Verifier
pub mod Corrections
pub mod Reconciler
