-- ===== src/Critic.antt =====
-- The critic's batches and the checks of its inputs (src/extractor/critic).
pub mod Batching
pub mod Validation
pub mod Corrections
