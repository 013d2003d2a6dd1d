-- ===== src/Verifier.antt =====
-- The verifier (src/extractor/verifier).
pub mod Verdicts
pub mod Policies
pub mod Validation
pub mod Batch
