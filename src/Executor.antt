-- ===== src/Executor.antt =====
-- The executors, which propose candidates with source spans (src/extractor/executor).
pub mod Policies
pub mod Materialization
pub mod Dedup
pub mod Validation
