-- ===== src/Reconciler.antt =====
-- The reconciler (src/extractor/reconciler).
pub mod Models
pub mod Conflicts
pub mod Materialization
pub mod Validation
