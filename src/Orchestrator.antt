-- ===== src/Orchestrator.antt =====
-- The orchestrator's checks of a run that is taken up again (src/extractor/orchestrator).
pub mod Resume
pub mod Stages
