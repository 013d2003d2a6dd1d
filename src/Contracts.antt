-- ===== src/Contracts.antt =====
-- The data that the stages exchange, and its validators (src/extractor/contracts/base.py,
-- documents.py, ingestion.py, models.py and normalization.py).
pub mod Documents
pub mod Ingestion
pub mod Spans
pub mod Candidates
pub mod Equality
pub mod Reports
pub mod Reviews
