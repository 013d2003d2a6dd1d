-- ===== src/SourceSupport.antt =====
-- When the source of a candidate supports its value (src/extractor/source_support.py).
pub mod Tokens
pub mod Values
pub mod Backing
pub mod Ranks
