-- ===== src/Chunker.antt =====
-- The chunker (src/extractor/chunker/): boundaries, layout-aware packing and token windows.
pub mod Config
pub mod Boundaries
pub mod Packing
pub mod TokenOffsets
pub mod Windows
pub mod Chunks
pub mod Tests
