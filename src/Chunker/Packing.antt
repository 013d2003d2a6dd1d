-- ===== src/Chunker/Packing.antt =====
-- Layout-aware packing (extractor/chunker/packing.py). The tokenizer is the argument
-- `tokenize`, which gives the tokens of a text.
pub mod Blocks
pub mod Splitting
pub mod Pack
pub mod Fit
