-- ===== src/Chunker/Config.antt =====
-- What the chunker is configured with, and what packing passes on
-- (extractor/config/models.py, extractor/chunker/packing.py).
use veritext.Prelude.{ℕ, Text, Bool, Option, List}
use veritext.Contracts.Documents.{LayoutRole}

pub data ChunkBoundaryMode : Type 0 where
  token_window layout_aware : ChunkBoundaryMode

pub record ChunkingConfig : Type 0 where
  pub window_tokens : ℕ
  pub overlap_tokens : ℕ
  pub boundary_mode : ChunkBoundaryMode
  pub allow_oversized_atomic_chunks : Bool

-- Also the kinds of a block, which the source writes as plain strings.
pub data ChunkKind : Type 0 where
  document section paragraph list_item table mixed overflow : ChunkKind

pub data ChunkSplitReason : Type 0 where
  boundary token_window atomic_table_overflow : ChunkSplitReason
  oversized_sentence oversized_paragraph overlap_adjusted : ChunkSplitReason

pub record ChunkBlock : Type 0 where
  pub start_char : ℕ
  pub end_char : ℕ
  pub kind : ChunkKind
  pub layout_span_id : Option Text
  pub layout_role : Option LayoutRole
  pub table_id : Option Text

pub record PackedChunk : Type 0 where
  pub start_char : ℕ
  pub end_char : ℕ
  pub chunk_kind : ChunkKind
  pub layout_span_ids : List Text
  pub table_ids : List Text
  pub page_numbers : List ℕ
  pub split_reason : ChunkSplitReason
