-- ===== src/Contracts/Spans.antt =====
-- Chunks and source spans, and the checks of their contracts (extractor/contracts/models.py).
pub mod Laws
use veritext.Prelude.{
  ℕ, ◌-◌, Text, Bool, true, false, not, Option, none, some, List, [], length, byte_length, leb, ltb,
  ◌==◌, nat_eq, codes, Result, ok, err, validation_error, ◌>>=◌, ◌>>◌, raise_if, if◌then◌else◌,
}
use veritext.Chunker.Config.{ChunkKind, ChunkSplitReason}

pub record Chunk : Type 0 where
  pub chunk_id : Text
  pub doc_id : Text
  pub chunk_index : ℕ
  pub text : Text
  pub start_char : ℕ
  pub end_char : ℕ
  pub start_byte : ℕ
  pub end_byte : ℕ
  pub start_token : ℕ
  pub end_token : ℕ
  pub chunk_kind : ChunkKind
  pub section_path : List Text
  pub layout_span_ids : List Text
  pub table_ids : List Text
  pub page_numbers : List ℕ
  pub parent_chunk_id : Option Text
  pub depends_on_chunk_ids : List Text
  pub split_reason : ChunkSplitReason

pub record SourceSpan : Type 0 where
  pub doc_id : Text
  pub chunk_id : Text
  pub start_char : ℕ
  pub end_char : ℕ
  pub start_byte : ℕ
  pub end_byte : ℕ
  pub text : Text

-- `Chunk.validate_offsets`
unfoldable pub validate_chunk : Chunk → Result Chunk
validate_chunk chunk = do
  raise_if (leb chunk.end_char chunk.start_char)
      (validation_error (codes "end_char must be greater than start_char"))
  raise_if (leb chunk.end_byte chunk.start_byte)
      (validation_error (codes "end_byte must be greater than start_byte"))
  raise_if (leb chunk.end_token chunk.start_token)
      (validation_error (codes "end_token must be greater than start_token"))
  raise_if (not (length chunk.text == chunk.end_char - chunk.start_char))
      (validation_error (codes "chunk text length must match character offsets"))
  raise_if (not (byte_length chunk.text == chunk.end_byte - chunk.start_byte))
      (validation_error (codes "chunk text byte length must match byte offsets"))
  ok chunk

-- `SourceSpan.validate_offsets`
unfoldable pub validate_source_span : SourceSpan → Result SourceSpan
validate_source_span span = do
  raise_if (leb span.end_char span.start_char)
      (validation_error (codes "end_char must be greater than start_char"))
  raise_if (leb span.end_byte span.start_byte)
      (validation_error (codes "end_byte must be greater than start_byte"))
  raise_if (not (length span.text == span.end_char - span.start_char))
      (validation_error (codes "source span text length must match character offsets"))
  raise_if (not (byte_length span.text == span.end_byte - span.start_byte))
      (validation_error (codes "source span text byte length must match byte offsets"))
  ok span
