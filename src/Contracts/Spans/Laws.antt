-- ===== src/Contracts/Spans/Laws.antt =====
-- The offsets of a chunk and of a source span that their contracts accept.
use veritext.Prelude.{◌+◌, ◌<◌, ◌≡◌, length, byte_length, ok, arith, length-le-byte_length}
use veritext.Contracts.Spans.{Chunk, SourceSpan, validate_chunk, validate_source_span}

pub record IsChunk (chunk : Chunk) : Type 0 where
  pub chars : chunk.start_char + length chunk.text ≡ chunk.end_char
  pub bytes : chunk.start_byte + byte_length chunk.text ≡ chunk.end_byte
  pub nonempty : 0 < length chunk.text
  pub tokens : chunk.start_token < chunk.end_token

pub record IsSpan (span : SourceSpan) : Type 0 where
  pub chars : span.start_char + length span.text ≡ span.end_char
  pub bytes : span.start_byte + byte_length span.text ≡ span.end_byte
  pub nonempty : 0 < length span.text

pub validate_chunk-IsChunk :
    (chunk : Chunk) {c : Chunk} → validate_chunk chunk ≡ ok c → (c ≡ chunk) × IsChunk chunk
unfolding validate_chunk
validate_chunk-IsChunk chunk e = (ground arith, ground arith)

pub IsChunk-validate_chunk : (chunk : Chunk) → IsChunk chunk → validate_chunk chunk ≡ ok chunk
unfolding validate_chunk
IsChunk-validate_chunk chunk h = ground (arith, length-le-byte_length chunk.text)

pub validate_source_span-IsSpan :
    (span : SourceSpan) {s : SourceSpan}
    → validate_source_span span ≡ ok s
    → (s ≡ span) × IsSpan span
unfolding validate_source_span
validate_source_span-IsSpan span e = (ground arith, ground arith)

pub IsSpan-validate_source_span :
    (span : SourceSpan) → IsSpan span → validate_source_span span ≡ ok span
unfolding validate_source_span
IsSpan-validate_source_span span h = ground (arith, length-le-byte_length span.text)
