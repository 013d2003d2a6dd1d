-- ===== src/Chunker/Windows.antt =====
-- Token windows and the chunks that the chunker makes (extractor/chunker/tokenizer.py). The
-- tokenizer is given by `tokenize` and `decode`, and `sha256` is `hashlib.sha256(...).hexdigest()`
-- of the UTF-8 bytes of a text.
pub mod Coverage
pub mod Termination
use veritext.Prelude.{
  ℕ, zero, suc, ◌+◌, ◌-◌, min, max, Text, Bytes, Bool, true, false, Option, none, some, List, [],
  ◌∷◌, ◌++◌, length, slice, take, ltb, leb, ◌==◌, nat_eq, list_eq, list_beq, not, keep_if,
  if◌then◌else◌, byte_length, encode, decimal, codes, Result, ok, err, Error, chunking_error,
  token_offset_error, diverged, ◌>>=◌, ◌>>◌, raise_if, is_space,
}
use veritext.Contracts.Documents.{Document}
use veritext.Contracts.Spans.{Chunk, validate_chunk}
use veritext.Chunker.Config.{
  ChunkingConfig, ChunkBoundaryMode, ChunkKind, ChunkSplitReason, PackedChunk,
}
use veritext.Chunker.TokenOffsets.{
  TokenOffsetMap, TokenTextRange, build_token_offset_map, next_token_start_at_char_boundary,
  next_token_end_at_char_boundary, token_span_to_text_range,
}
use veritext.Chunker.Packing.Pack.{pack_boundary_aware_chunks}

-- `except TokenOffsetError as exc: raise ChunkingError(str(exc))`
abbrev pub as_chunking_error {ℓ} : {A : Type ℓ} → Result A → Result A
as_chunking_error (ok a) = ok a
as_chunking_error (err (token_offset_error message)) = err (chunking_error message)
as_chunking_error (err e) = err e

-- `not chunks`
abbrev pub is_empty {ℓ} : {A : Type ℓ} → List A → Bool
is_empty [] = true
is_empty (x ∷ xs) = false

module _ (sha256 : Text → Text) where
  unfoldable pub stable_chunk_id : Document → ℕ → ℕ → ℕ → ℕ → ℕ → Text
  unfolding decimal
  stable_chunk_id document chunk_index start_byte end_byte start_token end_token =
      let field = λ (n : ℕ). 0 ∷ decimal n in
      codes "chunk-"
      ++ take 32 (
          sha256 (
            document.doc_id
            ++ ((0 ∷ document.text_sha256)
                ++ (field chunk_index
                    ++ (field start_byte
                        ++ (field end_byte ++ (field start_token ++ field end_token)))))))

  pub window_chunk : Document → ℕ → ℕ → ℕ → TokenTextRange → Chunk
  unfolding stable_chunk_id
  window_chunk document chunk_index start_token end_token r = record {
    chunk_id = stable_chunk_id document chunk_index r.start_byte r.end_byte start_token end_token;
    doc_id = document.doc_id;
    chunk_index = chunk_index;
    text = slice document.text r.start_char r.end_char;
    start_char = r.start_char;
    end_char = r.end_char;
    start_byte = r.start_byte;
    end_byte = r.end_byte;
    start_token = start_token;
    end_token = end_token;
    chunk_kind = ChunkKind.mixed;
    section_path = [];
    layout_span_ids = [];
    table_ids = [];
    page_numbers = [];
    parent_chunk_id = none;
    depends_on_chunk_ids = [];
    split_reason = ChunkSplitReason.token_window;
  }

  unfoldable pub build_chunk : Document → ℕ → ℕ → ℕ → TokenOffsetMap → Result Chunk
  unfolding window_chunk token_span_to_text_range validate_chunk
  build_chunk document chunk_index start_token end_token offsets = do
    r ← token_span_to_text_range offsets start_token end_token
    validate_chunk (window_chunk document chunk_index start_token end_token r)

  -- The loop over the windows, on fuel: the chunks from `start_token` on, of which the first
  -- has the index `chunk_index`.
  pub chunk_loop : Document → ChunkingConfig → TokenOffsetMap → ℕ → ℕ → ℕ → Result (List Chunk)
  unfolding build_chunk next_token_start_at_char_boundary next_token_end_at_char_boundary
  chunk_loop document config offsets zero chunk_index token =
      if ltb token (length offsets.tokens) then err diverged else ok []
  chunk_loop document config offsets (suc fuel) chunk_index token =
      let n = length offsets.tokens in
      let start_token = next_token_start_at_char_boundary token offsets in
      let body : Result (List Chunk) = do
        end_token ←
            next_token_end_at_char_boundary (min (start_token + config.window_tokens) n) offsets
        let again =
            chunk_loop document config offsets fuel (chunk_index + 1)
              (max (end_token - config.overlap_tokens) (start_token + 1))
        raise_if (leb end_token start_token) (chunking_error (codes "Token window did not advance"))
        chunk ← build_chunk document chunk_index start_token end_token offsets
        rest ← if leb n end_token then ok [] else again
        ok (chunk ∷ rest)
      in if ltb token n then if leb n start_token then ok [] else body else ok []

  -- Every round moves the start on by a token at least, so the tokens are fuel enough.
  unfoldable pub chunk_document_windows :
      (ℕ → Bytes) → Document → ChunkingConfig → List ℕ → Result (List Chunk)
  unfolding chunk_loop build_token_offset_map
  chunk_document_windows decode document config tokens = do
    chunks ← as_chunking_error do
      offsets ← build_token_offset_map decode document.text tokens
      chunk_loop document config offsets (length tokens) 0 0
    raise_if (is_empty chunks)
        (chunking_error (codes "Document produced no chunks: " ++ document.doc_id))
    ok chunks
