-- ===== src/Chunker/Windows/Termination.antt =====
-- The loop over the token windows ends: it returns or raises.
use veritext.Prelude.{
  ℕ, zero, suc, ◌+◌, ◌-◌, ◌≤◌, inl, inr, min, max, Text, Bytes, List, ◌∷◌, length, ltb, leb,
  Bool-cases, arith, Result, ok, err, ◌>>=◌, raise_if, Ends, Ends->>=, Ends-raise_if, Ends-of_ne,
  le→ltb_false, token_offset_error, ap, not, list_beq, encode, nat_eq, map,
}
use veritext.Contracts.Documents.{Document}
use veritext.Contracts.Spans.{Chunk, validate_chunk}
use veritext.Chunker.Config.{ChunkingConfig}
use veritext.Chunker.TokenOffsets.{
  TokenOffsetMap, build_token_offset_map, next_token_start_at_char_boundary,
  next_token_end_at_char_boundary, token_span_to_text_range, join_pieces,
}
use veritext.Chunker.TokenOffsets.Advance.{le-next_token_start}
use veritext.Chunker.TokenOffsets.Map.{build_token_offset_map-IsMap}
use veritext.Chunker.Windows.{
  as_chunking_error, is_empty, window_chunk, build_chunk, chunk_loop, chunk_document_windows,
}

validate_chunk-Ends : (chunk : Chunk) → Ends (validate_chunk chunk)
unfolding validate_chunk
validate_chunk-Ends chunk = Ends-of_ne (validate_chunk chunk) (λ h. ground arith)

module _ (offsets : TokenOffsetMap) where
  next_token_end-Ends : (t : ℕ) → Ends (next_token_end_at_char_boundary t offsets)
  unfolding next_token_end_at_char_boundary
  next_token_end-Ends t = Ends-of_ne (next_token_end_at_char_boundary t offsets) (λ h. ground arith)

  token_span_to_text_range-Ends : (s e : ℕ) → Ends (token_span_to_text_range offsets s e)
  unfolding token_span_to_text_range
  token_span_to_text_range-Ends s e =
      Ends-of_ne (token_span_to_text_range offsets s e) (λ h. ground arith)

build_token_offset_map-Ends :
    (decode : ℕ → Bytes) (text : Text) (tokens : List ℕ)
    → Ends (build_token_offset_map decode text tokens)
unfolding build_token_offset_map
build_token_offset_map-Ends decode text tokens =
    Ends->>= (raise_if (not (list_beq (join_pieces (map decode tokens)) (encode text))) _) _
      (Ends-raise_if _ _ tt) (λ _ _. tt)

module _ (sha256 : Text → Text) (document : Document) where
  build_chunk-Ends :
      (i s e : ℕ) (offsets : TokenOffsetMap) → Ends (build_chunk sha256 document i s e offsets)
  unfolding build_chunk
  build_chunk-Ends i s e offsets =
      Ends->>= (token_span_to_text_range offsets s e) _ (token_span_to_text_range-Ends offsets s e)
        (λ r h. validate_chunk-Ends (window_chunk sha256 document i s e r))

  chunk_loop-Ends :
      (config : ChunkingConfig) (offsets : TokenOffsetMap) (fuel i t : ℕ)
      → length offsets.tokens ≤ t + fuel
      → Ends (chunk_loop sha256 document config offsets fuel i t)
  unfolding chunk_loop
  chunk_loop-Ends config offsets zero i t h =
      rw (le→ltb_false t (length offsets.tokens) (omega arith)) tt
  chunk_loop-Ends config offsets (suc fuel) i t h =
      let n = length offsets.tokens in
      let s = next_token_start_at_char_boundary t offsets in
      elim (Bool-cases (ltb t n)) [
        | inr done ↦ rw done tt
        | inl more ↦ elim (Bool-cases (leb n s)) [
          | inl past ↦ rw (more, past) tt
          | inr inside ↦
              rw (more, inside)
                (Ends->>=
                  (next_token_end_at_char_boundary (min (s + config.window_tokens) n) offsets) _
                  (next_token_end-Ends offsets _)
                  (λ e _. Ends->>= (raise_if (leb e s) _) _ (Ends-raise_if (leb e s) _ tt) (λ _ _.
                    Ends->>= (build_chunk sha256 document i s e offsets) _
                      (build_chunk-Ends i s e offsets)
                      (λ chunk _. elim (Bool-cases (leb n e)) [
                        | inl last ↦ rw last tt
                        | inr on ↦ rw on (
                            Ends->>=
                              (chunk_loop sha256 document config offsets fuel (i + 1)
                                (max (e - config.overlap_tokens) (s + 1)))
                              (λ rest. ok (chunk ∷ rest))
                              (chunk_loop-Ends config offsets fuel (i + 1) _
                                (omega (arith, h, le-next_token_start offsets t)))
                              (λ rest _. tt))
                      ]))))
        ]
      ]

  as_chunking_error-Ends : (r : Result (List Chunk)) → Ends r → Ends (as_chunking_error r)
  as_chunking_error-Ends (ok cs) h = h
  as_chunking_error-Ends (err (token_offset_error message)) h = tt
  as_chunking_error-Ends (err other) h = h

  -- Chunking by token windows ends on every document, configuration and tokenizer: it returns
  -- chunks or raises an exception, and its loop never runs on.
  pub chunk_document_windows-Ends :
      (decode : ℕ → Bytes) (config : ChunkingConfig) (tokens : List ℕ)
      → Ends (chunk_document_windows sha256 decode document config tokens)
  unfolding chunk_document_windows
  chunk_document_windows-Ends decode config tokens =
      Ends->>= (as_chunking_error looped) _
        (as_chunking_error-Ends looped (
          Ends->>= (build_token_offset_map decode document.text tokens) _ mapped (λ offsets e.
            chunk_loop-Ends config offsets (length tokens) 0 0 (
              omega (
                arith,
                ap length (build_token_offset_map-IsMap decode document.text tokens e).1,
              )))))
        (λ found e. Ends->>= (raise_if (is_empty found) _) _ (Ends-raise_if _ _ tt) (λ _ _. tt))
    where
      looped : Result (List Chunk)
      looped = build_token_offset_map decode document.text tokens >>= λ offsets.
          chunk_loop sha256 document config offsets (length tokens) 0 0

      mapped : Ends (build_token_offset_map decode document.text tokens)
      mapped = build_token_offset_map-Ends decode document.text tokens
