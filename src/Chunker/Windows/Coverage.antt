-- ===== src/Chunker/Windows/Coverage.antt =====
-- The chunks of the token windows lose no text: each is a slice of the document, in characters
-- and in bytes, and begins no later than the one before it ends.
use veritext.Prelude.{
  ℕ, zero, suc, ◌+◌, ◌-◌, ◌≤◌, ◌<◌, ◌≡◌, ◌≢◌, refl, ap, sym, ◌∙◌, inl, inr, min, max, Text, Bytes,
  true, false, List, [], ◌∷◌, length, slice, take, ltb, leb, Bool-cases, ltb_false→le, ltb→lt,
  lt→ltb, arith, if◌then◌else◌, Result, ok, err, token_offset_error, >>=-eq-ok, ◌>>=◌, ◌>>◌,
  raise_if, raise_if-eq-ok, byte_length, encode, codes, chunking_error, Option, none, some, All,
  byte_length-append, take-append-take, drop, length-le-byte_length, take-take, length-take, ◌++◌,
  take-all,
}
use mathlib.Core.Path.{subst}
use veritext.Contracts.Documents.{Document}
use veritext.Contracts.Spans.{Chunk}
use veritext.Contracts.Spans.Laws.{IsChunk, validate_chunk-IsChunk}
use veritext.Chunker.Config.{ChunkingConfig}
use veritext.Chunker.TokenOffsets.{
  TokenOffsetMap, build_token_offset_map, next_token_start_at_char_boundary,
  next_token_end_at_char_boundary, token_span_to_text_range, at, is_boundary,
  byte_to_char_boundaries,
}
use veritext.Chunker.TokenOffsets.Starts.{IsPlace}
use veritext.Chunker.TokenOffsets.Advance.{
  StartsAtBoundary, next_token_start-le, next_token_end_lem,
}
use veritext.Chunker.TokenOffsets.Map.{
  IsMap, build_token_offset_map-IsMap, token_span_to_text_range_lem,
}
use veritext.Chunker.Windows.{
  as_chunking_error, is_empty, build_chunk, chunk_loop, chunk_document_windows,
}

-- Of two places the one with fewer bytes before it has fewer characters before it.
place-le : (text : Text) (a b c d : ℕ) → IsPlace text a c → IsPlace text b d → a ≤ b → c ≤ d
place-le text a b c d p q le = elim (Bool-cases (ltb d c)) [
  | inr h ↦ ltb_false→le d c h
  | inl h ↦
      let lt : d < c = ltb→lt d c h in
      let parts : take d text ++ take (c - d) (drop d text) ≡ take c text =
        take-append-take d (c - d) text ∙ ap (λ k. take k text) (sum d c lt) in
      absurd (
        omega (
          arith,
          ap byte_length parts,
          byte_length-append (take d text) (take (c - d) (drop d text)),
          length-le-byte_length (take (c - d) (drop d text)),
          ap length parts,
          length-append_of (take d text) (take (c - d) (drop d text)),
          length-take c text,
          length-take d text,
          p,
          q,
        ))
]
  where
    sum : (d c : ℕ) → d < c → d + (c - d) ≡ c
    sum d c h = omega arith

    length-append_of : (xs ys : Text) → length (xs ++ ys) ≡ length xs + length ys
    length-append_of = veritext.Prelude.length-append

ok-injective : {a b : List Chunk} → ok a ≡ ok b → a ≡ b
ok-injective e = cc

-- A chunk that is a slice of the document, in characters and in bytes.
pub record IsSlice (document : Document) (chunk : Chunk) : Type 0 where
  pub is_chunk : IsChunk chunk
  pub text_lem : chunk.text ≡ slice document.text chunk.start_char chunk.end_char
  pub start_place : IsPlace document.text chunk.start_byte chunk.start_char
  pub end_place : IsPlace document.text chunk.end_byte chunk.end_char

module _ (sha256 : Text → Text) (document : Document) where
  -- What the chunk over a range of tokens is.
  record IsWindow (offsets : TokenOffsetMap) (s e : ℕ) (chunk : Chunk) : Type 0 where
    is_slice : IsSlice document chunk
    first_byte : chunk.start_byte ≡ at offsets.token_starts s
    last_byte : chunk.end_byte ≡ at offsets.token_ends (e - 1)

  build_chunk-IsWindow :
      (offsets : TokenOffsetMap) (i s e : ℕ) {chunk : Chunk}
      → IsMap document.text offsets
      → build_chunk sha256 document i s e offsets ≡ ok chunk
      → IsWindow offsets s e chunk
  unfolding build_chunk
  build_chunk-IsWindow offsets i s e {chunk} m eq =
      let (r, ranged, made) = >>=-eq-ok (token_span_to_text_range offsets s e) _ eq in
      let (same, valid) = validate_chunk-IsChunk _ made in
      let (a, b, p, q) = token_span_to_text_range_lem document.text offsets s e m ranged in
      rw same (record {
        is_slice = record { is_chunk = valid; text_lem = refl; start_place = p; end_place = q };
        first_byte = a;
        last_byte = b;
      })

  -- Slices from the place `p` on to the end `n` of the text, with no gap between them.
  abbrev pub Linked : ℕ → ℕ → List Chunk → Type 0
  Linked p n [] = p ≡ n
  Linked p n (c ∷ cs) = IsSlice document c × (c.start_char ≤ p) × Linked c.end_char n cs

  -- What the rest of a round gives, after a chunk that ends with the token before `e`.
  abbrev continue : ChunkingConfig → TokenOffsetMap → ℕ → ℕ → ℕ → ℕ → Result (List Chunk)
  continue config offsets fuel i s e =
      if leb (length offsets.tokens) e
      then ok []
      else chunk_loop sha256 document config offsets fuel (i + 1)
          (max (e - config.overlap_tokens) (s + 1))

  -- The parts of a round that returns.
  chunk_loop-round :
      (config : ChunkingConfig) (offsets : TokenOffsetMap) (fuel i t : ℕ) {chunks : List Chunk}
      → let s = next_token_start_at_char_boundary t offsets in
        let n = length offsets.tokens in
        ltb t n ≡ true
        → leb n s ≡ false
        → chunk_loop sha256 document config offsets (suc fuel) i t ≡ ok chunks
        → (e : ℕ) × (chunk : Chunk) × (rest : List Chunk) × (next_token_end_at_char_boundary
              (min (s + config.window_tokens) n)
              offsets
            ≡ ok e)
          × (leb e s ≡ false)
          × (build_chunk sha256 document i s e offsets ≡ ok chunk)
          × (continue config offsets fuel i s e ≡ ok rest)
          × (chunks ≡ chunk ∷ rest)
  unfolding chunk_loop
  chunk_loop-round config offsets fuel i t {chunks} before inside eq =
      let n = length offsets.tokens in
      let s = next_token_start_at_char_boundary t offsets in
      let (e, ended, more) =
        >>=-eq-ok (next_token_end_at_char_boundary (min (s + config.window_tokens) n) offsets) _
          (rw (before, inside) at eq) in
      let (u, moves, more') = >>=-eq-ok (raise_if (leb e s) _) _ more in
      let (chunk, built, more'') = >>=-eq-ok (build_chunk sha256 document i s e offsets) _ more' in
      let (rest, tail, done) = >>=-eq-ok (continue config offsets fuel i s e) _ more'' in
      (
        e,
        chunk,
        rest,
        ended,
        raise_if-eq-ok (leb e s) _ moves,
        built,
        tail,
        sym (ok-injective {a = chunk ∷ rest} done),
      )

  module _ (config : ChunkingConfig) (offsets : TokenOffsetMap)
      (m : IsMap document.text offsets) where
    -- The next window begins at a boundary, where the chunk before it ends.
    follows_lem :
        (e : ℕ)
        → 0 < e
        → e < length offsets.tokens
        → at offsets.token_starts e ≡ at offsets.token_ends (e - 1)
    follows_lem zero p h = absurd (omega arith)
    follows_lem (suc e) p h = m.follows e h ∙ ap (at offsets.token_ends) {x = e} (omega arith)

    -- The last window ends with the text.
    last_lem :
        (s e : ℕ) (chunk : Chunk)
        → 0 < e
        → e ≡ length offsets.tokens
        → IsWindow offsets s e chunk
        → chunk.end_char ≡ length document.text
    last_lem s zero chunk p h w = absurd (omega arith)
    last_lem s (suc e) chunk p h w =
        let end_byte : chunk.end_byte ≡ byte_length document.text =
          w.last_byte
          ∙ ap (at offsets.token_ends) {x = suc e - 1} {y = e} (omega arith)
          ∙ m.last e h in
        let whole : IsPlace document.text (byte_length document.text) (length document.text) = (
          omega arith,
          ap byte_length (sym (take-all (length document.text) document.text (omega arith))),
        ) in
        omega (
          arith,
          w.is_slice.end_place.0,
          place-le document.text (byte_length document.text) chunk.end_byte (length document.text)
              chunk.end_char whole w.is_slice.end_place (omega (arith, end_byte)),
        )

    chunk_loop-Linked :
        (fuel i t p pc : ℕ) {chunks : List Chunk}
        → t ≤ p
        → p < length offsets.tokens
        → StartsAtBoundary offsets p
        → IsPlace document.text (at offsets.token_starts p) pc
        → chunk_loop sha256 document config offsets fuel i t ≡ ok chunks
        → Linked pc (length document.text) chunks
    unfolding chunk_loop
    chunk_loop-Linked zero i t p pc le lt b place eq =
        absurd (cc (rw (lt→ltb t (length offsets.tokens) (omega arith)) at eq))
    chunk_loop-Linked (suc fuel) i t p pc {chunks} le lt b place eq =
        let n = length offsets.tokens in
        let s = next_token_start_at_char_boundary t offsets in
        let s_le : s ≤ p = next_token_start-le offsets t p le (omega (arith, m.starts, lt)) b in
        let (e, chunk, rest, ended, moves, built, tail, same) =
          chunk_loop-round config offsets fuel i t (lt→ltb t n (omega arith))
            (ground (arith, s_le, lt)) eq in
        let (a, positive, e_le, aligned) =
          next_token_end_lem offsets (min (s + config.window_tokens) n) (omega (arith, m.ends))
            ended in
        let w = build_chunk-IsWindow offsets i s e m built in
        let tail_Linked : Linked chunk.end_char (length document.text) rest =
          elim (Bool-cases (leb n e)) [
            | inl last ↦
                subst (Linked chunk.end_char (length document.text))
                  (ok-injective {a = []} (rw last at tail))
                  (last_lem s e chunk positive (ground (arith, last, e_le, m.ends)) w)
            | inr more ↦
                let e_lt : e < n = ground (arith, more) in
                let follows = follows_lem e positive e_lt in
                chunk_loop-Linked fuel (i + 1) (max (e - config.overlap_tokens) (s + 1)) e
                  chunk.end_char (ground (arith, moves)) e_lt
                  (subst (λ k. is_boundary offsets.byte_to_char k ≡ true) (sym follows) aligned)
                  (subst (λ k. IsPlace document.text k chunk.end_char) (w.last_byte ∙ sym follows)
                    w.is_slice.end_place)
                  (rw more at tail)
          ] in
        rw same (
          w.is_slice,
          place-le document.text chunk.start_byte (at offsets.token_starts p) chunk.start_char pc
              w.is_slice.start_place place (omega (arith, w.first_byte, m.mono s p s_le lt)),
          tail_Linked,
        )

  as_chunking_error-ok :
      (r : Result (List Chunk)) {chunks : List Chunk}
      → as_chunking_error r ≡ ok chunks
      → r ≡ ok chunks
  as_chunking_error-ok (ok cs) e = e
  as_chunking_error-ok (err (token_offset_error message)) e = cc
  as_chunking_error-ok (err other) e = cc

  -- The chunks of the token windows, where any are returned for a document with tokens, lose no
  -- text. The first begins with the text, each next one begins no later than the one before it
  -- ends, and the last ends with the text. Each chunk's text is the slice of the document's text
  -- at its character offsets, and its byte offsets are those of that slice in UTF-8.
  pub chunk_document_windows-Linked :
      (decode : ℕ → Bytes) (config : ChunkingConfig) (tokens : List ℕ) {chunks : List Chunk}
      → 0 < length tokens
      → chunk_document_windows sha256 decode document config tokens ≡ ok chunks
      → Linked 0 (length document.text) chunks
  unfolding chunk_document_windows byte_to_char_boundaries is_boundary
  chunk_document_windows-Linked decode config tokens {chunks} some_tokens eq =
      let (found, looped, kept) =
        >>=-eq-ok
          (as_chunking_error (
            build_token_offset_map decode document.text tokens >>= λ offsets.
            chunk_loop sha256 document config offsets (length tokens) 0 0))
          _ eq in
      let (u, nonempty, done) = >>=-eq-ok (raise_if (is_empty found) _) _ kept in
      let (offsets, mapped, chunked) =
        >>=-eq-ok (build_token_offset_map decode document.text tokens) _
          (as_chunking_error-ok _ looped) in
      let (m, same) = build_token_offset_map-IsMap decode document.text tokens mapped in
      let first = m.first (omega (arith, some_tokens, ap length same)) in
      subst (Linked 0 (length document.text)) (ok-injective {a = found} done) (
        chunk_loop-Linked config offsets m (length tokens) 0 0 0 0 (omega arith)
          (omega (arith, some_tokens, ap length same)) (rw (first, m.boundaries) first_boundary)
          (rw first (omega arith, refl)) chunked)
    where
      first_boundary : is_boundary (byte_to_char_boundaries document.text) 0 ≡ true
      first_boundary = refl
