-- ===== src/Chunker/Chunks/Coverage.antt =====
-- Chunking loses no text, in either mode.
use veritext.Prelude.{
  ℕ, suc, ◌≤◌, ◌<◌, ◌≡◌, refl, sym, inl, inr, Text, Bytes, false, Option, none, some, List, [], ◌∷◌,
  length, take, leb, Bool-cases, arith, ok, >>=-eq-ok, raise_if, raise_if-eq-ok, Tiles-le,
  chunking_error, codes,
}
use mathlib.Core.Path.{subst}
use veritext.Contracts.Documents.{Document}
use veritext.Contracts.Spans.{Chunk, validate_chunk}
use veritext.Contracts.Spans.Laws.{validate_chunk-IsChunk}
use veritext.Chunker.Config.{ChunkingConfig, ChunkBoundaryMode, PackedChunk}
use veritext.Chunker.Packing.Blocks.Tiling.{IsWellFormed}
use veritext.Chunker.Packing.Fit.{ChunkTiles}
use veritext.Chunker.Packing.Pack.{is_section, pack_boundary_aware_chunks}
use veritext.Chunker.Packing.Pack.Tiling.{pack_boundary_aware_chunks-Cover}
use veritext.Chunker.Windows.{is_empty}
use veritext.Chunker.Windows.Coverage.{IsSlice, Linked, chunk_document_windows-Linked}
use veritext.Chunker.Chunks.{
  first_content_line, headed, below, hierarchy_step, hierarchy_loop, attach_layout_hierarchy,
  packed_chunk, build_chunk_from_packed, build_packed, chunk_document_layout_aware, chunk_by_mode,
  chunk_document_sync,
}

ok-injective : {a b : List Chunk} → ok a ≡ ok b → a ≡ b
ok-injective e = cc

module _ (document : Document) where
  -- What the hierarchy sets does not matter for the text of a chunk.
  IsSlice-relabel :
      (chunk : Chunk) (path : List Text) (parent : Option Text) (dependencies : List Text)
      → IsSlice document chunk
      → IsSlice document (record chunk {
        section_path = path;
        parent_chunk_id = parent;
        depends_on_chunk_ids = dependencies;
      })
  IsSlice-relabel chunk path parent dependencies h = record {
    is_chunk = record {
      chars = h.is_chunk.chars;
      bytes = h.is_chunk.bytes;
      nonempty = h.is_chunk.nonempty;
      tokens = h.is_chunk.tokens;
    };
    text_lem = h.text_lem;
    start_place = h.start_place;
    end_place = h.end_place;
  }

  -- A chunk with the text and the offsets of another.
  abbrev Relabels : Chunk → Chunk → Type 0
  Relabels c d =
      (IsSlice document c → IsSlice document d)
      × (d.start_char ≡ c.start_char)
      × (d.end_char ≡ c.end_char)

  hierarchy_step-Relabels :
      (chunk : Chunk) (section : Option (Text × Text))
      → Relabels chunk (hierarchy_step chunk section).0
  unfolding hierarchy_step
  hierarchy_step-Relabels chunk section = elim (Bool-cases (is_section chunk.chunk_kind)) [
    | inl e ↦ rw e (with_label (first_content_line chunk.text))
    | inr e ↦ rw e (with_section section)
  ]
    where
      with_label : (label : Option Text) → Relabels chunk (headed chunk section label).0
      with_label none = (λ h. h, refl, refl)
      with_label (some label) = (IsSlice-relabel chunk _ _ _, refl, refl)

      with_section : (section : Option (Text × Text)) → Relabels chunk (below chunk section).0
      with_section none = (λ h. h, refl, refl)
      with_section (some (label, id)) = (IsSlice-relabel chunk _ _ _, refl, refl)

module _ (sha256 : Text → Text) (document : Document) where
  -- The hierarchy changes no text and no offset.
  hierarchy_loop-Linked :
      (chunks : List Chunk) (section : Option (Text × Text)) (p n : ℕ)
      → Linked sha256 document p n chunks
      → Linked sha256 document p n (hierarchy_loop chunks section)
  unfolding hierarchy_loop
  hierarchy_loop-Linked [] section p n h = h
  hierarchy_loop-Linked (c ∷ cs) section p n (whole, le, h) =
      let step = hierarchy_step c section in
      let (slice, start, stop) = hierarchy_step-Relabels document c section in
      (
        slice whole,
        omega (arith, start, le),
        subst (λ k. Linked sha256 document k n (hierarchy_loop cs step.1)) (sym stop)
            (hierarchy_loop-Linked cs step.1 c.end_char n h),
      )

module _ (tokenize : Text → List ℕ) (sha256 : Text → Text) (document : Document) where
  build_chunk_from_packed-IsSlice :
      (i : ℕ) (packed : PackedChunk) {chunk : Chunk}
      → packed.start_char ≤ length document.text
      → packed.end_char ≤ length document.text
      → build_chunk_from_packed tokenize sha256 document i packed ≡ ok chunk
      → IsSlice document chunk
        × (chunk.start_char ≡ packed.start_char)
        × (chunk.end_char ≡ packed.end_char)
  unfolding build_chunk_from_packed packed_chunk
  build_chunk_from_packed-IsSlice i packed a b eq =
      let first = length (tokenize (take packed.start_char document.text)) in
      let last = length (tokenize (take packed.end_char document.text)) in
      let (u, moves, made) =
        >>=-eq-ok
          (raise_if (leb last first) (chunking_error (codes "Token window did not advance")))
          (λ _. validate_chunk (packed_chunk tokenize sha256 document i packed)) eq in
      let (same, valid) =
        validate_chunk-IsChunk (packed_chunk tokenize sha256 document i packed) made in
      rw same (
        record {
          is_chunk = valid;
          text_lem = refl;
          start_place = (a, refl);
          end_place = (b, refl);
        },
        refl,
        refl,
      )

  build_packed-Linked :
      (packed : List PackedChunk) (i p : ℕ) {chunks : List Chunk}
      → ChunkTiles p (length document.text) packed
      → build_packed tokenize sha256 document packed i ≡ ok chunks
      → Linked sha256 document p (length document.text) chunks
  unfolding build_packed
  build_packed-Linked [] i p t eq = rw (← ok-injective eq) t
  build_packed-Linked (c ∷ cs) i p (first, le, t) eq =
      let (chunk, built, more) =
        >>=-eq-ok (build_chunk_from_packed tokenize sha256 document i c) _ eq in
      let (chunks, others, done) =
        >>=-eq-ok (build_packed tokenize sha256 document cs (suc i)) _ more in
      let inside = Tiles-le _ _ c.end_char (length document.text) cs t in
      let (slice, start, stop) =
        build_chunk_from_packed-IsSlice i c (omega (arith, first, le, inside)) inside built in
      rw (← ok-injective {a = chunk ∷ chunks} done) (
        slice,
        omega (arith, start, first),
        subst (λ k. Linked sha256 document k (length document.text) chunks) (sym stop)
            (build_packed-Linked cs (suc i) c.end_char t others),
      )

  chunk_document_layout_aware-Linked :
      (config : ChunkingConfig) {chunks : List Chunk}
      → IsWellFormed document
      → chunk_document_layout_aware tokenize sha256 document config ≡ ok chunks
      → Linked sha256 document 0 (length document.text) chunks
  unfolding chunk_document_layout_aware attach_layout_hierarchy
  chunk_document_layout_aware-Linked config w eq =
      let (packed, packs, more) =
        >>=-eq-ok (pack_boundary_aware_chunks tokenize config document) _ eq in
      let (chunks, built, more') =
        >>=-eq-ok (build_packed tokenize sha256 document packed 0) _ more in
      let (u, some_chunks, done) = >>=-eq-ok (raise_if (is_empty chunks) _) _ more' in
      rw (← ok-injective {a = hierarchy_loop chunks none} done) (
        hierarchy_loop-Linked sha256 document chunks none 0 (length document.text) (
          build_packed-Linked packed 0 0
            (pack_boundary_aware_chunks-Cover tokenize config document w packs).0 built))

  chunk_by_mode-Linked :
      (decode : ℕ → Bytes) (mode : ChunkBoundaryMode) (config : ChunkingConfig)
      {chunks : List Chunk}
      → IsWellFormed document
      → is_empty (tokenize document.text) ≡ false
      → chunk_by_mode tokenize sha256 document decode mode config ≡ ok chunks
      → Linked sha256 document 0 (length document.text) chunks
  unfolding chunk_by_mode
  chunk_by_mode-Linked decode ChunkBoundaryMode.layout_aware config w some_tokens eq =
      chunk_document_layout_aware-Linked config w eq
  chunk_by_mode-Linked decode ChunkBoundaryMode.token_window config w some_tokens eq =
      chunk_document_windows-Linked sha256 document decode config (tokenize document.text)
        (nonempty (tokenize document.text) some_tokens) eq
    where
      nonempty : (tokens : List ℕ) → is_empty tokens ≡ false → 0 < length tokens
      nonempty [] e = cc
      nonempty (t ∷ ts) e = omega arith

  -- The chunks of a well-formed document, in either mode and where any are returned, lose none
  -- of its text. The first begins with the text, each next one begins no later than the one
  -- before it ends, and the last ends with the text. Each chunk's text is the slice of the
  -- document's text at its character offsets, its byte offsets are those of that slice in UTF-8,
  -- and its lengths in characters and bytes match its offsets.
  pub chunk_document_sync-Linked :
      (decode : ℕ → Bytes) (config : ChunkingConfig) {chunks : List Chunk}
      → IsWellFormed document
      → chunk_document_sync tokenize sha256 document decode config ≡ ok chunks
      → Linked sha256 document 0 (length document.text) chunks
  unfolding chunk_document_sync
  chunk_document_sync-Linked decode config w eq =
      let (u, some_tokens, more) =
        >>=-eq-ok (raise_if (is_empty (tokenize document.text)) _) _ eq in
      chunk_by_mode-Linked decode config.boundary_mode config w
        (raise_if-eq-ok (is_empty (tokenize document.text)) _ some_tokens) more
