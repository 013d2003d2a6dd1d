-- ===== src/Chunker/Chunks.antt =====
-- `_chunk_document_sync`, the chunks of layout-aware packing and their section hierarchy
-- (extractor/chunker/tokenizer.py).
pub mod Coverage
use veritext.Prelude.{
  ℕ, zero, suc, ◌+◌, Text, Bytes, Bool, true, false, ◌&&◌, ◌||◌, not, Option, none, some, List, [],
  ◌∷◌, ◌++◌, length, slice, take, ltb, leb, ◌==◌, nat_eq, list_eq, list_beq, keep_if, if◌then◌else◌,
  byte_length, strip, codes, Result, ok, err, chunking_error, ◌>>=◌, ◌>>◌, raise_if,
}
use veritext.Contracts.Documents.{Document}
use veritext.Contracts.Spans.{Chunk, validate_chunk}
use veritext.Chunker.Config.{
  ChunkingConfig, ChunkBoundaryMode, ChunkKind, ChunkSplitReason, PackedChunk,
}
use veritext.Chunker.Packing.Pack.{is_section, pack_boundary_aware_chunks}
use veritext.Chunker.Windows.{is_empty, stable_chunk_id, chunk_document_windows}

-- The characters at which `str.splitlines` breaks.
is_line_break : ℕ → Bool
is_line_break c =
    (leb 0x0A c && leb c 0x0D)
    || (leb 0x1C c && leb c 0x1E)
    || (c == 0x85)
    || (c == 0x2028)
    || (c == 0x2029)

-- `next(line.strip() for line in text.splitlines() if line.strip())` on the lines of `text`, of
-- which the first begins with the characters of `line`. A break `\r\n` counts twice here, which
-- adds an empty line that is passed over.
content_line : Text → Text → Option Text
unfolding strip is_line_break
content_line [] line = if is_empty (strip line) then none else some (strip line)
content_line (c ∷ text) line =
    let next = content_line text [] in
    let on = content_line text (line ++ (c ∷ [])) in
    if is_line_break c then if is_empty (strip line) then next else some (strip line) else on

pub first_content_line : Text → Option Text
unfolding content_line
first_content_line text = content_line text []

pub prepend_unique_dependency : Text → List Text → List Text
prepend_unique_dependency chunk_id dependencies =
    chunk_id ∷ keep_if (λ dependency. not (list_beq dependency chunk_id)) dependencies

-- A chunk below a section: the path of the section, its chunk as the parent and a dependency.
pub below_section : List Text → Text → Chunk → Chunk
unfolding prepend_unique_dependency
below_section section_path section_chunk_id chunk = record chunk {
  section_path = section_path;
  parent_chunk_id = some section_chunk_id;
  depends_on_chunk_ids = prepend_unique_dependency section_chunk_id chunk.depends_on_chunk_ids;
}

-- A section chunk with its label, and the section that the next chunks belong to.
pub headed : Chunk → Option (Text × Text) → Option Text → Chunk × Option (Text × Text)
headed chunk section none = (chunk, section)
headed chunk section (some label) =
    (record chunk { section_path = label ∷ [] }, some (label, chunk.chunk_id))

pub below : Chunk → Option (Text × Text) → Chunk × Option (Text × Text)
unfolding below_section
below chunk none = (chunk, none)
below chunk (some (label, id)) = (below_section (label ∷ []) id chunk, some (label, id))

-- The body of the loop, on the label and the chunk of the current section.
pub hierarchy_step : Chunk → Option (Text × Text) → Chunk × Option (Text × Text)
unfolding first_content_line headed below
hierarchy_step chunk section =
    if is_section chunk.chunk_kind
    then headed chunk section (first_content_line chunk.text)
    else below chunk section

pub hierarchy_loop : List Chunk → Option (Text × Text) → List Chunk
unfolding hierarchy_step
hierarchy_loop [] section = []
hierarchy_loop (chunk ∷ chunks) section =
    let step = hierarchy_step chunk section in step.0 ∷ hierarchy_loop chunks step.1

unfoldable pub attach_layout_hierarchy : List Chunk → List Chunk
unfolding hierarchy_loop
attach_layout_hierarchy chunks = hierarchy_loop chunks none

module _ (tokenize : Text → List ℕ) (sha256 : Text → Text) (document : Document) where
  abbrev pub tokens_before : ℕ → ℕ
  tokens_before char = length (tokenize (take char document.text))

  pub packed_chunk : ℕ → PackedChunk → Chunk
  unfolding stable_chunk_id
  packed_chunk chunk_index packed =
      let start_byte = byte_length (take packed.start_char document.text) in
      let end_byte = byte_length (take packed.end_char document.text) in
      let start_token = tokens_before packed.start_char in
      let end_token = tokens_before packed.end_char in
      record {
        chunk_id =
            stable_chunk_id sha256 document chunk_index start_byte end_byte start_token end_token;
        doc_id = document.doc_id;
        chunk_index = chunk_index;
        text = slice document.text packed.start_char packed.end_char;
        start_char = packed.start_char;
        end_char = packed.end_char;
        start_byte = start_byte;
        end_byte = end_byte;
        start_token = start_token;
        end_token = end_token;
        chunk_kind = packed.chunk_kind;
        section_path = [];
        layout_span_ids = packed.layout_span_ids;
        table_ids = packed.table_ids;
        page_numbers = packed.page_numbers;
        parent_chunk_id = none;
        depends_on_chunk_ids = [];
        split_reason = packed.split_reason;
      }

  unfoldable pub build_chunk_from_packed : ℕ → PackedChunk → Result Chunk
  unfolding packed_chunk validate_chunk
  build_chunk_from_packed chunk_index packed = do
    raise_if (leb (tokens_before packed.end_char) (tokens_before packed.start_char))
        (chunking_error (codes "Token window did not advance"))
    validate_chunk (packed_chunk chunk_index packed)

  pub build_packed : List PackedChunk → ℕ → Result (List Chunk)
  unfolding build_chunk_from_packed
  build_packed [] chunk_index = ok []
  build_packed (packed ∷ rest) chunk_index = do
    let others = build_packed rest (suc chunk_index)
    chunk ← build_chunk_from_packed chunk_index packed
    chunks ← others
    ok (chunk ∷ chunks)

  unfoldable pub chunk_document_layout_aware : ChunkingConfig → Result (List Chunk)
  unfolding build_packed pack_boundary_aware_chunks attach_layout_hierarchy
  chunk_document_layout_aware config = do
    packed_chunks ← pack_boundary_aware_chunks tokenize config document
    chunks ← build_packed packed_chunks 0
    raise_if (is_empty chunks)
        (chunking_error (codes "Document produced no chunks: " ++ document.doc_id))
    ok (attach_layout_hierarchy chunks)

  -- `encoding` is `tokenize` and `decode`, which `_load_encoding` has found.
  pub chunk_by_mode : (ℕ → Bytes) → ChunkBoundaryMode → ChunkingConfig → Result (List Chunk)
  unfolding chunk_document_layout_aware chunk_document_windows
  chunk_by_mode decode ChunkBoundaryMode.layout_aware config = chunk_document_layout_aware config
  chunk_by_mode decode ChunkBoundaryMode.token_window config =
      chunk_document_windows sha256 decode document config (tokenize document.text)

  unfoldable pub chunk_document_sync : (ℕ → Bytes) → ChunkingConfig → Result (List Chunk)
  unfolding chunk_by_mode
  chunk_document_sync decode config = do
    raise_if (is_empty (tokenize document.text))
        (chunking_error (codes "Document has no tokens: " ++ document.doc_id))
    chunk_by_mode decode config.boundary_mode config
