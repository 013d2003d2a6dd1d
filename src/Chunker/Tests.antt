-- ===== src/Chunker/Tests.antt =====
-- A small document, a tokenizer of one token for each character, and runs of the chunker.
use veritext.Prelude.{
  ℕ, ◌≡◌, refl, Text, Bytes, true, false, none, some, List, [], ◌∷◌, length, take, codes, ok, err,
  arith, ◌↔◌, All, map, list_beq, Returns, Ends, chunking_error, Tiles, slice, byte_length,
}
use veritext.Contracts.Documents.{Document, LayoutRole, TextRange}
use veritext.Contracts.Spans.{Chunk}
use veritext.Chunker.Config.{ChunkingConfig, ChunkBoundaryMode, ChunkBlock, PackedChunk, ChunkKind}
use veritext.Chunker.Boundaries.{
  ChunkBoundarySet, collect_chunk_boundaries, validate_page_map_coverage,
}
use veritext.Chunker.Boundaries.Laws.{TilesChars, TilesBytes, validate_page_map_coverage-Tiles}
use veritext.Chunker.Packing.Blocks.{collect_blocks}
use veritext.Chunker.Packing.Blocks.Tiling.{IsWellFormed}
use veritext.Chunker.Packing.Fit.{ChunkTiles, Fits, FitsSplit, Covers}
use veritext.Chunker.Packing.Splitting.{split_oversized_text_block}
use veritext.Chunker.Packing.Splitting.Sentences.{split_oversized_text_block-Covers}
use veritext.Chunker.Packing.Pack.{pack_boundary_aware_chunks}
use veritext.Chunker.Packing.Pack.Tiling.{pack_boundary_aware_chunks-Cover}
use veritext.Chunker.Packing.Pack.Total.{pack_boundary_aware_chunks-Returns}
use veritext.Chunker.Windows.{chunk_document_windows}
use veritext.Chunker.Windows.Coverage.{Linked, chunk_document_windows-Linked}
use veritext.Chunker.Windows.Termination.{chunk_document_windows-Ends}
use veritext.Chunker.Chunks.{chunk_document_sync}
use veritext.Chunker.Chunks.Coverage.{chunk_document_sync-Linked}

abbrev tokenize : Text → List ℕ
tokenize text = text

abbrev decode : ℕ → Bytes
decode token = token ∷ []

abbrev sha256 : Text → Text
sha256 text = text

abbrev range : ℕ → ℕ → TextRange
range a b = record { start_char = a; end_char = b; start_byte = a; end_byte = b }

-- The only cell of the table.
abbrev cell : veritext.Contracts.Documents.TableCellSpan
cell = record {
  cell_id = codes "c0";
  text_range = range 14 17;
  row_index = 0;
  column_index = 0;
  row_span = 1;
  column_span = 1;
  header_labels = [];
  bounding_box = none;
}

-- A heading, a paragraph of two sentences and a table.
abbrev report : Document
report = record {
  doc_id = codes "d";
  text = codes "Aim\nOne. Two.\n7|8";
  text_sha256 = codes "h";
  source_byte_length = 17;
  text_byte_length = 17;
  source_map = [];
  ocr_confidence_spans = [];
  page_map =
      record { page_number = 1; start_char = 0; end_char = 17; start_byte = 0; end_byte = 17 } ∷ [];
  layout_spans =
      record {
        span_id = codes "s0";
        page_number = 1;
        role = LayoutRole.heading;
        text_range = range 0 4;
        bounding_box = none;
      }
      ∷ record {
        span_id = codes "s1";
        page_number = 1;
        role = LayoutRole.paragraph;
        text_range = range 4 13;
        bounding_box = none;
      }
      ∷ [];
  table_spans =
      record {
        table_id = codes "t0";
        page_number = 1;
        text_range = range 14 17;
        cells = cell ∷ [];
        bounding_box = none;
      }
      ∷ [];
}

abbrev by_layout : ChunkingConfig
by_layout = record {
  window_tokens = 6;
  overlap_tokens = 2;
  boundary_mode = ChunkBoundaryMode.layout_aware;
  allow_oversized_atomic_chunks = true;
}

abbrev by_window : ChunkingConfig
by_window = record by_layout { boundary_mode = ChunkBoundaryMode.token_window }

report-IsWellFormed : IsWellFormed report
report-IsWellFormed = record {
  nonempty = omega arith;
  layout = ((omega arith, omega arith), ((omega arith, omega arith), tt));
  tables = ((omega arith, omega arith), tt);
}

-- The value of a call that returns.
abbrev value {ℓ} : {A : Type ℓ} → A → veritext.Prelude.Result A → A
value a (ok b) = b
value a (err e) = a

abbrev layout_chunks : List Chunk
unfolding chunk_document_sync
layout_chunks = value [] (chunk_document_sync tokenize sha256 report decode by_layout)

abbrev window_chunks : List Chunk
unfolding chunk_document_sync
window_chunks = value [] (chunk_document_sync tokenize sha256 report decode by_window)

abbrev packed : List PackedChunk
unfolding pack_boundary_aware_chunks
packed = value [] (pack_boundary_aware_chunks tokenize by_layout report)

abbrev blocks : List ChunkBlock
unfolding collect_blocks
blocks = value [] (collect_blocks report)

abbrev boundaries : ChunkBoundarySet
unfolding collect_chunk_boundaries
boundaries =
    value (record { boundaries = []; page_numbers = []; layout_span_ids = []; table_ids = [] })
      (collect_chunk_boundaries report)

layout_run : chunk_document_sync tokenize sha256 report decode by_layout ≡ ok layout_chunks
unfolding chunk_document_sync list_beq
layout_run = refl

window_run : chunk_document_sync tokenize sha256 report decode by_window ≡ ok window_chunks
unfolding chunk_document_sync list_beq
window_run = refl

windows_run :
    chunk_document_windows sha256 decode report by_window (tokenize report.text) ≡ ok window_chunks
unfolding chunk_document_sync chunk_document_windows list_beq
windows_run = refl

packed_run : pack_boundary_aware_chunks tokenize by_layout report ≡ ok packed
unfolding pack_boundary_aware_chunks list_beq
packed_run = refl

blocks_run : collect_blocks report ≡ ok blocks
unfolding collect_blocks list_beq
blocks_run = refl

boundaries_run : collect_chunk_boundaries report ≡ ok boundaries
unfolding collect_chunk_boundaries
boundaries_run = refl

layout_texts :
    map (λ c. c.text) layout_chunks
    ≡ codes "Aim\n" ∷ codes "One." ∷ codes " Two.\n" ∷ codes "7|8" ∷ []
unfolding chunk_document_sync list_beq
layout_texts = refl

layout_paths :
    map (λ c. c.section_path) layout_chunks
    ≡ (codes "Aim" ∷ []) ∷ (codes "Aim" ∷ []) ∷ (codes "Aim" ∷ []) ∷ (codes "Aim" ∷ []) ∷ []
unfolding chunk_document_sync list_beq
layout_paths = refl

window_texts :
    map (λ c. c.text) window_chunks
    ≡ codes "Aim\nOn" ∷ codes "One. T" ∷ codes " Two.\n" ∷ codes ".\n7|8" ∷ []
unfolding chunk_document_sync list_beq
window_texts = refl

chunk_document_sync-Linked_example : Linked sha256 report 0 17 layout_chunks
chunk_document_sync-Linked_example =
    chunk_document_sync-Linked tokenize sha256 report decode by_layout report-IsWellFormed
      layout_run

pack_boundary_aware_chunks-Cover_example :
    ChunkTiles 0 17 packed × All (Fits tokenize by_layout report) packed
pack_boundary_aware_chunks-Cover_example =
    pack_boundary_aware_chunks-Cover tokenize by_layout report report-IsWellFormed packed_run

pack_boundary_aware_chunks-Returns_example :
    Returns (pack_boundary_aware_chunks tokenize by_layout report)
pack_boundary_aware_chunks-Returns_example =
    pack_boundary_aware_chunks-Returns tokenize by_layout report refl report-IsWellFormed
      boundaries_run blocks_run

chunk_document_windows-Linked_example : Linked sha256 report 0 17 window_chunks
chunk_document_windows-Linked_example =
    chunk_document_windows-Linked sha256 report decode by_window (tokenize report.text)
      (omega arith) windows_run

chunk_document_windows-Ends_example :
    Ends (chunk_document_windows sha256 decode report by_window (tokenize report.text))
chunk_document_windows-Ends_example =
    chunk_document_windows-Ends sha256 report decode by_window (tokenize report.text)

validate_page_map_coverage-Tiles_example :
    (validate_page_map_coverage report ≡ ok tt)
    ↔ (TilesChars 0 17 report.page_map × TilesBytes 0 17 report.page_map)
validate_page_map_coverage-Tiles_example =
    validate_page_map_coverage-Tiles report ((omega arith, omega arith), tt)

-- The paragraph as a block of its own.
abbrev paragraph : ChunkBlock
paragraph = record {
  start_char = 4;
  end_char = 13;
  kind = ChunkKind.paragraph;
  layout_span_id = none;
  layout_role = none;
  table_id = none;
}

split_oversized_text_block-Covers_example :
    Covers
      (FitsSplit tokenize by_layout report)
      4
      13
      (split_oversized_text_block tokenize by_layout report paragraph)
split_oversized_text_block-Covers_example =
    split_oversized_text_block-Covers tokenize by_layout report paragraph (omega arith)
      (omega arith)
