-- ===== src/Contracts/Ingestion.antt =====
-- The validators of a document and of its boundaries (src/extractor/contracts/documents.py and
-- ingestion.py). A validator that raises nothing gives `ok tt`.
pub mod Laws
use veritext.Prelude.{
  ℕ, Text, Bool, true, false, ◌&&◌, ◌||◌, not, Option, none, some, List, [], ◌∷◌, ◌++◌, map, length,
  ltb, leb, ◌==◌, nat_eq, list_eq, if◌then◌else◌, contains, has_duplicates, byte_length, codes,
  Result, ok, err, Error, validation_error, ◌>>=◌, ◌>>◌, raise_if, check_all,
}
use veritext.Contracts.Documents.{
  BoundingBox, Document, LayoutSpan, OcrConfidenceSpan, PageSpan, SourceMapSegment,
  SourceMapSegmentKind, TableCellSpan, TableSpan, TextRange,
}

-- `PageSpan.validate_offsets`
unfoldable pub validate_page_span : PageSpan → Result (Unit {0})
validate_page_span page = do
  raise_if (ltb page.end_char page.start_char)
      (validation_error (codes "end_char must be greater than or equal to start_char"))
  raise_if (ltb page.end_byte page.start_byte)
      (validation_error (codes "end_byte must be greater than or equal to start_byte"))

-- `TextRange.validate_offsets`
unfoldable pub validate_text_range : TextRange → Result (Unit {0})
validate_text_range r = do
  raise_if (leb r.end_char r.start_char)
      (validation_error (codes "end_char must be greater than start_char"))
  raise_if (leb r.end_byte r.start_byte)
      (validation_error (codes "end_byte must be greater than start_byte"))

abbrev is_none {ℓ} : {A : Type ℓ} → Option A → Bool
is_none none = true
is_none (some a) = false

-- Two offsets of which neither may be missing, and the second must be greater.
source_offsets : Option ℕ → Option ℕ → Text → Text → Result (Unit {0})
source_offsets (some start) (some stop) missing order =
    raise_if (leb stop start) (validation_error order)
source_offsets _ _ missing order = err (validation_error missing)

is_source : SourceMapSegmentKind → Bool
is_source SourceMapSegmentKind.source = true
is_source _ = false

-- `SourceMapSegment.validate_source_mapping`
unfoldable pub validate_source_mapping : SourceMapSegment → Result (Unit {0})
unfolding source_offsets is_source
validate_source_mapping segment =
    let has_source_bytes =
      not (is_none segment.source_start_byte) || not (is_none segment.source_end_byte) in
    let has_source_chars =
      not (is_none segment.source_start_char) || not (is_none segment.source_end_char) in
    let chars : Result (Unit {0}) =
      source_offsets segment.source_start_char segment.source_end_char
        (codes "source character offsets must be provided together")
        (codes "source_end_char must be greater than source_start_char") in
    let source : Result (Unit {0}) = do
      source_offsets segment.source_start_byte segment.source_end_byte
          (codes "source segments must include source byte offsets")
          (codes "source_end_byte must be greater than source_start_byte")
      if has_source_chars then chars else ok tt
    in if is_source segment.kind
      then source
      else raise_if (has_source_bytes || has_source_chars) (
          validation_error (codes "generated or unmapped segments must not include source offsets"))

-- `box is not None and box.page_number != page_number`
box_elsewhere : Option BoundingBox → ℕ → Bool
box_elsewhere none page_number = false
box_elsewhere (some box) page_number = not (box.page_number == page_number)

-- `LayoutSpan.validate_box_page`
unfoldable pub validate_box_page : LayoutSpan → Result (Unit {0})
unfolding box_elsewhere
validate_box_page span =
    raise_if (box_elsewhere span.bounding_box span.page_number)
      (validation_error (codes "bounding_box page_number must match layout span page_number"))

-- The body of the loop of `TableSpan.validate_table`.
validate_cell : TableSpan → TableCellSpan → Result (Unit {0})
unfolding box_elsewhere
validate_cell table cell = do
  raise_if (ltb cell.text_range.start_char table.text_range.start_char)
      (validation_error (codes "table cell text range must be within table text range"))
  raise_if (ltb table.text_range.end_char cell.text_range.end_char)
      (validation_error (codes "table cell text range must be within table text range"))
  raise_if (ltb cell.text_range.start_byte table.text_range.start_byte)
      (validation_error (codes "table cell byte range must be within table byte range"))
  raise_if (ltb table.text_range.end_byte cell.text_range.end_byte)
      (validation_error (codes "table cell byte range must be within table byte range"))
  raise_if (box_elsewhere cell.bounding_box table.page_number)
      (validation_error (codes "table cell bounding_box page_number must match table page_number"))

-- `TableSpan.validate_table`
unfoldable pub validate_table : TableSpan → Result (Unit {0})
unfolding box_elsewhere validate_cell has_duplicates check_all
validate_table table = do
  raise_if (has_duplicates (map (λ c. c.cell_id) table.cells))
      (validation_error (codes "table cell ids must be unique"))
  raise_if (box_elsewhere table.bounding_box table.page_number)
      (validation_error (codes "bounding_box page_number must match table page_number"))
  check_all (validate_cell table) table.cells

require_unique_ids : Text → List Text → Result (Unit {0})
unfolding has_duplicates
require_unique_ids label ids =
    raise_if (has_duplicates ids) (validation_error (label ++ codes " values must be unique"))

-- The loop of `_validate_ordered_contiguous_source_map` from the ends of the last segment.
source_map_loop : List SourceMapSegment → ℕ → ℕ → Result (Unit {0})
source_map_loop [] previous_char_end previous_byte_end = ok tt
source_map_loop (segment ∷ segments) previous_char_end previous_byte_end = do
  let r = segment.text_range
  let rest = source_map_loop segments r.end_char r.end_byte
  raise_if (ltb r.start_char previous_char_end)
      (validation_error (codes "source_map text ranges must be ordered and non-overlapping"))
  raise_if (ltb r.start_byte previous_byte_end)
      (validation_error (codes "source_map byte ranges must be ordered and non-overlapping"))
  raise_if (ltb previous_char_end r.start_char)
      (validation_error (codes "source_map text ranges must be contiguous"))
  raise_if (ltb previous_byte_end r.start_byte)
      (validation_error (codes "source_map byte ranges must be contiguous"))
  rest

unfoldable pub validate_ordered_contiguous_source_map : List SourceMapSegment → Result (Unit {0})
unfolding source_map_loop
validate_ordered_contiguous_source_map segments = source_map_loop segments 0 0

-- `IngestionBoundarySet.validate_boundaries`, on the fields that a document passes on.
unfoldable pub validate_boundaries : Document → Result (Unit {0})
unfolding require_unique_ids validate_ordered_contiguous_source_map
validate_boundaries d = do
  require_unique_ids (codes "source_map segment_id") (map (λ s. s.segment_id) d.source_map)
  require_unique_ids (codes "layout span_id") (map (λ s. s.span_id) d.layout_spans)
  require_unique_ids (codes "table_id") (map (λ t. t.table_id) d.table_spans)
  require_unique_ids (codes "ocr confidence span_id") (map (λ s. s.span_id) d.ocr_confidence_spans)
  validate_ordered_contiguous_source_map d.source_map

pub record BoundaryValidationContext : Type 0 where
  pub text_length : ℕ
  pub text_byte_length : ℕ
  pub source_byte_length : ℕ
  pub page_numbers : List ℕ

-- `BoundaryValidationContext.validate_page_numbers`
unfoldable pub validate_page_numbers : BoundaryValidationContext → Result (Unit {0})
unfolding has_duplicates
validate_page_numbers context =
    raise_if (has_duplicates context.page_numbers)
      (validation_error (codes "page_numbers must be unique"))

ensure_text_range_within_context : BoundaryValidationContext → TextRange → Result (Unit {0})
ensure_text_range_within_context context r = do
  raise_if (ltb context.text_length r.end_char)
      (validation_error (codes "text range exceeds document text length"))
  raise_if (ltb context.text_byte_length r.end_byte)
      (validation_error (codes "text range exceeds document text byte length"))

ensure_page_known : List ℕ → ℕ → Result (Unit {0})
unfolding contains
ensure_page_known page_numbers page_number =
    raise_if (not (contains page_numbers page_number))
      (validation_error (codes "unknown page number in ingestion boundary"))

ensure_box_page_known : List ℕ → Option BoundingBox → Result (Unit {0})
unfolding ensure_page_known
ensure_box_page_known page_numbers none = ok tt
ensure_box_page_known page_numbers (some box) = ensure_page_known page_numbers box.page_number

-- `segment.source_end_byte > context.source_byte_length`; the offset of a source segment is there.
exceeds_source : Option ℕ → ℕ → Bool
exceeds_source none n = false
exceeds_source (some stop) n = ltb n stop

check_segment : BoundaryValidationContext → SourceMapSegment → Result (Unit {0})
unfolding ensure_text_range_within_context exceeds_source is_source
check_segment context segment = do
  raise_if
      (is_source segment.kind && exceeds_source segment.source_end_byte context.source_byte_length)
      (validation_error (codes "source byte range exceeds document source byte length"))
  ensure_text_range_within_context context segment.text_range

-- `boundaries.source_map[-1]` against the lengths of the text, where there is one.
check_last_segment : BoundaryValidationContext → List SourceMapSegment → Result (Unit {0})
check_last_segment context [] = ok tt
check_last_segment context (segment ∷ []) = do
  raise_if (not (segment.text_range.end_char == context.text_length))
      (validation_error (codes "source_map text ranges must cover document text"))
  raise_if (not (segment.text_range.end_byte == context.text_byte_length))
      (validation_error (codes "source_map byte ranges must cover document text bytes"))
check_last_segment context (segment ∷ next ∷ segments) =
    check_last_segment context (next ∷ segments)

check_layout_span : BoundaryValidationContext → LayoutSpan → Result (Unit {0})
unfolding ensure_page_known ensure_box_page_known ensure_text_range_within_context
check_layout_span context span = do
  ensure_page_known context.page_numbers span.page_number
  ensure_box_page_known context.page_numbers span.bounding_box
  ensure_text_range_within_context context span.text_range

check_cell : BoundaryValidationContext → TableCellSpan → Result (Unit {0})
unfolding ensure_box_page_known ensure_text_range_within_context
check_cell context cell = do
  ensure_box_page_known context.page_numbers cell.bounding_box
  ensure_text_range_within_context context cell.text_range

check_table_span : BoundaryValidationContext → TableSpan → Result (Unit {0})
unfolding check_cell ensure_page_known ensure_box_page_known ensure_text_range_within_context
    check_all
check_table_span context table = do
  ensure_page_known context.page_numbers table.page_number
  ensure_box_page_known context.page_numbers table.bounding_box
  ensure_text_range_within_context context table.text_range
  check_all (check_cell context) table.cells

unfoldable pub validate_ingestion_boundaries :
    Document → BoundaryValidationContext → Result (Unit {0})
unfolding check_segment check_last_segment check_layout_span check_table_span check_all
validate_ingestion_boundaries d context = do
  check_all (check_segment context) d.source_map
  check_last_segment context d.source_map
  check_all (check_layout_span context) d.layout_spans
  check_all (check_table_span context) d.table_spans
  check_all (λ s. ensure_text_range_within_context context s.text_range) d.ocr_confidence_spans

-- The loop over the page map from the ends of the last page.
page_map_loop : Document → List PageSpan → ℕ → ℕ → Result (Unit {0})
page_map_loop d [] previous_char_end previous_byte_end = ok tt
page_map_loop d (page ∷ pages) previous_char_end previous_byte_end = do
  let rest = page_map_loop d pages page.end_char page.end_byte
  raise_if (ltb (length d.text) page.end_char)
      (validation_error (codes "page_map entry exceeds document text length"))
  raise_if (ltb d.text_byte_length page.end_byte)
      (validation_error (codes "page_map entry exceeds document text byte length"))
  raise_if (ltb page.start_char previous_char_end)
      (validation_error (codes "page_map character entries must be ordered and non-overlapping"))
  raise_if (ltb page.start_byte previous_byte_end)
      (validation_error (codes "page_map byte entries must be ordered and non-overlapping"))
  rest

context_of : Document → BoundaryValidationContext
context_of d = record {
  text_length = length d.text;
  text_byte_length = d.text_byte_length;
  source_byte_length = d.source_byte_length;
  page_numbers = map (λ p. p.page_number) d.page_map;
}

-- `Document.reject_empty_text` and the least length of `page_map`, then `Document.validate_page_map_and_boundaries`
unfoldable pub validate_document : Document → Result (Unit {0})
unfolding page_map_loop context_of validate_boundaries validate_page_numbers
    validate_ingestion_boundaries
validate_document d = do
  raise_if (leb (length d.text) 0) (validation_error (codes "text must not be empty"))
  raise_if (leb (length d.page_map) 0)
      (validation_error (codes "Tuple should have at least 1 item after validation, not 0"))
  raise_if (not (d.text_byte_length == byte_length d.text))
      (validation_error (codes "text_byte_length must match UTF-8 encoded text length"))
  page_map_loop d d.page_map 0 0
  validate_boundaries d
  validate_page_numbers (context_of d)
  validate_ingestion_boundaries d (context_of d)
