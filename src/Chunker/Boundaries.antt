-- ===== src/Chunker/Boundaries.antt =====
-- The boundaries of a document, and the checks on its page map (extractor/chunker/boundaries.py).
pub mod Laws
pub mod Collected
use veritext.Prelude.{
  ℕ, Text, Bool, true, false, ◌&&◌, ◌||◌, not, Option, none, some, List, [], ◌∷◌, ◌++◌, map, length,
  ltb, ◌==◌, nat_eq, if◌then◌else◌, sorted_by, text_le, decimal, codes, Result, ok, err, Error,
  chunking_error, key_error, ◌>>=◌, ◌>>◌, raise_if, or_raise,
}
use veritext.Contracts.Documents.{Document, LayoutRole, LayoutSpan, PageSpan, TableSpan, TextRange}

pub data ChunkBoundaryKind : Type 0 where
  document_start document_end page_start page_end : ChunkBoundaryKind
  layout_start layout_end table_start table_end : ChunkBoundaryKind

pub record ChunkBoundary : Type 0 where
  pub boundary_id : Text
  pub kind : ChunkBoundaryKind
  pub char_offset : ℕ
  pub byte_offset : ℕ
  pub priority : ℕ
  pub page_number : Option ℕ
  pub layout_span_id : Option Text
  pub layout_role : Option LayoutRole
  pub table_id : Option Text

pub record ChunkBoundarySet : Type 0 where
  pub boundaries : List ChunkBoundary
  pub page_numbers : List ℕ
  pub layout_span_ids : List Text
  pub table_ids : List Text

-- `_BOUNDARY_PRIORITIES`
boundary_priority : ChunkBoundaryKind → ℕ
boundary_priority ChunkBoundaryKind.document_start = 0
boundary_priority ChunkBoundaryKind.document_end = 0
boundary_priority ChunkBoundaryKind.page_start = 10
boundary_priority ChunkBoundaryKind.page_end = 10
boundary_priority ChunkBoundaryKind.layout_start = 20
boundary_priority ChunkBoundaryKind.layout_end = 20
boundary_priority ChunkBoundaryKind.table_start = 30
boundary_priority ChunkBoundaryKind.table_end = 30

-- A page map entry by its number: of equal numbers the last entry counts, as in a dict.
unfoldable pub page_by_number : List PageSpan → ℕ → Option PageSpan
page_by_number [] n = none
page_by_number (page ∷ pages) n = elim (page_by_number pages n) [
  | some later ↦ some later
  | none ↦ if page.page_number == n then some page else none
]

coverage_error : Error
coverage_error = chunking_error (codes "page_map must cover document text contiguously")

-- The loop of `_validate_page_map_coverage`: the ends of the last page.
coverage_loop : List PageSpan → ℕ → ℕ → Result (ℕ × ℕ)
coverage_loop [] previous_char_end previous_byte_end = ok (previous_char_end, previous_byte_end)
coverage_loop (page ∷ pages) previous_char_end previous_byte_end =
    let rest = coverage_loop pages page.end_char page.end_byte in
    if not (page.start_char == previous_char_end) || not (page.start_byte == previous_byte_end)
    then err coverage_error
    else rest

-- `_validate_page_map_coverage`; the dict that it returns is `page_by_number` of the page map.
unfoldable pub validate_page_map_coverage : Document → Result (Unit {0})
unfolding coverage_loop coverage_error
validate_page_map_coverage document = do
  ends ← coverage_loop document.page_map 0 0
  raise_if (not (ends.0 == length document.text) || not (ends.1 == document.text_byte_length))
      coverage_error

ensure_range_within_page : Text → TextRange → PageSpan → Result (Unit {0})
ensure_range_within_page label r page =
    raise_if
      (ltb r.start_char page.start_char
        || ltb page.end_char r.end_char
        || ltb r.start_byte page.start_byte
        || ltb page.end_byte r.end_byte)
      (chunking_error (label ++ (codes " must be within page " ++ decimal page.page_number)))

document_boundary : Text → ChunkBoundaryKind → ℕ → ℕ → ChunkBoundary
unfolding boundary_priority
document_boundary boundary_id kind char_offset byte_offset = record {
  boundary_id = boundary_id;
  kind = kind;
  char_offset = char_offset;
  byte_offset = byte_offset;
  priority = boundary_priority kind;
  page_number = none;
  layout_span_id = none;
  layout_role = none;
  table_id = none;
}

page_boundary : PageSpan → Text → ChunkBoundaryKind → ℕ → ℕ → ChunkBoundary
unfolding document_boundary
page_boundary page side kind char_offset byte_offset =
    let id = codes "page:" ++ (decimal page.page_number ++ side) in
    record (document_boundary id kind char_offset byte_offset) {
      page_number = some page.page_number;
    }

page_boundaries : List PageSpan → List ChunkBoundary
unfolding page_boundary
page_boundaries [] = []
page_boundaries (page ∷ pages) =
    page_boundary page (codes ":start") ChunkBoundaryKind.page_start page.start_char page.start_byte
    ∷ page_boundary page (codes ":end") ChunkBoundaryKind.page_end page.end_char page.end_byte
    ∷ page_boundaries pages

layout_boundary : LayoutSpan → Text → ChunkBoundaryKind → ℕ → ℕ → ChunkBoundary
unfolding document_boundary
layout_boundary span side kind char_offset byte_offset =
    let id = codes "layout:" ++ (span.span_id ++ side) in
    record (document_boundary id kind char_offset byte_offset) {
      page_number = some span.page_number;
      layout_span_id = some span.span_id;
      layout_role = some span.role;
    }

-- The loop over the layout spans, each of which must lie within its page.
layout_boundaries : List PageSpan → List LayoutSpan → Result (List ChunkBoundary)
unfolding ensure_range_within_page layout_boundary page_by_number
layout_boundaries pages [] = ok []
layout_boundaries pages (span ∷ spans) = do
  let rest = layout_boundaries pages spans
  let r = span.text_range
  page ← or_raise (page_by_number pages span.page_number) key_error
  ensure_range_within_page (codes "layout span " ++ span.span_id) r page
  boundaries ← rest
  ok (
      layout_boundary span (codes ":start") ChunkBoundaryKind.layout_start r.start_char r.start_byte
      ∷ layout_boundary span (codes ":end") ChunkBoundaryKind.layout_end r.end_char r.end_byte
      ∷ boundaries)

table_boundary : TableSpan → Text → ChunkBoundaryKind → ℕ → ℕ → ChunkBoundary
unfolding document_boundary
table_boundary table side kind char_offset byte_offset =
    let id = codes "table:" ++ (table.table_id ++ side) in
    record (document_boundary id kind char_offset byte_offset) {
      page_number = some table.page_number;
      table_id = some table.table_id;
    }

table_boundaries : List PageSpan → List TableSpan → Result (List ChunkBoundary)
unfolding ensure_range_within_page table_boundary page_by_number
table_boundaries pages [] = ok []
table_boundaries pages (table ∷ tables) = do
  let rest = table_boundaries pages tables
  let r = table.text_range
  page ← or_raise (page_by_number pages table.page_number) key_error
  ensure_range_within_page (codes "table span " ++ table.table_id) r page
  boundaries ← rest
  ok (
      table_boundary table (codes ":start") ChunkBoundaryKind.table_start r.start_char r.start_byte
      ∷ table_boundary table (codes ":end") ChunkBoundaryKind.table_end r.end_char r.end_byte
      ∷ boundaries)

-- `(char_offset, byte_offset, priority, boundary_id)`, compared as tuples.
pub boundary_le : ChunkBoundary → ChunkBoundary → Bool
boundary_le a b =
    ltb a.char_offset b.char_offset
    || (a.char_offset == b.char_offset
        && (ltb a.byte_offset b.byte_offset
            || (a.byte_offset == b.byte_offset
                && (ltb a.priority b.priority
                    || (a.priority == b.priority && text_le a.boundary_id b.boundary_id)))))

unfoldable pub collect_chunk_boundaries : Document → Result ChunkBoundarySet
unfolding validate_page_map_coverage page_boundaries layout_boundaries table_boundaries boundary_le
collect_chunk_boundaries document = do
  validate_page_map_coverage document
  layouts ← layout_boundaries document.page_map document.layout_spans
  tables ← table_boundaries document.page_map document.table_spans
  let start = document_boundary (codes "document:start") ChunkBoundaryKind.document_start 0 0
  let end =
      document_boundary (codes "document:end") ChunkBoundaryKind.document_end (length document.text)
        document.text_byte_length
  ok (record {
    boundaries =
        sorted_by boundary_le
          (start ∷ end ∷ (page_boundaries document.page_map ++ (layouts ++ tables)));
    page_numbers = map (λ p. p.page_number) document.page_map;
    layout_span_ids = map (λ s. s.span_id) document.layout_spans;
    table_ids = map (λ t. t.table_id) document.table_spans;
  })
