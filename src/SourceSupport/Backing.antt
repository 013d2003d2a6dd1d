-- ===== src/SourceSupport/Backing.antt =====
-- Spans that the source of a document backs (src/extractor/source_support.py).
pub mod Laws
use veritext.Prelude.{
  has_items, ℕ, Text, Bool, true, false, ◌&&◌, ◌||◌, not, List, [], ◌∷◌, length, slice, ltb, leb,
  min, ◌==◌, nat_eq, list_eq, list_beq, encode, codes, if◌then◌else◌, Result, ok, err,
  validation_error, ◌>>=◌, ◌>>◌, raise_if,
}
use veritext.Contracts.Documents.{Document, SourceMapSegment, SourceMapSegmentKind, TextRange}
use veritext.Contracts.Spans.{SourceSpan}
use veritext.Contracts.Candidates.{LensCandidate}

unfoldable pub source_span_matches_document : Document → SourceSpan → Bool
unfolding list_beq
source_span_matches_document document span =
    let bytes =
      list_beq (slice (encode document.text) span.start_byte span.end_byte) (encode span.text) in
    if not (list_beq span.doc_id document.doc_id)
    then false
    else if ltb (length document.text) span.end_char
    then false
    else if ltb document.text_byte_length span.end_byte
    then false
    else if not (list_beq (slice document.text span.start_char span.end_char) span.text)
    then false
    else bytes

abbrev pub is_source : SourceMapSegmentKind → Bool
is_source SourceMapSegmentKind.source = true
is_source _ = false

-- The loop over the source map, from the place that is reached.
unfoldable pub cover_loop : SourceSpan → List SourceMapSegment → ℕ → ℕ → Bool
cover_loop span [] current_char current_byte = false
cover_loop span (segment ∷ segments) current_char current_byte =
    let range = segment.text_range in
    let next_char = min range.end_char span.end_char in
    let next_byte = min range.end_byte span.end_byte in
    let skipped = cover_loop span segments current_char current_byte in
    let rest = cover_loop span segments next_char next_byte in
    if leb range.end_char current_char && leb range.end_byte current_byte
    then skipped
    else if ltb current_char range.start_char || ltb current_byte range.start_byte
    then false
    else if not (is_source segment.kind)
    then false
    else if next_char == span.end_char && next_byte == span.end_byte
    then true
    else rest

unfoldable pub source_map_covers_span_with_source_segments : Document → SourceSpan → Bool
unfolding cover_loop
source_map_covers_span_with_source_segments document span =
    cover_loop span document.source_map span.start_char span.start_byte

unfoldable pub source_span_is_source_backed : Document → SourceSpan → Bool
unfolding source_span_matches_document source_map_covers_span_with_source_segments
source_span_is_source_backed document span =
    let covered = source_map_covers_span_with_source_segments document span in
    if not (source_span_matches_document document span)
    then false
    else if not (has_items document.source_map)
    then true
    else covered

unfoldable pub require_source_backed_span : Document → SourceSpan → Result (Unit {0})
unfolding source_span_matches_document source_map_covers_span_with_source_segments
require_source_backed_span document span = do
  raise_if (not (source_span_matches_document document span))
      (validation_error (codes "source span does not match document text and offsets"))
  raise_if
      (has_items document.source_map
        && not (source_map_covers_span_with_source_segments document span))
      (validation_error (codes "source span overlaps generated or unmapped text"))

unfoldable pub correction_expands_source_span : LensCandidate → LensCandidate → Bool
correction_expands_source_span original corrected =
    ltb corrected.source_span.start_char original.source_span.start_char
    || ltb original.source_span.end_char corrected.source_span.end_char
    || ltb corrected.source_span.start_byte original.source_span.start_byte
    || ltb original.source_span.end_byte corrected.source_span.end_byte
