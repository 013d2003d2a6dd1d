-- ===== src/Contracts/Ingestion/Laws.antt =====
-- What a document that passes its validators is.
use veritext.Prelude.{
  ℕ, ◌≤◌, ◌<◌, ◌≡◌, ◌⊎◌, refl, inl, inr, not, List, [], ◌∷◌, map, length, leb, ◌==◌, nat_eq, arith,
  ok, raise_if, raise_if-eq-ok, check_all, check_all-All, >>=-eq-ok, All, Tiles, byte_length, codes,
}
use veritext.Contracts.Documents.{Document, LayoutSpan, SourceMapSegment, TableSpan, TextRange}
use veritext.Contracts.Ingestion.{
  BoundaryValidationContext, check_layout_span, check_table_span, check_segment, check_last_segment,
  context_of, ensure_text_range_within_context, ensure_page_known, ensure_box_page_known,
  page_map_loop, source_map_loop, validate_boundaries, validate_document, require_unique_ids,
  validate_ingestion_boundaries, validate_ordered_contiguous_source_map, validate_page_numbers,
  validate_text_range,
}
use veritext.Chunker.Packing.Blocks.Tiling.{InText, IsWellFormed}

abbrev pub IsRange : TextRange → Type 0
IsRange r = validate_text_range r ≡ ok tt

ensure_text_range_within_context_lem :
    (context : BoundaryValidationContext) (r : TextRange)
    → IsRange r
    → ensure_text_range_within_context context r ≡ ok tt
    → InText context.text_length r
unfolding ensure_text_range_within_context validate_text_range
ensure_text_range_within_context_lem context r valid inside = ground arith

check_layout_span-InText :
    (context : BoundaryValidationContext) (span : LayoutSpan)
    → IsRange span.text_range
    → check_layout_span context span ≡ ok tt
    → InText context.text_length span.text_range
unfolding check_layout_span
check_layout_span-InText context span valid eq =
    let (a, known, more) =
      >>=-eq-ok (ensure_page_known context.page_numbers span.page_number) _ eq in
    let (b, box, inside) =
      >>=-eq-ok (ensure_box_page_known context.page_numbers span.bounding_box) _ more in
    ensure_text_range_within_context_lem context span.text_range valid inside

check_table_span-InText :
    (context : BoundaryValidationContext) (table : TableSpan)
    → IsRange table.text_range
    → check_table_span context table ≡ ok tt
    → InText context.text_length table.text_range
unfolding check_table_span
check_table_span-InText context table valid eq =
    let (a, known, more) =
      >>=-eq-ok (ensure_page_known context.page_numbers table.page_number) _ eq in
    let (b, box, more') =
      >>=-eq-ok (ensure_box_page_known context.page_numbers table.bounding_box) _ more in
    let (c, inside, cells) =
      >>=-eq-ok (ensure_text_range_within_context context table.text_range) _ more' in
    ensure_text_range_within_context_lem context table.text_range valid inside

-- `All` of two predicates that together imply a third.
All-both :
    {A : Type 0} (P Q R : A → Type 0) (xs : List A)
    → ((x : A) → P x → Q x → R x)
    → All P xs
    → All Q xs
    → All R xs
All-both P Q R [] f h k = tt
All-both P Q R (x ∷ xs) f h k = (f x h.0 k.0, All-both P Q R xs f h.1 k.1)

-- The parts of the validation of a document.
record Checked (d : Document) : Type 0 where
  nonempty : 0 < length d.text
  bytes : d.text_byte_length ≡ byte_length d.text
  pages : page_map_loop d d.page_map 0 0 ≡ ok tt
  boundaries : validate_boundaries d ≡ ok tt
  ingestion : validate_ingestion_boundaries d (context_of d) ≡ ok tt

validate_document-Checked : (d : Document) → validate_document d ≡ ok tt → Checked d
unfolding validate_document
validate_document-Checked d eq =
    let (a, full, more) = >>=-eq-ok (raise_if (leb (length d.text) 0) _) _ eq in
    let (z, paged_at_all, more_fields) =
      >>=-eq-ok (raise_if (leb (length d.page_map) 0) _) _ more in
    let (b, counted, more') =
      >>=-eq-ok (raise_if (not (d.text_byte_length == byte_length d.text)) _) _ more_fields in
    let (c, paged, more'') = >>=-eq-ok (page_map_loop d d.page_map 0 0) _ more' in
    let (e, bounded, more''') = >>=-eq-ok (validate_boundaries d) _ more'' in
    let (f, numbered, ingested) = >>=-eq-ok (validate_page_numbers (context_of d)) _ more''' in
    let nonempty = raise_if-eq-ok (leb (length d.text) 0) _ full in
    let bytes = raise_if-eq-ok (not (d.text_byte_length == byte_length d.text)) _ counted in
    record {
      nonempty = ground arith;
      bytes = ground arith;
      pages = paged;
      boundaries = bounded;
      ingestion = ingested;
    }

-- The loops of `validate_ingestion_boundaries` over layout and tables, and the check of the last
-- segment of the source map.
ingestion_parts :
    (d : Document) (context : BoundaryValidationContext)
    → validate_ingestion_boundaries d context ≡ ok tt
    → (check_last_segment context d.source_map ≡ ok tt)
      × (check_all (check_layout_span context) d.layout_spans ≡ ok tt)
      × (check_all (check_table_span context) d.table_spans ≡ ok tt)
unfolding validate_ingestion_boundaries
ingestion_parts d context eq =
    let (a, segments, more) = >>=-eq-ok (check_all (check_segment context) d.source_map) _ eq in
    let (b, last, more') = >>=-eq-ok (check_last_segment context d.source_map) _ more in
    let (c, layout, more'') =
      >>=-eq-ok (check_all (check_layout_span context) d.layout_spans) _ more' in
    let (e, tables, rest) =
      >>=-eq-ok (check_all (check_table_span context) d.table_spans) _ more'' in
    (last, layout, tables)

-- A document that passes its validators, made of ranges that pass theirs, is well formed: its
-- text is not empty, and its layout and its tables lie within the text. This is what the chunker
-- relies on.
pub validate_document-IsWellFormed :
    (d : Document)
    → All (λ s. IsRange s.text_range) d.layout_spans
    → All (λ t. IsRange t.text_range) d.table_spans
    → validate_document d ≡ ok tt
    → IsWellFormed d
unfolding context_of
validate_document-IsWellFormed d layout tables eq =
    let checked = validate_document-Checked d eq in
    let (last, spans, found) = ingestion_parts d (context_of d) checked.ingestion in
    record {
      nonempty = checked.nonempty;
      layout =
          All-both _ _ (λ s. InText (length d.text) s.text_range) d.layout_spans
            (check_layout_span-InText (context_of d)) layout
            (check_all-All (check_layout_span (context_of d)) d.layout_spans spans);
      tables =
          All-both _ _ (λ t. InText (length d.text) t.text_range) d.table_spans
            (check_table_span-InText (context_of d)) tables
            (check_all-All (check_table_span (context_of d)) d.table_spans found);
    }

abbrev pub SegmentChars : ℕ → ℕ → List SourceMapSegment → Type 0
SegmentChars = Tiles (λ s. s.text_range.start_char) (λ s. s.text_range.end_char)

abbrev pub SegmentBytes : ℕ → ℕ → List SourceMapSegment → Type 0
SegmentBytes = Tiles (λ s. s.text_range.start_byte) (λ s. s.text_range.end_byte)

source_map_loop-cons :
    (s : SourceMapSegment) (segments : List SourceMapSegment) (c b : ℕ)
    → source_map_loop (s ∷ segments) c b ≡ ok tt
    → (s.text_range.start_char ≡ c)
      × (s.text_range.start_byte ≡ b)
      × (source_map_loop segments s.text_range.end_char s.text_range.end_byte ≡ ok tt)
unfolding source_map_loop
source_map_loop-cons s segments c b eq = (ground arith, ground arith, ground arith)

source_map_loop-Tiles :
    (context : BoundaryValidationContext) (s : SourceMapSegment) (segments : List SourceMapSegment)
    (c b : ℕ)
    → All (λ s. IsRange s.text_range) (s ∷ segments)
    → source_map_loop (s ∷ segments) c b ≡ ok tt
    → check_last_segment context (s ∷ segments) ≡ ok tt
    → SegmentChars c context.text_length (s ∷ segments)
      × SegmentBytes b context.text_byte_length (s ∷ segments)
unfolding source_map_loop check_last_segment validate_text_range
source_map_loop-Tiles context s [] c b h eq last =
    ((ground arith, ground arith, ground arith), (ground arith, ground arith, ground arith))
source_map_loop-Tiles context s (t ∷ segments) c b h eq last =
    let (char, byte, rest) = source_map_loop-cons s (t ∷ segments) c b eq in
    let (chars, bytes) =
      source_map_loop-Tiles context t segments s.text_range.end_char s.text_range.end_byte h.1 rest
        last in
    let (wide, long) = range_order s.text_range h.0 in
    ((char, omega (arith, char, wide), chars), (byte, omega (arith, byte, long), bytes))
  where
    range_order :
        (r : TextRange) → IsRange r → (r.start_char ≤ r.end_char) × (r.start_byte ≤ r.end_byte)
    range_order r valid = (ground arith, ground arith)

-- The source map of a document that passes its validators is empty, or its segments tile the
-- text, both in characters and in the bytes of its UTF-8 encoding. The segments are made of
-- ranges that pass theirs.
pub validate_document-source_map :
    (d : Document)
    → All (λ s. IsRange s.text_range) d.source_map
    → validate_document d ≡ ok tt
    → (d.source_map ≡ [])
      ⊎ (SegmentChars 0 (length d.text) d.source_map
          × SegmentBytes 0 (byte_length d.text) d.source_map)
unfolding validate_boundaries validate_ordered_contiguous_source_map context_of
validate_document-source_map d ranges eq =
    let checked = validate_document-Checked d eq in
    let (a, _, more) =
      >>=-eq-ok
        (require_unique_ids (codes "source_map segment_id") (map (λ s. s.segment_id) d.source_map))
        _ checked.boundaries in
    let (b, _, more') =
      >>=-eq-ok (require_unique_ids (codes "layout span_id") (map (λ s. s.span_id) d.layout_spans))
        _ more in
    let (c, _, more'') =
      >>=-eq-ok (require_unique_ids (codes "table_id") (map (λ t. t.table_id) d.table_spans)) _
        more' in
    let (e, _, ordered) =
      >>=-eq-ok
        (require_unique_ids (codes "ocr confidence span_id")
          (map (λ s. s.span_id) d.ocr_confidence_spans))
        _ more'' in
    let (last, _, _) = ingestion_parts d (context_of d) checked.ingestion in
    rw (← checked.bytes) (by_segments d.source_map ranges ordered last)
  where
    by_segments :
        (segments : List SourceMapSegment)
        → All (λ s. IsRange s.text_range) segments
        → source_map_loop segments 0 0 ≡ ok tt
        → check_last_segment (context_of d) segments ≡ ok tt
        → (segments ≡ [])
          ⊎ (SegmentChars 0 (length d.text) segments × SegmentBytes 0 d.text_byte_length segments)
    by_segments [] h e last = inl refl
    by_segments (s ∷ segments) h e last =
        inr (source_map_loop-Tiles (context_of d) s segments 0 0 h e last)
