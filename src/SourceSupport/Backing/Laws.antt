-- ===== src/SourceSupport/Backing/Laws.antt =====
-- What a span has that the source of its document backs.
use veritext.Prelude.{
  has_items, has_items-false, ℕ, ◌≤◌, ◌<◌, ◌≡◌, refl, inl, inr, ◌⊎◌, ◌↔◌, Bool, true, false, ◌&&◌,
  ◌||◌, not, List, [], ◌∷◌, slice, leb, ltb, min, arith, Bool-cases, list_beq_iff, ltb→lt, nat_eq,
  ltb_false→le, encode, if◌then◌else◌, ◌==◌, ok, ◌>>◌, codes, raise_if, >>=-eq-ok, raise_if-eq-ok,
  validation_error,
}
use veritext.Contracts.Documents.{Document, SourceMapSegment, SourceMapSegmentKind, TextRange}
use veritext.Contracts.Spans.{SourceSpan}
use veritext.SourceSupport.Backing.{
  cover_loop, is_source, require_source_backed_span, source_map_covers_span_with_source_segments,
  source_span_is_source_backed, source_span_matches_document,
}

-- The place is in a segment that was copied from the source, by the given ends of ranges.
abbrev pub InSource : (TextRange → ℕ) → (TextRange → ℕ) → List SourceMapSegment → ℕ → Type 0
InSource first last [] place = ⊥
InSource first last (segment ∷ segments) place =
    ((segment.kind ≡ SourceMapSegmentKind.source)
      × (first segment.text_range ≤ place)
      × (place < last segment.text_range))
    ⊎ InSource first last segments place

is_source-eq :
    (kind : SourceMapSegmentKind) → is_source kind ≡ true → kind ≡ SourceMapSegmentKind.source
is_source-eq SourceMapSegmentKind.source e = refl
is_source-eq SourceMapSegmentKind.generated e = cc
is_source-eq SourceMapSegmentKind.unmapped e = cc

round_cases :
    (skip gap source last skipped rest : Bool)
    → (if skip
        then skipped
        else if gap
        then false
        else if not source
        then false
        else if last
        then true
        else rest)
      ≡ true
    → (skipped ≡ true) ⊎ ((gap ≡ false) × (source ≡ true) × ((last ≡ true) ⊎ (rest ≡ true)))
round_cases true gap source last skipped rest e = inl e
round_cases false true source last skipped rest e = cc
round_cases false false false last skipped rest e = cc
round_cases false false true true skipped rest e = inr (refl, refl, inl refl)
round_cases false false true false skipped rest e = inr (refl, refl, inr e)

-- The places of a span that are in segments from the source.
abbrev AllInSource : SourceSpan → List SourceMapSegment → ℕ → ℕ → Type 0
AllInSource span segments char byte =
    ((place : ℕ)
      → char ≤ place
      → place < span.end_char
      → InSource (λ r. r.start_char) (λ r. r.end_char) segments place)
    × ((place : ℕ)
        → byte ≤ place
        → place < span.end_byte
        → InSource (λ r. r.start_byte) (λ r. r.end_byte) segments place)

-- A place is before the end of the segment, or after where the segment leads.
in_segment :
    (first last : TextRange → ℕ) (segment : SourceMapSegment) (segments : List SourceMapSegment)
    (end_place place : ℕ)
    → segment.kind ≡ SourceMapSegmentKind.source
    → first segment.text_range ≤ place
    → (min (last segment.text_range) end_place ≤ place → InSource first last segments place)
    → place < end_place
    → InSource first last (segment ∷ segments) place
in_segment first last segment segments end_place place kind start later within =
    elim (Bool-cases (ltb place (last segment.text_range))) [
      | inl e ↦ inl (kind, start, ltb→lt place (last segment.text_range) e)
      | inr e ↦ inr (later (omega (arith, ltb_false→le place (last segment.text_range) e)))
    ]

cover_loop-AllInSource :
    (span : SourceSpan) (segments : List SourceMapSegment) (char byte : ℕ)
    → cover_loop span segments char byte ≡ true
    → AllInSource span segments char byte
unfolding cover_loop
cover_loop-AllInSource span [] char byte e = cc
cover_loop-AllInSource span (segment ∷ segments) char byte e =
    let range = segment.text_range in
    let next_char = min range.end_char span.end_char in
    let next_byte = min range.end_byte span.end_byte in
    let cases =
      round_cases (leb range.end_char char && leb range.end_byte byte)
        (ltb char range.start_char || ltb byte range.start_byte) (is_source segment.kind)
        (next_char == span.end_char && next_byte == span.end_byte)
        (cover_loop span segments char byte) (cover_loop span segments next_char next_byte) e in
    elim cases [
      | inl skipped ↦
          let rest = cover_loop-AllInSource span segments char byte skipped in
          (λ place h k. inr (rest.0 place h k), λ place h k. inr (rest.1 place h k))
      | inr (joint, source, after) ↦
          let kind = is_source-eq segment.kind source in
          let starts : (range.start_char ≤ char) × (range.start_byte ≤ byte) = ground arith in
          let next : (next_char ≡ span.end_char × next_byte ≡ span.end_byte)
              ⊎ AllInSource span segments next_char next_byte =
            elim after [
              | inl done ↦ inl (ground arith)
              | inr rest ↦ inr (cover_loop-AllInSource span segments next_char next_byte rest)
            ] in
          (
            λ place h k.
                in_segment (λ r. r.start_char) (λ r. r.end_char) segment segments span.end_char
                  place kind (omega (arith, starts.0, h))
                  (λ far. elim next [
                    | inl done ↦ absurd (omega (arith, done.0, far, k))
                    | inr rest ↦ rest.0 place far k
                  ])
                  k,
            λ place h k.
                in_segment (λ r. r.start_byte) (λ r. r.end_byte) segment segments span.end_byte
                  place kind (omega (arith, starts.1, h))
                  (λ far. elim next [
                    | inl done ↦ absurd (omega (arith, done.1, far, k))
                    | inr rest ↦ rest.1 place far k
                  ])
                  k,
          )
    ]

-- A span that stands in the text of its document and that the source backs.
pub record Backed (document : Document) (span : SourceSpan) : Type 0 where
  pub doc_id : span.doc_id ≡ document.doc_id
  pub chars : slice document.text span.start_char span.end_char ≡ span.text
  pub bytes : slice (encode document.text) span.start_byte span.end_byte ≡ encode span.text
  pub sources :
      (document.source_map ≡ [])
      ⊎ AllInSource span document.source_map span.start_char span.start_byte

-- A span that `require_source_backed_span` accepts names its document, its text and the UTF-8
-- bytes of its text are the slices of the document's text and bytes at its offsets, and every
-- character and every byte of it is in a segment of the source map that was copied from the
-- source, unless the document has no source map.
pub require_source_backed_span-Backed :
    (document : Document) (span : SourceSpan)
    → require_source_backed_span document span ≡ ok tt
    → Backed document span
unfolding require_source_backed_span source_span_matches_document
    source_map_covers_span_with_source_segments
require_source_backed_span-Backed document span e =
    let (done, matched, rest) =
      >>=-eq-ok (raise_if (not (source_span_matches_document document span)) _) _ e in
    let matches = raise_if-eq-ok (not (source_span_matches_document document span)) _ matched in
    let covered =
      raise_if-eq-ok
        (has_items document.source_map
          && not (source_map_covers_span_with_source_segments document span))
        _ rest in
    let name = list_beq_iff span.doc_id document.doc_id in
    let chars = list_beq_iff (slice document.text span.start_char span.end_char) span.text in
    let bytes =
      list_beq_iff (slice (encode document.text) span.start_byte span.end_byte)
        (encode span.text) in
    record {
      doc_id = name.0 (ground arith);
      chars = chars.0 (ground arith);
      bytes = bytes.0 (ground arith);
      sources = elim (Bool-cases (has_items document.source_map)) [
        | inl some_map ↦ inr (
            cover_loop-AllInSource span document.source_map span.start_char span.start_byte
              (ground arith))
        | inr no_map ↦ inl (has_items-false document.source_map no_map)
      ];
    }

-- The test and the check of a span agree: the one is true exactly when the other does not raise.
pub source_span_is_source_backed_iff :
    (document : Document) (span : SourceSpan)
    → (source_span_is_source_backed document span ≡ true)
      ↔ (require_source_backed_span document span ≡ ok tt)
unfolding source_span_is_source_backed require_source_backed_span
source_span_is_source_backed_iff document span =
    cases (source_span_matches_document document span) (has_items document.source_map)
      (source_map_covers_span_with_source_segments document span)
  where
    cases :
        (matches mapped covered : Bool)
        → ((if not matches then false else if not mapped then true else covered) ≡ true) ↔ (
            (raise_if
                (not matches)
                (validation_error (codes "source span does not match document text and offsets"))
              >> raise_if
                  (mapped && not covered)
                  (validation_error (codes "source span overlaps generated or unmapped text")))
            ≡ ok tt)
    cases false mapped covered = (λ e. cc, λ e. cc)
    cases true false covered = (λ e. refl, λ e. refl)
    cases true true false = (λ e. cc, λ e. cc)
    cases true true true = (λ e. refl, λ e. refl)
