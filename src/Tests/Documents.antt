-- ===== src/Tests/Documents.antt =====
-- Runs on the document and its chunk.
use veritext.Prelude.{◌≡◌, ◌⊎◌, refl, true, [], slice, encode, ok, arith, contains}
use veritext.Contracts.Spans.Laws.{IsChunk, IsSpan}
use veritext.Contracts.Ingestion.{validate_document, validate_text_range}
use veritext.Contracts.Ingestion.Laws.{
  SegmentBytes, SegmentChars, validate_document-IsWellFormed, validate_document-source_map,
}
use veritext.Chunker.Packing.Blocks.Tiling.{IsWellFormed}
use veritext.Chunker.Windows.Coverage.{IsSlice}
use veritext.Executor.Policies.{span_matches_chunk}
use veritext.Executor.Policies.Provenance.{span_matches_chunk-document}
use veritext.Tests.Data.{range, letter, page, amount_span}

letter_valid : validate_document letter ≡ ok tt
unfolding validate_document contains encode
letter_valid = refl

word_valid : validate_text_range (range 0 4) ≡ ok tt
unfolding validate_text_range
word_valid = refl

table_valid : validate_text_range (range 5 8) ≡ ok tt
unfolding validate_text_range
table_valid = refl

whole_valid : validate_text_range (range 0 8) ≡ ok tt
unfolding validate_text_range
whole_valid = refl

validate_document-IsWellFormed_example : IsWellFormed letter
validate_document-IsWellFormed_example =
    validate_document-IsWellFormed letter (word_valid, tt) (table_valid, tt) letter_valid

validate_document-source_map_example :
    (letter.source_map ≡ [])
    ⊎ (SegmentChars 0 8 letter.source_map × SegmentBytes 0 8 letter.source_map)
unfolding encode
validate_document-source_map_example =
    validate_document-source_map letter (whole_valid, tt) letter_valid

pub page-IsChunk : IsChunk page
unfolding encode
page-IsChunk = record { chars = refl; bytes = refl; nonempty = omega arith; tokens = omega arith }

page-IsSlice : IsSlice letter page
unfolding encode
page-IsSlice = record {
  is_chunk = page-IsChunk;
  text_lem = refl;
  start_place = (omega arith, refl);
  end_place = (omega arith, refl);
}

amount_span-IsSpan : IsSpan amount_span
unfolding encode
amount_span-IsSpan = record { chars = refl; bytes = refl; nonempty = omega arith }

amount_span_matches : span_matches_chunk amount_span page ≡ true
unfolding span_matches_chunk
amount_span_matches = refl

span_matches_chunk-document_example :
    (amount_span.text ≡ slice letter.text 5 6)
    × (encode amount_span.text ≡ slice (encode letter.text) 5 6)
span_matches_chunk-document_example =
    span_matches_chunk-document letter page amount_span page-IsSlice amount_span-IsSpan
      amount_span_matches
