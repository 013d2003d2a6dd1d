-- ===== src/Contracts/Documents.antt =====
-- Pages, layout spans, table spans and documents (extractor/contracts/documents.py, ingestion.py).
use veritext.Prelude.{Option, ℕ, Text, List}

pub record PageSpan : Type 0 where
  pub page_number : ℕ
  pub start_char : ℕ
  pub end_char : ℕ
  pub start_byte : ℕ
  pub end_byte : ℕ

pub record TextRange : Type 0 where
  pub start_char : ℕ
  pub end_char : ℕ
  pub start_byte : ℕ
  pub end_byte : ℕ

pub data LayoutRole : Type 0 where
  page_header page_footer heading paragraph list_item : LayoutRole
  table table_cell figure_caption unknown : LayoutRole

-- The coordinates, which are floating-point numbers compared only with one another, are left out.
pub record BoundingBox : Type 0 where
  pub page_number : ℕ

pub record LayoutSpan : Type 0 where
  pub span_id : Text
  pub page_number : ℕ
  pub role : LayoutRole
  pub text_range : TextRange
  pub bounding_box : Option BoundingBox

pub record TableCellSpan : Type 0 where
  pub cell_id : Text
  pub text_range : TextRange
  pub row_index : ℕ
  pub column_index : ℕ
  pub row_span : ℕ
  pub column_span : ℕ
  pub header_labels : List Text
  pub bounding_box : Option BoundingBox

pub record TableSpan : Type 0 where
  pub table_id : Text
  pub page_number : ℕ
  pub text_range : TextRange
  pub cells : List TableCellSpan
  pub bounding_box : Option BoundingBox

pub data SourceMapSegmentKind : Type 0 where
  source generated unmapped : SourceMapSegmentKind

pub record SourceMapSegment : Type 0 where
  pub segment_id : Text
  pub kind : SourceMapSegmentKind
  pub text_range : TextRange
  pub source_start_byte : Option ℕ
  pub source_end_byte : Option ℕ
  pub source_start_char : Option ℕ
  pub source_end_char : Option ℕ

-- The confidence, which nothing modelled reads, and the engine are left out.
pub record OcrConfidenceSpan : Type 0 where
  pub span_id : Text
  pub text_range : TextRange

-- The path, the format, the digest of the source and the metadata are left out.
pub record Document : Type 0 where
  pub doc_id : Text
  pub text : Text
  pub text_sha256 : Text
  pub source_byte_length : ℕ
  pub text_byte_length : ℕ
  pub page_map : List PageSpan
  pub source_map : List SourceMapSegment
  pub layout_spans : List LayoutSpan
  pub table_spans : List TableSpan
  pub ocr_confidence_spans : List OcrConfidenceSpan
