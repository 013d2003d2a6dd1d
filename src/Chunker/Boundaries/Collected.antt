-- ===== src/Chunker/Boundaries/Collected.antt =====
-- The boundaries that are collected: their order, and which they are.
use veritext.Prelude.{ℕ, ◌≤◌, ◌≡◌, List, [], ◌∷◌, ◌++◌, length, nat_eq, IsAmong, Perm}
use mathlib.Core.List.Perm
use veritext.Contracts.Documents.{Document, LayoutSpan, PageSpan, TableSpan, TextRange}
use veritext.Chunker.Boundaries.{ChunkBoundary, ChunkBoundaryKind}

-- What a boundary marks, and its offsets in characters and in bytes.
abbrev pub Mark : Type 0
Mark = ChunkBoundaryKind × (ℕ × ℕ)

abbrev pub mark_of : ChunkBoundary → Mark
mark_of b = (b.kind, (b.char_offset, b.byte_offset))

-- The marks of the two ends of a range.
abbrev pub ends_of : ChunkBoundaryKind → ChunkBoundaryKind → TextRange → List Mark → List Mark
ends_of first last r rest =
    (first, (r.start_char, r.start_byte)) ∷ (last, (r.end_char, r.end_byte)) ∷ rest

abbrev pub page_marks : List PageSpan → List Mark
page_marks [] = []
page_marks (page ∷ pages) =
    (ChunkBoundaryKind.page_start, (page.start_char, page.start_byte))
    ∷ (ChunkBoundaryKind.page_end, (page.end_char, page.end_byte))
    ∷ page_marks pages

abbrev pub layout_marks : List LayoutSpan → List Mark
layout_marks [] = []
layout_marks (span ∷ spans) =
    ends_of ChunkBoundaryKind.layout_start ChunkBoundaryKind.layout_end span.text_range
      (layout_marks spans)

abbrev pub table_marks : List TableSpan → List Mark
table_marks [] = []
table_marks (table ∷ tables) =
    ends_of ChunkBoundaryKind.table_start ChunkBoundaryKind.table_end table.text_range
      (table_marks tables)

-- The ends of the document, of its pages, of its layout spans and of its tables.
abbrev pub document_marks : Document → List Mark
document_marks document =
    (ChunkBoundaryKind.document_start, (0, 0))
    ∷ (ChunkBoundaryKind.document_end, (length document.text, document.text_byte_length))
    ∷ (page_marks document.page_map
        ++ (layout_marks document.layout_spans ++ table_marks document.table_spans))

-- A range that lies within a page with a number.
pub record InPage (pages : List PageSpan) (number : ℕ) (r : TextRange) : Type 0 where
  pub page : PageSpan
  pub among : IsAmong page pages
  pub numbered : page.page_number ≡ number
  pub chars : (page.start_char ≤ r.start_char) × (r.end_char ≤ page.end_char)
  pub bytes : (page.start_byte ≤ r.start_byte) × (r.end_byte ≤ page.end_byte)
