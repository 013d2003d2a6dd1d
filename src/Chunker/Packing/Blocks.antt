-- ===== src/Chunker/Packing/Blocks.antt =====
-- The blocks of a document in the order of the text, with the gaps filled
-- (extractor/chunker/packing.py).
pub mod Tiling
use veritext.Prelude.{
  ℕ, ◌≡◌, Text, Bool, true, false, ◌&&◌, ◌||◌, Option, none, some, List, [], ◌∷◌, ◌++◌, map, length,
  slice, keep_if, ltb, leb, nat_beq, if◌then◌else◌, sorted_by, text_isspace, codes, Result, ok, err,
  chunking_error, ◌>>=◌, max, all_chars, is_space,
}
use mathlib.Core.List.{reverse}
use veritext.Contracts.Documents.{Document, LayoutRole, LayoutSpan, TableSpan, TextRange}
use veritext.Chunker.Config.{ChunkKind, ChunkBlock}

-- `(table.text_range.start_char, table.text_range.end_char)` for each table
abbrev pub table_ranges : List TableSpan → List (ℕ × ℕ)
table_ranges = map (λ t. (t.text_range.start_char, t.text_range.end_char))

pub table_block : TableSpan → ChunkBlock
table_block t = record {
  start_char = t.text_range.start_char;
  end_char = t.text_range.end_char;
  kind = ChunkKind.table;
  layout_span_id = none;
  layout_role = none;
  table_id = some t.table_id;
}

-- The kind of a block for a role that packing keeps: `"heading"` becomes `"section"`.
pub block_kind : LayoutRole → Option ChunkKind
block_kind LayoutRole.heading = some ChunkKind.section
block_kind LayoutRole.paragraph = some ChunkKind.paragraph
block_kind LayoutRole.list_item = some ChunkKind.list_item
block_kind _ = none

pub within_table : TextRange → List (ℕ × ℕ) → Bool
within_table r [] = false
within_table r ((table_start, table_end) ∷ ranges) =
    leb table_start r.start_char && leb r.end_char table_end || within_table r ranges

pub layout_block : List (ℕ × ℕ) → LayoutSpan → Option ChunkBlock
unfolding block_kind within_table
layout_block ranges span = elim (block_kind span.role) [
  | none ↦ none
  | some kind ↦
      if within_table span.text_range ranges
      then none
      else some (record {
        start_char = span.text_range.start_char;
        end_char = span.text_range.end_char;
        kind = kind;
        layout_span_id = some span.span_id;
        layout_role = some span.role;
        table_id = none;
      })
]

pub layout_blocks : List (ℕ × ℕ) → List LayoutSpan → List ChunkBlock
unfolding layout_block
layout_blocks ranges [] = []
layout_blocks ranges (span ∷ spans) =
    let rest = layout_blocks ranges spans in
    elim (layout_block ranges span) [ none ↦ rest | some block ↦ block ∷ rest ]

-- The place of a kind in the alphabet, by which the source compares its strings.
pub kind_rank : ChunkKind → ℕ
kind_rank ChunkKind.document = 0
kind_rank ChunkKind.list_item = 1
kind_rank ChunkKind.mixed = 2
kind_rank ChunkKind.overflow = 3
kind_rank ChunkKind.paragraph = 4
kind_rank ChunkKind.section = 5
kind_rank ChunkKind.table = 6

-- `(block.start_char, block.end_char, block.kind)`, compared as tuples.
pub block_le : ChunkBlock → ChunkBlock → Bool
unfolding kind_rank
block_le a b =
    if ltb a.start_char b.start_char
    then true
    else if ltb b.start_char a.start_char
    then false
    else if ltb a.end_char b.end_char
    then true
    else if ltb b.end_char a.end_char
    then false
    else leb (kind_rank a.kind) (kind_rank b.kind)

pub gap_block : ℕ → ℕ → ChunkBlock
gap_block cursor stop = record {
  start_char = cursor;
  end_char = stop;
  kind = ChunkKind.mixed;
  layout_span_id = none;
  layout_role = none;
  table_id = none;
}

-- What stands before `block`: a gap of white space is given to the last block, any other gap
-- becomes a block of its own. `filled` has its last block first.
pub fill_gap : Text → ℕ → ChunkBlock → List ChunkBlock → List ChunkBlock
unfolding gap_block
fill_gap text cursor block [] =
    if ltb cursor block.start_char then gap_block cursor block.start_char ∷ [] else []
fill_gap text cursor block (last ∷ filled) =
    if ltb cursor block.start_char
    then if text_isspace (slice text cursor block.start_char)
      then record last { end_char = block.start_char } ∷ filled
      else gap_block cursor block.start_char ∷ last ∷ filled
    else last ∷ filled

-- The loop of `_with_gap_blocks`: the blocks so far, the last one first, and the cursor.
pub gap_loop : Text → List ChunkBlock → ℕ → List ChunkBlock → Result (List ChunkBlock × ℕ)
unfolding fill_gap
gap_loop text [] cursor filled = ok (filled, cursor)
gap_loop text (block ∷ blocks) cursor filled =
    let rest = gap_loop text blocks block.end_char (block ∷ fill_gap text cursor block filled) in
    if ltb block.start_char cursor
    then err (chunking_error (codes "layout-aware blocks must be ordered and non-overlapping"))
    else rest

-- The last gap, and the blocks in order without those that are empty.
pub close_gaps : Text → List ChunkBlock × ℕ → List ChunkBlock
unfolding gap_block
close_gaps text (filled, cursor) =
    keep_if (λ b. ltb b.start_char b.end_char)
      (reverse
        (if ltb cursor (length text) then gap_block cursor (length text) ∷ filled else filled))

pub with_gap_blocks : Text → List ChunkBlock → Result (List ChunkBlock)
unfolding gap_loop close_gaps text_isspace
with_gap_blocks text blocks = do state ← gap_loop text blocks 0 []; ok (close_gaps text state)

unfoldable pub collect_blocks : Document → Result (List ChunkBlock)
unfolding table_block layout_blocks block_le with_gap_blocks sorted_by
collect_blocks document = with_gap_blocks document.text (
    sorted_by block_le (
      map table_block document.table_spans
      ++ layout_blocks (table_ranges document.table_spans) document.layout_spans))
