-- ===== src/Chunker/Packing/Blocks/Tiling.antt =====
-- The collected blocks tile the text.
use veritext.Prelude.{
  ℕ, ◌≤◌, ◌<◌, ◌≡◌, refl, sym, ◌∙◌, inl, inr, Text, none, some, true, false, List, [], ◌∷◌, ◌++◌,
  map, length, slice, ltb, leb, Bool-cases, Option-cases, ltb_false→le, ltb→lt, keep_if, Result, ok,
  err, arith, if◌then◌else◌, text_isspace, All, All-append, All-sorted_by, All-keep_if, All-map_imp,
  Tiles-append, Tiles-keep_if, >>=-eq-ok, ◌>>=◌, sorted_by, Error,
}
use mathlib.Core.List.{reverse, reverse-cons}
use mathlib.Core.Path.{subst}
use veritext.Contracts.Documents.{Document, LayoutSpan, TableSpan, TextRange}
use veritext.Chunker.Config.{ChunkBlock}
use veritext.Chunker.Packing.Blocks.{
  fill_gap, gap_loop, gap_block, close_gaps, with_gap_blocks, collect_blocks, layout_blocks,
  table_block, table_ranges, block_le, within_table, block_kind,
}

-- The ranges of the layout and of the tables lie in the text, as the contract of a document
-- demands of them (extractor/contracts/ingestion.py).
abbrev pub InText : ℕ → TextRange → Type 0
InText n r = (r.start_char < r.end_char) × (r.end_char ≤ n)

pub record IsWellFormed (document : Document) : Type 0 where
  pub nonempty : 0 < length document.text
  pub layout : All (λ s. InText (length document.text) s.text_range) document.layout_spans
  pub tables : All (λ t. InText (length document.text) t.text_range) document.table_spans

abbrev Ordered : ℕ → ChunkBlock → Type 0
Ordered n b = (b.start_char ≤ b.end_char) × (b.end_char ≤ n)

abbrev BlockTiles : ℕ → ℕ → List ChunkBlock → Type 0
BlockTiles = veritext.Prelude.Tiles (λ b. b.start_char) (λ b. b.end_char)

-- Blocks with the last one first that tile the text up to `cursor`.
abbrev TilesBack : ℕ → List ChunkBlock → Type 0
TilesBack cursor [] = cursor ≡ 0
TilesBack cursor (b ∷ bs) =
    (b.end_char ≡ cursor) × (b.start_char ≤ b.end_char) × TilesBack b.start_char bs

reverse-Tiles :
    (cursor : ℕ) (filled : List ChunkBlock)
    → TilesBack cursor filled
    → BlockTiles 0 cursor (reverse filled)
reverse-Tiles cursor [] h = sym h
reverse-Tiles cursor (b ∷ bs) h = rw reverse-cons (
    Tiles-append _ _ 0 b.start_char cursor (reverse bs) (b ∷ []) (reverse-Tiles b.start_char bs h.2)
      (refl, h.1, h.0))

fill_gap-TilesBack :
    (text : Text) (cursor : ℕ) (block : ChunkBlock) (filled : List ChunkBlock)
    → cursor ≤ block.start_char
    → TilesBack cursor filled
    → TilesBack block.start_char (fill_gap text cursor block filled)
unfolding fill_gap
fill_gap-TilesBack text cursor block [] le h = elim (Bool-cases (ltb cursor block.start_char)) [
  | inl gap ↦ rw gap (refl, le, h)
  | inr level ↦ rw level (omega (arith, ltb_false→le _ _ level, h))
]
fill_gap-TilesBack text cursor block (b ∷ filled) le h =
    elim (Bool-cases (ltb cursor block.start_char)) [
      | inl gap ↦ elim (Bool-cases (text_isspace (slice text cursor block.start_char))) [
        | inl blank ↦ rw (gap, blank) (refl, omega (arith, h.0, h.1), h.2)
        | inr full ↦ rw (gap, full) (refl, le, h)
      ]
      | inr level ↦ rw level (omega (arith, ltb_false→le _ _ level, h.0), h.1, h.2)
    ]

gap_loop-TilesBack :
    (text : Text) (blocks : List ChunkBlock) (cursor : ℕ) (filled : List ChunkBlock)
    {state : List ChunkBlock × ℕ}
    → All (Ordered (length text)) blocks
    → cursor ≤ length text
    → TilesBack cursor filled
    → gap_loop text blocks cursor filled ≡ ok state
    → TilesBack state.1 state.0 × (state.1 ≤ length text)
unfolding gap_loop
gap_loop-TilesBack text [] cursor filled {state} o le h e =
    let same : (filled, cursor) ≡ state = cc in rw (← same) (h, le)
gap_loop-TilesBack text (block ∷ blocks) cursor filled o le h e =
    elim (Bool-cases (ltb block.start_char cursor)) [
      | inl back ↦ absurd (cc (rw back at e))
      | inr on ↦
          gap_loop-TilesBack text blocks block.end_char (block ∷ fill_gap text cursor block filled)
            o.1 o.0.1
            (refl, o.0.0, fill_gap-TilesBack text cursor block filled (ltb_false→le _ _ on) h)
            (rw on at e)
    ]

close_gaps-Tiles :
    (text : Text) (state : List ChunkBlock × ℕ)
    → TilesBack state.1 state.0
    → state.1 ≤ length text
    → BlockTiles 0 (length text) (close_gaps text state)
unfolding close_gaps gap_block
close_gaps-Tiles text (filled, cursor) h le =
    Tiles-keep_if _ _ 0 (length text)
      (reverse
        (if ltb cursor (length text) then gap_block cursor (length text) ∷ filled else filled))
      (elim (Bool-cases (ltb cursor (length text))) [
        | inl gap ↦
            rw gap
              (reverse-Tiles (length text) (gap_block cursor (length text) ∷ filled) (refl, le, h))
        | inr full ↦
            let same : cursor ≡ length text = omega (arith, ltb_false→le _ _ full, le) in
            rw (full, ← same) (reverse-Tiles cursor filled h)
      ])

pub with_gap_blocks-Tiles :
    (text : Text) (blocks : List ChunkBlock) {filled : List ChunkBlock}
    → All (Ordered (length text)) blocks
    → with_gap_blocks text blocks ≡ ok filled
    → BlockTiles 0 (length text) filled
unfolding with_gap_blocks
with_gap_blocks-Tiles text blocks o e =
    let (state, found, closed) = >>=-eq-ok (gap_loop text blocks 0 []) _ e in
    let t : TilesBack state.1 state.0 × (state.1 ≤ length text) =
      gap_loop-TilesBack text blocks 0 [] o (omega arith) refl found in
    subst (BlockTiles 0 (length text)) (ok-injective closed) (close_gaps-Tiles text state t.0 t.1)
  where
    ok-injective : {xs ys : List ChunkBlock} → ok xs ≡ ok ys → xs ≡ ys
    ok-injective h = cc

table_blocks-Ordered :
    (n : ℕ) (tables : List TableSpan)
    → All (λ t. InText n t.text_range) tables
    → All (Ordered n) (map table_block tables)
unfolding table_block
table_blocks-Ordered n [] h = tt
table_blocks-Ordered n (t ∷ tables) h =
    ((omega (arith, h.0), h.0.1), table_blocks-Ordered n tables h.1)

layout_blocks-Ordered :
    (n : ℕ) (ranges : List (ℕ × ℕ)) (spans : List LayoutSpan)
    → All (λ s. InText n s.text_range) spans
    → All (Ordered n) (layout_blocks ranges spans)
unfolding layout_blocks
layout_blocks-Ordered n ranges [] h = tt
layout_blocks-Ordered n ranges (span ∷ spans) h =
    let ih = layout_blocks-Ordered n ranges spans h.1 in
    elim (Option-cases (block_kind span.role)) [
      | inl skipped ↦ rw (skipped, All) ih
      | inr (kind, e) ↦ elim (Bool-cases (within_table span.text_range ranges)) [
        | inl inside ↦ rw (e, inside, All) ih
        | inr outside ↦ rw (e, outside, All) ((omega (arith, h.0), h.0.1), ih)
      ]
    ]

-- The blocks of a well-formed document tile its text.
pub collect_blocks-Tiles :
    (document : Document) {blocks : List ChunkBlock}
    → IsWellFormed document
    → collect_blocks document ≡ ok blocks
    → BlockTiles 0 (length document.text) blocks
unfolding collect_blocks
collect_blocks-Tiles document w e =
    with_gap_blocks-Tiles document.text _
      (All-sorted_by block_le (Ordered (length document.text)) _ (
        All-append _ _ _ (table_blocks-Ordered (length document.text) document.table_spans w.tables)
          (layout_blocks-Ordered (length document.text) (table_ranges document.table_spans)
            document.layout_spans w.layout)))
      e
