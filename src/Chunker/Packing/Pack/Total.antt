-- ===== src/Chunker/Packing/Pack/Total.antt =====
-- Packing returns wherever the checks pass and oversized tables are allowed.
use veritext.Prelude.{
  ℕ, ◌≤◌, ◌≡◌, inl, inr, Text, true, List, [], ◌∷◌, length, ltb, Bool-cases, Result, ok, err, arith,
  Returns, Returns->>=, Tiles-le,
}
use veritext.Contracts.Documents.{Document}
use veritext.Chunker.Config.{ChunkingConfig, ChunkKind, ChunkBlock, PackedChunk}
use veritext.Chunker.Boundaries.{ChunkBoundarySet, collect_chunk_boundaries}
use veritext.Chunker.Packing.Splitting.{token_count, split_oversized_text_block}
use veritext.Chunker.Packing.Splitting.Sentences.{split_oversized_text_block-Covers}
use veritext.Chunker.Packing.Blocks.{collect_blocks}
use veritext.Chunker.Packing.Blocks.Tiling.{IsWellFormed, collect_blocks-Tiles}
use veritext.Chunker.Packing.Fit.{BlockTiles, Covers, FitsSplit}
use veritext.Chunker.Packing.Pack.{
  flush_current, pack_table_block, pack_text_block, pack_block, pack_loop, pack_collected,
  pack_boundary_aware_chunks,
}

module _ (tokenize : Text → List ℕ) (config : ChunkingConfig) (document : Document) where
  Covers-Returns :
      (a b : ℕ) (r : Result (List PackedChunk))
      → Covers (FitsSplit tokenize config document) a b r
      → Returns r
  Covers-Returns a b (ok chunks) h = tt
  Covers-Returns a b (err e) h = h

  pack_text_block-Returns :
      (block : ChunkBlock) (chunks : List PackedChunk) (current : List ChunkBlock)
      → block.start_char ≤ block.end_char
      → block.end_char ≤ length document.text
      → Returns (pack_text_block tokenize config document block chunks current)
  unfolding pack_text_block
  pack_text_block-Returns block chunks current le inside =
      elim (Bool-cases (
        ltb config.window_tokens (token_count tokenize document block.start_char block.end_char))) [
          | inl over ↦ rw over (
              Returns->>= (split_oversized_text_block tokenize config document block) _
                (Covers-Returns block.start_char block.end_char _
                  (split_oversized_text_block-Covers tokenize config document block le inside))
                (λ pieces e. tt))
          | inr room ↦ rw room tt
        ]

  module _ (leave : config.allow_oversized_atomic_chunks ≡ true) where
    pack_table_block-Returns :
        (block : ChunkBlock) → Returns (pack_table_block tokenize config document block)
    unfolding pack_table_block
    pack_table_block-Returns block =
        elim (Bool-cases (
          ltb config.window_tokens
            (token_count tokenize document block.start_char block.end_char))) [
              | inl over ↦ rw (over, leave) tt
              | inr room ↦ rw room tt
            ]

    pack_block-Returns :
        (kind : ChunkKind) (block : ChunkBlock) (chunks : List PackedChunk)
        (current : List ChunkBlock)
        → block.start_char ≤ block.end_char
        → block.end_char ≤ length document.text
        → Returns (pack_block tokenize config document kind block chunks current)
    unfolding pack_block
    pack_block-Returns ChunkKind.table block chunks current le inside =
        Returns->>= (pack_table_block tokenize config document block) _
          (pack_table_block-Returns block) (λ packed e. tt)
    pack_block-Returns ChunkKind.section block chunks current le inside =
        pack_text_block-Returns block (flush_current document chunks current) [] le inside
    pack_block-Returns _ block chunks current le inside =
        pack_text_block-Returns block chunks current le inside

    pack_loop-Returns :
        (blocks : List ChunkBlock) (c : ℕ) (chunks : List PackedChunk) (current : List ChunkBlock)
        → BlockTiles c (length document.text) blocks
        → Returns (pack_loop tokenize config document blocks chunks current)
    unfolding pack_loop
    pack_loop-Returns [] c chunks current t = tt
    pack_loop-Returns (block ∷ blocks) c chunks current (first, le, t) =
        Returns->>= (pack_block tokenize config document block.kind block chunks current) _
          (pack_block-Returns block.kind block chunks current (omega (arith, first, le))
            (Tiles-le _ _ block.end_char (length document.text) blocks t))
          (λ state e. pack_loop-Returns blocks block.end_char state.0 state.1 t)

    pack_collected-Returns :
        (blocks : List ChunkBlock)
        → BlockTiles 0 (length document.text) blocks
        → Returns (pack_collected tokenize config document blocks)
    unfolding pack_collected
    pack_collected-Returns [] t = tt
    pack_collected-Returns (block ∷ blocks) t = pack_loop-Returns (block ∷ blocks) 0 [] [] t

    -- If the boundary checks pass, the blocks do not overlap and oversized tables are allowed,
    -- then packing a well-formed document returns: neither its loops nor its inner checks fail.
    pub pack_boundary_aware_chunks-Returns :
        {boundaries : ChunkBoundarySet} {blocks : List ChunkBlock}
        → IsWellFormed document
        → collect_chunk_boundaries document ≡ ok boundaries
        → collect_blocks document ≡ ok blocks
        → Returns (pack_boundary_aware_chunks tokenize config document)
    unfolding pack_boundary_aware_chunks
    pack_boundary_aware_chunks-Returns {blocks} w checked collected =
        Returns->>= (collect_chunk_boundaries document) _ (rw checked tt) (λ boundaries e.
          Returns->>= (collect_blocks document) _ (rw collected tt)
            (λ found e'. pack_collected-Returns found (collect_blocks-Tiles document w e')))
