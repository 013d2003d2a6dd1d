-- ===== src/Chunker/Packing/Pack.antt =====
-- `pack_boundary_aware_chunks` and the packing of a run of blocks (extractor/chunker/packing.py).
pub mod Tiling
pub mod Total
use veritext.Prelude.{
  ℕ, ◌≡◌, Text, Bool, true, false, ◌&&◌, ◌||◌, not, Option, none, some, List, [], ◌∷◌, ◌++◌, map,
  length, ltb, keep_if, if◌then◌else◌, codes, Result, ok, err, chunking_error, ◌>>=◌, ◌>>◌,
}
use veritext.Contracts.Documents.{Document}
use veritext.Chunker.Config.{ChunkingConfig, ChunkKind, ChunkBlock, ChunkSplitReason, PackedChunk}
use veritext.Chunker.Boundaries.{collect_chunk_boundaries}
use veritext.Chunker.Packing.Blocks.{collect_blocks}
use veritext.Chunker.Packing.Splitting.{
  token_count, page_numbers_for_range, maybe_one, split_oversized_text_block,
}

-- `tuple(f(block) for block in blocks if f(block) is not None)`
pub present : List (Option Text) → List Text
present [] = []
present (none ∷ ts) = present ts
present (some t ∷ ts) = t ∷ present ts

abbrev pub is_section : ChunkKind → Bool
is_section ChunkKind.section = true
is_section _ = false

abbrev pub is_paragraph : ChunkKind → Bool
is_paragraph ChunkKind.paragraph = true
is_paragraph _ = false

abbrev pub is_list_item : ChunkKind → Bool
is_list_item ChunkKind.list_item = true
is_list_item _ = false

abbrev pub is_table : ChunkKind → Bool
is_table ChunkKind.table = true
is_table _ = false

abbrev pub is_mixed : ChunkKind → Bool
is_mixed ChunkKind.mixed = true
is_mixed _ = false

pub any_kind : (ChunkKind → Bool) → List ChunkKind → Bool
any_kind p [] = false
any_kind p (k ∷ ks) = p k || any_kind p ks

pub all_kinds : (ChunkKind → Bool) → List ChunkKind → Bool
all_kinds p [] = true
all_kinds p (k ∷ ks) = p k && all_kinds p ks

-- `kinds == {kind}` for the set of the kinds
pub only_kind : (ChunkKind → Bool) → List ChunkKind → Bool
unfolding any_kind all_kinds
only_kind p ks = any_kind p ks && all_kinds p ks

pub packed_kind : List ChunkKind → ChunkKind
unfolding only_kind
packed_kind kinds =
    if any_kind is_section kinds
    then ChunkKind.section
    else if only_kind is_paragraph kinds
    then ChunkKind.paragraph
    else if only_kind is_list_item kinds
    then ChunkKind.list_item
    else if only_kind is_table kinds
    then ChunkKind.table
    else ChunkKind.mixed

-- `blocks[-1]` of the blocks `block ∷ blocks`
pub last_block : ChunkBlock → List ChunkBlock → ChunkBlock
last_block block [] = block
last_block block (next ∷ blocks) = last_block next blocks

module _ (document : Document) where
  -- `_pack_blocks` of `block ∷ blocks`: the source calls it with a block at least.
  pub pack_blocks : ChunkBlock → List ChunkBlock → PackedChunk
  unfolding present packed_kind last_block page_numbers_for_range
  pack_blocks block blocks = record {
    start_char = block.start_char;
    end_char = (last_block block blocks).end_char;
    chunk_kind = packed_kind (keep_if (λ k. not (is_mixed k)) (map (λ b. b.kind) (block ∷ blocks)));
    layout_span_ids = present (map (λ b. b.layout_span_id) (block ∷ blocks));
    table_ids = present (map (λ b. b.table_id) (block ∷ blocks));
    page_numbers =
        page_numbers_for_range document.page_map block.start_char
          (last_block block blocks).end_char;
    split_reason = ChunkSplitReason.boundary;
  }

  -- `flush_current`: the chunks after it; `current` is empty then.
  pub flush_current : List PackedChunk → List ChunkBlock → List PackedChunk
  unfolding pack_blocks
  flush_current chunks [] = chunks
  flush_current chunks (block ∷ blocks) = chunks ++ (pack_blocks block blocks ∷ [])

module _ (tokenize : Text → List ℕ) (config : ChunkingConfig) (document : Document) where
  pub table_chunk : ChunkBlock → ChunkSplitReason → PackedChunk
  unfolding page_numbers_for_range
  table_chunk block split_reason = record {
    start_char = block.start_char;
    end_char = block.end_char;
    chunk_kind = ChunkKind.table;
    layout_span_ids = [];
    table_ids = maybe_one block.table_id;
    page_numbers = page_numbers_for_range document.page_map block.start_char block.end_char;
    split_reason = split_reason;
  }

  pub pack_table_block : ChunkBlock → Result PackedChunk
  unfolding table_chunk
  pack_table_block block =
      if ltb config.window_tokens (token_count tokenize document block.start_char block.end_char)
      then if config.allow_oversized_atomic_chunks
        then ok (table_chunk block ChunkSplitReason.atomic_table_overflow)
        else err (chunking_error (codes "Oversized table chunk exceeds window"))
      else ok (table_chunk block ChunkSplitReason.boundary)

  -- A block that fits the window joins the current run, which is flushed first if they do not
  -- fit together.
  pub join_current :
      ChunkBlock → List PackedChunk → List ChunkBlock → List PackedChunk × List ChunkBlock
  unfolding flush_current
  join_current block chunks [] = (chunks, block ∷ [])
  join_current block chunks (head ∷ current) =
      if ltb config.window_tokens (token_count tokenize document head.start_char block.end_char)
      then (flush_current document chunks (head ∷ current), block ∷ [])
      else (chunks, head ∷ (current ++ (block ∷ [])))

  -- The rest of the loop's body for a block that is no table.
  pub pack_text_block :
      ChunkBlock → List PackedChunk → List ChunkBlock → Result (List PackedChunk × List ChunkBlock)
  unfolding join_current flush_current split_oversized_text_block
  pack_text_block block chunks current =
      let oversized : Result (List PackedChunk × List ChunkBlock) = do
        pieces ← split_oversized_text_block tokenize config document block
        ok (flush_current document chunks current ++ pieces, [])
      in if ltb config.window_tokens (token_count tokenize document block.start_char block.end_char)
        then oversized
        else ok (join_current block chunks current)

  -- The loop's body, on the kind of the block, the chunks so far and the current run of blocks.
  pub pack_block :
      ChunkKind
      → ChunkBlock
      → List PackedChunk
      → List ChunkBlock
      → Result (List PackedChunk × List ChunkBlock)
  unfolding pack_table_block pack_text_block
  pack_block ChunkKind.table block chunks current = do
    packed ← pack_table_block block
    ok (flush_current document chunks current ++ (packed ∷ []), [])
  pack_block ChunkKind.section block chunks current =
      pack_text_block block (flush_current document chunks current) []
  pack_block _ block chunks current = pack_text_block block chunks current

  pub pack_loop : List ChunkBlock → List PackedChunk → List ChunkBlock → Result (List PackedChunk)
  unfolding pack_block
  pack_loop [] chunks current = ok (flush_current document chunks current)
  pack_loop (block ∷ blocks) chunks current = do
    state ← pack_block block.kind block chunks current
    pack_loop blocks state.0 state.1

  pub document_chunk : PackedChunk
  unfolding page_numbers_for_range
  document_chunk = record {
    start_char = 0;
    end_char = length document.text;
    chunk_kind = ChunkKind.document;
    layout_span_ids = [];
    table_ids = [];
    page_numbers = page_numbers_for_range document.page_map 0 (length document.text);
    split_reason = ChunkSplitReason.boundary;
  }

  pub pack_collected : List ChunkBlock → Result (List PackedChunk)
  unfolding pack_loop document_chunk
  pack_collected [] = ok (document_chunk ∷ [])
  pack_collected (block ∷ blocks) = pack_loop (block ∷ blocks) [] []

  unfoldable pub pack_boundary_aware_chunks : Result (List PackedChunk)
  unfolding collect_chunk_boundaries collect_blocks pack_collected
  pack_boundary_aware_chunks = do
    _ ← collect_chunk_boundaries document
    blocks ← collect_blocks document
    pack_collected blocks
