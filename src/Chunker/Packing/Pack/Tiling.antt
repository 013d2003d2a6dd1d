-- ===== src/Chunker/Packing/Pack/Tiling.antt =====
-- The packed chunks tile the text of the document, and each of them fits the window.
use veritext.Prelude.{
  ℕ, ◌≤◌, ◌<◌, ◌≡◌, refl, inl, inr, Text, List, [], ◌∷◌, ◌++◌, length, ltb, Bool-cases,
  ltb_false→le, Result, ok, err, arith, >>=-eq-ok, ap, Tiles-le, All, All-map_imp,
}
use mathlib.Core.Path.{subst}
use veritext.Contracts.Documents.{Document}
use veritext.Chunker.Config.{ChunkingConfig, ChunkKind, ChunkBlock, ChunkSplitReason, PackedChunk}
use veritext.Chunker.Boundaries.{collect_chunk_boundaries}
use veritext.Chunker.Packing.Splitting.{token_count, split_oversized_text_block}
use veritext.Chunker.Packing.Splitting.Sentences.{split_oversized_text_block-Covers}
use veritext.Chunker.Packing.Blocks.{collect_blocks}
use veritext.Chunker.Packing.Blocks.Tiling.{IsWellFormed, collect_blocks-Tiles}
use veritext.Chunker.Packing.Fit.{
  BlockTiles, ChunkTiles, InWindow, Fits, FitsSplit, FitsSplit-Fits, Cover, Covers, Cover-cons,
  Cover-empty, Cover-append,
}
use veritext.Chunker.Packing.Pack.{
  last_block, pack_blocks, flush_current, table_chunk, pack_table_block, join_current,
  pack_text_block, pack_block, pack_loop, pack_collected, pack_boundary_aware_chunks,
}

last_block-append :
    (head block : ChunkBlock) (current : List ChunkBlock)
    → last_block head (current ++ (block ∷ [])) ≡ block
unfolding last_block
last_block-append head block [] = refl
last_block-append head block (next ∷ current) = last_block-append next block current

ok-injective : {A : Type 0} {a b : A} → ok a ≡ ok b → a ≡ b
ok-injective h = cc

module _ (tokenize : Text → List ℕ) (config : ChunkingConfig) (document : Document) where
  -- A run of blocks from `a` to `c` that fits the window.
  abbrev Run : ℕ → ℕ → List ChunkBlock → Type 0
  Run a c [] = a ≡ c
  Run a c (b ∷ bs) =
      (b.start_char ≡ a)
      × ((last_block b bs).end_char ≡ c)
      × (a ≤ c)
      × InWindow tokenize config document a c

  -- What the loop keeps: the chunks cover the text up to the run, and the run goes on to `c`.
  abbrev Packs : ℕ → List PackedChunk × List ChunkBlock → Type 0
  Packs c state = (a : ℕ) × Cover (Fits tokenize config document) 0 a state.0 × Run a c state.1

  flush_current-Cover :
      (a c : ℕ) (chunks : List PackedChunk) (current : List ChunkBlock)
      → Cover (Fits tokenize config document) 0 a chunks
      → Run a c current
      → Cover (Fits tokenize config document) 0 c (flush_current document chunks current)
  unfolding flush_current pack_blocks
  flush_current-Cover a c chunks [] h r = rw (← r) h
  flush_current-Cover a c chunks (b ∷ bs) h (first, last, le, fit) =
      Cover-append (Fits tokenize config document) 0 a c chunks _ h (
        Cover-cons (Fits tokenize config document) a c c (pack_blocks document b bs) [] first last
          le (inl (rw (last, first) fit)) (Cover-empty (Fits tokenize config document) c))

  join_current-Packs :
      (block : ChunkBlock) (c : ℕ) (chunks : List PackedChunk) (current : List ChunkBlock)
      → block.start_char ≡ c
      → c ≤ block.end_char
      → InWindow tokenize config document block.start_char block.end_char
      → Packs c (chunks, current)
      → Packs block.end_char (join_current tokenize config document block chunks current)
  unfolding join_current last_block
  join_current-Packs block c chunks [] e le fit (a, h, r) =
      (a, h, (rw (e, r) refl, refl, omega (arith, r, le), rw (r, ← e) fit))
  join_current-Packs block c chunks (head ∷ current) e le fit (a, h, r) =
      elim (Bool-cases
        (ltb config.window_tokens (token_count tokenize document head.start_char block.end_char))) [
          | inl over ↦
              rw over (
                c,
                flush_current-Cover a c chunks (head ∷ current) h r,
                (e, refl, le, rw (← e) fit),
              )
          | inr room ↦ rw room (
            a,
            h,
            (
              r.0,
              ap (λ b. b.end_char) (last_block-append head block current),
              omega (arith, r.2, le),
              rw (← r.0) (ltb_false→le _ _ room),
            ),
          )
        ]

  pack_table_block-Cover :
      (block : ChunkBlock) (c : ℕ) {packed : PackedChunk}
      → block.start_char ≡ c
      → c ≤ block.end_char
      → pack_table_block tokenize config document block ≡ ok packed
      → Cover (Fits tokenize config document) c block.end_char (packed ∷ [])
  unfolding pack_table_block table_chunk
  pack_table_block-Cover block c e le h =
      elim (Bool-cases (
        ltb config.window_tokens (token_count tokenize document block.start_char block.end_char))) [
          | inl over ↦ elim (Bool-cases config.allow_oversized_atomic_chunks) [
            | inl leave ↦ rw (← ok-injective (rw (over, leave) at h)) (
                Cover-cons (Fits tokenize config document) c block.end_char block.end_char
                  (table_chunk tokenize config document block
                    ChunkSplitReason.atomic_table_overflow)
                  [] e refl le (inr (inr (refl, leave)))
                  (Cover-empty (Fits tokenize config document) block.end_char))
            | inr strict ↦ absurd (cc (rw (over, strict) at h))
          ]
          | inr room ↦ rw (← ok-injective (rw room at h)) (
              Cover-cons (Fits tokenize config document) c block.end_char block.end_char
                (table_chunk tokenize config document block ChunkSplitReason.boundary) [] e refl le
                (inl (ltb_false→le _ _ room))
                (Cover-empty (Fits tokenize config document) block.end_char))
        ]

  of_Covers :
      (a b : ℕ) (r : Result (List PackedChunk)) {chunks : List PackedChunk}
      → Covers (FitsSplit tokenize config document) a b r
      → r ≡ ok chunks
      → Cover (Fits tokenize config document) a b chunks
  of_Covers a b (ok found) h e =
      rw (← ok-injective e)
        (h.0, All-map_imp _ _ found (FitsSplit-Fits tokenize config document) h.1)
  of_Covers a b (err _) h e = absurd h

  pack_text_block-Packs :
      (block : ChunkBlock) (c : ℕ) (chunks : List PackedChunk) (current : List ChunkBlock)
      {state : List PackedChunk × List ChunkBlock}
      → block.start_char ≡ c
      → c ≤ block.end_char
      → block.end_char ≤ length document.text
      → Packs c (chunks, current)
      → pack_text_block tokenize config document block chunks current ≡ ok state
      → Packs block.end_char state
  unfolding pack_text_block
  pack_text_block-Packs block c chunks current {state} e le inside (a, h, r) eq =
      elim (Bool-cases (
        ltb config.window_tokens (token_count tokenize document block.start_char block.end_char))) [
          | inl over ↦
              let (pieces, split, done) =
                >>=-eq-ok (split_oversized_text_block tokenize config document block) _
                  (rw over at eq) in
              rw (← ok-injective done) (
                block.end_char,
                Cover-append (Fits tokenize config document) 0 c block.end_char _ pieces
                    (flush_current-Cover a c chunks current h r)
                    (subst (λ k. Cover (Fits tokenize config document) k block.end_char pieces) e
                      (of_Covers block.start_char block.end_char _
                        (split_oversized_text_block-Covers tokenize config document block
                          (omega (arith, e, le)) inside)
                        split)),
                refl,
              )
          | inr room ↦
              rw (← ok-injective (rw room at eq))
                (join_current-Packs block c chunks current e le (ltb_false→le _ _ room) (a, h, r))
        ]

  pack_block-Packs :
      (kind : ChunkKind) (block : ChunkBlock) (c : ℕ) (chunks : List PackedChunk)
      (current : List ChunkBlock) {state : List PackedChunk × List ChunkBlock}
      → block.start_char ≡ c
      → c ≤ block.end_char
      → block.end_char ≤ length document.text
      → Packs c (chunks, current)
      → pack_block tokenize config document kind block chunks current ≡ ok state
      → Packs block.end_char state
  unfolding pack_block
  pack_block-Packs ChunkKind.table block c chunks current e le inside (a, h, r) eq =
      let (packed, one, done) = >>=-eq-ok (pack_table_block tokenize config document block) _ eq in
      rw (← ok-injective done) (
        block.end_char,
        Cover-append (Fits tokenize config document) 0 c block.end_char _ (packed ∷ [])
            (flush_current-Cover a c chunks current h r) (pack_table_block-Cover block c e le one),
        refl,
      )
  pack_block-Packs ChunkKind.section block c chunks current e le inside (a, h, r) eq =
      pack_text_block-Packs block c (flush_current document chunks current) [] e le inside
        (c, flush_current-Cover a c chunks current h r, refl) eq
  pack_block-Packs _ block c chunks current e le inside p eq =
      pack_text_block-Packs block c chunks current e le inside p eq

  pack_loop-Cover :
      (blocks : List ChunkBlock) (c : ℕ) (chunks : List PackedChunk) (current : List ChunkBlock)
      {out : List PackedChunk}
      → BlockTiles c (length document.text) blocks
      → Packs c (chunks, current)
      → pack_loop tokenize config document blocks chunks current ≡ ok out
      → Cover (Fits tokenize config document) 0 (length document.text) out
  unfolding pack_loop
  pack_loop-Cover [] c chunks current t (a, h, r) eq =
      rw (← ok-injective eq, ← t) (flush_current-Cover a c chunks current h r)
  pack_loop-Cover (block ∷ blocks) c chunks current (first, le, t) p eq =
      let (state, one, more) =
        >>=-eq-ok (pack_block tokenize config document block.kind block chunks current) _ eq in
      pack_loop-Cover blocks block.end_char state.0 state.1 t
        (pack_block-Packs block.kind block c chunks current first le
          (Tiles-le _ _ block.end_char (length document.text) blocks t) p one)
        more

  pack_collected-Cover :
      (blocks : List ChunkBlock) {out : List PackedChunk}
      → 0 < length document.text
      → BlockTiles 0 (length document.text) blocks
      → pack_collected tokenize config document blocks ≡ ok out
      → Cover (Fits tokenize config document) 0 (length document.text) out
  unfolding pack_collected
  pack_collected-Cover [] full t eq = absurd (omega arith)
  pack_collected-Cover (block ∷ blocks) full t eq =
      pack_loop-Cover (block ∷ blocks) 0 [] [] t
        (0, Cover-empty (Fits tokenize config document) 0, refl) eq

  -- The chunks of layout-aware packing, where it returns any, tile the text of a well-formed
  -- document: each begins where the one before it ends, from the start of the text to its end.
  -- Each fits the token window, or is a single character of a split sentence, or is a table
  -- that the configuration allows to overflow.
  pub pack_boundary_aware_chunks-Cover :
      {chunks : List PackedChunk}
      → IsWellFormed document
      → pack_boundary_aware_chunks tokenize config document ≡ ok chunks
      → ChunkTiles 0 (length document.text) chunks × All (Fits tokenize config document) chunks
  unfolding pack_boundary_aware_chunks
  pack_boundary_aware_chunks-Cover w eq =
      let (boundaries, checked, next) = >>=-eq-ok (collect_chunk_boundaries document) _ eq in
      let (blocks, collected, packed) = >>=-eq-ok (collect_blocks document) _ next in
      pack_collected-Cover blocks w.nonempty (collect_blocks-Tiles document w collected) packed
