-- ===== src/Chunker/Packing/Splitting/Windows.antt =====
-- Splitting at characters returns on every block, and its chunks cover the block.
use veritext.Prelude.{
  ℕ, zero, suc, ◌+◌, ◌-◌, ◌≤◌, ◌<◌, ◌≡◌, refl, ◌⊎◌, inl, inr, Text, false, List, ltb, leb,
  Bool-cases, ltb_false→le, ltb→lt, arith, le→ltb_false,
}
use veritext.Contracts.Documents.{Document}
use veritext.Chunker.Config.{ChunkingConfig, ChunkBlock, ChunkSplitReason}
use veritext.Chunker.Packing.Splitting.{
  token_count, best_end_loop, pack_block_slice, window_loop, split_by_character_window,
}
use veritext.Chunker.Packing.Fit.{InWindow, FitsSplit, Covers, Covers-cons}

module _ (tokenize : Text → List ℕ) (config : ChunkingConfig) (document : Document) where
  -- An end that the inner loop may return.
  abbrev IsBest : ℕ → ℕ → Type 0
  IsBest start end = InWindow tokenize config document start end ⊎ (end ≡ start + 1)

  best_end_loop_lem :
      (rounds start end best stop : ℕ)
      → start < best
      → best ≤ end
      → best ≤ stop
      → end + rounds ≤ stop + 1
      → IsBest start best
      → let r = best_end_loop tokenize config document rounds start end best in
        (start < r) × (r ≤ stop) × IsBest start r
  unfolding best_end_loop
  best_end_loop_lem zero start end best stop a b c d fit = (a, c, fit)
  best_end_loop_lem (suc rounds) start end best stop a b c d fit =
      elim (Bool-cases (ltb config.window_tokens (token_count tokenize document start end))) [
        | inl over ↦ rw (over, best_end_loop) (a, c, fit)
        | inr fits ↦
            rw (fits, best_end_loop)
              (best_end_loop_lem rounds start (end + 1) end stop (omega arith) (omega arith)
                (omega arith) (omega arith) (inl (ltb_false→le _ _ fits)))
      ]

  -- The slice of a block between two places of the text.
  slice-Fits :
      (block : ChunkBlock) (start best : ℕ)
      → block.start_char ≤ start
      → start < best
      → IsBest start best
      → FitsSplit tokenize config document (
          pack_block_slice document block
            (start - block.start_char)
            (best - block.start_char)
            ChunkSplitReason.oversized_sentence)
  unfolding pack_block_slice
  slice-Fits block start best p q fit =
      let e : block.start_char + (start - block.start_char) ≡ start = omega arith in
      let f : block.start_char + (best - block.start_char) ≡ best = omega arith in
      rw (e, f) (elim fit [ inl w ↦ inl w | inr one ↦ inr (one, refl) ])

  window_loop_lem :
      (fuel : ℕ) (block : ChunkBlock) (start : ℕ)
      → block.start_char ≤ start
      → start ≤ block.end_char
      → block.end_char ≤ start + fuel
      → Covers (FitsSplit tokenize config document) start block.end_char (
          window_loop tokenize config document fuel block ChunkSplitReason.oversized_sentence start)
  unfolding window_loop
  window_loop_lem zero block start p q enough =
      let same : start ≡ block.end_char = omega arith in
      rw (le→ltb_false start block.end_char (omega arith)) (same, tt)
  window_loop_lem (suc fuel) block start p q enough = elim (Bool-cases (ltb start block.end_char)) [
    | inr done ↦
        let same : start ≡ block.end_char = omega (arith, ltb_false→le start _ done) in
        rw done (same, tt)
    | inl more ↦
        let lt : start < block.end_char = ltb→lt start _ more in
        let best =
          best_end_loop tokenize config document (block.end_char - start) start (start + 1)
            (start + 1) in
        let b : (start < best) × (best ≤ block.end_char) × IsBest start best =
          best_end_loop_lem (block.end_char - start) start (start + 1) (start + 1) block.end_char
            (omega arith) (omega arith) (omega arith) (omega arith) (inr refl) in
        let moves : leb best start ≡ false = ground (arith, b.0) in
        rw (more, moves)
          (Covers-cons (FitsSplit tokenize config document) start best block.end_char _ _
            (start_lem block start best p) (end_lem block start best p b.0) (omega (arith, b.0))
            (slice-Fits block start best p b.0 b.2)
            (window_loop_lem fuel block best (omega (arith, b.0)) b.1 (omega (arith, b.0))))
  ]
    where
      start_lem :
          (block : ChunkBlock) (start best : ℕ)
          → block.start_char ≤ start
          → block.start_char + (start - block.start_char) ≡ start
      start_lem block start best p = omega arith

      end_lem :
          (block : ChunkBlock) (start best : ℕ)
          → block.start_char ≤ start
          → start < best
          → block.start_char + (best - block.start_char) ≡ best
      end_lem block start best p q = omega arith

  -- `_split_by_character_window` returns on every block.
  pub split_by_character_window-Covers :
      (block : ChunkBlock)
      → block.start_char ≤ block.end_char
      → Covers (FitsSplit tokenize config document) block.start_char block.end_char (
          split_by_character_window tokenize config document block
            ChunkSplitReason.oversized_sentence)
  unfolding split_by_character_window
  split_by_character_window-Covers block h =
      window_loop_lem (block.end_char - block.start_char) block block.start_char (omega arith) h
        (omega arith)
