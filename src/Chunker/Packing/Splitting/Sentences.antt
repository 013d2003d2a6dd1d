-- ===== src/Chunker/Packing/Splitting/Sentences.antt =====
-- Splitting at sentence ends returns on every block, and its chunks cover the block.
use veritext.Prelude.{
  ℕ, suc, ◌+◌, ◌-◌, ◌≤◌, ◌<◌, ◌≡◌, refl, ◌⊎◌, inl, inr, Text, List, [], ◌∷◌, length, slice,
  length-slice, ltb, Bool-cases, ltb_false→le, ltb→lt, arith, nat_beq_iff, nat_beq, list_beq,
  nat_eq, none, Bool,
}
use mathlib.Core.Path.{subst, subst₂}
use veritext.Contracts.Documents.{Document}
use veritext.Chunker.Config.{ChunkingConfig, ChunkBlock, ChunkSplitReason}
use veritext.Chunker.Packing.Splitting.{
  token_count, pack_block_slice, pending, sentence_loop, sentence_end_offsets, match_ends,
  with_text_end, ends_sentence, split_oversized_text_block,
}
use veritext.Chunker.Packing.Fit.{
  FitsSplit, InWindow, Cover, Covers, Cover-empty, Cover-cons, Covers-append, Covers-append_both,
}
use veritext.Chunker.Packing.Splitting.Windows.{split_by_character_window-Covers}

-- Ascending numbers from `lo` on, none beyond `n`.
abbrev Within : ℕ → ℕ → List ℕ → Type 0
Within lo n [] = lo ≤ n
Within lo n (e ∷ es) = (lo ≤ e) × Within e n es

-- Ascending numbers from `lo` on, of which the last is `n`.
abbrev Ascends : ℕ → ℕ → List ℕ → Type 0
Ascends lo n [] = lo ≡ n
Ascends lo n (e ∷ es) = (lo ≤ e) × Ascends e n es

match_ends-Within :
    (text : Text) (i lo : ℕ) → lo ≤ i → Within lo (i + length text) (match_ends text i)
unfolding match_ends
match_ends-Within [] i lo h = omega arith
match_ends-Within (c ∷ text) i lo h = elim (Bool-cases (ends_sentence (c ∷ text))) [
  | inl e ↦
      let ih : Within (suc i) (i + length (c ∷ text)) (match_ends text (suc i)) =
        rw (shift i (length text)) (match_ends-Within text (suc i) (suc i) (omega arith)) in
      rw e (omega arith, ih)
  | inr e ↦
      let ih : Within lo (i + length (c ∷ text)) (match_ends text (suc i)) =
        rw (shift i (length text)) (match_ends-Within text (suc i) lo (omega arith)) in
      rw e ih
]
  where
    shift : (i n : ℕ) → i + suc n ≡ suc i + n
    shift i n = omega arith

with_text_end-Ascends :
    (offsets : List ℕ) (lo n : ℕ) → Within lo n offsets → Ascends lo n (with_text_end offsets n)
unfolding with_text_end
with_text_end-Ascends [] lo n h = (h, refl)
with_text_end-Ascends (i ∷ []) lo n h = elim (Bool-cases (nat_beq i n)) [
  | inl e ↦ rw e (h.0, (nat_beq_iff i n).0 e)
  | inr e ↦ rw e (h.0, (h.1, refl))
]
with_text_end-Ascends (i ∷ j ∷ offsets) lo n h = (h.0, with_text_end-Ascends (j ∷ offsets) i n h.1)

sentence_end_offsets-Ascends : (text : Text) → Ascends 0 (length text) (sentence_end_offsets text)
unfolding sentence_end_offsets
sentence_end_offsets-Ascends text = with_text_end-Ascends (match_ends text 0) 0 (length text) (
    subst (λ n. Within 0 n (match_ends text 0)) (zero_add (length text))
      (match_ends-Within text 0 0 (omega arith)))
  where
    zero_add : (n : ℕ) → 0 + n ≡ n
    zero_add n = omega arith

module _ (tokenize : Text → List ℕ) (config : ChunkingConfig) (document : Document)
    (block : ChunkBlock) where
  -- The sentences since the last cut, if there are any, fit the window.
  abbrev IsPending : ℕ → ℕ → Type 0
  IsPending current_start current_end =
      (current_start ≤ current_end)
      × ((current_start ≡ current_end)
          ⊎ InWindow tokenize config document (block.start_char + current_start)
              (block.start_char + current_end))

  pending-Cover :
      (current_start current_end : ℕ)
      → IsPending current_start current_end
      → Cover
          (FitsSplit tokenize config document)
          (block.start_char + current_start)
          (block.start_char + current_end)
          (pending tokenize config document block current_start current_end)
  unfolding pending pack_block_slice
  pending-Cover current_start current_end h = elim (Bool-cases (ltb current_start current_end)) [
    | inr none_left ↦
        let e : current_end ≡ current_start = omega (arith, ltb_false→le _ _ none_left, h.0) in
        rw (none_left, e) (Cover-empty (FitsSplit tokenize config document) _)
    | inl some_left ↦
        let lt : current_start < current_end = ltb→lt _ _ some_left in
        let fit : InWindow tokenize config document (block.start_char + current_start)
            (block.start_char + current_end) =
          elim h.1 [ inl same ↦ absurd (omega (arith, same, lt)) | inr w ↦ w ] in
        rw some_left (
          Cover-cons (FitsSplit tokenize config document) (block.start_char + current_start)
            (block.start_char + current_end) (block.start_char + current_end)
            (pack_block_slice document block current_start current_end ChunkSplitReason.boundary) []
            refl refl (omega (arith, lt)) (inl fit)
            (Cover-empty (FitsSplit tokenize config document) _))
  ]

  sentence_loop_lem :
      (ends : List ℕ) (current_start current_end n : ℕ)
      → Ascends current_end n ends
      → IsPending current_start current_end
      → Covers
          (FitsSplit tokenize config document)
          (block.start_char + current_start)
          (block.start_char + n)
          (sentence_loop tokenize config document block ends current_start current_end)
  unfolding sentence_loop
  sentence_loop_lem [] current_start current_end n e h =
      rw (← e) (pending-Cover current_start current_end h)
  sentence_loop_lem (stop ∷ ends) current_start current_end n (up, a) h =
      elim (Bool-cases (over current_end)) [
        | inl long ↦ rw long (
            Covers-append_both (FitsSplit tokenize config document) _ _ _ _ _ _ _
              (pending-Cover current_start current_end h)
              (split_by_character_window-Covers tokenize config document
                (record block {
                  start_char = block.start_char + current_end;
                  end_char = block.start_char + stop;
                  table_id = none;
                })
                (omega arith))
              (sentence_loop_lem ends stop stop n a (omega arith, inl refl)))
        | inr short ↦ elim (Bool-cases (over current_start)) [
          | inl full ↦
              rw (short, full)
                (Covers-append (FitsSplit tokenize config document) _ _ _ _ _
                  (pending-Cover current_start current_end h)
                  (sentence_loop_lem ends current_end stop n a (up, inr (ltb_false→le _ _ short))))
          | inr room ↦
              rw (short, room)
                (sentence_loop_lem ends current_start stop n a
                  (omega (arith, up, h.0), inr (ltb_false→le _ _ room)))
        ]
      ]
    where
      over : ℕ → Bool
      over first =
          ltb config.window_tokens
            (token_count tokenize document (block.start_char + first) (block.start_char + stop))

-- Splitting an oversized block returns on every block of the text. Its chunks tile the block and
-- each is within the token window or is a single character of a split sentence.
pub split_oversized_text_block-Covers :
    (tokenize : Text → List ℕ) (config : ChunkingConfig) (document : Document) (block : ChunkBlock)
    → block.start_char ≤ block.end_char
    → block.end_char ≤ length document.text
    → Covers
        (FitsSplit tokenize config document)
        block.start_char
        block.end_char
        (split_oversized_text_block tokenize config document block)
unfolding split_oversized_text_block
split_oversized_text_block-Covers tokenize config document block p q =
    elim (Bool-cases (list_beq (sentence_end_offsets text) (length text ∷ []))) [
      | inl one ↦ rw one (split_by_character_window-Covers tokenize config document block p)
      | inr several ↦ rw several (
          subst₂
            (λ a b.
              Covers (FitsSplit tokenize config document) a b
                (sentence_loop tokenize config document block (sentence_end_offsets text) 0 0))
            (start_lem block.start_char)
            (end_lem block.start_char block.end_char (length text) p
              (length-slice document.text block.start_char block.end_char q))
            (sentence_loop_lem tokenize config document block (sentence_end_offsets text) 0 0
              (length text) (sentence_end_offsets-Ascends text) (omega arith, inl refl)))
    ]
  where
    text : Text
    text = slice document.text block.start_char block.end_char

    start_lem : (a : ℕ) → a + 0 ≡ a
    start_lem a = omega arith

    end_lem : (a b n : ℕ) → a ≤ b → n ≡ b - a → a + n ≡ b
    end_lem a b n h e = omega arith
