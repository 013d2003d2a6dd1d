-- ===== src/Chunker/Packing/Splitting.antt =====
-- Splitting a text block that does not fit the window, at sentence ends and, within a sentence,
pub mod Windows
pub mod Sentences
-- at characters (extractor/chunker/packing.py).
use veritext.Prelude.{
  ℕ, zero, suc, ◌+◌, ◌-◌, ◌≡◌, Text, Bool, true, false, ◌&&◌, ◌||◌, Option, none, some, List, [],
  ◌∷◌, ◌++◌, length, slice, ltb, leb, ◌==◌, nat_eq, list_eq, list_beq, if◌then◌else◌, is_space,
  codes, Result, ok, err, Error, chunking_error, diverged, ◌>>=◌, ◌>>◌, raise_if,
}
use veritext.Contracts.Documents.{Document, PageSpan}
use veritext.Chunker.Config.{ChunkingConfig, ChunkKind, ChunkBlock, ChunkSplitReason, PackedChunk}

-- The tokenizer: `encoding.encode(text, disallowed_special=())`.
module _ (tokenize : Text → List ℕ) where
  abbrev pub token_count : Document → ℕ → ℕ → ℕ
  token_count document first last = length (tokenize (slice document.text first last))

unfoldable pub page_numbers_for_range : List PageSpan → ℕ → ℕ → List ℕ
page_numbers_for_range [] first last = []
page_numbers_for_range (page ∷ pages) first last =
    let rest = page_numbers_for_range pages first last in
    if ltb first page.end_char && ltb page.start_char last then page.page_number ∷ rest else rest

abbrev pub maybe_one : Option Text → List Text
maybe_one none = []
maybe_one (some t) = t ∷ []

-- `split_reason.startswith("oversized")`
abbrev is_oversized : ChunkSplitReason → Bool
is_oversized ChunkSplitReason.oversized_sentence = true
is_oversized ChunkSplitReason.oversized_paragraph = true
is_oversized _ = false

pub pack_block_slice : Document → ChunkBlock → ℕ → ℕ → ChunkSplitReason → PackedChunk
pack_block_slice document block relative_start relative_end split_reason = record {
  start_char = block.start_char + relative_start;
  end_char = block.start_char + relative_end;
  chunk_kind = if is_oversized split_reason then ChunkKind.overflow else block.kind;
  layout_span_ids = maybe_one block.layout_span_id;
  table_ids = maybe_one block.table_id;
  page_numbers =
      page_numbers_for_range document.page_map (block.start_char + relative_start)
        (block.start_char + relative_end);
  split_reason = split_reason;
}

-- Whether the regular expression `[.!?](?=\s|$)` matches at the head of the text.
pub ends_sentence : Text → Bool
ends_sentence [] = false
ends_sentence (c ∷ []) = (c == b'.') || (c == b'!') || (c == b'?')
ends_sentence (c ∷ d ∷ text) = ((c == b'.') || (c == b'!') || (c == b'?')) && is_space d

-- The ends of the matches in a text whose first character has the index `i`.
pub match_ends : Text → ℕ → List ℕ
unfolding ends_sentence is_space
match_ends [] i = []
match_ends (c ∷ text) i =
    let rest = match_ends text (suc i) in if ends_sentence (c ∷ text) then suc i ∷ rest else rest

-- `offsets` with the length of the text behind it, unless that is its last entry.
pub with_text_end : List ℕ → ℕ → List ℕ
with_text_end [] n = n ∷ []
with_text_end (i ∷ []) n = if i == n then i ∷ [] else i ∷ n ∷ []
with_text_end (i ∷ j ∷ offsets) n = i ∷ with_text_end (j ∷ offsets) n

pub sentence_end_offsets : Text → List ℕ
unfolding match_ends with_text_end
sentence_end_offsets text = with_text_end (match_ends text 0) (length text)

module _ (tokenize : Text → List ℕ) (config : ChunkingConfig) (document : Document) where
  -- The inner loop of `_split_by_character_window`, which runs while `end <= block.end_char`:
  -- `rounds` is `block.end_char + 1 - end`.
  pub best_end_loop : ℕ → ℕ → ℕ → ℕ → ℕ
  best_end_loop zero start end best_end = best_end
  best_end_loop (suc rounds) start end best_end =
      elim (ltb config.window_tokens (token_count tokenize document start end)) [
        | true ↦ best_end
        | false ↦ best_end_loop rounds start (end + 1) end
      ]

  -- The outer loop, on fuel, which gives the chunks from `start` on.
  pub window_loop : ℕ → ChunkBlock → ChunkSplitReason → ℕ → Result (List PackedChunk)
  unfolding best_end_loop pack_block_slice page_numbers_for_range
  window_loop zero block reason start = if ltb start block.end_char then err diverged else ok []
  window_loop (suc fuel) block reason start =
      let best_end = best_end_loop (block.end_char - start) start (start + 1) (start + 1) in
      let rest = window_loop fuel block reason best_end in
      let body : Result (List PackedChunk) = do
        raise_if (leb best_end start) (chunking_error (codes "Token window did not advance"))
        chunks ← rest
        ok (
            pack_block_slice document block (start - block.start_char) (best_end - block.start_char)
              reason
            ∷ chunks)
      in if ltb start block.end_char then body else ok []

  -- Each round goes on by a character at least, so the length of the block is fuel enough.
  pub split_by_character_window : ChunkBlock → ChunkSplitReason → Result (List PackedChunk)
  unfolding window_loop
  split_by_character_window block reason =
      window_loop (block.end_char - block.start_char) block reason block.start_char

  -- The piece of the block between two sentence ends, if there is one.
  pub pending : ChunkBlock → ℕ → ℕ → List PackedChunk
  unfolding pack_block_slice page_numbers_for_range
  pending block current_start current_end =
      if ltb current_start current_end
      then pack_block_slice document block current_start current_end ChunkSplitReason.boundary ∷ []
      else []

  -- The loop over the sentence ends: the chunks from `current_start` on.
  pub sentence_loop : ChunkBlock → List ℕ → ℕ → ℕ → Result (List PackedChunk)
  unfolding pending split_by_character_window
  sentence_loop block [] current_start current_end = ok (pending block current_start current_end)
  sentence_loop block (sentence_end ∷ ends) current_start current_end =
      let start = block.start_char in
      let restart = sentence_loop block ends sentence_end sentence_end in
      let cut = sentence_loop block ends current_end sentence_end in
      let extend = sentence_loop block ends current_start sentence_end in
      let oversized : Result (List PackedChunk) = do
        pieces ←
            split_by_character_window
              (record block {
                start_char = start + current_end;
                end_char = start + sentence_end;
                table_id = none;
              })
              ChunkSplitReason.oversized_sentence
        chunks ← restart
        ok (pending block current_start current_end ++ (pieces ++ chunks))
      in let full : Result (List PackedChunk) = do
        chunks ← cut
        ok (pending block current_start current_end ++ chunks)
        in if ltb config.window_tokens
            (token_count tokenize document (start + current_end) (start + sentence_end))
          then oversized
          else if ltb config.window_tokens
              (token_count tokenize document (start + current_start) (start + sentence_end))
          then full
          else extend

  unfoldable pub split_oversized_text_block : ChunkBlock → Result (List PackedChunk)
  unfolding sentence_loop sentence_end_offsets split_by_character_window
  split_oversized_text_block block =
      let text = slice document.text block.start_char block.end_char in
      let by_character = split_by_character_window block ChunkSplitReason.oversized_sentence in
      let by_sentence = sentence_loop block (sentence_end_offsets text) 0 0 in
      if list_beq (sentence_end_offsets text) (length text ∷ []) then by_character else by_sentence
