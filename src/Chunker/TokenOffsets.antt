-- ===== src/Chunker/TokenOffsets.antt =====
-- Tokens and the characters at which they begin and end (extractor/chunker/token_offsets.py).
-- The tokenizer's `decode_single_token_bytes` is the argument `decode`.
pub mod Starts
pub mod Advance
pub mod Map
use veritext.Prelude.{
  ℕ, zero, suc, ◌+◌, ◌-◌, ◌≡◌, Text, Bytes, Bool, true, false, ◌&&◌, ◌||◌, not, Option, none, some,
  List, [], ◌∷◌, ◌++◌, map, length, get_elem?, ltb, leb, ◌==◌, nat_eq, list_eq, list_beq,
  if◌then◌else◌, encode, encode_char, codes, Result, ok, err, Error, token_offset_error, key_error,
  ◌>>=◌, ◌>>◌, raise_if, or_raise,
}

pub record TokenOffsetMap : Type 0 where
  pub tokens : List ℕ
  pub token_starts : List ℕ
  pub token_ends : List ℕ
  -- the dict from the byte offsets of the character boundaries to character indexes
  pub byte_to_char : List (ℕ × ℕ)

pub record TokenTextRange : Type 0 where
  pub start_byte : ℕ
  pub end_byte : ℕ
  pub start_char : ℕ
  pub end_char : ℕ

-- The loop of `byte_to_char_boundaries` from a byte cursor and a character index.
pub boundary_entries : Text → ℕ → ℕ → List (ℕ × ℕ)
unfolding encode_char
boundary_entries [] cursor char_index = []
boundary_entries (c ∷ text) cursor char_index =
    let next = cursor + length (encode_char c) in
    (next, suc char_index) ∷ boundary_entries text next (suc char_index)

unfoldable pub byte_to_char_boundaries : Text → List (ℕ × ℕ)
unfolding boundary_entries
byte_to_char_boundaries text = (0, 0) ∷ boundary_entries text 0 0

-- `byte_to_char.get(byte)`; each key stands there once.
unfoldable pub char_at_byte : List (ℕ × ℕ) → ℕ → Option ℕ
char_at_byte [] byte = none
char_at_byte ((b, c) ∷ entries) byte = if b == byte then some c else char_at_byte entries byte

-- `byte in byte_to_char`
unfoldable pub is_boundary : List (ℕ × ℕ) → ℕ → Bool
is_boundary [] byte = false
is_boundary ((b, c) ∷ entries) byte = b == byte || is_boundary entries byte

-- The loop of `build_token_offset_map`: the starts, the ends and the joined pieces.
pub piece_starts : List Bytes → ℕ → List ℕ
piece_starts [] cursor = []
piece_starts (piece ∷ pieces) cursor = cursor ∷ piece_starts pieces (cursor + length piece)

pub piece_ends : List Bytes → ℕ → List ℕ
piece_ends [] cursor = []
piece_ends (piece ∷ pieces) cursor =
    (cursor + length piece) ∷ piece_ends pieces (cursor + length piece)

pub join_pieces : List Bytes → Bytes
join_pieces [] = []
join_pieces (piece ∷ pieces) = piece ++ join_pieces pieces

unfoldable pub build_token_offset_map : (ℕ → Bytes) → Text → List ℕ → Result TokenOffsetMap
unfolding piece_starts piece_ends join_pieces encode byte_to_char_boundaries
build_token_offset_map decode text tokens = do
  raise_if (not (list_beq (join_pieces (map decode tokens)) (encode text)))
      (token_offset_error (codes "Tokenizer byte reconstruction did not match document text"))
  ok (record {
    tokens = tokens;
    token_starts = piece_starts (map decode tokens) 0;
    token_ends = piece_ends (map decode tokens) 0;
    byte_to_char = byte_to_char_boundaries text;
  })

-- An index that the source takes of a list; it is in range there.
abbrev pub at : List ℕ → ℕ → ℕ
at [] i = 0
at (x ∷ xs) zero = x
at (x ∷ xs) (suc i) = at xs i

-- The `while` loops advance the index to the end of the list at most: `rounds` is the number of
-- tokens from `token_index` on.
pub next_start_loop : ℕ → ℕ → TokenOffsetMap → ℕ
next_start_loop zero token_index offsets = token_index
next_start_loop (suc rounds) token_index offsets =
    let rest = next_start_loop rounds (token_index + 1) offsets in
    if is_boundary offsets.byte_to_char (at offsets.token_starts token_index)
    then token_index
    else rest

unfoldable pub next_token_start_at_char_boundary : ℕ → TokenOffsetMap → ℕ
unfolding next_start_loop is_boundary
next_token_start_at_char_boundary token_index offsets =
    next_start_loop (length offsets.token_starts - token_index) token_index offsets

pub next_end_loop : ℕ → ℕ → TokenOffsetMap → ℕ
next_end_loop zero token_index offsets = token_index
next_end_loop (suc rounds) token_index offsets =
    let rest = next_end_loop rounds (token_index + 1) offsets in
    if is_boundary offsets.byte_to_char (at offsets.token_ends (token_index - 1))
    then token_index
    else rest

unfoldable pub next_token_end_at_char_boundary : ℕ → TokenOffsetMap → Result ℕ
unfolding next_end_loop is_boundary
next_token_end_at_char_boundary token_index offsets = do
  raise_if (leb token_index 0) (token_offset_error (codes "Token end index must be positive"))
  let found = next_end_loop (length offsets.token_ends - token_index) token_index offsets
  raise_if
      (found == length offsets.token_ends
        && not (is_boundary offsets.byte_to_char (at offsets.token_ends (found - 1))))
      (token_offset_error (codes "Final token boundary does not align with UTF-8 text"))
  ok found

unfoldable pub token_span_to_text_range : TokenOffsetMap → ℕ → ℕ → Result TokenTextRange
unfolding char_at_byte
token_span_to_text_range offsets start_token end_token = do
  raise_if (leb end_token start_token || ltb (length offsets.token_ends) end_token)
      (token_offset_error (codes "Invalid token span"))
  let start_byte = at offsets.token_starts start_token
  let end_byte = at offsets.token_ends (end_token - 1)
  start_char ←
      or_raise (char_at_byte offsets.byte_to_char start_byte)
        (token_offset_error (codes "Token span does not align with UTF-8 text"))
  end_char ←
      or_raise (char_at_byte offsets.byte_to_char end_byte)
        (token_offset_error (codes "Token span does not align with UTF-8 text"))
  ok (record {
    start_byte = start_byte;
    end_byte = end_byte;
    start_char = start_char;
    end_char = end_char;
  })
