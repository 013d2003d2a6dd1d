-- ===== src/Chunker/TokenOffsets/Map.antt =====
-- The facts about an offset map that the windows rest on, and the ranges that it gives.
use veritext.Prelude.{
  ℕ, zero, suc, ◌+◌, ◌-◌, ◌≤◌, ◌<◌, ◌≡◌, refl, ap, ◌∙◌, Text, Bytes, Bool, true, false, none, some,
  Option, Error, List, [], ◌∷◌, map, length, nat_eq, arith, ok, >>=-eq-ok, raise_if, or_raise, not,
  encode, byte_length, list_beq, list_beq_iff, raise_if-eq-ok, leb, ltb, ◌||◌,
}
use veritext.Chunker.TokenOffsets.{
  TokenOffsetMap, TokenTextRange, byte_to_char_boundaries, char_at_byte, piece_starts, join_pieces,
  build_token_offset_map, at, token_span_to_text_range,
}
use veritext.Chunker.TokenOffsets.Starts.{
  IsPlace, char_at_byte-IsPlace, length-piece_starts, length-piece_ends, at-piece_starts,
  at-piece_ends_last,
}

length-map : {A B : Type 0} (f : A → B) (xs : List A) → length (map f xs) ≡ length xs
length-map f [] = refl
length-map f (x ∷ xs) = ap suc (length-map f xs)

piece_starts_mono :
    (pieces : List Bytes) (cursor i j : ℕ)
    → i ≤ j
    → j < length pieces
    → (cursor ≤ at (piece_starts pieces cursor) j)
      × (at (piece_starts pieces cursor) i ≤ at (piece_starts pieces cursor) j)
unfolding piece_starts
piece_starts_mono [] cursor i j le lt = absurd (omega arith)
piece_starts_mono (p ∷ pieces) cursor zero zero le lt = omega arith
piece_starts_mono (p ∷ pieces) cursor (suc i) zero le lt = absurd (omega arith)
piece_starts_mono (p ∷ pieces) cursor zero (suc j) le lt =
    omega (arith, piece_starts_mono pieces (cursor + length p) 0 j (omega arith) (omega arith))
piece_starts_mono (p ∷ pieces) cursor (suc i) (suc j) le lt =
    omega (arith, piece_starts_mono pieces (cursor + length p) i j (omega arith) (omega arith))

-- What an offset map of a text is.
pub record IsMap (text : Text) (offsets : TokenOffsetMap) : Type 0 where
  pub starts : length offsets.token_starts ≡ length offsets.tokens
  pub ends : length offsets.token_ends ≡ length offsets.tokens
  pub first : 0 < length offsets.tokens → at offsets.token_starts 0 ≡ 0
  pub follows :
      (i : ℕ)
      → suc i < length offsets.tokens
      → at offsets.token_starts (suc i) ≡ at offsets.token_ends i
  pub last : (i : ℕ) → suc i ≡ length offsets.tokens → at offsets.token_ends i ≡ byte_length text
  pub mono :
      (i j : ℕ)
      → i ≤ j
      → j < length offsets.tokens
      → at offsets.token_starts i ≤ at offsets.token_starts j
  pub boundaries : offsets.byte_to_char ≡ byte_to_char_boundaries text

pub build_token_offset_map-IsMap :
    (decode : ℕ → Bytes) (text : Text) (tokens : List ℕ) {offsets : TokenOffsetMap}
    → build_token_offset_map decode text tokens ≡ ok offsets
    → IsMap text offsets × (offsets.tokens ≡ tokens)
unfolding build_token_offset_map
build_token_offset_map-IsMap decode text tokens {offsets} eq =
    let pieces = map decode tokens in
    let (u, joined, done) =
      >>=-eq-ok (raise_if (not (list_beq (join_pieces pieces) (encode text))) _) _ eq in
    let same : join_pieces pieces ≡ encode text =
      (list_beq_iff (join_pieces pieces) (encode text)).0 (
        not-false _
          (raise_if-eq-ok (not (list_beq (join_pieces pieces) (encode text))) _ joined)) in
    let count : length pieces ≡ length tokens = length-map decode tokens in
    rw (← ok-injective done) (
      record {
        starts = length-piece_starts pieces 0 ∙ count;
        ends = length-piece_ends pieces 0 ∙ count;
        first = λ h. first_start pieces (omega (arith, h, count));
        follows = λ i h. at-piece_starts pieces 0 i (omega (arith, h, count));
        last = λ i h.
            at-piece_ends_last pieces 0 i (omega (arith, h, count)) ∙ zero_add _ ∙ ap length same;
        mono = λ i j le lt. (piece_starts_mono pieces 0 i j le (omega (arith, lt, count))).1;
        boundaries = refl;
      },
      refl,
    )
  where
    ok-injective : {a b : TokenOffsetMap} → ok a ≡ ok b → a ≡ b
    ok-injective e = cc

    not-false : (b : Bool) → not b ≡ false → b ≡ true
    not-false true e = refl
    not-false false e = cc

    first_start : (pieces : List Bytes) → 0 < length pieces → at (piece_starts pieces 0) 0 ≡ 0
    first_start [] h = absurd (omega arith)
    first_start (p ∷ pieces) h = refl

    zero_add : (n : ℕ) → 0 + n ≡ n
    zero_add n = omega arith

-- A range of tokens has the bytes of its first and its last token, at character boundaries.
pub token_span_to_text_range_lem :
    (text : Text) (offsets : TokenOffsetMap) (start_token end_token : ℕ) {r : TokenTextRange}
    → IsMap text offsets
    → token_span_to_text_range offsets start_token end_token ≡ ok r
    → (r.start_byte ≡ at offsets.token_starts start_token)
      × (r.end_byte ≡ at offsets.token_ends (end_token - 1))
      × IsPlace text r.start_byte r.start_char
      × IsPlace text r.end_byte r.end_char
unfolding token_span_to_text_range
token_span_to_text_range_lem text offsets start_token end_token {r} m eq =
    let (u, valid, rest) =
      >>=-eq-ok
        (raise_if (leb end_token start_token || ltb (length offsets.token_ends) end_token) _) _
        eq in
    let (a, start_found, rest') =
      >>=-eq-ok
        (or_raise (char_at_byte offsets.byte_to_char (at offsets.token_starts start_token)) _) _
        rest in
    let (b, end_found, done) =
      >>=-eq-ok
        (or_raise (char_at_byte offsets.byte_to_char (at offsets.token_ends (end_token - 1))) _) _
        rest' in
    let made : TokenTextRange = record {
      start_byte = at offsets.token_starts start_token;
      end_byte = at offsets.token_ends (end_token - 1);
      start_char = a;
      end_char = b;
    } in
    let same : made ≡ r = ok-injective done in
    rw (← same) (
      refl,
      refl,
      char_at_byte-IsPlace text (at offsets.token_starts start_token)
          (rw (← m.boundaries) (found _ _ start_found)),
      char_at_byte-IsPlace text (at offsets.token_ends (end_token - 1))
          (rw (← m.boundaries) (found _ _ end_found)),
    )
  where
    ok-injective : {a b : TokenTextRange} → ok a ≡ ok b → a ≡ b
    ok-injective e = cc

    found : (o : Option ℕ) (e : Error) {a : ℕ} → or_raise o e ≡ ok a → o ≡ some a
    found none e h = cc
    found (some a) e h = cc
