-- ===== src/Chunker/TokenOffsets/Starts.antt =====
-- What the offset map of a text holds: byte boundaries are the lengths of prefixes, and a token
-- begins where the one before it ends.
use veritext.Prelude.{
  ℕ, zero, suc, ◌+◌, ◌≤◌, ◌<◌, ◌≡◌, refl, ap, inl, inr, Text, Bytes, some, List, [], ◌∷◌, length,
  length-append, take, nat_eq, nat_beq, nat_beq_iff, Bool-cases, encode, encode_char, byte_length,
  arith,
}
use veritext.Chunker.TokenOffsets.{
  boundary_entries, byte_to_char_boundaries, char_at_byte, piece_starts, piece_ends, join_pieces,
  at,
}

-- `byte` is the offset of the character `c` of the text.
abbrev pub IsPlace : Text → ℕ → ℕ → Type 0
IsPlace text byte c = (c ≤ length text) × (byte ≡ byte_length (take c text))

char_at_byte-boundary_entries :
    (text : Text) (cursor i byte : ℕ) {c : ℕ}
    → char_at_byte (boundary_entries text cursor i) byte ≡ some c
    → (k : ℕ) × (c ≡ i + k) × (k ≤ length text) × (byte ≡ cursor + byte_length (take k text))
unfolding char_at_byte boundary_entries encode
char_at_byte-boundary_entries [] cursor i byte h = cc
char_at_byte-boundary_entries (x ∷ text) cursor i byte h =
    elim (Bool-cases (nat_beq (cursor + length (encode_char x)) byte)) [
      | inl here ↦ (
        1,
        omega (arith, some-injective (rw here at h)),
        omega arith,
        omega (arith, (nat_beq_iff _ byte).0 here, length-append (encode_char x) []),
      )
      | inr later ↦
          let (k, e, le, b) =
            char_at_byte-boundary_entries text (cursor + length (encode_char x)) (suc i) byte
              (rw later at h) in
          (
            suc k,
            omega (arith, e),
            omega (arith, le),
            omega (arith, b, length-append (encode_char x) (encode (take k text))),
          )
    ]
  where
    some-injective : {a b : ℕ} → some a ≡ some b → a ≡ b
    some-injective e = cc

-- A boundary that the dict knows is the length of a prefix, in characters and in bytes.
pub char_at_byte-IsPlace :
    (text : Text) (byte : ℕ) {c : ℕ}
    → char_at_byte (byte_to_char_boundaries text) byte ≡ some c
    → IsPlace text byte c
unfolding char_at_byte byte_to_char_boundaries encode
char_at_byte-IsPlace text byte {c} h = elim (Bool-cases (nat_beq 0 byte)) [
  | inl here ↦
      let e : 0 ≡ c = some-injective (rw here at h) in
      rw (← e, ← (nat_beq_iff 0 byte).0 here) (omega arith, refl)
  | inr later ↦
      let (k, e, le, b) = char_at_byte-boundary_entries text 0 0 byte (rw later at h) in
      let same : c ≡ k = omega (arith, e) in rw same (le, omega (arith, b))
]
  where
    some-injective : {a b : ℕ} → some a ≡ some b → a ≡ b
    some-injective e = cc

pub length-piece_starts :
    (pieces : List Bytes) (cursor : ℕ) → length (piece_starts pieces cursor) ≡ length pieces
unfolding piece_starts
length-piece_starts [] cursor = refl
length-piece_starts (p ∷ pieces) cursor = ap suc (length-piece_starts pieces (cursor + length p))

pub length-piece_ends :
    (pieces : List Bytes) (cursor : ℕ) → length (piece_ends pieces cursor) ≡ length pieces
unfolding piece_ends
length-piece_ends [] cursor = refl
length-piece_ends (p ∷ pieces) cursor = ap suc (length-piece_ends pieces (cursor + length p))

-- A token begins where the token before it ends.
pub at-piece_starts :
    (pieces : List Bytes) (cursor i : ℕ)
    → suc i < length pieces
    → at (piece_starts pieces cursor) (suc i) ≡ at (piece_ends pieces cursor) i
unfolding piece_starts piece_ends
at-piece_starts [] cursor i h = absurd (omega arith)
at-piece_starts (p ∷ []) cursor i h = absurd (omega arith)
at-piece_starts (p ∷ q ∷ pieces) cursor zero h = refl
at-piece_starts (p ∷ q ∷ pieces) cursor (suc i) h =
    at-piece_starts (q ∷ pieces) (cursor + length p) i (omega arith)

-- The last token ends where the joined pieces end.
pub at-piece_ends_last :
    (pieces : List Bytes) (cursor i : ℕ)
    → suc i ≡ length pieces
    → at (piece_ends pieces cursor) i ≡ cursor + length (join_pieces pieces)
unfolding piece_ends join_pieces
at-piece_ends_last [] cursor i h = absurd (omega arith)
at-piece_ends_last (p ∷ []) cursor zero h = omega (arith, length-append p [])
at-piece_ends_last (p ∷ []) cursor (suc i) h = absurd (omega arith)
at-piece_ends_last (p ∷ q ∷ pieces) cursor zero h = absurd (omega arith)
at-piece_ends_last (p ∷ q ∷ pieces) cursor (suc i) h = omega (
  arith,
  at-piece_ends_last (q ∷ pieces) (cursor + length p) i (omega arith),
  length-append p (join_pieces (q ∷ pieces)),
)
