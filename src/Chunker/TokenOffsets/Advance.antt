-- ===== src/Chunker/TokenOffsets/Advance.antt =====
-- How far the searches for a character boundary go.
use veritext.Prelude.{
  ℕ, zero, suc, ◌+◌, ◌-◌, ◌≤◌, ◌<◌, ◌≡◌, inl, inr, true, length, nat_beq, nat_eq, ◌==◌, ◌&&◌,
  Bool-cases, arith, ok, >>=-eq-ok, raise_if, leb,
}
use veritext.Chunker.TokenOffsets.{
  TokenOffsetMap, is_boundary, at, next_start_loop, next_token_start_at_char_boundary,
  next_end_loop, next_token_end_at_char_boundary,
}

abbrev pub StartsAtBoundary : TokenOffsetMap → ℕ → Type 0
StartsAtBoundary offsets i = is_boundary offsets.byte_to_char (at offsets.token_starts i) ≡ true

abbrev pub EndsAtBoundary : TokenOffsetMap → ℕ → Type 0
EndsAtBoundary offsets i = is_boundary offsets.byte_to_char (at offsets.token_ends (i - 1)) ≡ true

next_start_loop-le :
    (offsets : TokenOffsetMap) (rounds t p : ℕ)
    → t ≤ p
    → p < t + rounds
    → StartsAtBoundary offsets p
    → next_start_loop rounds t offsets ≤ p
unfolding next_start_loop
next_start_loop-le offsets zero t p le lt b = absurd (omega arith)
next_start_loop-le offsets (suc rounds) t p le lt b =
    elim (Bool-cases (is_boundary offsets.byte_to_char (at offsets.token_starts t))) [
      | inl here ↦ rw here le
      | inr later ↦
          rw later
            (next_start_loop-le offsets rounds (t + 1) p (ground (arith, later, b)) (omega arith) b)
    ]

le-next_start_loop :
    (offsets : TokenOffsetMap) (rounds t : ℕ) → t ≤ next_start_loop rounds t offsets
unfolding next_start_loop
le-next_start_loop offsets zero t = omega arith
le-next_start_loop offsets (suc rounds) t =
    ground (arith, le-next_start_loop offsets rounds (t + 1))

-- The search for a start does not pass a token that begins at a boundary.
pub next_token_start-le :
    (offsets : TokenOffsetMap) (t p : ℕ)
    → t ≤ p
    → p < length offsets.token_starts
    → StartsAtBoundary offsets p
    → next_token_start_at_char_boundary t offsets ≤ p
unfolding next_token_start_at_char_boundary
next_token_start-le offsets t p le lt b =
    next_start_loop-le offsets (length offsets.token_starts - t) t p le (omega arith) b

pub le-next_token_start :
    (offsets : TokenOffsetMap) (t : ℕ) → t ≤ next_token_start_at_char_boundary t offsets
unfolding next_token_start_at_char_boundary
le-next_token_start offsets t = le-next_start_loop offsets (length offsets.token_starts - t) t

next_end_loop_lem :
    (offsets : TokenOffsetMap) (rounds t : ℕ)
    → let r = next_end_loop rounds t offsets in
      (t ≤ r) × (r ≤ t + rounds) × (r < t + rounds → EndsAtBoundary offsets r)
unfolding next_end_loop
next_end_loop_lem offsets zero t = (omega arith, omega arith, λ h. absurd (omega (arith, h)))
next_end_loop_lem offsets (suc rounds) t =
    elim (Bool-cases (is_boundary offsets.byte_to_char (at offsets.token_ends (t - 1)))) [
      | inl here ↦ rw here (omega arith, omega arith, λ h. here)
      | inr later ↦
          let (a, b, c) = next_end_loop_lem offsets rounds (t + 1) in
          rw later (omega (arith, a), omega (arith, b), λ h. c (omega (arith, h)))
    ]

-- An end that the search returns is a character boundary, and not before the index given.
pub next_token_end_lem :
    (offsets : TokenOffsetMap) (t : ℕ) {r : ℕ}
    → t ≤ length offsets.token_ends
    → next_token_end_at_char_boundary t offsets ≡ ok r
    → (t ≤ r) × (0 < r) × (r ≤ length offsets.token_ends) × EndsAtBoundary offsets r
unfolding next_token_end_at_char_boundary
next_token_end_lem offsets t {r} le eq =
    let found = next_end_loop (length offsets.token_ends - t) t offsets in
    let (a, b, c) = next_end_loop_lem offsets (length offsets.token_ends - t) t in
    let (u, positive, more) = >>=-eq-ok (raise_if (leb t 0) _) _ eq in
    let (v, aligned, done) =
      >>=-eq-ok (raise_if (found == length offsets.token_ends && _) _) _ more in
    let same : found ≡ r = ok-injective done in
    rw (← same) (
      a,
      ground (arith, a, positive),
      omega (arith, b),
      elim (Bool-cases (nat_beq found (length offsets.token_ends))) [
        | inl last ↦ ground (arith, aligned)
        | inr inside ↦ c (ground (arith, inside, b))
      ],
    )
  where
    ok-injective : {a b : ℕ} → ok a ≡ ok b → a ≡ b
    ok-injective e = cc
