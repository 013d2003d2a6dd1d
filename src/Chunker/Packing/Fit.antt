-- ===== src/Chunker/Packing/Fit.antt =====
-- What a packed chunk may be: within the window, a table that overflows with leave, or one
-- character; and what it means that chunks cover an interval.
use veritext.Prelude.{
  ℕ, ◌+◌, ◌≤◌, ◌≡◌, ◌⊎◌, Text, true, List, All, All-append, Tiles, Tiles-append, ◌++◌, Result, ok,
  err, ◌>>=◌, [], ◌∷◌, refl, sym, inl, inr,
}
use mathlib.Core.Path.{subst}
use veritext.Contracts.Documents.{Document}
use veritext.Chunker.Config.{ChunkingConfig, ChunkBlock, ChunkSplitReason, PackedChunk}
use veritext.Chunker.Packing.Splitting.{token_count}

abbrev pub BlockTiles : ℕ → ℕ → List ChunkBlock → Type 0
BlockTiles = Tiles (λ b. b.start_char) (λ b. b.end_char)

abbrev pub ChunkTiles : ℕ → ℕ → List PackedChunk → Type 0
ChunkTiles = Tiles (λ c. c.start_char) (λ c. c.end_char)

module _ (tokenize : Text → List ℕ) (config : ChunkingConfig) (document : Document) where
  abbrev pub InWindow : ℕ → ℕ → Type 0
  InWindow first last = token_count tokenize document first last ≤ config.window_tokens

  abbrev pub Fits : PackedChunk → Type 0
  Fits c =
      InWindow c.start_char c.end_char
      ⊎ ((c.end_char ≡ c.start_char + 1) × (c.split_reason ≡ ChunkSplitReason.oversized_sentence)
          ⊎ (c.split_reason ≡ ChunkSplitReason.atomic_table_overflow)
            × (config.allow_oversized_atomic_chunks ≡ true))

  -- What a chunk of a split text may be: within the window, or one character.
  abbrev pub FitsSplit : PackedChunk → Type 0
  FitsSplit c =
      InWindow c.start_char c.end_char
      ⊎ ((c.end_char ≡ c.start_char + 1) × (c.split_reason ≡ ChunkSplitReason.oversized_sentence))

  pub FitsSplit-Fits : (c : PackedChunk) → FitsSplit c → Fits c
  FitsSplit-Fits c (inl fit) = inl fit
  FitsSplit-Fits c (inr one) = inr (inl one)

module _ (F : PackedChunk → Type 0) where
  -- The chunks tile the interval from `a` to `b`, each of which meets `F`.
  abbrev pub Cover : ℕ → ℕ → List PackedChunk → Type 0
  Cover a b chunks = ChunkTiles a b chunks × All F chunks

  pub Cover-append :
      (a b c : ℕ) (xs ys : List PackedChunk) → Cover a b xs → Cover b c ys → Cover a c (xs ++ ys)
  Cover-append a b c xs ys h k = (Tiles-append _ _ a b c xs ys h.0 k.0, All-append F xs ys h.1 k.1)

  -- A call that returns, and whose chunks cover the interval.
  abbrev pub Covers : ℕ → ℕ → Result (List PackedChunk) → Type 0
  Covers a b (ok chunks) = Cover a b chunks
  Covers a b (err e) = ⊥

  pub Cover-cons :
      (a m b : ℕ) (c : PackedChunk) (rest : List PackedChunk)
      → c.start_char ≡ a
      → c.end_char ≡ m
      → a ≤ m
      → F c
      → Cover m b rest
      → Cover a b (c ∷ rest)
  Cover-cons a m b c rest p q le fit h =
      ((p, rw q le, subst (λ k. ChunkTiles k b rest) (sym q) h.0), (fit, h.1))

  pub Cover-empty : (a : ℕ) → Cover a a []
  Cover-empty a = (refl, tt)

  -- A call whose chunks cover the rest, after a chunk for the beginning.
  pub Covers-cons :
      (a m b : ℕ) (c : PackedChunk) (r : Result (List PackedChunk))
      → c.start_char ≡ a
      → c.end_char ≡ m
      → a ≤ m
      → F c
      → Covers m b r
      → Covers a b (r >>= λ rest. ok (c ∷ rest))
  Covers-cons a m b c (ok rest) p q le fit h = Cover-cons a m b c rest p q le fit h
  Covers-cons a m b c (err e) p q le fit h = h

  pub Covers-append :
      (a m b : ℕ) (xs : List PackedChunk) (r : Result (List PackedChunk))
      → Cover a m xs
      → Covers m b r
      → Covers a b (r >>= λ rest. ok (xs ++ rest))
  Covers-append a m b xs (ok rest) h k = Cover-append a m b xs rest h k
  Covers-append a m b xs (err e) h k = k

  pub Covers-append_both :
      (a k m b : ℕ) (xs : List PackedChunk) (r s : Result (List PackedChunk))
      → Cover a k xs
      → Covers k m r
      → Covers m b s
      → Covers a b (r >>= λ ys. s >>= λ zs. ok (xs ++ (ys ++ zs)))
  Covers-append_both a k m b xs (ok ys) (ok zs) h i j =
      Cover-append a k b xs (ys ++ zs) h (Cover-append k m b ys zs i j)
  Covers-append_both a k m b xs (ok ys) (err e) h i j = j
  Covers-append_both a k m b xs (err e) s h i j = absurd i
