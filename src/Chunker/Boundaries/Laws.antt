-- ===== src/Chunker/Boundaries/Laws.antt =====
-- The page map that the boundary check accepts, and the order of the boundaries.
use veritext.Prelude.{
  ℕ, ◌≤◌, ◌≡◌, ◌↔◌, List, [], ◌∷◌, length, nat_eq, arith, ok, >>=-eq-ok, All, Tiles,
}
use veritext.Contracts.Documents.{Document, PageSpan}
use veritext.Chunker.Boundaries.{coverage_loop, validate_page_map_coverage}

abbrev pub TilesChars : ℕ → ℕ → List PageSpan → Type 0
TilesChars = Tiles (λ p. p.start_char) (λ p. p.end_char)

abbrev pub TilesBytes : ℕ → ℕ → List PageSpan → Type 0
TilesBytes = Tiles (λ p. p.start_byte) (λ p. p.end_byte)

-- A page whose ends do not come before its starts, as the contract of a page demands.
abbrev pub IsPage : PageSpan → Type 0
IsPage p = (p.start_char ≤ p.end_char) × (p.start_byte ≤ p.end_byte)

coverage_loop-Tiles :
    (pages : List PageSpan) (c b : ℕ) {ends : ℕ × ℕ}
    → All IsPage pages
    → coverage_loop pages c b ≡ ok ends
    → TilesChars c ends.0 pages × TilesBytes b ends.1 pages
unfolding coverage_loop
coverage_loop-Tiles [] c b h e = (ground arith, ground arith)
coverage_loop-Tiles (p ∷ ps) c b {ends} h e =
    let (same, more) = first_page in
    let (chars, bytes) = coverage_loop-Tiles ps p.end_char p.end_byte h.1 more in
    ((same.0, omega (arith, same, h.0), chars), (same.1, omega (arith, same, h.0), bytes))
  where
    first_page :
        ((p.start_char ≡ c) × (p.start_byte ≡ b))
        × (coverage_loop ps p.end_char p.end_byte ≡ ok ends)
    first_page = ground arith

Tiles-coverage_loop :
    (pages : List PageSpan) (c b n m : ℕ)
    → TilesChars c n pages
    → TilesBytes b m pages
    → coverage_loop pages c b ≡ ok (n, m)
unfolding coverage_loop
Tiles-coverage_loop [] c b n m h k = cc
Tiles-coverage_loop (p ∷ ps) c b n m h k =
    let ih = Tiles-coverage_loop ps p.end_char p.end_byte n m h.2 k.2 in
    ground (arith, h.0, k.0, ih)

-- The check of the page map passes exactly when the pages, in their order, tile the text of the
-- document in characters and its declared length in bytes. The pages are those that the contract
-- of a page admits.
pub validate_page_map_coverage-Tiles :
    (document : Document)
    → All IsPage document.page_map
    → (validate_page_map_coverage document ≡ ok tt) ↔ (
        TilesChars 0 (length document.text) document.page_map
        × TilesBytes 0 document.text_byte_length document.page_map)
unfolding validate_page_map_coverage
validate_page_map_coverage-Tiles document h = (
  λ e.
      let (ends, looped, done) = >>=-eq-ok (coverage_loop document.page_map 0 0) _ e in
      let (chars, bytes) = coverage_loop-Tiles document.page_map 0 0 h looped in
      let same : (ends.0 ≡ length document.text) × (ends.1 ≡ document.text_byte_length) =
        (ground arith, ground arith) in
      (rw (← same.0) chars, rw (← same.1) bytes),
  λ (chars, bytes). rw (Tiles-coverage_loop document.page_map 0 0 _ _ chars bytes) (ground arith),
)
