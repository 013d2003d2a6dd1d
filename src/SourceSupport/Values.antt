-- ===== src/SourceSupport/Values.antt =====
-- Values that the text of their source span supports (src/extractor/source_support.py).
pub mod Laws
use veritext.Prelude.{
  has_items, Text, Bool, true, false, ◌&&◌, ◌||◌, not, List, [], ◌∷◌, map, ltb, nat_eq, list_eq,
  contains, codes, if◌then◌else◌,
}
use veritext.Contracts.Spans.{SourceSpan}
use veritext.Contracts.Candidates.{LensCandidate}
use veritext.SourceSupport.Tokens.{
  canonical_token, collapse_whitespace, ends_with, is_part_of, tokens,
}

label_fields : List Text
label_fields =
    codes "event_type"
    ∷ codes "change_type"
    ∷ codes "risk_type"
    ∷ codes "exposure_type"
    ∷ codes "action_type"
    ∷ codes "status_type"
    ∷ []

unfoldable pub is_label_field : Text → Bool
unfolding label_fields contains ends_with
is_label_field field_name = contains label_fields field_name || ends_with field_name (codes "_type")

-- `all(token in source_tokens for token in value_tokens)`
unfoldable pub all_in : List Text → List Text → Bool
unfolding contains
all_in source_tokens [] = true
all_in source_tokens (token ∷ rest) = contains source_tokens token && all_in source_tokens rest

module _ (casefold : Text → Text) where
  -- The test on the canonical tokens of a value and its source, which two functions share.
  unfoldable pub tokens_supported : Text → Text → Bool
  unfolding tokens canonical_token all_in
  tokens_supported value source =
      let source_tokens = map canonical_token (tokens casefold source) in
      let value_tokens = map canonical_token (tokens casefold value) in
      has_items value_tokens && all_in source_tokens value_tokens

  unfoldable pub source_traced_label_value : LensCandidate → Bool
  unfolding is_label_field collapse_whitespace is_part_of tokens_supported
  source_traced_label_value candidate =
      let value = casefold (collapse_whitespace candidate.value) in
      let source = casefold (collapse_whitespace candidate.source_span.text) in
      let supported = tokens_supported value source in
      if not (is_label_field candidate.field_name)
      then false
      else if has_items value && is_part_of value source
      then true
      else if supported
      then true
      else false

  unfoldable pub value_is_source_supported : LensCandidate → Bool
  unfolding collapse_whitespace is_part_of source_traced_label_value tokens_supported
  value_is_source_supported candidate =
      let value = collapse_whitespace candidate.value in
      let source = collapse_whitespace candidate.source_span.text in
      let traced = source_traced_label_value candidate in
      let supported = tokens_supported value source in
      if is_part_of (casefold value) (casefold source)
      then true
      else if traced
      then true
      else supported
