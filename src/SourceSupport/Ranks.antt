-- ===== src/SourceSupport/Ranks.antt =====
-- How specific the source of a candidate is (src/extractor/source_support.py).
use veritext.Prelude.{
  has_items, ℕ, Text, Bool, true, false, ◌&&◌, ◌||◌, not, List, [], ◌∷◌, ◌++◌, map, length, take,
  ltb, leb, ◌==◌, nat_eq, list_eq, list_beq, contains, all_chars, text_le, keep_if, codes,
  if◌then◌else◌,
}
use veritext.Contracts.Candidates.{LensCandidate}
use veritext.SourceSupport.Tokens.{canonical_token, ends_with, is_part_of, same_normalized, tokens}
use veritext.SourceSupport.Values.{
  is_label_field, source_traced_label_value, value_is_source_supported,
}

-- The tuple of a candidate. Its fourth number is 0 or negative, and stands here without its sign.
pub record SourceRank : Type 0 where
  pub unsupported : ℕ
  pub field_rank : ℕ
  pub second_rank : ℕ
  pub negated_rank : ℕ
  pub source_length : ℕ
  pub value_length : ℕ
  pub candidate_id : Text

-- `0 if b else 1`
abbrev zero_if : Bool → ℕ
zero_if true = 0
zero_if false = 1

unfoldable pub qualifier_phrases : List (List Text)
qualifier_phrases =
    (codes "approximately" ∷ [])
    ∷ (codes "approx" ∷ [])
    ∷ (codes "about" ∷ [])
    ∷ (codes "around" ∷ [])
    ∷ (codes "at" ∷ codes "least" ∷ [])
    ∷ (codes "at" ∷ codes "most" ∷ [])
    ∷ (codes "no" ∷ codes "more" ∷ codes "than" ∷ [])
    ∷ (codes "no" ∷ codes "less" ∷ codes "than" ∷ [])
    ∷ (codes "more" ∷ codes "than" ∷ [])
    ∷ (codes "less" ∷ codes "than" ∷ [])
    ∷ (codes "up" ∷ [])
    ∷ (codes "down" ∷ [])
    ∷ []

scoped_metric_tokens : List Text
scoped_metric_tokens =
    codes "annual"
    ∷ codes "fy"
    ∷ codes "full"
    ∷ codes "full-year"
    ∷ codes "fullyear"
    ∷ codes "q1"
    ∷ codes "q2"
    ∷ codes "q3"
    ∷ codes "q4"
    ∷ codes "quarter"
    ∷ codes "quarterly"
    ∷ codes "year"
    ∷ codes "year-end"
    ∷ codes "yearend"
    ∷ []

generic_metric_role_tokens : List Text
generic_metric_role_tokens = codes "guidance" ∷ codes "metric" ∷ codes "measure" ∷ []

-- The comparisons at every index, from the left; a phrase longer than the tokens is at none.
unfoldable pub contains_phrase : List Text → List Text → Bool
unfolding list_beq
contains_phrase [] phrase = not (has_items phrase)
contains_phrase (token ∷ rest) phrase =
    list_beq (take (length phrase) (token ∷ rest)) phrase || contains_phrase rest phrase

has_one_phrase : List (List Text) → List Text → Bool
unfolding contains_phrase
has_one_phrase [] words = false
has_one_phrase (phrase ∷ phrases) words =
    contains_phrase words phrase || has_one_phrase phrases words

unfoldable pub has_qualifier_phrase : List Text → Bool
unfolding qualifier_phrases has_one_phrase
has_qualifier_phrase words = has_one_phrase qualifier_phrases words

-- `tokens & others`, as a condition.
shares_token : List Text → List Text → Bool
unfolding contains
shares_token others [] = false
shares_token others (token ∷ rest) = contains others token || shares_token others rest

-- `token.isdigit() and len(token) == 4`, of a token of `[a-z0-9]`.
is_year : Text → Bool
unfolding all_chars
is_year token = all_chars (λ c. leb 0x30 c && leb c 0x39) token && length token == 4

has_year : List Text → Bool
unfolding is_year
has_year [] = false
has_year (token ∷ rest) = is_year token || has_year rest

has_scoped_metric_token : List Text → Bool
unfolding shares_token scoped_metric_tokens has_year
has_scoped_metric_token words = shares_token scoped_metric_tokens words || has_year words

is_percentage_or_exposure_field : Text → Bool
unfolding ends_with is_part_of
is_percentage_or_exposure_field field_name =
    ends_with field_name (codes "_pct")
    || ends_with field_name (codes "_percentage")
    || ends_with field_name (codes "_rate")
    || is_part_of (codes "exposure") field_name

is_name_field : Text → Bool
unfolding list_beq ends_with
is_name_field field_name =
    list_beq field_name (codes "metric_name") || ends_with field_name (codes "_name")

module _ (casefold : Text → Text) where
  label_value_shape : LensCandidate → ℕ
  unfolding source_traced_label_value same_normalized
  label_value_shape candidate =
      if not (source_traced_label_value casefold candidate)
      then 2
      else if same_normalized casefold candidate.value candidate.source_span.text
      then 1
      else 0

  label_extra_source_token_count : LensCandidate → ℕ
  unfolding tokens canonical_token contains
  label_extra_source_token_count candidate =
      let value_tokens = map canonical_token (tokens casefold candidate.value) in
      let source_tokens = map canonical_token (tokens casefold candidate.source_span.text) in
      if not (has_items value_tokens)
      then length source_tokens
      else length (keep_if (λ token. not (contains value_tokens token)) source_tokens)

  percentage_qualifier_rank : LensCandidate → ℕ
  unfolding tokens has_qualifier_phrase
  percentage_qualifier_rank candidate =
      let source_has_qualifier =
        has_qualifier_phrase (tokens casefold candidate.source_span.text) in
      let value_has_qualifier = has_qualifier_phrase (tokens casefold candidate.value) in
      if source_has_qualifier && value_has_qualifier
      then 0
      else if source_has_qualifier
      then 2
      else 1

  name_field_rank : LensCandidate → ℕ × ℕ × ℕ
  unfolding same_normalized tokens has_scoped_metric_token shares_token generic_metric_role_tokens
      list_beq
  name_field_rank candidate =
      let words = tokens casefold (candidate.value ++ (codes " " ++ candidate.source_span.text)) in
      if not (list_beq candidate.category (codes "ForwardGuidance"))
        || not (list_beq candidate.field_name (codes "metric_name"))
      then (zero_if (same_normalized casefold candidate.value candidate.source_span.text), 0, 0)
      else (
        zero_if (has_scoped_metric_token words),
        zero_if (not (shares_token generic_metric_role_tokens words)),
        length (tokens casefold candidate.value),
      )

  -- The branches by the field, each as three numbers.
  field_ranks : LensCandidate → ℕ × ℕ × ℕ
  unfolding is_label_field label_extra_source_token_count label_value_shape
      is_percentage_or_exposure_field percentage_qualifier_rank is_name_field name_field_rank
      same_normalized
  field_ranks candidate =
      if is_label_field candidate.field_name
      then (label_extra_source_token_count candidate, label_value_shape candidate, 0)
      else if is_percentage_or_exposure_field candidate.field_name
      then (percentage_qualifier_rank candidate, 0, 0)
      else if is_name_field candidate.field_name
      then name_field_rank candidate
      else (zero_if (same_normalized casefold candidate.value candidate.source_span.text), 0, 0)

  unfoldable pub candidate_source_specificity_rank : LensCandidate → SourceRank
  unfolding value_is_source_supported field_ranks
  candidate_source_specificity_rank candidate =
      let (first, second, negated) = field_ranks candidate in
      record {
        unsupported = zero_if (value_is_source_supported casefold candidate);
        field_rank = first;
        second_rank = second;
        negated_rank = negated;
        source_length = length candidate.source_span.text;
        value_length = length candidate.value;
        candidate_id = candidate.candidate_id;
      }

-- `a <= b` of one place of a tuple, with the rest of the tuple where they are equal.
abbrev place_le : ℕ → ℕ → Bool → Bool
place_le a b rest = ltb a b || (a == b && rest)

-- `a <= b` of two tuples.
unfoldable pub source_rank_le : SourceRank → SourceRank → Bool
unfolding text_le
source_rank_le a b = place_le a.unsupported b.unsupported (
    place_le a.field_rank b.field_rank (
      place_le a.second_rank b.second_rank (
        place_le b.negated_rank a.negated_rank (
          place_le a.source_length b.source_length
            (place_le a.value_length b.value_length (text_le a.candidate_id b.candidate_id))))))

module _ (casefold : Text → Text) where
  -- `min(candidates, key=candidate_source_specificity_rank)`: the first of those that are least.
  unfoldable pub min_source_rank : LensCandidate → List LensCandidate → LensCandidate
  unfolding source_rank_le candidate_source_specificity_rank
  min_source_rank best [] = best
  min_source_rank best (candidate ∷ candidates) =
      min_source_rank
        (if source_rank_le (candidate_source_specificity_rank casefold best)
            (candidate_source_specificity_rank casefold candidate)
          then best
          else candidate)
        candidates
