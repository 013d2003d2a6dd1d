-- ===== src/Executor/Dedup.antt =====
-- Candidates with the same canonical value (src/extractor/canonical_values.py,
-- contracts/dedup.py and executor/dedup.py). `nfkc` is `unicodedata.normalize("NFKC", ...)`,
-- `casefold` is `str.casefold`.
pub mod Targets
pub mod Laws
use veritext.Prelude.{
  ℕ, Text, Bool, true, false, ◌&&◌, ◌||◌, not, Option, none, some, List, [], ◌∷◌, ◌++◌, map, length,
  ltb, leb, ◌==◌, nat_eq, list_eq, option_eq, list_beq, contains, is_space, all_chars, strip, codes,
  sorted_by, text_le, group_by, flatten, if◌then◌else◌,
}
use mathlib.Core.List.{reverse}
use veritext.Contracts.Spans.{SourceSpan}
use veritext.Contracts.Candidates.{LensCandidate, LensName, NormalizationStatus, ValueKind}

pub data CanonicalValueSource : Type 0 where
  value value_verbatim value_canonical : CanonicalValueSource

pub record CanonicalValueKey : Type 0 where
  pub kind : ValueKind
  pub key : Text
  pub source : CanonicalValueSource
  pub policy_id : Option Text
  pub policy_version : Option Text

pub record DedupCluster : Type 0 where
  pub primary_candidate_id : Text
  pub merged_candidate_ids : List Text
  pub all_candidate_ids : List Text
  pub canonical_key : CanonicalValueKey
  pub source_span_count : ℕ

-- `text or other`
abbrev text_or : Option Text → Text → Text
text_or none other = other
text_or (some []) other = other
text_or (some (c ∷ text)) other = c ∷ text

canonical_key_source : NormalizationStatus → LensCandidate → Text × CanonicalValueSource
canonical_key_source NormalizationStatus.canonicalized c =
    (text_or c.value_canonical c.value, CanonicalValueSource.value_canonical)
canonical_key_source NormalizationStatus.verbatim_only c =
    (text_or c.value_verbatim c.value, CanonicalValueSource.value_verbatim)
canonical_key_source _ c = (c.value, CanonicalValueSource.value)

-- The table of `str.maketrans`: dashes and quotation marks.
translate_char : ℕ → ℕ
translate_char c =
    if (leb 0x2010 c && leb c 0x2015) || (c == 0x2212)
    then 0x2D
    else if leb 0x2018 c && leb c 0x2019
    then 0x27
    else if leb 0x201C c && leb c 0x201D
    then 0x22
    else c

-- `"\"'`.,;:()[]{}<>"`
stripped_chars : List ℕ
stripped_chars =
    0x22 ∷ 0x27 ∷ 0x60 ∷ 0x2E ∷ 0x2C ∷ 0x3B ∷ 0x3A ∷ 0x28 ∷ 0x29 ∷ 0x5B ∷ 0x5D ∷ 0x7B ∷ 0x7D ∷ 0x3C
    ∷ 0x3E ∷ []

lstrip_chars : List ℕ → Text → Text
unfolding contains
lstrip_chars chars [] = []
lstrip_chars chars (c ∷ text) =
    let rest = lstrip_chars chars text in if contains chars c then rest else c ∷ text

-- `text.strip(chars)`
strip_chars : List ℕ → Text → Text
unfolding lstrip_chars
strip_chars chars text = reverse (lstrip_chars chars (reverse (lstrip_chars chars text)))

-- `re.sub(r"\s+", " ", text)`, where `in_space` tells that the last character was a space.
collapse_spaces : Bool → Text → Text
unfolding is_space
collapse_spaces in_space [] = []
collapse_spaces in_space (c ∷ text) =
    let after_space = collapse_spaces true text in
    let after_char = collapse_spaces false text in
    if is_space c then if in_space then after_space else 0x20 ∷ after_space else c ∷ after_char

module _ (nfkc casefold : Text → Text) where
  normalize_key_text : Text → Text
  unfolding translate_char strip strip_chars stripped_chars collapse_spaces
  normalize_key_text text =
      let translated = map translate_char (nfkc text) in
      text_or
        (some (casefold (collapse_spaces false (strip_chars stripped_chars (strip translated)))))
        text

  unfoldable pub canonical_value_key_for_candidate : LensCandidate → CanonicalValueKey
  unfolding canonical_key_source normalize_key_text
  canonical_value_key_for_candidate c =
      let (raw_value, source) = canonical_key_source c.normalization_status c in
      record {
        kind = c.value_kind;
        key = normalize_key_text raw_value;
        source = source;
        policy_id = c.normalization_policy_id;
        policy_version = c.normalization_policy_version;
      }

kind_rank : ValueKind → ℕ
kind_rank ValueKind.text = 0
kind_rank ValueKind.number = 1
kind_rank ValueKind.date = 2
kind_rank ValueKind.datetime = 3
kind_rank ValueKind.duration = 4
kind_rank ValueKind.quantity = 5
kind_rank ValueKind.entity = 6
kind_rank ValueKind.citation = 7
kind_rank ValueKind.boolean = 8

source_rank : CanonicalValueSource → ℕ
source_rank CanonicalValueSource.value = 0
source_rank CanonicalValueSource.value_verbatim = 1
source_rank CanonicalValueSource.value_canonical = 2

lens_rank : LensName → ℕ
lens_rank LensName.entity = 0
lens_rank LensName.event = 1
lens_rank LensName.claim = 2
lens_rank LensName.number = 3
lens_rank LensName.definition = 4
lens_rank LensName.citation = 5
lens_rank LensName.temporal = 6
lens_rank LensName.quantity_with_unit = 7

unfoldable pub is_canonicalized : NormalizationStatus → Bool
is_canonicalized NormalizationStatus.canonicalized = true
is_canonicalized _ = false

unfoldable pub same_key : CanonicalValueKey → CanonicalValueKey → Bool
unfolding kind_rank source_rank list_beq
same_key a b =
    kind_rank a.kind == kind_rank b.kind
    && a.key == b.key
    && source_rank a.source == source_rank b.source
    && a.policy_id == b.policy_id
    && a.policy_version == b.policy_version

-- Equality of `_absolute_source_span_identity`.
same_place : SourceSpan → SourceSpan → Bool
unfolding list_beq
same_place a b =
    a.doc_id == b.doc_id
    && a.start_char == b.start_char
    && a.end_char == b.end_char
    && a.start_byte == b.start_byte
    && a.end_byte == b.end_byte
    && a.text == b.text

-- Equality of `_source_span_identity`.
same_span : SourceSpan → SourceSpan → Bool
unfolding same_place list_beq
same_span a b = a.chunk_id == b.chunk_id && same_place a b

candidate_le : LensCandidate → LensCandidate → Bool
unfolding text_le
candidate_le a b = text_le a.candidate_id b.candidate_id

-- `min(candidates, key=...)` of a list that begins with `best`.
primary_candidate : LensCandidate → List LensCandidate → LensCandidate
unfolding candidate_le
primary_candidate best [] = best
primary_candidate best (c ∷ cs) = primary_candidate (if candidate_le best c then best else c) cs

-- The order of the groups, by their primary candidates; no group is empty.
group_le : List LensCandidate → List LensCandidate → Bool
unfolding primary_candidate candidate_le
group_le (a ∷ others) (b ∷ rest) =
    candidate_le (primary_candidate a others) (primary_candidate b rest)
group_le _ _ = true

-- `merged_into[key] = value`, a dict as the list of its entries, in which a key that is there
-- already keeps its place and gets the new value.
set_item : Text → Text → List (Text × Text) → List (Text × Text)
unfolding list_beq
set_item key item [] = (key, item) ∷ []
set_item key item ((other, old) ∷ entries) =
    let rest = set_item key item entries in
    if list_beq other key then (other, item) ∷ entries else (other, old) ∷ rest

merge_duplicates : Text → List LensCandidate → List (Text × Text) → List (Text × Text)
unfolding set_item
merge_duplicates primary_id [] merged_into = merged_into
merge_duplicates primary_id (d ∷ duplicates) merged_into =
    merge_duplicates primary_id duplicates (set_item d.candidate_id primary_id merged_into)

-- A sorted group as its primary and its duplicates, after the groups before it.
merge_sorted :
    List LensCandidate
    → List LensCandidate × List (Text × Text)
    → List LensCandidate × List (Text × Text)
unfolding merge_duplicates
merge_sorted [] state = state
merge_sorted (primary ∷ duplicates) (canonical, merged_into) =
    (canonical ++ (primary ∷ []), merge_duplicates primary.candidate_id duplicates merged_into)

-- The loop over the groups.
pub merge_groups :
    List (List LensCandidate)
    → List LensCandidate × List (Text × Text)
    → List LensCandidate × List (Text × Text)
unfolding merge_sorted candidate_le sorted_by
merge_groups [] state = state
merge_groups (group ∷ groups) state =
    merge_groups groups (merge_sorted (sorted_by candidate_le group) state)

count_distinct_spans : List SourceSpan → ℕ
unfolding same_span
count_distinct_spans spans = length (group_by same_span spans)

module _ (nfkc casefold : Text → Text) where
  -- Equality of `_dedup_identity`.
  unfoldable pub same_identity : LensCandidate → LensCandidate → Bool
  unfolding canonical_value_key_for_candidate same_key same_place lens_rank is_canonicalized
      list_beq
  same_identity a b =
      let canonical = is_canonicalized a.normalization_status in
      let both = canonical && is_canonicalized b.normalization_status in
      let neither = not canonical && not (is_canonicalized b.normalization_status) in
      a.doc_id == b.doc_id
      && lens_rank a.lens == lens_rank b.lens
      && a.category == b.category
      && a.field_name == b.field_name
      && same_key (canonical_value_key_for_candidate nfkc casefold a)
          (canonical_value_key_for_candidate nfkc casefold b)
      && (both || neither && same_place a.source_span b.source_span)

  dedup_groups : List LensCandidate → List (List LensCandidate)
  unfolding same_identity group_le sorted_by group_by
  dedup_groups candidates = sorted_by group_le (group_by same_identity candidates)

  unfoldable pub deduplicate_candidates :
      List LensCandidate → List LensCandidate × List (Text × Text)
  unfolding dedup_groups merge_groups
  deduplicate_candidates candidates = merge_groups (dedup_groups candidates) ([], [])

  -- The cluster of a sorted group, which a group of one does not have.
  cluster_of : List LensCandidate → List DedupCluster
  unfolding canonical_value_key_for_candidate count_distinct_spans
  cluster_of (primary ∷ duplicate ∷ duplicates) =
      record {
        primary_candidate_id = primary.candidate_id;
        merged_candidate_ids = map (λ d. d.candidate_id) (duplicate ∷ duplicates);
        all_candidate_ids = map (λ d. d.candidate_id) (primary ∷ duplicate ∷ duplicates);
        canonical_key = canonical_value_key_for_candidate nfkc casefold primary;
        source_span_count =
            count_distinct_spans (map (λ d. d.source_span) (primary ∷ duplicate ∷ duplicates));
      }
      ∷ []
  cluster_of _ = []

  unfoldable pub build_dedup_clusters : List LensCandidate → List DedupCluster
  unfolding dedup_groups cluster_of candidate_le sorted_by
  build_dedup_clusters candidates =
      flatten (map (λ group. cluster_of (sorted_by candidate_le group)) (dedup_groups candidates))
