-- ===== src/Contracts/Candidates.antt =====
-- Plans, candidates and rejection reasons, and the validators of a candidate
-- (src/extractor/contracts/base.py, models.py and normalization.py).
pub mod Laws
use veritext.Prelude.{
  ℕ, Text, Bool, true, false, ◌&&◌, ◌||◌, not, Option, none, some, List, [], ◌∷◌, ◌++◌, leb, ◌==◌,
  nat_eq, list_eq, option_eq, any_char, join_texts, list_beq, codes, Result, ok, err,
  validation_error, ◌>>=◌, ◌>>◌, raise_if, check_all, if◌then◌else◌,
}
use veritext.Contracts.Spans.{SourceSpan}

pub data LensName : Type 0 where
  entity event claim number definition citation temporal quantity_with_unit : LensName

pub data RejectionReasonCode : Type 0 where
  invalid_source_offsets invented_span category_not_approved : RejectionReasonCode
  critic_rejected verifier_rejected reconciler_rejected : RejectionReasonCode
  schema_violation ambiguous_source_span duplicate_candidate : RejectionReasonCode

pub record RejectionReason : Type 0 where
  pub code : RejectionReasonCode
  pub message : Text

pub data ValueKind : Type 0 where
  text number date datetime duration quantity entity citation boolean : ValueKind

pub data NormalizationStatus : Type 0 where
  not_normalized verbatim_only canonicalized unsupported : NormalizationStatus

pub record FieldDefinition : Type 0 where
  pub name : Text
  pub description : Text
  pub value_type : Text
  pub required : Bool

pub record CategoryDefinition : Type 0 where
  pub name : Text
  pub description : Text
  pub fields : List FieldDefinition

pub record LensBudget : Type 0 where
  pub lens : LensName
  pub max_calls : ℕ

-- The hints, the schema metadata, the chunk policy and the concurrency are left out.
pub record ExtractionPlan : Type 0 where
  pub run_id : Text
  pub doc_id : Text
  pub approved_categories : List CategoryDefinition
  pub enabled_lenses : List LensName
  pub lens_budgets : List LensBudget

pub record LensCandidate : Type 0 where
  pub candidate_id : Text
  pub run_id : Text
  pub doc_id : Text
  pub chunk_id : Text
  pub lens : LensName
  pub category : Text
  pub field_name : Text
  pub value : Text
  pub source_span : SourceSpan
  -- A float of the interval from 0 to 1, as its multiple of 2 ^ -1074.
  pub confidence : ℕ
  pub executor_call_id : Text
  pub value_verbatim : Option Text
  pub value_canonical : Option Text
  pub value_kind : ValueKind
  pub normalization_status : NormalizationStatus
  pub normalization_policy_id : Option Text
  pub normalization_policy_version : Option Text
  pub normalization_notes : Option Text

abbrev pub is_none {ℓ} : {A : Type ℓ} → Option A → Bool
is_none none = true
is_none (some a) = false

-- What `\S` does not match in the patterns of pydantic: the Unicode white space.
is_white_space : ℕ → Bool
is_white_space c =
    (leb 9 c && leb c 13)
    || (c == 0x20)
    || (c == 0x85)
    || (c == 0xA0)
    || (c == 0x1680)
    || (leb 0x2000 c && leb c 0x200A)
    || (c == 0x2028)
    || (c == 0x2029)
    || (c == 0x202F)
    || (c == 0x205F)
    || (c == 0x3000)

-- The pattern `.*\S.*` of `NonEmptyStr`, which is searched for.
unfoldable pub has_text : Text → Bool
unfolding is_white_space any_char
has_text = any_char (λ c. not (is_white_space c))

unfoldable pub require_text : Text → Result (Unit {0})
unfolding has_text
require_text t =
    raise_if (not (has_text t)) (validation_error (codes "String should match pattern '.*\\S.*'"))

-- An optional text, which must have text where it is there.
abbrev pub require_optional : Option Text → Result (Unit {0})
require_optional none = ok tt
require_optional (some t) = require_text t

-- The name of a value that is missing, for the list of those.
pub name_if_none : Option Text → Text → List Text
name_if_none none name = name ∷ []
name_if_none (some t) name = []

pub missing_names : LensCandidate → List Text
unfolding name_if_none
missing_names c =
    name_if_none c.value_verbatim (codes "value_verbatim")
    ++ (name_if_none c.value_canonical (codes "value_canonical")
        ++ (name_if_none c.normalization_policy_id (codes "normalization_policy_id")
            ++ name_if_none c.normalization_policy_version (codes "normalization_policy_version")))

-- `if missing:`
abbrev pub is_missing : List Text → Bool
is_missing [] = false
is_missing (name ∷ names) = true

-- The branches of `validate_normalization_metadata` by the status.
pub normalization_check : NormalizationStatus → LensCandidate → Result (Unit {0})
unfolding list_beq missing_names join_texts
normalization_check NormalizationStatus.canonicalized c = do
  let missing = missing_names c
  raise_if (is_missing missing) (
      validation_error
        (codes "canonicalized normalization requires " ++ join_texts (codes ", ") missing))
  raise_if (not (some c.value == c.value_canonical))
      (validation_error (codes "value must equal value_canonical when canonicalized"))
normalization_check NormalizationStatus.verbatim_only c = do
  raise_if (is_none c.value_verbatim)
      (validation_error (codes "verbatim_only normalization requires value_verbatim"))
  raise_if (not (is_none c.value_canonical))
      (validation_error (codes "verbatim_only normalization must not include value_canonical"))
  raise_if (not (some c.value == c.value_verbatim))
      (validation_error (codes "value must equal value_verbatim when verbatim_only"))
normalization_check NormalizationStatus.unsupported c = do
  raise_if (is_none c.normalization_notes)
      (validation_error (codes "unsupported normalization requires normalization_notes"))
  raise_if (not (is_none c.value_canonical))
      (validation_error (codes "unsupported normalization must not include value_canonical"))
normalization_check NormalizationStatus.not_normalized c =
    raise_if (not (is_none c.value_canonical))
      (validation_error (codes "not_normalized values must not include value_canonical"))

unfoldable pub validate_normalization_metadata : LensCandidate → Result (Unit {0})
unfolding normalization_check
validate_normalization_metadata c = normalization_check c.normalization_status c

-- The fields of a candidate that must have text, and those that may be missing.
unfoldable pub validate_texts : LensCandidate → Result (Unit {0})
unfolding require_text check_all
validate_texts c = do
  check_all require_text (
      c.candidate_id ∷ c.run_id ∷ c.doc_id ∷ c.chunk_id ∷ c.category ∷ c.field_name ∷ c.value
      ∷ c.executor_call_id ∷ [])
  require_optional c.value_verbatim
  require_optional c.value_canonical
  require_optional c.normalization_policy_id
  require_optional c.normalization_policy_version
  require_optional c.normalization_notes

-- `LensCandidate.validate_source_identity`
unfoldable pub validate_source_identity : LensCandidate → Result (Unit {0})
unfolding validate_normalization_metadata list_beq
validate_source_identity c = do
  raise_if (not (c.source_span.doc_id == c.doc_id))
      (validation_error (codes "source_span doc_id must match candidate doc_id"))
  raise_if (not (c.source_span.chunk_id == c.chunk_id))
      (validation_error (codes "source_span chunk_id must match candidate chunk_id"))
  validate_normalization_metadata c

-- What the construction of a `LensCandidate` checks.
unfoldable pub validate_lens_candidate : LensCandidate → Result LensCandidate
unfolding validate_texts validate_source_identity
validate_lens_candidate c = do validate_texts c; validate_source_identity c; ok c
