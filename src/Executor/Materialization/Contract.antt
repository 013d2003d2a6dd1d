-- ===== src/Executor/Materialization/Contract.antt =====
-- When the contract of a candidate accepts what is made.
use veritext.Prelude.{
  ◌≡◌, refl, inl, inr, Text, true, Option, none, some, List, [], ◌∷◌, list_eq, nat_eq, option_eq,
  All, list_beq, list_beq_iff, Bool-cases, codes, ok, check_all,
}
use veritext.Contracts.Candidates.{
  LensCandidate, has_text, require_text, require_optional, validate_lens_candidate,
  validate_normalization_metadata, validate_source_identity, validate_texts,
}
use veritext.Executor.Materialization.{with_normalization_metadata}

abbrev pub HasText : Text → Type 0
HasText t = has_text t ≡ true

require_text-HasText : (t : Text) → HasText t → require_text t ≡ ok tt
unfolding require_text
require_text-HasText t h = rw h refl

check_texts : (ts : List Text) → All HasText ts → check_all require_text ts ≡ ok tt
unfolding check_all
check_texts [] h = refl
check_texts (t ∷ ts) h = rw (require_text-HasText t h.0, check_texts ts h.1) refl

abbrev HasOptional : Option Text → Type 0
HasOptional none = Unit
HasOptional (some t) = HasText t

check_optional : (o : Option Text) → HasOptional o → require_optional o ≡ ok tt
check_optional none h = refl
check_optional (some t) h = require_text-HasText t h

pub validate_texts_lem :
    (c : LensCandidate)
    → All HasText (
        c.candidate_id ∷ c.run_id ∷ c.doc_id ∷ c.chunk_id ∷ c.category ∷ c.field_name ∷ c.value
        ∷ c.executor_call_id ∷ [])
    → HasOptional c.value_verbatim
    → HasOptional c.value_canonical
    → HasOptional c.normalization_policy_id
    → HasOptional c.normalization_policy_version
    → HasOptional c.normalization_notes
    → validate_texts c ≡ ok tt
unfolding validate_texts
validate_texts_lem c h a b d e f =
    rw
      (
        check_texts _ h,
        check_optional c.value_verbatim a,
        check_optional c.value_canonical b,
        check_optional c.normalization_policy_id d,
        check_optional c.normalization_policy_version e,
        check_optional c.normalization_notes f,
      )
      refl

pub policy_id-HasText : HasText (codes "source-traced-label")
unfolding has_text
policy_id-HasText = refl

pub version-HasText : HasText (codes "1")
unfolding has_text
version-HasText = refl

pub validate_lens_candidate_lem :
    (c : LensCandidate)
    → validate_texts c ≡ ok tt
    → c.source_span.doc_id ≡ c.doc_id
    → c.source_span.chunk_id ≡ c.chunk_id
    → validate_normalization_metadata c ≡ ok tt
    → validate_lens_candidate c ≡ ok c
unfolding validate_lens_candidate validate_source_identity
validate_lens_candidate_lem c texts doc chunk normal =
    rw
      (
        texts,
        (list_beq_iff c.source_span.doc_id c.doc_id).1 doc,
        (list_beq_iff c.source_span.chunk_id c.chunk_id).1 chunk,
        normal,
      )
      refl

pub with_normalization_metadata_lem :
    (c : LensCandidate) (value source_text : Text)
    → ((with_normalization_metadata c value source_text).source_span ≡ c.source_span)
      × ((with_normalization_metadata c value source_text).value ≡ c.value)
unfolding with_normalization_metadata
with_normalization_metadata_lem c value source_text =
    elim (Bool-cases (list_beq value source_text)) [
      | inl same ↦ rw same (refl, refl)
      | inr other ↦ rw other (refl, refl)
    ]
