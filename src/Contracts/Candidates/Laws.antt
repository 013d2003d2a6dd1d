-- ===== src/Contracts/Candidates/Laws.antt =====
-- The value of a candidate that its contract accepts.
use veritext.Prelude.{
  ◌≡◌, refl, Text, false, not, Option, none, some, List, ◌==◌, list_eq, nat_eq, option_eq, arith,
  ok, raise_if, ◌++◌, codes, >>=-eq-ok, raise_if-eq-ok, list_beq_iff,
}
use veritext.Contracts.Candidates.{
  LensCandidate, NormalizationStatus, is_none, is_missing, missing_names, name_if_none,
  normalization_check, validate_texts, validate_lens_candidate, validate_normalization_metadata,
  validate_source_identity,
}

-- Where the value of a candidate comes from, by the status of its normalization.
abbrev pub ValueFrom : NormalizationStatus → LensCandidate → Type 0
ValueFrom NormalizationStatus.canonicalized c =
    (c.value_canonical ≡ some c.value) × (is_none c.value_verbatim ≡ false)
ValueFrom NormalizationStatus.verbatim_only c =
    (c.value_verbatim ≡ some c.value) × (c.value_canonical ≡ none)
ValueFrom _ c = c.value_canonical ≡ none

none_lem : (o : Option Text) → not (is_none o) ≡ false → o ≡ none
none_lem none e = refl
none_lem (some t) e = cc

some_lem : (t : Text) (o : Option Text) → not (some t == o) ≡ false → o ≡ some t
some_lem t none e = cc
some_lem t (some u) e = ground (arith, list_beq_iff t u)

normalization_check-ValueFrom :
    (status : NormalizationStatus) (c : LensCandidate)
    → normalization_check status c ≡ ok tt
    → ValueFrom status c
unfolding normalization_check missing_names name_if_none
normalization_check-ValueFrom NormalizationStatus.canonicalized c e =
    let (a, given, more) = >>=-eq-ok (raise_if (is_missing (missing_names c)) _) _ e in
    (
      some_lem c.value c.value_canonical
          (raise_if-eq-ok (not (some c.value == c.value_canonical)) _ more),
      verbatim c.value_verbatim _ (raise_if-eq-ok (is_missing (missing_names c)) _ given),
    )
  where
    verbatim :
        (o : Option Text) (names : List Text)
        → is_missing (name_if_none o (codes "value_verbatim") ++ names) ≡ false
        → is_none o ≡ false
    verbatim none names e = cc
    verbatim (some t) names e = refl
normalization_check-ValueFrom NormalizationStatus.verbatim_only c e =
    let (a, given, more) = >>=-eq-ok (raise_if (is_none c.value_verbatim) _) _ e in
    let (b, bare, more') = >>=-eq-ok (raise_if (not (is_none c.value_canonical)) _) _ more in
    (
      some_lem c.value c.value_verbatim
          (raise_if-eq-ok (not (some c.value == c.value_verbatim)) _ more'),
      none_lem c.value_canonical (raise_if-eq-ok (not (is_none c.value_canonical)) _ bare),
    )
normalization_check-ValueFrom NormalizationStatus.unsupported c e =
    let (a, given, more) = >>=-eq-ok (raise_if (is_none c.normalization_notes) _) _ e in
    none_lem c.value_canonical (raise_if-eq-ok (not (is_none c.value_canonical)) _ more)
normalization_check-ValueFrom NormalizationStatus.not_normalized c e =
    none_lem c.value_canonical (raise_if-eq-ok (not (is_none c.value_canonical)) _ e)

-- A candidate that its contract accepts is the one given, its span is of its document and its
-- chunk, and its value is told by the status of its normalization: it is the canonical value of
-- a canonicalized one, the verbatim value of one kept verbatim, and no other has a canonical value.
pub validate_lens_candidate-ValueFrom :
    (c : LensCandidate) {made : LensCandidate}
    → validate_lens_candidate c ≡ ok made
    → (made ≡ c)
      × (c.source_span.doc_id ≡ c.doc_id)
      × (c.source_span.chunk_id ≡ c.chunk_id)
      × ValueFrom c.normalization_status c
unfolding validate_lens_candidate validate_source_identity validate_normalization_metadata
validate_lens_candidate-ValueFrom c {made} e =
    let (a, texts, more) = >>=-eq-ok (validate_texts c) _ e in
    let (b, identity, done) = >>=-eq-ok (validate_source_identity c) (λ _. ok c) more in
    let (d, doc, more') =
      >>=-eq-ok (raise_if (not (c.source_span.doc_id == c.doc_id)) _) _ identity in
    let (f, chunk, normal) =
      >>=-eq-ok (raise_if (not (c.source_span.chunk_id == c.chunk_id)) _) _ more' in
    (
      same done,
      equal c.source_span.doc_id c.doc_id
          (raise_if-eq-ok (not (c.source_span.doc_id == c.doc_id)) _ doc),
      equal c.source_span.chunk_id c.chunk_id
          (raise_if-eq-ok (not (c.source_span.chunk_id == c.chunk_id)) _ chunk),
      normalization_check-ValueFrom c.normalization_status c normal,
    )
  where
    same : {x y : LensCandidate} → ok x ≡ ok y → y ≡ x
    same e = cc

    equal : (s t : Text) → not (s == t) ≡ false → s ≡ t
    equal s t e = ground (arith, list_beq_iff s t)
