-- ===== src/Reconciler/Materialization/Points.antt =====
-- Where the values of a data point come from.
use veritext.Prelude.{
  ℕ, ◌≡◌, ◌≤◌, refl, sym, ap, ◌∙◌, Text, true, false, ◌||◌, not, List, [], ◌∷◌, ◌++◌, map, min,
  has_items, contains, has_duplicates, nat_eq, list_eq, list_beq, arith, All, IsAmong, Pairs,
  map_result, map_result-Pairs, Result, ok, key_error, ◌>>=◌, raise_if, raise_if-eq-ok, or_raise,
  or_raise-eq-ok, ok-injective, not-false, >>=-eq-ok, check_all,
}
use mathlib.Core.Path.{subst}
use veritext.Contracts.Candidates.{
  ExtractionPlan, LensCandidate, require_text, validate_normalization_metadata,
}
use veritext.Contracts.Reports.{
  CriticReport, DataPoint, VerifierReport, optional_texts, validate_data_point, value_arguments,
}
use veritext.Contracts.Reviews.{report_of, report_of-IsAmong}
use veritext.Reconciler.Models.{ReconciledDataPointPayload, validate_payload}
use veritext.Reconciler.Materialization.{
  best_source_candidate_id, build_data_point, candidate_of, data_point_of, min_all,
  payload_from_group,
}

-- A check that passes gives back the data point.
pub validate_data_point-same :
    (point : DataPoint) {p : DataPoint} → validate_data_point point ≡ ok p → point ≡ p
unfolding validate_data_point
validate_data_point-same point e =
    let (u1, h1, r1) =
      >>=-eq-ok
        (check_all require_text (
          point.data_point_id ∷ point.run_id ∷ point.doc_id ∷ point.category ∷ point.field_name
          ∷ point.value ∷ point.reconciliation_decision_id ∷ point.contributing_candidate_ids))
        _ e in
    let (u2, h2, r2) = >>=-eq-ok (check_all require_text point.critic_report_ids) _ r1 in
    let (u3, h3, r3) = >>=-eq-ok (check_all require_text point.verifier_report_ids) _ r2 in
    let (u4, h4, r4) =
      >>=-eq-ok
        (raise_if
          (not (has_items point.contributing_candidate_ids)
            || not (has_items point.critic_report_ids)
            || not (has_items point.verifier_report_ids))
          _)
        _ r3 in
    let (u5, h5, r5) = >>=-eq-ok (optional_texts point) _ r4 in
    let (u6, h6, r6) =
      >>=-eq-ok (raise_if (not (list_beq point.source_span.doc_id point.doc_id)) _) _ r5 in
    let (u7, h7, r7) = >>=-eq-ok (validate_normalization_metadata (value_arguments point)) _ r6 in
    ok-injective r7

min_all-first : (best : ℕ) (ns : List ℕ) → min_all best ns ≤ best
unfolding min_all
min_all-first best [] = omega arith
min_all-first best (n ∷ ns) = omega (arith, min_all-first (min best n) ns)

min_all-All : (best : ℕ) (ns : List ℕ) → All (λ n. min_all best ns ≤ n) ns
unfolding min_all
min_all-All best [] = tt
min_all-All best (n ∷ ns) =
    (omega (arith, min_all-first (min best n) ns), min_all-All (min best n) ns)

-- A data point that is taken from a candidate: it has the candidate's category, field, value and
-- span, the candidate contributes to it, and it is as confident as its contributors at most.
pub record FromCandidate (candidates : List LensCandidate) (point : DataPoint) : Type 0 where
  pub source : LensCandidate
  pub among : IsAmong source candidates
  pub contributes : contains point.contributing_candidate_ids source.candidate_id ≡ true
  pub category : point.category ≡ source.category
  pub field_name : point.field_name ≡ source.field_name
  pub value : point.value ≡ source.value
  pub source_span : point.source_span ≡ source.source_span
  pub bounded :
      All
        (λ id.
          (c : LensCandidate) × (candidate_of candidates id ≡ ok c)
          × (point.confidence ≤ c.confidence))
        point.contributing_candidate_ids

-- A payload that is taken from a candidate.
pub record PayloadFrom (candidates : List LensCandidate) (payload : ReconciledDataPointPayload)
    : Type 0 where
  pub source : LensCandidate
  pub found : candidate_of candidates payload.source_candidate_id ≡ ok source
  pub category : payload.category ≡ source.category
  pub field_name : payload.field_name ≡ source.field_name
  pub value : payload.value ≡ source.value
  pub contributes : contains payload.contributing_candidate_ids payload.source_candidate_id ≡ true
  pub once : has_duplicates payload.contributing_candidate_ids ≡ false

module _ (payload : ReconciledDataPointPayload) where
  validate_payload-cases :
      {p : ReconciledDataPointPayload}
      → validate_payload payload ≡ ok p
      → (payload ≡ p)
        × (contains payload.contributing_candidate_ids payload.source_candidate_id ≡ true)
        × (has_duplicates payload.contributing_candidate_ids ≡ false)
  unfolding validate_payload
  validate_payload-cases e =
      let (u1, h1, r1) =
        >>=-eq-ok
          (check_all require_text (
            payload.category ∷ payload.field_name ∷ payload.value ∷ payload.source_candidate_id
            ∷ payload.contributing_candidate_ids))
          _ e in
      let (u2, h2, r2) =
        >>=-eq-ok (raise_if (not (has_items payload.contributing_candidate_ids)) _) _ r1 in
      let (u3, h3, r3) =
        >>=-eq-ok
          (raise_if (not (contains payload.contributing_candidate_ids payload.source_candidate_id))
            _)
          _ r2 in
      let (u4, h4, r4) =
        >>=-eq-ok (raise_if (has_duplicates payload.contributing_candidate_ids) _) _ r3 in
      (
        ok-injective r4,
        not-false (
            raise_if-eq-ok
              (not (contains payload.contributing_candidate_ids payload.source_candidate_id)) _ h3),
        raise_if-eq-ok (has_duplicates payload.contributing_candidate_ids) _ h4,
      )

pub payload_from_group-PayloadFrom :
    (casefold : Text → Text) (group : Text × List Text) (candidates : List LensCandidate)
    {payload : ReconciledDataPointPayload}
    → payload_from_group casefold group candidates ≡ ok payload
    → PayloadFrom candidates payload
unfolding payload_from_group
payload_from_group-PayloadFrom casefold group candidates e =
    let make : Text → LensCandidate → ReconciledDataPointPayload = λ id c. record {
      source_candidate_id = id;
      contributing_candidate_ids = group.1;
      category = c.category;
      field_name = c.field_name;
      value = c.value;
      confidence = c.confidence;
    } in
    let (source_id, best, rest) =
      >>=-eq-ok (best_source_candidate_id casefold group.0 group.1 candidates)
        (λ id. candidate_of candidates id >>= λ c. validate_payload (make id c)) e in
    let (source, found, valid) =
      >>=-eq-ok (candidate_of candidates source_id) (λ c. validate_payload (make source_id c))
        rest in
    let (same, contributes, once) = validate_payload-cases (make source_id source) valid in
    subst (PayloadFrom candidates) same (record {
      source = source;
      found = found;
      category = refl;
      field_name = refl;
      value = refl;
      contributes = contributes;
      once = once;
    })

module _ (candidates : List LensCandidate) where
  candidate_of-IsAmong :
      (id : Text) {c : LensCandidate}
      → candidate_of candidates id ≡ ok c
      → IsAmong c candidates × (c.candidate_id ≡ id)
  unfolding candidate_of
  candidate_of-IsAmong id e =
      report_of-IsAmong (λ c. c.candidate_id) candidates id
        (or_raise-eq-ok (report_of (λ c. c.candidate_id) candidates id) key_error e)

  bounds :
      (m : ℕ) (ids : List Text) (cs : List LensCandidate) (others : List ℕ)
      → Pairs (λ id c. candidate_of candidates id ≡ ok c) ids cs
      → All (λ n. m ≤ n) (map (λ c. c.confidence) cs ++ others)
      → All
          (λ id. (c : LensCandidate) × (candidate_of candidates id ≡ ok c) × (m ≤ c.confidence))
          ids
  bounds m [] [] others p h = tt
  bounds m [] (c ∷ cs) others p h = absurd p
  bounds m (id ∷ ids) [] others p h = absurd p
  bounds m (id ∷ ids) (c ∷ cs) others p h = ((c, p.0, h.0), bounds m ids cs others p.1 h.1)

  pub build_data_point-FromCandidate :
      (sha256 : Text → Text) (plan : ExtractionPlan) (payload : ReconciledDataPointPayload)
      (critics : List CriticReport) (verifiers : List VerifierReport) {point : DataPoint}
      → PayloadFrom candidates payload
      → build_data_point sha256 plan payload candidates critics verifiers ≡ ok point
      → FromCandidate candidates point
        × (point.contributing_candidate_ids ≡ payload.contributing_candidate_ids)
  unfolding build_data_point data_point_of
  build_data_point-FromCandidate sha256 plan payload critics verifiers f e =
      let ids = payload.contributing_candidate_ids in
      let critic : Text → Result CriticReport =
        λ id. or_raise (report_of (λ r. r.candidate_id) critics id) key_error in
      let verifier : Text → Result VerifierReport =
        λ id. or_raise (report_of (λ r. r.candidate_id) verifiers id) key_error in
      let (source, found, r1) =
        >>=-eq-ok (candidate_of candidates payload.source_candidate_id)
          (λ source. map_result critic ids >>= λ cs. map_result verifier ids >>= λ vs.
            map_result (candidate_of candidates) ids >>= λ contributing.
            validate_data_point (data_point_of sha256 plan payload source contributing cs vs))
          e in
      let (cs, made, r2) =
        >>=-eq-ok (map_result critic ids)
          (λ cs. map_result verifier ids >>= λ vs.
            map_result (candidate_of candidates) ids >>= λ contributing.
            validate_data_point (data_point_of sha256 plan payload source contributing cs vs))
          r1 in
      let (vs, given, r3) =
        >>=-eq-ok (map_result verifier ids)
          (λ vs. map_result (candidate_of candidates) ids >>= λ contributing.
            validate_data_point (data_point_of sha256 plan payload source contributing cs vs))
          r2 in
      let (contributing, all, valid) =
        >>=-eq-ok (map_result (candidate_of candidates) ids)
          (λ contributing.
            validate_data_point (data_point_of sha256 plan payload source contributing cs vs))
          r3 in
      let same =
        validate_data_point-same (data_point_of sha256 plan payload source contributing cs vs)
          valid in
      let equal : f.source ≡ source = ok-injective (sym f.found ∙ found) in
      let (among, named) = candidate_of-IsAmong payload.source_candidate_id found in
      subst (λ p. FromCandidate candidates p × (p.contributing_candidate_ids ≡ ids)) same
        (
          record {
            source = source;
            among = among;
            contributes = ap (contains ids) named ∙ f.contributes;
            category = f.category ∙ ap (λ c. c.category) equal;
            field_name = f.field_name ∙ ap (λ c. c.field_name) equal;
            value = f.value ∙ ap (λ c. c.value) equal;
            source_span = refl;
            bounded =
                bounds
                  (min_all payload.confidence
                    (map (λ c. c.confidence) contributing ++ map (λ r. r.alignment_score) vs))
                  ids contributing (map (λ r. r.alignment_score) vs)
                  (map_result-Pairs (candidate_of candidates) ids all)
                  (min_all-All payload.confidence
                    (map (λ c. c.confidence) contributing ++ map (λ r. r.alignment_score) vs));
          },
          refl,
        )
