-- ===== src/Reconciler/Materialization/Decision/Fresh.antt =====
-- A group that gives no reason takes only candidates that no earlier group has taken.
use veritext.Prelude.{
  ◌≡◌, sym, ap, ◌∙◌, inl, inr, Text, false, List, [], ◌∷◌, ◌++◌, has_items, has_items-false,
  contains, has_items-distinct_from, distinct_from, nat_eq, list_eq, Bool-cases, All, ok, ◌>>=◌,
  ok-injective, >>=-eq-ok,
}
use veritext.Contracts.Candidates.{ExtractionPlan, LensCandidate, RejectionReason}
use veritext.Contracts.Equality.{reason_eq}
use veritext.Executor.Policies.{approved_category_fields, schema_reasons}
use veritext.Executor.Policies.Provenance.{append-empty}
use veritext.Verifier.Policies.{merged_rejection_reasons}
use veritext.Reconciler.Models.{ReconciledDataPointPayload}
use veritext.Reconciler.Materialization.{
  candidate_of, contributor_reasons, contributors_reasons, data_point_rejection_reasons,
}

contributor_reasons-empty :
    (payload : ReconciledDataPointPayload) (accounted : List Text) (id : Text) (c : LensCandidate)
    → contributor_reasons payload accounted id c ≡ []
    → contains accounted id ≡ false
unfolding contributor_reasons
contributor_reasons-empty payload accounted id c e = elim (Bool-cases (contains accounted id)) [
  | inl there ↦ absurd (cons≢nil (rw there at e))
  | inr new ↦ new
]
  where
    cons≢nil : {A : Type 0} {a : A} {l : List A} → a ∷ l ≡ [] → ⊥
    cons≢nil h = cc

module _ (payload : ReconciledDataPointPayload) (candidates : List LensCandidate) where
  contributors_reasons-empty :
      (accounted ids : List Text) {reasons : List RejectionReason}
      → contributors_reasons payload candidates accounted ids ≡ ok reasons
      → reasons ≡ []
      → All (λ id. contains accounted id ≡ false) ids
  unfolding contributors_reasons
  contributors_reasons-empty accounted [] e empty = tt
  contributors_reasons-empty accounted (id ∷ ids) e empty =
      let (c, found, r1) =
        >>=-eq-ok (candidate_of candidates id)
          (λ c. contributors_reasons payload candidates accounted ids >>= λ reasons.
            ok (contributor_reasons payload accounted id c ++ reasons))
          e in
      let (others, rest, done) =
        >>=-eq-ok (contributors_reasons payload candidates accounted ids)
          (λ reasons. ok (contributor_reasons payload accounted id c ++ reasons)) r1 in
      let parts =
        (append-empty (contributor_reasons payload accounted id c) others).0
          (ok-injective done ∙ empty) in
      (
        contributor_reasons-empty payload accounted id c parts.0,
        contributors_reasons-empty accounted ids rest parts.1,
      )

  -- Where a group gives no reason, none of its candidates is accounted before.
  pub data_point_rejection_reasons-empty :
      (plan : ExtractionPlan) (source : LensCandidate) (accounted : List Text)
      {reasons : List RejectionReason}
      → data_point_rejection_reasons plan payload candidates source accounted ≡ ok reasons
      → has_items reasons ≡ false
      → All (λ id. contains accounted id ≡ false) payload.contributing_candidate_ids
  unfolding data_point_rejection_reasons merged_rejection_reasons
  data_point_rejection_reasons-empty plan source accounted e empty =
      let schema =
        schema_reasons
          (record source { category = payload.category; field_name = payload.field_name })
          (approved_category_fields plan payload.category) in
      let (reasons, made, done) =
        >>=-eq-ok
          (contributors_reasons payload candidates accounted payload.contributing_candidate_ids)
          (λ reasons. ok (distinct_from [] (schema ++ reasons))) e in
      let none_left : has_items (schema ++ reasons) ≡ false =
        sym (has_items-distinct_from (schema ++ reasons))
        ∙ ap has_items (ok-injective done)
        ∙ empty in
      contributors_reasons-empty accounted payload.contributing_candidate_ids made
        ((append-empty schema reasons).0 (has_items-false (schema ++ reasons) none_left)).1
