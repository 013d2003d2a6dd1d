-- ===== src/Verifier/Policies/Objections.antt =====
-- When the objection of a verdict is kept (src/extractor/verifier/policies.py).
use veritext.Prelude.{
  ◌≡◌, refl, sym, ap, ◌∙◌, inl, inr, ◌⊎◌, ◌↔◌, Text, Bool, true, false, ◌||◌, not, some, List, [],
  ◌∷◌, arith, Bool-cases, if◌then◌else◌, ok, ◌>>=◌, >>=-eq-ok, or_raise-eq-ok, ok-injective, codes,
  verifier_error, or_raise,
}
use veritext.Contracts.Spans.{Chunk}
use veritext.Contracts.Candidates.{
  ExtractionPlan, LensCandidate, RejectionReason, RejectionReasonCode, require_text,
}
use veritext.Contracts.Equality.{reason_eq}
use veritext.Contracts.Reports.{validate_rejection_reason}
use veritext.Executor.Policies.{span_matches_chunk}
use veritext.SourceSupport.Values.{value_is_source_supported}
use veritext.Verifier.Policies.{
  candidate_schema_approved, is_contradicted_llm_reason, kept_llm_reasons,
}
use veritext.Verifier.Verdicts.{
  VerifierDecision, VerifierVerdict, llm_rejection_reasons, reason_message, reasons_of,
  required_code,
}

-- The one reason of a verdict that rejects.
record Asked (decision : VerifierDecision) (verdict : VerifierVerdict)
    (reasons : List RejectionReason) : Type 0 where
  reason : RejectionReason
  rejects : decision ≡ VerifierDecision.reject
  has_code : verdict.code ≡ some reason.code
  only : reasons ≡ reason ∷ []

reasons_of-cases :
    (decision : VerifierDecision) (verdict : VerifierVerdict) {reasons : List RejectionReason}
    → reasons_of decision verdict ≡ ok reasons
    → ((decision ≡ VerifierDecision.accept) × (reasons ≡ [])) ⊎ Asked decision verdict reasons
unfolding reasons_of required_code validate_rejection_reason
reasons_of-cases VerifierDecision.accept verdict e = inl (refl, sym (ok-injective e))
reasons_of-cases VerifierDecision.reject verdict e =
    let (code, known, rest) =
      >>=-eq-ok
        (or_raise verdict.code
          (verifier_error (codes "rejected verifier verdict must include a rejection code")))
        (λ code.
          validate_rejection_reason
            (record { code = code; message = reason_message verdict.evidence code })
          >>= λ reason. ok (reason ∷ []))
        e in
    let made : RejectionReason = record {
      code = code;
      message = reason_message verdict.evidence code;
    } in
    let (reason, valid, done) =
      >>=-eq-ok (validate_rejection_reason made) (λ reason. ok (reason ∷ [])) rest in
    let (u, texts, same) = >>=-eq-ok (require_text made.message) (λ u. ok made) valid in
    inr (record {
      reason = made;
      rejects = refl;
      has_code = or_raise-eq-ok verdict.code _ known;
      only = sym (ok-injective done) ∙ ap (λ r. r ∷ []) (sym (ok-injective same));
    })

contradicted-none :
    (code : RejectionReasonCode) (m a s : Bool)
    → (m || a || s) ≡ false
    → is_contradicted_llm_reason code m a s ≡ false
unfolding is_contradicted_llm_reason
contradicted-none RejectionReasonCode.invalid_source_offsets m a s h = ground arith
contradicted-none RejectionReasonCode.invented_span m a s h = ground arith
contradicted-none RejectionReasonCode.category_not_approved m a s h = ground arith
contradicted-none RejectionReasonCode.critic_rejected m a s h = refl
contradicted-none RejectionReasonCode.verifier_rejected m a s h = refl
contradicted-none RejectionReasonCode.reconciler_rejected m a s h = refl
contradicted-none RejectionReasonCode.schema_violation m a s h = ground arith
contradicted-none RejectionReasonCode.ambiguous_source_span m a s h = ground arith
contradicted-none RejectionReasonCode.duplicate_candidate m a s h = refl

false≢true : false ≡ true → ⊥
false≢true e = cc

-- What shows that an objection with a code is wrong: that the span matches, that the schema
-- approves the field, that the source supports the value, or some of these together.
abbrev pub Refutes : RejectionReasonCode → Type 0 → Type 0 → Type 0 → Type 0
Refutes RejectionReasonCode.invalid_source_offsets Matches Approved Supported = Matches
Refutes RejectionReasonCode.ambiguous_source_span Matches Approved Supported = Matches
Refutes RejectionReasonCode.invented_span Matches Approved Supported = Matches × Supported
Refutes RejectionReasonCode.category_not_approved Matches Approved Supported = Approved
Refutes RejectionReasonCode.schema_violation Matches Approved Supported =
    Matches × Approved × Supported
Refutes _ Matches Approved Supported = ⊥

is_contradicted-Refutes :
    (code : RejectionReasonCode) (m a s : Bool)
    → (is_contradicted_llm_reason code m a s ≡ true) ↔ Refutes code (m ≡ true) (a ≡ true) (s ≡ true)
unfolding is_contradicted_llm_reason
is_contradicted-Refutes RejectionReasonCode.invalid_source_offsets m a s = (λ e. e, λ h. h)
is_contradicted-Refutes RejectionReasonCode.invented_span m a s =
    (λ e. (ground arith, ground arith), λ h. ground (arith, h.0, h.1))
is_contradicted-Refutes RejectionReasonCode.category_not_approved m a s = (λ e. e, λ h. h)
is_contradicted-Refutes RejectionReasonCode.critic_rejected m a s =
    (λ e. false≢true e, λ h. absurd h)
is_contradicted-Refutes RejectionReasonCode.verifier_rejected m a s =
    (λ e. false≢true e, λ h. absurd h)
is_contradicted-Refutes RejectionReasonCode.reconciler_rejected m a s =
    (λ e. false≢true e, λ h. absurd h)
is_contradicted-Refutes RejectionReasonCode.schema_violation m a s =
    (λ e. (ground arith, ground arith, ground arith), λ h. ground (arith, h.0, h.1, h.2))
is_contradicted-Refutes RejectionReasonCode.ambiguous_source_span m a s = (λ e. e, λ h. h)
is_contradicted-Refutes RejectionReasonCode.duplicate_candidate m a s =
    (λ e. false≢true e, λ h. absurd h)

kept_one :
    {A : Type 0} (x : A) (any contradicted : Bool)
    → (any ≡ false → contradicted ≡ false)
    → ((if any then (if not contradicted then x ∷ [] else []) else x ∷ []) ≡ [])
      ↔ (contradicted ≡ true)
kept_one x true true h = (λ e. refl, λ e. refl)
kept_one x true false h = (λ e. absurd cc, λ e. absurd cc)
kept_one x false c h = (λ e. absurd cc, λ e. absurd (false≢true (sym (h refl) ∙ e)))

module _ (casefold : Text → Text) where
  -- A verdict that rejects with a code that the checks do not refute.
  pub record Objects (plan : ExtractionPlan) (chunk : Chunk) (candidate : LensCandidate)
      (verdict : VerifierVerdict) : Type 0 where
    pub code : RejectionReasonCode
    pub rejects : verdict.decision ≡ VerifierDecision.reject
    pub has_code : verdict.code ≡ some code
    pub stands :
        Refutes code
          (span_matches_chunk candidate.source_span chunk ≡ true)
          (candidate_schema_approved plan candidate ≡ true)
          (value_is_source_supported casefold candidate ≡ true)
        → ⊥

module _ (casefold sha256 : Text → Text) where
  kept_llm_reasons-one :
      (plan : ExtractionPlan) (chunk : Chunk) (candidate : LensCandidate) (reason : RejectionReason)
      → (kept_llm_reasons casefold sha256 plan chunk candidate (reason ∷ []) ≡ []) ↔ (
          is_contradicted_llm_reason reason.code
            (span_matches_chunk candidate.source_span chunk)
            (candidate_schema_approved plan candidate)
            (value_is_source_supported casefold candidate)
          ≡ true)
  unfolding kept_llm_reasons
  kept_llm_reasons-one plan chunk candidate reason = kept_one reason _ _ (
      contradicted-none reason.code (span_matches_chunk candidate.source_span chunk)
        (candidate_schema_approved plan candidate) (value_is_source_supported casefold candidate))

  kept_llm_reasons-none :
      (plan : ExtractionPlan) (chunk : Chunk) (candidate : LensCandidate)
      → kept_llm_reasons casefold sha256 plan chunk candidate [] ≡ []
  unfolding kept_llm_reasons
  kept_llm_reasons-none plan chunk candidate =
      elim (Bool-cases (
        span_matches_chunk candidate.source_span chunk
        || candidate_schema_approved plan candidate
        || value_is_source_supported casefold candidate)) [ inl e ↦ rw e refl | inr e ↦ rw e refl ]

  pub kept_llm_reasons-empty :
      (plan : ExtractionPlan) (chunk : Chunk) (candidate : LensCandidate)
      (verdict : VerifierVerdict) {reasons : List RejectionReason}
      → llm_rejection_reasons verdict ≡ ok reasons
      → (kept_llm_reasons casefold sha256 plan chunk candidate reasons ≡ [])
        ↔ (Objects casefold plan chunk candidate verdict → ⊥)
  unfolding llm_rejection_reasons
  kept_llm_reasons-empty plan chunk candidate verdict e =
      elim (reasons_of-cases verdict.decision verdict e) [
        | inl accepts ↦ (
          λ h o. accept≢reject (sym accepts.0 ∙ o.rejects),
          λ h.
              ap (kept_llm_reasons casefold sha256 plan chunk candidate) accepts.1
              ∙ kept_llm_reasons-none plan chunk candidate,
        )
        | inr a ↦
            let one = kept_llm_reasons-one plan chunk candidate a.reason in
            let kept = ap (kept_llm_reasons casefold sha256 plan chunk candidate) a.only in
            (
              λ h o.
                  let same : a.reason.code ≡ o.code =
                    some-injective (sym a.has_code ∙ o.has_code) in
                  let contradicted = one.0 (sym kept ∙ h) in
                  let stands = o.stands in
                  stands (
                    (is_contradicted-Refutes o.code _ _ _).0 (
                      ap (λ code. is_contradicted_llm_reason code _ _ _) (sym same)
                      ∙ contradicted)),
              λ h.
                  elim (Bool-cases (
                    is_contradicted_llm_reason a.reason.code
                      (span_matches_chunk candidate.source_span chunk)
                      (candidate_schema_approved plan candidate)
                      (value_is_source_supported casefold candidate))) [
                        | inl contradicted ↦ kept ∙ one.1 contradicted
                        | inr stands ↦ absurd (
                            h (record {
                              code = a.reason.code;
                              rejects = a.rejects;
                              has_code = a.has_code;
                              stands = λ r.
                                  false≢true (
                                    sym stands ∙ (is_contradicted-Refutes a.reason.code _ _ _).1 r);
                            }))
                      ],
            )
      ]
    where
      accept≢reject : VerifierDecision.accept ≡ VerifierDecision.reject → ⊥
      accept≢reject h = cc

      some-injective : {A : Type 0} {a b : A} → some a ≡ some b → a ≡ b
      some-injective h = cc
