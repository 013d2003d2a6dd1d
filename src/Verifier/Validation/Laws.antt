-- ===== src/Verifier/Validation/Laws.antt =====
-- What the checks of the verifier's inputs establish.
use veritext.Prelude.{
  ◌≡◌, refl, inl, inr, ◌⊎◌, false, not, Option, none, some, List, [], map, keep_if, has_items,
  has_duplicates, list_eq, nat_eq, list_beq, list_beq_iff, option_eq, All, All-map_imp, IsAmong, ok,
  ◌>>◌, raise_if, or_raise, check_all, check_all-All, >>=-eq-ok, raise_if-eq-ok, or_raise-eq-ok,
  not-false, ok-injective, codes, verifier_error,
}
use veritext.Contracts.Spans.{Chunk}
use veritext.Contracts.Candidates.{ExtractionPlan, LensCandidate, is_none}
use veritext.Contracts.Equality.Candidates.{candidate_eq}
use veritext.Contracts.Reports.{CriticReport}
use veritext.Contracts.Reviews.{accept_loop-keep_if, report_of, report_of-IsAmong}
use veritext.Critic.Validation.{chunk_by_id}
use veritext.Verifier.Validation.{
  accepted_critic_reports, check_chunk_doc, check_reviewed, is_other_correction,
  validate_verifier_inputs,
}

-- A candidate of the plan, in a chunk that is given, with an accepted report that corrects
-- nothing or has the candidate as its correction.
pub record Reviewed (plan : ExtractionPlan) (chunks : List Chunk) (accepted : List CriticReport)
    (c : LensCandidate) : Type 0 where
  pub run : c.run_id ≡ plan.run_id
  pub doc : c.doc_id ≡ plan.doc_id
  pub chunk : Chunk
  pub found : chunk_by_id chunks c.chunk_id ≡ some chunk
  pub report : CriticReport
  pub among : IsAmong report accepted
  pub of_candidate : report.candidate_id ≡ c.candidate_id
  pub correction : (report.corrected_candidate ≡ none) ⊎ (report.corrected_candidate ≡ some c)

pub is_other_correction-cases :
    (o : Option LensCandidate) (c : LensCandidate)
    → is_other_correction o c ≡ false
    → (o ≡ none) ⊎ (o ≡ some c)
unfolding is_other_correction
is_other_correction-cases none c e = inl refl
is_other_correction-cases (some d) c e =
    let equal = (candidate_eq.same_iff d c).0 (not-false e) in inr (rw equal refl)

found_chunk : (o : Option Chunk) → is_none o ≡ false → (chunk : Chunk) × (o ≡ some chunk)
found_chunk none e = cc
found_chunk (some chunk) e = (chunk, refl)

check_reviewed-Reviewed :
    (plan : ExtractionPlan) (chunks : List Chunk) (accepted : List CriticReport) (c : LensCandidate)
    → check_reviewed plan chunks accepted c ≡ ok tt
    → Reviewed plan chunks accepted c
unfolding check_reviewed
check_reviewed-Reviewed plan chunks accepted c e =
    let (u, first, rest) = >>=-eq-ok (raise_if (not (list_beq c.run_id plan.run_id)) _) _ e in
    let (v, second, more) = >>=-eq-ok (raise_if (not (list_beq c.doc_id plan.doc_id)) _) _ rest in
    let (w, third, others) =
      >>=-eq-ok (raise_if (is_none (chunk_by_id chunks c.chunk_id)) _) _ more in
    let (report, known, last) =
      >>=-eq-ok
        (or_raise (report_of (λ r. r.candidate_id) accepted c.candidate_id) (
          verifier_error
            (codes "candidate must have an accepted critic report before verification")))
        (λ report.
          raise_if (is_other_correction report.corrected_candidate c)
            (verifier_error (codes "candidate must match the accepted critic correction")))
        others in
    let (chunk, found) =
      found_chunk (chunk_by_id chunks c.chunk_id)
        (raise_if-eq-ok (is_none (chunk_by_id chunks c.chunk_id)) _ third) in
    let (among, named) =
      report_of-IsAmong (λ r. r.candidate_id) accepted c.candidate_id (or_raise-eq-ok _ _ known) in
    record {
      run =
          (list_beq_iff c.run_id plan.run_id).0
            (not-false (raise_if-eq-ok (not (list_beq c.run_id plan.run_id)) _ first));
      doc =
          (list_beq_iff c.doc_id plan.doc_id).0
            (not-false (raise_if-eq-ok (not (list_beq c.doc_id plan.doc_id)) _ second));
      chunk = chunk;
      found = found;
      report = report;
      among = among;
      of_candidate = named;
      correction =
          is_other_correction-cases report.corrected_candidate c
            (raise_if-eq-ok (is_other_correction report.corrected_candidate c) _ last);
    }

-- Inputs that the verifier takes: the accepted reports are of different candidates, and each
-- candidate is of the plan's run and document, is in a chunk that is given, and has an accepted
-- report, whose correction, where it has one, is the candidate itself.
pub validate_verifier_inputs-Reviewed :
    (plan : ExtractionPlan) (chunks : List Chunk) (candidates : List LensCandidate)
    (critic_reports : List CriticReport) {accepted : List CriticReport}
    → validate_verifier_inputs plan chunks candidates critic_reports ≡ ok accepted
    → (accepted ≡ keep_if (λ r. r.accepted) critic_reports)
      × (has_duplicates (map (λ r. r.candidate_id) accepted) ≡ false)
      × All (Reviewed plan chunks accepted) candidates
unfolding validate_verifier_inputs accepted_critic_reports
validate_verifier_inputs-Reviewed plan chunks candidates critic_reports e =
    let (u, first, rest) = >>=-eq-ok (raise_if (not (has_items chunks)) _) _ e in
    let (v, second, more) = >>=-eq-ok (check_all (check_chunk_doc plan) chunks) _ rest in
    let (reports, kept, others) =
      >>=-eq-ok (accepted_critic_reports plan critic_reports)
        (λ reports. check_all (check_reviewed plan chunks reports) candidates >> ok reports) more in
    let (w, checked, done) =
      >>=-eq-ok (check_all (check_reviewed plan chunks reports) candidates) _ others in
    let (same, runs, news, distinct) =
      accept_loop-keep_if (λ r. r.candidate_id) (λ r. r.run_id) (λ r. r.accepted) _ _ plan.run_id []
        critic_reports kept in
    rw (← ok-injective done) (
      same,
      distinct,
      All-map_imp _ _ candidates (check_reviewed-Reviewed plan chunks reports)
          (check_all-All (check_reviewed plan chunks reports) candidates checked),
    )
