-- ===== src/Verifier/Batch/Laws.antt =====
-- What the review of a batch, and of all candidates, gives.
use veritext.Prelude.{
  ℕ, ◌<◌, ◌≡◌, refl, sym, ap, ◌∙◌, Text, some, List, [], ◌∷◌, map, Perm, flatten, All, All-map_imp,
  Pairs, map_result, map_result-Pairs, ok, ◌>>=◌, or_raise, or_raise-eq-ok, ok-injective, >>=-eq-ok,
  key_error,
}
use mathlib.Core.Path.{subst}
use mathlib.Core.List.Perm
use veritext.Contracts.Spans.{Chunk}
use veritext.Contracts.Candidates.{ExtractionPlan, LensCandidate}
use veritext.Contracts.Reports.{CriticReport}
use veritext.Critic.Batching.{partition_into_batches}
use veritext.Critic.Batching.Laws.{IsBatch, partition_into_batches-perm}
use veritext.Critic.Validation.{chunk_by_id}
use veritext.Verifier.Verdicts.{VerifierVerdict}
use veritext.Verifier.Policies.Laws.{Grounded}
use veritext.Verifier.Validation.{validate_verifier_inputs}
use veritext.Verifier.Batch.Accounts.{
  Accounts, all_results-Accounts, no_result-Accounts, review_candidate-Accounts,
}
use veritext.Verifier.Batch.{
  VerifierTaskResult, all_results, check_reported, check_views, review_candidate,
  short_candidate_id, verdict_of, verify_answered, verify_batch, verify_candidates,
}

module _ (casefold lower sha256 : Text → Text) where
  abbrev pub HasVerdict : List VerifierVerdict → LensCandidate → Type 0
  HasVerdict verdicts candidate =
      (verdict : VerifierVerdict) × (verdict_of verdicts
          (short_candidate_id casefold lower sha256 candidate.candidate_id)
        ≡ some verdict)

  reviewed :
      (Good : LensCandidate → Type 0) (plan : ExtractionPlan) (chunk : Chunk)
      (verdicts : List VerifierVerdict) (call_id : Text) (batch : List LensCandidate)
      (rs : List VerifierTaskResult)
      → All (λ c. Grounded casefold plan chunk c → Good c) batch
      → Pairs
          (λ c r. review_candidate casefold lower sha256 plan chunk verdicts call_id c ≡ ok r)
          batch
          rs
      → All (HasVerdict verdicts) batch × Pairs (λ c r. Accounts Good (c ∷ []) r) batch rs
  reviewed Good plan chunk verdicts call_id [] [] i h = (tt, tt)
  reviewed Good plan chunk verdicts call_id [] (r ∷ rs) i h = absurd h
  reviewed Good plan chunk verdicts call_id (c ∷ cs) [] i h = absurd h
  reviewed Good plan chunk verdicts call_id (c ∷ cs) (r ∷ rs) i h =
      let (given, counted) =
        review_candidate-Accounts casefold lower sha256 Good plan chunk verdicts call_id c i.0
          h.0 in
      let (others, rest) = reviewed Good plan chunk verdicts call_id cs rs i.1 h.1 in
      ((given, others), (counted, rest))

  verify_batch-Good :
      (Good : LensCandidate → Type 0) (plan : ExtractionPlan) (chunk : Chunk)
      (batch : List LensCandidate) (critic_reports : List CriticReport)
      (verdicts : List VerifierVerdict) (call_id : Text) {r : VerifierTaskResult}
      → All (λ c. Grounded casefold plan chunk c → Good c) batch
      → verify_batch casefold lower sha256 plan chunk batch critic_reports verdicts call_id ≡ ok r
      → All (HasVerdict verdicts) batch × Accounts Good batch r
  unfolding verify_batch
  verify_batch-Good Good plan chunk batch critic_reports verdicts call_id imply e =
      let review = review_candidate casefold lower sha256 plan chunk verdicts call_id in
      let (u, views, rest) = >>=-eq-ok (check_views casefold lower sha256 [] batch) _ e in
      let (reports, reported, more) =
        >>=-eq-ok (map_result (check_reported casefold lower sha256 critic_reports) batch)
          (λ reported. map_result review batch >>= λ results. ok (all_results results)) rest in
      let (results, made, done) =
        >>=-eq-ok (map_result review batch) (λ results. ok (all_results results)) more in
      let (given, counted) =
        reviewed Good plan chunk verdicts call_id batch results imply
          (map_result-Pairs review batch made) in
      (
        given,
        subst (Accounts Good batch) (ok-injective done) (
            subst (λ l. Accounts Good l (all_results results)) (singles batch)
              (all_results-Accounts Good (λ c. c ∷ []) batch results counted)),
      )
    where
      singles : (cs : List LensCandidate) → flatten (map (λ c. c ∷ []) cs) ≡ cs
      singles [] = refl
      singles (c ∷ cs) = ap (λ l. c ∷ l) (singles cs)

  -- A batch that the verifier reviews has a verdict for each of its candidates: where one is
  -- missing the review raises, and no candidate of the batch is rejected. Each candidate is
  -- accepted or rejected, the accepted ones are grounded in the chunk, and each rejection is of
  -- a rejected candidate.
  pub verify_batch-Accounts :
      (plan : ExtractionPlan) (chunk : Chunk) (batch : List LensCandidate)
      (critic_reports : List CriticReport) (verdicts : List VerifierVerdict) (call_id : Text)
      {r : VerifierTaskResult}
      → verify_batch casefold lower sha256 plan chunk batch critic_reports verdicts call_id ≡ ok r
      → All (HasVerdict verdicts) batch × Accounts (Grounded casefold plan chunk) batch r
  verify_batch-Accounts plan chunk batch critic_reports verdicts call_id e =
      verify_batch-Good (Grounded casefold plan chunk) plan chunk batch critic_reports verdicts
        call_id (itself batch) e
    where
      itself :
          (cs : List LensCandidate)
          → All (λ c. Grounded casefold plan chunk c → Grounded casefold plan chunk c) cs
      itself [] = tt
      itself (c ∷ cs) = (λ g. g, itself cs)

  -- A candidate that is grounded in the chunk that it names.
  pub record InChunk (plan : ExtractionPlan) (chunks : List Chunk) (candidate : LensCandidate)
      : Type 0 where
    pub chunk : Chunk
    pub found : chunk_by_id chunks candidate.chunk_id ≡ some chunk
    pub grounded : Grounded casefold plan chunk candidate

  verify_answered-Accounts :
      (plan : ExtractionPlan) (chunks : List Chunk) (reports : List CriticReport)
      (answer : List LensCandidate → List VerifierVerdict × Text) (n : ℕ)
      (batch : List LensCandidate) {r : VerifierTaskResult}
      → IsBatch n batch
      → verify_answered casefold lower sha256 plan chunks reports answer batch ≡ ok r
      → Accounts (InChunk plan chunks) batch r
  unfolding verify_answered
  verify_answered-Accounts plan chunks reports answer n [] b e = absurd cc
  verify_answered-Accounts plan chunks reports answer n (c ∷ cs) b e =
      let (chunk, known, rest) =
        >>=-eq-ok (or_raise (chunk_by_id chunks c.chunk_id) key_error)
          (λ chunk.
            verify_batch casefold lower sha256 plan chunk (c ∷ cs) reports (answer (c ∷ cs)).0
              (answer (c ∷ cs)).1)
          e in
      let found = or_raise-eq-ok (chunk_by_id chunks c.chunk_id) key_error known in
      let named : c.chunk_id ≡ b.chunk_id = b.one_chunk.0 in
      (verify_batch-Good (InChunk plan chunks) plan chunk (c ∷ cs) reports (answer (c ∷ cs)).0
        (answer (c ∷ cs)).1
        (All-map_imp (λ d. d.chunk_id ≡ b.chunk_id)
          (λ d. Grounded casefold plan chunk d → InChunk plan chunks d) (c ∷ cs)
          (λ d same grounded. record {
            chunk = chunk;
            found = ap (chunk_by_id chunks) (same ∙ sym named) ∙ found;
            grounded = grounded;
          })
          b.one_chunk)
        rest).1

  answered :
      (plan : ExtractionPlan) (chunks : List Chunk) (reports : List CriticReport)
      (answer : List LensCandidate → List VerifierVerdict × Text) (n : ℕ)
      (batches : List (List LensCandidate)) (rs : List VerifierTaskResult)
      → All (IsBatch n) batches
      → Pairs
          (λ b r. verify_answered casefold lower sha256 plan chunks reports answer b ≡ ok r)
          batches
          rs
      → Pairs (λ b r. Accounts (InChunk plan chunks) b r) batches rs
  answered plan chunks reports answer n [] [] a h = tt
  answered plan chunks reports answer n [] (r ∷ rs) a h = absurd h
  answered plan chunks reports answer n (b ∷ bs) [] a h = absurd h
  answered plan chunks reports answer n (b ∷ bs) (r ∷ rs) a h = (
    verify_answered-Accounts plan chunks reports answer n b a.0 h.0,
    answered plan chunks reports answer n bs rs a.1 h.1,
  )

  -- Whatever the language model answers, a verification that returns, for batches of a positive
  -- size, loses no candidate: each is accepted or rejected, each accepted one is grounded in the
  -- chunk that it names, and each rejection is of a rejected candidate.
  pub verify_candidates-Accounts :
      (plan : ExtractionPlan) (chunks : List Chunk) (candidates : List LensCandidate)
      (critic_reports : List CriticReport) (batch_size : ℕ)
      (answer : List LensCandidate → List VerifierVerdict × Text) {r : VerifierTaskResult}
      → 0 < batch_size
      → verify_candidates casefold lower sha256 plan chunks candidates critic_reports batch_size
          answer
        ≡ ok r
      → Accounts (InChunk plan chunks) candidates r
  unfolding verify_candidates
  verify_candidates-Accounts plan chunks [] critic_reports batch_size answer pos e =
      subst (Accounts (InChunk plan chunks) []) (ok-injective e)
        (no_result-Accounts (InChunk plan chunks))
  verify_candidates-Accounts plan chunks (c ∷ cs) critic_reports batch_size answer pos e =
      let (reports, valid, rest) =
        >>=-eq-ok (validate_verifier_inputs plan chunks (c ∷ cs) critic_reports)
          (λ reports. partition_into_batches (c ∷ cs) batch_size >>= λ batches.
            map_result (verify_answered casefold lower sha256 plan chunks reports answer) batches
            >>= λ results. ok (all_results results))
          e in
      let (made, batches, same, sizes) = partition_into_batches-perm (c ∷ cs) batch_size pos in
      let (results, all, done) =
        >>=-eq-ok
          (map_result (verify_answered casefold lower sha256 plan chunks reports answer) made)
          (λ results. ok (all_results results)) (rw batches at rest) in
      let counted =
        all_results-Accounts (InChunk plan chunks) (λ b. b) made results
          (answered plan chunks reports answer batch_size made results sizes (
            map_result-Pairs (verify_answered casefold lower sha256 plan chunks reports answer) made
              all)) in
      subst (Accounts (InChunk plan chunks) (c ∷ cs)) (ok-injective done) (record {
        all =
            Perm.trans counted.all
              (subst (λ l. Perm (flatten l) (c ∷ cs)) (sym (map_same made)) same);
        good = counted.good;
        rejections = counted.rejections;
      })
    where
      map_same : {A : Type 0} (l : List A) → map (λ x. x) l ≡ l
      map_same [] = refl
      map_same (x ∷ l) = ap (λ t. x ∷ t) (map_same l)
