-- ===== src/Reconciler/Models.antt =====
-- The decision of the language model (src/extractor/reconciler/models.py).
use veritext.Prelude.{
  ℕ, Text, not, List, ◌∷◌, map, has_items, contains, has_duplicates, nat_eq, list_eq, codes, Result,
  ok, validation_error, ◌>>◌, raise_if, check_all,
}
use veritext.Contracts.Candidates.{RejectionReasonCode, require_text}

-- A group has the candidate that it is taken from and all that contribute to it.
pub record ReconciliationBatch : Type 0 where
  pub groups : List (Text × List Text)
  pub rejected : List (Text × RejectionReasonCode)

check_group : Text × List Text → Result (Unit {0})
unfolding contains has_duplicates require_text check_all
check_group group = do
  check_all require_text (group.0 ∷ group.1)
  raise_if (not (contains group.1 group.0)) (
      validation_error
        (codes "group source_candidate_id must be one of contributing_candidate_ids"))
  raise_if (has_duplicates group.1)
      (validation_error (codes "group contributing_candidate_ids must be unique"))

-- The fields of the batch, then `validate_groups`.
unfoldable pub validate_reconciliation_batch_model :
    ReconciliationBatch → Result ReconciliationBatch
unfolding check_all check_group has_duplicates require_text
validate_reconciliation_batch_model batch = do
  check_all check_group batch.groups
  check_all (λ r. require_text r.0) batch.rejected
  raise_if (has_duplicates (map (λ r. r.0) batch.rejected))
      (validation_error (codes "rejected candidate IDs must be unique"))
  ok batch

pub record ReconciledDataPointPayload : Type 0 where
  pub source_candidate_id : Text
  pub contributing_candidate_ids : List Text
  pub category : Text
  pub field_name : Text
  pub value : Text
  pub confidence : ℕ

unfoldable pub validate_payload : ReconciledDataPointPayload → Result ReconciledDataPointPayload
unfolding require_text check_all contains has_duplicates
validate_payload payload = do
  check_all require_text (
      payload.category ∷ payload.field_name ∷ payload.value ∷ payload.source_candidate_id
      ∷ payload.contributing_candidate_ids)
  raise_if (not (has_items payload.contributing_candidate_ids))
      (validation_error (codes "Tuple should have at least 1 item after validation"))
  raise_if (not (contains payload.contributing_candidate_ids payload.source_candidate_id))
      (validation_error (codes "source_candidate_id must be one of contributing_candidate_ids"))
  raise_if (has_duplicates payload.contributing_candidate_ids)
      (validation_error (codes "contributing_candidate_ids must be unique"))
  ok payload
