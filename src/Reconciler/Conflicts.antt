-- ===== src/Reconciler/Conflicts.antt =====
-- Data points of one field with different values (src/extractor/reconciler/conflicts.py).
-- `nfkc` is `unicodedata.normalize("NFKC", ...)`, `casefold` is `str.casefold`.
pub mod Laws
use veritext.Prelude.{
  ℕ, Text, Bool, true, false, ◌&&◌, ◌||◌, not, Option, none, some, List, [], ◌∷◌, ◌++◌, map, take,
  keep_if, leb, length, ◌==◌, nat_eq, list_eq, list_beq, has_items, group_by, sorted_by, text_le,
  join_texts, codes, if◌then◌else◌,
}
use veritext.Contracts.Candidates.{ValueKind}
use veritext.Contracts.Reports.{ConflictStatus, DataPoint, value_arguments}
use veritext.Executor.Dedup.{
  CanonicalValueKey, CanonicalValueSource, canonical_value_key_for_candidate, is_canonicalized,
  same_key,
}

same_field : DataPoint → DataPoint → Bool
unfolding list_beq
same_field a b =
    list_beq a.doc_id b.doc_id
    && list_beq a.category b.category
    && list_beq a.field_name b.field_name

kind_text : ValueKind → Text
kind_text ValueKind.text = codes "text"
kind_text ValueKind.number = codes "number"
kind_text ValueKind.date = codes "date"
kind_text ValueKind.datetime = codes "datetime"
kind_text ValueKind.duration = codes "duration"
kind_text ValueKind.quantity = codes "quantity"
kind_text ValueKind.entity = codes "entity"
kind_text ValueKind.citation = codes "citation"
kind_text ValueKind.boolean = codes "boolean"

key_source_text : CanonicalValueSource → Text
key_source_text CanonicalValueSource.value = codes "value"
key_source_text CanonicalValueSource.value_verbatim = codes "value_verbatim"
key_source_text CanonicalValueSource.value_canonical = codes "value_canonical"

-- `"" if part is None else str(part)`
optional_text : Option Text → Text
optional_text none = []
optional_text (some t) = t

key_part : CanonicalValueKey → Text
unfolding join_texts kind_text key_source_text optional_text
key_part key = join_texts (codes ":") (
    kind_text key.kind
    ∷ key.key
    ∷ key_source_text key.source
    ∷ optional_text key.policy_id
    ∷ optional_text key.policy_version
    ∷ [])

-- `conflict_updates.get(id)`: of the updates of one id the last counts.
update_of : List (Text × Text) → Text → Option Text
unfolding list_beq
update_of [] id = none
update_of (update ∷ updates) id = elim (update_of updates id) [
  | some later ↦ some later
  | none ↦ if list_beq update.0 id then some update.1 else none
]

unfoldable pub mark : Option Text → DataPoint → DataPoint
mark none point = point
mark (some group_id) point = record point {
  conflict_status = ConflictStatus.unresolved;
  conflict_group_id = some group_id;
  conflict_reason = some (codes "same_field_distinct_canonical_values");
}

module _ (nfkc casefold sha256 : Text → Text) where
  unfoldable pub canonical_value_key_for_data_point : DataPoint → CanonicalValueKey
  unfolding canonical_value_key_for_candidate
  canonical_value_key_for_data_point point =
      canonical_value_key_for_candidate nfkc casefold (value_arguments point)

  stable_conflict_group_id : DataPoint → List DataPoint → Text
  unfolding sorted_by text_le key_part canonical_value_key_for_data_point join_texts
  stable_conflict_group_id first rest =
      let key_parts =
        sorted_by text_le
          (map (λ p. key_part (canonical_value_key_for_data_point p)) (first ∷ rest)) in
      let identity =
        join_texts (codes "|")
          (first.run_id ∷ first.doc_id ∷ first.category ∷ first.field_name ∷ key_parts) in
      codes "conflict-" ++ take 32 (sha256 identity)

  -- `len(canonical_keys)`
  pub count_keys : List DataPoint → ℕ
  unfolding group_by same_key canonical_value_key_for_data_point
  count_keys points = length (group_by same_key (map canonical_value_key_for_data_point points))

  -- The updates for the comparable data points of one field.
  pub field_updates : List DataPoint → List (Text × Text)
  unfolding count_keys stable_conflict_group_id
  field_updates [] = []
  field_updates (first ∷ rest) =
      if leb (count_keys (first ∷ rest)) 1
      then []
      else map (λ p. (p.data_point_id, stable_conflict_group_id first rest)) (first ∷ rest)

  pub conflict_updates : List (List DataPoint) → List (Text × Text)
  unfolding field_updates is_canonicalized
  conflict_updates [] = []
  conflict_updates (group ∷ groups) =
      field_updates (keep_if (λ p. is_canonicalized p.normalization_status) group)
      ++ conflict_updates groups

  unfoldable pub mark_unresolved_conflicts : List DataPoint → List DataPoint
  unfolding conflict_updates same_field group_by update_of mark
  mark_unresolved_conflicts points =
      let updates = conflict_updates (group_by same_field points) in
      if not (has_items updates)
      then points
      else map (λ p. mark (update_of updates p.data_point_id) p) points
