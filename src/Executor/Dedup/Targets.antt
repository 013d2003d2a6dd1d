-- ===== src/Executor/Dedup/Targets.antt =====
-- Where the merged candidates point to.
use veritext.Prelude.{
  All-map_imp, list_beq, nat_eq, IsAmong, All, map-append, refl, inl, inr, Text, List, [], ◌∷◌,
  ◌++◌, map, sorted_by, Bool-cases,
}
use veritext.Contracts.Candidates.{LensCandidate}
use veritext.Executor.Dedup.{candidate_le, merge_groups, merge_sorted, merge_duplicates, set_item}

abbrev pub candidate_ids : List LensCandidate → List Text
candidate_ids = map (λ c. c.candidate_id)

IsAmong-append_left : {A : Type 0} (a : A) (xs ys : List A) → IsAmong a xs → IsAmong a (xs ++ ys)
IsAmong-append_left a [] ys h = absurd h
IsAmong-append_left a (x ∷ xs) ys (inl same) = inl same
IsAmong-append_left a (x ∷ xs) ys (inr later) = inr (IsAmong-append_left a xs ys later)

IsAmong-last : {A : Type 0} (a : A) (xs : List A) → IsAmong a (xs ++ (a ∷ []))
IsAmong-last a [] = inl refl
IsAmong-last a (x ∷ xs) = inr (IsAmong-last a xs)

-- Every entry of the dict points to one of some ids.
abbrev PointsTo : List Text → List (Text × Text) → Type 0
PointsTo ids = All (λ m. IsAmong m.1 ids)

set_item-PointsTo :
    (ids : List Text) (key item : Text) (entries : List (Text × Text))
    → IsAmong item ids
    → PointsTo ids entries
    → PointsTo ids (set_item key item entries)
unfolding set_item
set_item-PointsTo ids key item [] known h = (known, tt)
set_item-PointsTo ids key item ((other, old) ∷ entries) known h =
    elim (Bool-cases (list_beq other key)) [
      | inl same ↦ rw same (known, h.1)
      | inr differs ↦ rw differs (h.0, set_item-PointsTo ids key item entries known h.1)
    ]

merge_duplicates-PointsTo :
    (ids : List Text) (primary_id : Text) (duplicates : List LensCandidate)
    (merged_into : List (Text × Text))
    → IsAmong primary_id ids
    → PointsTo ids merged_into
    → PointsTo ids (merge_duplicates primary_id duplicates merged_into)
unfolding merge_duplicates
merge_duplicates-PointsTo ids primary_id [] merged_into known h = h
merge_duplicates-PointsTo ids primary_id (d ∷ duplicates) merged_into known h =
    merge_duplicates-PointsTo ids primary_id duplicates _ known
      (set_item-PointsTo ids d.candidate_id primary_id merged_into known h)

merge_sorted-PointsTo :
    (group : List LensCandidate) (state : List LensCandidate × List (Text × Text))
    → PointsTo (candidate_ids state.0) state.1
    → let r = merge_sorted group state in PointsTo (candidate_ids r.0) r.1
unfolding merge_sorted
merge_sorted-PointsTo [] state h = h
merge_sorted-PointsTo (primary ∷ duplicates) (canonical, merged_into) h =
    rw (map-append (λ c. c.candidate_id) canonical (primary ∷ [])) (
      merge_duplicates-PointsTo _ primary.candidate_id duplicates merged_into
        (IsAmong-last primary.candidate_id (candidate_ids canonical))
        (All-map_imp _ _ merged_into
          (λ m. IsAmong-append_left m.1 (candidate_ids canonical) (primary.candidate_id ∷ [])) h))

pub merge_groups-PointsTo :
    (groups : List (List LensCandidate)) (state : List LensCandidate × List (Text × Text))
    → PointsTo (candidate_ids state.0) state.1
    → let r = merge_groups groups state in PointsTo (candidate_ids r.0) r.1
unfolding merge_groups
merge_groups-PointsTo [] state h = h
merge_groups-PointsTo (group ∷ groups) state h =
    merge_groups-PointsTo groups _ (merge_sorted-PointsTo (sorted_by candidate_le group) state h)
