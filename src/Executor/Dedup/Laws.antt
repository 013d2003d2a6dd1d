-- ===== src/Executor/Dedup/Laws.antt =====
-- Deduplication loses no candidate.
use veritext.Prelude.{
  sym, ◌∙◌, append-nil, append_assoc, list_beq, list_beq_iff, nat_eq, IsAmong, All, map-append,
  exchange, swap_append, ◌≡◌, refl, ap, inl, inr, Text, List, [], ◌∷◌, ◌++◌, map, Perm,
  insert_sorted, sorted_by, sorted_by-perm, group_by, group_by-perm, flatten, Bool, Bool-cases,
}
use mathlib.Core.Path.{subst}
use mathlib.Core.List.{Mem, Nodup, Nodup-append, mem-cons_self, mem-cons_of_mem}
use mathlib.Core.List.Perm
use veritext.Contracts.Candidates.{LensCandidate}
use veritext.Executor.Dedup.Targets.{candidate_ids, merge_groups-PointsTo}
use veritext.Executor.Dedup.{
  candidate_le, dedup_groups, deduplicate_candidates, group_le, merge_groups, merge_sorted,
  merge_duplicates, set_item, same_identity,
}

module _ {A : Type 0} where
  flatten-insert_sorted :
      (le : List A → List A → Bool) (g : List A) (groups : List (List A))
      → Perm (flatten (insert_sorted le g groups)) (g ++ flatten groups)
  unfolding insert_sorted
  flatten-insert_sorted le g [] = Perm.refl (g ++ [])
  flatten-insert_sorted le g (h ∷ groups) = elim (Bool-cases (le g h)) [
    | inl e ↦ rw e (Perm.refl (g ++ (h ++ flatten groups)))
    | inr e ↦ rw e (
        Perm.trans (Perm.append_left h (flatten-insert_sorted le g groups))
          (swap_append h g (flatten groups)))
  ]

  flatten-sorted_by :
      (le : List A → List A → Bool) (groups : List (List A))
      → Perm (flatten (sorted_by le groups)) (flatten groups)
  unfolding sorted_by
  flatten-sorted_by le [] = Perm.refl []
  flatten-sorted_by le (g ∷ groups) =
      Perm.trans (flatten-insert_sorted le g (sorted_by le groups))
        (Perm.append_left g (flatten-sorted_by le groups))

-- The ids of the canonical candidates and of the merged ones.
abbrev pub all_ids : List LensCandidate × List (Text × Text) → List Text
all_ids r = map (λ c. c.candidate_id) r.0 ++ map (λ m. m.0) r.1

abbrev keys : List (Text × Text) → List Text
keys = map (λ m. m.0)

-- A new key goes to the end of the dict.
set_item-keys :
    (key value : Text) (entries : List (Text × Text))
    → (Mem key (keys entries) → ⊥)
    → keys (set_item key value entries) ≡ keys entries ++ (key ∷ [])
unfolding set_item
set_item-keys key value [] new = refl
set_item-keys key value ((other, old) ∷ entries) new = elim (Bool-cases (list_beq other key)) [
  | inl same ↦
      let e : other ≡ key = (list_beq_iff other key).0 same in
      absurd (new (subst (λ k. Mem k (other ∷ keys entries)) e mem-cons_self))
  | inr differs ↦
      rw differs
        (ap (λ l. other ∷ l) (set_item-keys key value entries (λ h. new (mem-cons_of_mem other h))))
]

merge_duplicates-keys :
    (primary_id : Text) (duplicates : List LensCandidate) (merged_into : List (Text × Text))
    → Nodup (keys merged_into ++ candidate_ids duplicates)
    → keys (merge_duplicates primary_id duplicates merged_into)
      ≡ keys merged_into ++ candidate_ids duplicates
unfolding merge_duplicates
merge_duplicates-keys primary_id [] merged_into once = sym (append-nil (keys merged_into))
merge_duplicates-keys primary_id (d ∷ duplicates) merged_into once =
    let added =
      set_item-keys d.candidate_id primary_id merged_into
        (λ h. (Nodup-append.0 once).2 d.candidate_id h mem-cons_self) in
    let same : keys (set_item d.candidate_id primary_id merged_into) ++ candidate_ids duplicates
        ≡ keys merged_into ++ (d.candidate_id ∷ candidate_ids duplicates) =
      ap (λ l. l ++ candidate_ids duplicates) added
      ∙ append_assoc (keys merged_into) (d.candidate_id ∷ []) (candidate_ids duplicates) in
    merge_duplicates-keys primary_id duplicates (set_item d.candidate_id primary_id merged_into)
      (subst Nodup (sym same) once)
    ∙ same

-- A group adds its ids, those of its primary and of its duplicates.
merge_sorted-all_ids :
    (group : List LensCandidate) (state : List LensCandidate × List (Text × Text))
    → Nodup (all_ids state ++ candidate_ids group)
    → Perm (all_ids (merge_sorted group state)) (all_ids state ++ candidate_ids group)
unfolding merge_sorted
merge_sorted-all_ids [] state once = rw append-nil (Perm.refl (all_ids state))
merge_sorted-all_ids (primary ∷ duplicates) (canonical, merged_into) once =
    let ids = candidate_ids canonical in
    let merged = keys merged_into in
    let others = candidate_ids duplicates in
    let listed : Nodup (merged ++ others) =
      (Nodup-append.0
        (Perm.nodup (exchange ids merged (primary.candidate_id ∷ []) others) once)).1 in
    rw
      (
        map-append (λ c. c.candidate_id) canonical (primary ∷ []),
        merge_duplicates-keys primary.candidate_id duplicates merged_into listed,
      )
      (exchange ids (primary.candidate_id ∷ []) merged others)

merge_groups-all_ids :
    (groups : List (List LensCandidate)) (state : List LensCandidate × List (Text × Text))
    → Nodup (all_ids state ++ candidate_ids (flatten groups))
    → Perm (all_ids (merge_groups groups state)) (all_ids state ++ candidate_ids (flatten groups))
unfolding merge_groups
merge_groups-all_ids [] state once = rw append-nil (Perm.refl (all_ids state))
merge_groups-all_ids (group ∷ groups) state once =
    let sorted = sorted_by candidate_le group in
    let later = candidate_ids (flatten groups) in
    let ids : Perm (candidate_ids sorted) (candidate_ids group) =
      Perm.map (λ c. c.candidate_id) (sorted_by-perm candidate_le group) in
    let split : all_ids state ++ candidate_ids (flatten (group ∷ groups))
        ≡ (all_ids state ++ candidate_ids group) ++ later =
      ap (λ l. all_ids state ++ l) (map-append (λ c. c.candidate_id) group (flatten groups))
      ∙ sym (append_assoc (all_ids state) (candidate_ids group) later) in
    let whole : Nodup ((all_ids state ++ candidate_ids group) ++ later) = subst Nodup split once in
    let with_group : Perm (all_ids state ++ candidate_ids sorted)
        (all_ids state ++ candidate_ids group) =
      Perm.append_left (all_ids state) ids in
    let one : Perm (all_ids (merge_sorted sorted state)) (all_ids state ++ candidate_ids group) =
      Perm.trans
        (merge_sorted-all_ids sorted state
          (Perm.nodup (Perm.symm with_group) (Nodup-append.0 whole).0))
        with_group in
    let rest =
      merge_groups-all_ids groups (merge_sorted sorted state)
        (Perm.nodup (Perm.symm (Perm.append_right later one)) whole) in
    rw split (Perm.trans rest (Perm.append_right later one))

-- Where no two candidates have the same id, deduplication loses none and makes none up: the ids
-- of the canonical candidates and of the merged ones are the ids of all candidates, each once,
-- and each merged one is merged into the id of a canonical candidate.
pub deduplicate_candidates-perm :
    (nfkc casefold : Text → Text) (candidates : List LensCandidate)
    → Nodup (map (λ c. c.candidate_id) candidates)
    → let r = deduplicate_candidates nfkc casefold candidates in
      Perm (all_ids r) (map (λ c. c.candidate_id) candidates)
      × All (λ m. IsAmong m.1 (map (λ c. c.candidate_id) r.0)) r.1
unfolding deduplicate_candidates dedup_groups
deduplicate_candidates-perm nfkc casefold candidates once =
    let groups = group_by (same_identity nfkc casefold) candidates in
    let ids : Perm (candidate_ids (flatten (sorted_by group_le groups)))
        (candidate_ids candidates) =
      Perm.map (λ c. c.candidate_id)
        (Perm.trans (flatten-sorted_by group_le groups)
          (group_by-perm (same_identity nfkc casefold) candidates)) in
    (
      Perm.trans
          (merge_groups-all_ids (sorted_by group_le groups) ([], [])
            (Perm.nodup (Perm.symm ids) once))
          ids,
      merge_groups-PointsTo (sorted_by group_le groups) ([], []) tt,
    )
