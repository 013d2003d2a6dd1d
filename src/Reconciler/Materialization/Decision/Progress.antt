-- ===== src/Reconciler/Materialization/Decision/Progress.antt =====
-- The ids in the dict of the rejections, after it is set and sorted.
use veritext.Prelude.{
  ◌≡◌, refl, sym, ap, ◌∙◌, inl, inr, Text, Bool, true, false, ◌||◌, List, [], ◌∷◌, ◌++◌, map,
  contains, contains-append, list_beq, list_beq_iff, nat_eq, list_eq, sorted_by, insert_sorted,
  arith, Bool-cases,
}
use veritext.Contracts.Reports.{CandidateRejection}
use veritext.Reconciler.Materialization.Decision.{set_default, set_rejection}

abbrev pub ids_of : List CandidateRejection → List Text
ids_of = map (λ r. r.candidate_id)

pub set_default-ids :
    (rejections : List CandidateRejection) (r : CandidateRejection) (id : Text)
    → contains (ids_of (set_default rejections r)) id
      ≡ (contains (ids_of rejections) id || list_beq r.candidate_id id)
unfolding set_default contains
set_default-ids rejections r id = elim (Bool-cases (contains (ids_of rejections) r.candidate_id)) [
  | inl there ↦ rw there (
      known (contains (ids_of rejections) id) (list_beq r.candidate_id id) (λ e.
        ap (contains (ids_of rejections)) (sym ((list_beq_iff r.candidate_id id).0 e)) ∙ there))
  | inr new ↦ rw new (
      ap (λ l. contains l id) (map_end rejections r)
      ∙ contains-append (ids_of rejections) (r.candidate_id ∷ []) id
      ∙ last (ids_of rejections) r.candidate_id id)
]
  where
    known : (a b : Bool) → (b ≡ true → a ≡ true) → a ≡ (a || b)
    known a b h = ground arith

    map_end :
        (l : List CandidateRejection) (r : CandidateRejection)
        → ids_of (l ++ (r ∷ [])) ≡ ids_of l ++ (r.candidate_id ∷ [])
    map_end [] r = refl
    map_end (x ∷ l) r = ap (λ t. x.candidate_id ∷ t) (map_end l r)

    or_right : (b : Bool) → (b || false) ≡ b
    or_right b = ground arith

    last :
        (l : List Text) (a b : Text)
        → (contains l b || contains (a ∷ []) b) ≡ (contains l b || list_beq a b)
    last l a b = ap (λ t. contains l b || t) (or_right (list_beq a b))

pub set_rejection-ids :
    (rejections : List CandidateRejection) (r : CandidateRejection) (id : Text)
    → contains (ids_of (set_rejection rejections r)) id
      ≡ (contains (ids_of rejections) id || list_beq r.candidate_id id)
unfolding set_rejection contains
set_rejection-ids [] r id = or_right (list_beq r.candidate_id id)
  where
    or_right : (b : Bool) → (b || false) ≡ b
    or_right b = ground arith
set_rejection-ids (x ∷ rejections) r id =
    elim (Bool-cases (list_beq x.candidate_id r.candidate_id)) [
      | inl same ↦ rw same (
          ap (λ t. list_beq t id || contains (ids_of rejections) id)
            (sym ((list_beq_iff x.candidate_id r.candidate_id).0 same))
          ∙ twice (list_beq x.candidate_id id) (contains (ids_of rejections) id)
          ∙ ap
              (λ t.
                (list_beq x.candidate_id id || contains (ids_of rejections) id) || list_beq t id)
              ((list_beq_iff x.candidate_id r.candidate_id).0 same))
      | inr other ↦
          rw (other, set_rejection-ids rejections r id)
            (or_assoc (list_beq x.candidate_id id) (contains (ids_of rejections) id)
              (list_beq r.candidate_id id))
    ]
  where
    twice : (a b : Bool) → (a || b) ≡ ((a || b) || a)
    twice a b = ground arith

    or_assoc : (a b c : Bool) → (a || (b || c)) ≡ ((a || b) || c)
    or_assoc a b c = ground arith

module _ (le : CandidateRejection → CandidateRejection → Bool) where
  insert_sorted-ids :
      (r : CandidateRejection) (rejections : List CandidateRejection) (id : Text)
      → contains (ids_of (insert_sorted le r rejections)) id ≡ contains (ids_of (r ∷ rejections)) id
  unfolding insert_sorted contains
  insert_sorted-ids r [] id = refl
  insert_sorted-ids r (x ∷ rejections) id = elim (Bool-cases (le r x)) [
    | inl e ↦ rw e refl
    | inr e ↦
        rw (e, insert_sorted-ids r rejections id)
          (swap (list_beq x.candidate_id id) (list_beq r.candidate_id id)
            (contains (ids_of rejections) id))
  ]
    where
      swap : (a b c : Bool) → (a || (b || c)) ≡ (b || (a || c))
      swap a b c = ground arith

  -- Sorting keeps the ids.
  pub sorted_by-ids :
      (rejections : List CandidateRejection) (id : Text)
      → contains (ids_of (sorted_by le rejections)) id ≡ contains (ids_of rejections) id
  unfolding sorted_by contains
  sorted_by-ids [] id = refl
  sorted_by-ids (r ∷ rejections) id =
      insert_sorted-ids r (sorted_by le rejections) id
      ∙ ap (λ t. list_beq r.candidate_id id || t) (sorted_by-ids rejections id)
