-- ===== src/Contracts/Equality.antt =====
-- `==` of the contracts, field by field (src/extractor/contracts/base.py), as instances
-- that decide the equality.
pub mod Candidates
use veritext.Prelude.{
  ℕ, ◌≡◌, refl, sym, ap, ◌∙◌, Text, Bool, true, false, ◌&&◌, Option, none, some, List, [], ◌∷◌,
  HasEquality, nat_eq, list_eq, option_eq, get_elem?, codes,
}
use veritext.Contracts.Candidates.{
  LensName, NormalizationStatus, RejectionReason, RejectionReasonCode, ValueKind,
}

-- Equality by an encoding that a function undoes.
abbrev pub eq_by :
    {A B : Type 0} ⦃h : HasEquality B⦄ (f : A → B) (g : B → A)
    → ((a : A) → g (f a) ≡ a)
    → HasEquality A
eq_by ⦃h⦄ f g undo = record {
  same = λ x y. h.same (f x) (f y);
  same_iff = λ x y. (
    λ e. sym (undo x) ∙ ap g ((h.same_iff (f x) (f y)).0 e) ∙ undo y,
    λ e. (h.same_iff (f x) (f y)).1 (ap f e),
  );
}

pub and_true : (p q : Bool) → (p && q) ≡ true → (p ≡ true) × (q ≡ true)
and_true true q e = (refl, e)
and_true false q e = cc

abbrev pair_path : {A B : Type 0} {x y : A × B} → x.0 ≡ y.0 → x.1 ≡ y.1 → x ≡ y
pair_path p q = λ i. (p i, q i)

instance abbrev pub pair_eq :
    {A B : Type 0} ⦃a : HasEquality A⦄ ⦃b : HasEquality B⦄ → HasEquality (A × B)
pair_eq ⦃a⦄ ⦃b⦄ = record {
  same = λ x y. a.same x.0 y.0 && b.same x.1 y.1;
  same_iff = λ x y.
      let p = a.same_iff x.0 y.0 in
      let q = b.same_iff x.1 y.1 in
      (
        λ e.
            let (first, second) = and_true (a.same x.0 y.0) (b.same x.1 y.1) e in
            pair_path (p.0 first) (q.0 second),
        λ e. rw (p.1 (ap (λ z. z.0) e), q.1 (ap (λ z. z.1) e)) refl,
      );
}

-- The string that the source has for a code.
unfoldable pub code_text : RejectionReasonCode → Text
code_text RejectionReasonCode.invalid_source_offsets = codes "invalid_source_offsets"
code_text RejectionReasonCode.invented_span = codes "invented_span"
code_text RejectionReasonCode.category_not_approved = codes "category_not_approved"
code_text RejectionReasonCode.critic_rejected = codes "critic_rejected"
code_text RejectionReasonCode.verifier_rejected = codes "verifier_rejected"
code_text RejectionReasonCode.reconciler_rejected = codes "reconciler_rejected"
code_text RejectionReasonCode.schema_violation = codes "schema_violation"
code_text RejectionReasonCode.ambiguous_source_span = codes "ambiguous_source_span"
code_text RejectionReasonCode.duplicate_candidate = codes "duplicate_candidate"

abbrev code_rank : RejectionReasonCode → ℕ
code_rank RejectionReasonCode.invalid_source_offsets = 0
code_rank RejectionReasonCode.invented_span = 1
code_rank RejectionReasonCode.category_not_approved = 2
code_rank RejectionReasonCode.critic_rejected = 3
code_rank RejectionReasonCode.verifier_rejected = 4
code_rank RejectionReasonCode.reconciler_rejected = 5
code_rank RejectionReasonCode.schema_violation = 6
code_rank RejectionReasonCode.ambiguous_source_span = 7
code_rank RejectionReasonCode.duplicate_candidate = 8

abbrev all_code : List RejectionReasonCode
all_code =
    RejectionReasonCode.invalid_source_offsets ∷ RejectionReasonCode.invented_span
    ∷ RejectionReasonCode.category_not_approved ∷ RejectionReasonCode.critic_rejected
    ∷ RejectionReasonCode.verifier_rejected ∷ RejectionReasonCode.reconciler_rejected
    ∷ RejectionReasonCode.schema_violation ∷ RejectionReasonCode.ambiguous_source_span
    ∷ RejectionReasonCode.duplicate_candidate ∷ []

abbrev code_at : ℕ → RejectionReasonCode
code_at n = elim (get_elem? all_code n) [
  | some x ↦ x
  | none ↦ RejectionReasonCode.invalid_source_offsets
]

abbrev code_undo : (x : RejectionReasonCode) → code_at (code_rank x) ≡ x
code_undo RejectionReasonCode.invalid_source_offsets = refl
code_undo RejectionReasonCode.invented_span = refl
code_undo RejectionReasonCode.category_not_approved = refl
code_undo RejectionReasonCode.critic_rejected = refl
code_undo RejectionReasonCode.verifier_rejected = refl
code_undo RejectionReasonCode.reconciler_rejected = refl
code_undo RejectionReasonCode.schema_violation = refl
code_undo RejectionReasonCode.ambiguous_source_span = refl
code_undo RejectionReasonCode.duplicate_candidate = refl

instance abbrev pub code_eq : HasEquality RejectionReasonCode
code_eq = eq_by code_rank code_at code_undo

abbrev lens_rank : LensName → ℕ
lens_rank LensName.entity = 0
lens_rank LensName.event = 1
lens_rank LensName.claim = 2
lens_rank LensName.number = 3
lens_rank LensName.definition = 4
lens_rank LensName.citation = 5
lens_rank LensName.temporal = 6
lens_rank LensName.quantity_with_unit = 7

abbrev all_lens : List LensName
all_lens =
    LensName.entity ∷ LensName.event ∷ LensName.claim ∷ LensName.number ∷ LensName.definition
    ∷ LensName.citation ∷ LensName.temporal ∷ LensName.quantity_with_unit ∷ []

abbrev lens_at : ℕ → LensName
lens_at n = elim (get_elem? all_lens n) [ some x ↦ x | none ↦ LensName.entity ]

abbrev lens_undo : (x : LensName) → lens_at (lens_rank x) ≡ x
lens_undo LensName.entity = refl
lens_undo LensName.event = refl
lens_undo LensName.claim = refl
lens_undo LensName.number = refl
lens_undo LensName.definition = refl
lens_undo LensName.citation = refl
lens_undo LensName.temporal = refl
lens_undo LensName.quantity_with_unit = refl

instance abbrev pub lens_eq : HasEquality LensName
lens_eq = eq_by lens_rank lens_at lens_undo

abbrev kind_rank : ValueKind → ℕ
kind_rank ValueKind.text = 0
kind_rank ValueKind.number = 1
kind_rank ValueKind.date = 2
kind_rank ValueKind.datetime = 3
kind_rank ValueKind.duration = 4
kind_rank ValueKind.quantity = 5
kind_rank ValueKind.entity = 6
kind_rank ValueKind.citation = 7
kind_rank ValueKind.boolean = 8

abbrev all_kind : List ValueKind
all_kind =
    ValueKind.text ∷ ValueKind.number ∷ ValueKind.date ∷ ValueKind.datetime ∷ ValueKind.duration
    ∷ ValueKind.quantity ∷ ValueKind.entity ∷ ValueKind.citation ∷ ValueKind.boolean ∷ []

abbrev kind_at : ℕ → ValueKind
kind_at n = elim (get_elem? all_kind n) [ some x ↦ x | none ↦ ValueKind.text ]

abbrev kind_undo : (x : ValueKind) → kind_at (kind_rank x) ≡ x
kind_undo ValueKind.text = refl
kind_undo ValueKind.number = refl
kind_undo ValueKind.date = refl
kind_undo ValueKind.datetime = refl
kind_undo ValueKind.duration = refl
kind_undo ValueKind.quantity = refl
kind_undo ValueKind.entity = refl
kind_undo ValueKind.citation = refl
kind_undo ValueKind.boolean = refl

instance abbrev pub kind_eq : HasEquality ValueKind
kind_eq = eq_by kind_rank kind_at kind_undo

abbrev status_rank : NormalizationStatus → ℕ
status_rank NormalizationStatus.not_normalized = 0
status_rank NormalizationStatus.verbatim_only = 1
status_rank NormalizationStatus.canonicalized = 2
status_rank NormalizationStatus.unsupported = 3

abbrev all_status : List NormalizationStatus
all_status =
    NormalizationStatus.not_normalized ∷ NormalizationStatus.verbatim_only
    ∷ NormalizationStatus.canonicalized ∷ NormalizationStatus.unsupported ∷ []

abbrev status_at : ℕ → NormalizationStatus
status_at n = elim (get_elem? all_status n) [
  | some x ↦ x
  | none ↦ NormalizationStatus.not_normalized
]

abbrev status_undo : (x : NormalizationStatus) → status_at (status_rank x) ≡ x
status_undo NormalizationStatus.not_normalized = refl
status_undo NormalizationStatus.verbatim_only = refl
status_undo NormalizationStatus.canonicalized = refl
status_undo NormalizationStatus.unsupported = refl

instance abbrev pub status_eq : HasEquality NormalizationStatus
status_eq = eq_by status_rank status_at status_undo

abbrev reason_fields : RejectionReason → (RejectionReasonCode × Text)
reason_fields x = (x.code, x.message)

abbrev reason_of : (RejectionReasonCode × Text) → RejectionReason
reason_of (code, message) = record { code = code; message = message }

instance abbrev pub reason_eq : HasEquality RejectionReason
reason_eq = eq_by reason_fields reason_of (λ x. refl)
