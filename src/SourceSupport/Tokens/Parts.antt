-- ===== src/SourceSupport/Tokens/Parts.antt =====
-- A text that stands in another one (`in` on texts).
use veritext.Prelude.{
  ◌≡◌, ◌↔◌, refl, ap, inl, inr, Text, Bool, true, ◌||◌, [], ◌∷◌, ◌++◌, nat_eq, nat_beq, nat_beq_iff,
  starts_with, arith, Bool-cases,
}
use veritext.Contracts.Equality.{and_true}
use veritext.SourceSupport.Tokens.{is_part_of}

-- Some text before the part and some text after it give the whole.
abbrev pub StandsIn : Text → Text → Type 0
StandsIn part text = (before : Text) × (after : Text) × (text ≡ before ++ (part ++ after))

starts_with_iff :
    (text part : Text) → (starts_with text part ≡ true) ↔ ((after : Text) × (text ≡ part ++ after))
unfolding starts_with
starts_with_iff text [] = (λ e. (text, refl), λ h. refl)
starts_with_iff [] (d ∷ part) = (λ e. absurd cc, λ (after, e). absurd cc)
starts_with_iff (c ∷ text) (d ∷ part) = (
  λ e.
      let (same, rest) = and_true (nat_beq c d) (starts_with text part) e in
      let (after, whole) = (starts_with_iff text part).0 rest in
      (after, rw ((nat_beq_iff c d).0 same, whole) refl),
  λ (after, e).
      let first : c ≡ d = cc in
      let others : text ≡ part ++ after = cc in
      rw ((nat_beq_iff c d).1 first, (starts_with_iff text part).1 (after, others)) refl,
)

starts_with-StandsIn : (part text : Text) → starts_with text part ≡ true → StandsIn part text
starts_with-StandsIn part text e =
    let (after, whole) = (starts_with_iff text part).0 e in ([], after, whole)

-- The test tells whether a text stands in another one.
pub is_part_of-StandsIn : (part text : Text) → (is_part_of part text ≡ true) ↔ StandsIn part text
unfolding is_part_of
is_part_of-StandsIn part [] = (λ e. starts_with-StandsIn part [] e, λ h. at_end h.0 h.1 h.2)
  where
    at_end : (before after : Text) → [] ≡ before ++ (part ++ after) → starts_with [] part ≡ true
    at_end [] after e = (starts_with_iff [] part).1 (after, e)
    at_end (b ∷ before) after e = cc
is_part_of-StandsIn part (c ∷ text) = (
  λ e. elim (Bool-cases (starts_with (c ∷ text) part)) [
    | inl here ↦ starts_with-StandsIn part (c ∷ text) here
    | inr later ↦
        let (before, after, whole) = (is_part_of-StandsIn part text).0 (rw later at e) in
        (c ∷ before, after, ap (λ l. c ∷ l) whole)
  ],
  λ h. found (is_part_of-StandsIn part text).1 h.0 h.1 h.2,
)
  where
    either : {q : Bool} (p : Bool) → q ≡ true → (p || q) ≡ true
    either p e = ground arith

    found :
        (StandsIn part text → is_part_of part text ≡ true)
        → (before after : Text) → c ∷ text ≡ before ++ (part ++ after)
        → (starts_with (c ∷ text) part || is_part_of part text) ≡ true
    found later [] after e = rw ((starts_with_iff (c ∷ text) part).1 (after, e)) refl
    found later (b ∷ before) after e =
        let rest : text ≡ before ++ (part ++ after) = cc in
        either (starts_with (c ∷ text) part) (later (before, after, rest))
