-- ===== src/SourceSupport/Values/Laws.antt =====
-- What makes a value supported by its source.
use veritext.Prelude.{
  List, [], ◌∷◌, map, ◌↔◌, ◌⊎◌, inl, inr, sym, ap, ◌∙◌, All, IsAmong, contains, contains_iff,
  Bool-cases, arith, nat_eq, list_eq, has_items, ◌≡◌, refl, Text, Bool, true, false, ◌||◌, ◌&&◌,
  not, if◌then◌else◌,
}
use mathlib.Core.Path.{subst}
use veritext.Contracts.Equality.{and_true}
use veritext.Contracts.Candidates.{LensCandidate}
use veritext.SourceSupport.Tokens.{canonical_token, collapse_whitespace, is_part_of, tokens}
use veritext.SourceSupport.Tokens.Parts.{StandsIn, is_part_of-StandsIn}
use veritext.SourceSupport.Values.{
  all_in, is_label_field, source_traced_label_value, tokens_supported, value_is_source_supported,
}

grounded :
    (part label nonempty supported : Bool)
    → (if part
        then true
        else if (if not label
            then false
            else if nonempty && part
            then true
            else if supported
            then true
            else false)
        then true
        else supported)
      ≡ (part || supported)
grounded true label nonempty supported = refl
grounded false false nonempty supported = refl
grounded false true true true = refl
grounded false true true false = refl
grounded false true false true = refl
grounded false true false false = refl

IsAmong-map :
    (f : Text → Text) (xs : List Text) (a : Text)
    → IsAmong a (map f xs)
    → (x : Text) × IsAmong x xs × (f x ≡ a)
IsAmong-map f [] a h = absurd h
IsAmong-map f (x ∷ xs) a (inl same) = (x, inl refl, sym same)
IsAmong-map f (x ∷ xs) a (inr later) =
    let (y, among, same) = IsAmong-map f xs a later in (y, inr among, same)

map-IsAmong :
    (f : Text → Text) (xs : List Text) (x : Text) → IsAmong x xs → IsAmong (f x) (map f xs)
map-IsAmong f [] x h = absurd h
map-IsAmong f (y ∷ xs) x (inl same) = inl (ap f same)
map-IsAmong f (y ∷ xs) x (inr later) = inr (map-IsAmong f xs x later)

-- Each item of a list has a member of the other list with the same image.
all_in_iff :
    (f : Text → Text) (source value : List Text)
    → (all_in (map f source) (map f value) ≡ true)
      ↔ All (λ t. (s : Text) × IsAmong s source × (f s ≡ f t)) value
unfolding all_in
all_in_iff f source [] = (λ e. tt, λ h. refl)
all_in_iff f source (t ∷ value) =
    let here = contains_iff (map f source) (f t) in
    let rest = all_in_iff f source value in
    (
      λ e.
          let (first, others) = and_true (contains (map f source) (f t)) _ e in
          (IsAmong-map f source (f t) (here.0 first), rest.0 others),
      λ h.
          let (s, among, same) = h.0 in
          rw
            (
              here.1 (subst (λ x. IsAmong x (map f source)) same (map-IsAmong f source s among)),
              rest.1 h.1,
            )
            refl,
    )

module _ (casefold : Text → Text) where
  -- The value has a token, and each of its tokens has the canonical form of a token of the source.
  pub record IsTraced (value source : Text) : Type 0 where
    pub token : Text
    pub has_token : IsAmong token (tokens casefold value)
    pub each :
        All
          (λ t.
            (s : Text) × IsAmong s (tokens casefold source)
            × (canonical_token s ≡ canonical_token t))
          (tokens casefold value)

  tokens_supported-IsTraced :
      (value source : Text)
      → (tokens_supported casefold value source ≡ true) ↔ IsTraced value source
  unfolding tokens_supported
  tokens_supported-IsTraced value source =
      let all = all_in_iff canonical_token (tokens casefold source) (tokens casefold value) in
      (
        λ e.
            let (some_token, others) =
              and_true (has_items (map canonical_token (tokens casefold value))) _ e in
            let (token, among) = member (tokens casefold value) some_token in
            record { token = token; has_token = among; each = all.0 others },
        λ h. rw (some_items (tokens casefold value) h.token h.has_token, all.1 h.each) refl,
      )
    where
      member :
          (ts : List Text) → has_items (map canonical_token ts) ≡ true → (t : Text) × IsAmong t ts
      member [] e = cc
      member (t ∷ ts) e = (t, inl refl)

      some_items :
          (ts : List Text) (t : Text) → IsAmong t ts → has_items (map canonical_token ts) ≡ true
      some_items [] t h = absurd h
      some_items (x ∷ ts) t h = refl

module _ (casefold : Text → Text)
    (idempotent : (t : Text) → casefold (casefold t) ≡ casefold t) where
  tokens_supported-casefold :
      (value source : Text)
      → tokens_supported casefold (casefold value) (casefold source)
        ≡ tokens_supported casefold value source
  unfolding tokens_supported tokens
  tokens_supported-casefold value source = rw (idempotent value, idempotent source) refl

  -- The branches of the test come to its first and its last.
  value_is_source_supported-tests :
      (candidate : LensCandidate)
      → value_is_source_supported casefold candidate ≡ (
          is_part_of
            (casefold (collapse_whitespace candidate.value))
            (casefold (collapse_whitespace candidate.source_span.text))
          || tokens_supported casefold
              (collapse_whitespace candidate.value)
              (collapse_whitespace candidate.source_span.text))
  unfolding value_is_source_supported source_traced_label_value
  value_is_source_supported-tests candidate =
      let value = collapse_whitespace candidate.value in
      let source = collapse_whitespace candidate.source_span.text in
      rw (tokens_supported-casefold value source) (
        grounded (is_part_of (casefold value) (casefold source))
          (is_label_field candidate.field_name) (has_items (casefold value))
          (tokens_supported casefold value source))

  -- Where folding the case twice is folding it once, a value is supported exactly when, with the
  -- white space collapsed and the case folded, it stands in the text of its span, or when it has
  -- a token and each of its tokens has the canonical form of a token of that text; that the
  -- field is a label field or not changes nothing.
  pub value_is_source_supported_iff :
      (candidate : LensCandidate)
      → (value_is_source_supported casefold candidate ≡ true) ↔ (
          StandsIn
            (casefold (collapse_whitespace candidate.value))
            (casefold (collapse_whitespace candidate.source_span.text))
          ⊎ IsTraced casefold
              (collapse_whitespace candidate.value)
              (collapse_whitespace candidate.source_span.text))
  value_is_source_supported_iff candidate =
      let value = collapse_whitespace candidate.value in
      let source = collapse_whitespace candidate.source_span.text in
      let part = is_part_of-StandsIn (casefold value) (casefold source) in
      let traced = tokens_supported-IsTraced casefold value source in
      let tests = value_is_source_supported-tests candidate in
      (
        λ e. elim (Bool-cases (is_part_of (casefold value) (casefold source))) [
          | inl there ↦ inl (part.0 there)
          | inr absent ↦ inr (traced.0 (rw absent at (sym tests ∙ e)))
        ],
        λ h. tests ∙ (elim h [
          | inl there ↦ rw (part.1 there) refl
          | inr by_tokens ↦
              either (is_part_of (casefold value) (casefold source)) (traced.1 by_tokens)
        ]),
      )
    where
      either : {q : Bool} (p : Bool) → q ≡ true → (p || q) ≡ true
      either p e = ground arith
