-- ===== src/Critic/Batching/Laws.antt =====
-- The batches of the critic lose no candidate.
use veritext.Prelude.{
  ℕ, zero, suc, ◌+◌, ◌-◌, ◌≤◌, ◌<◌, ◌≡◌, refl, sym, ap, ◌∙◌, inl, inr, false, List, [], ◌∷◌, ◌++◌,
  Perm, length, take, drop, slice, ltb, leb, ltb→lt, ltb_false→le, Bool-cases, arith, All,
  All-append, group_by, group_by-perm, group_by-OneKey, OneKey, flatten, ok, map_result, slice-all,
  slice-append, slice-empty, length-take, length-drop, take-all, append-nil, append_assoc,
  All-map_imp, list_beq_iff, nat_eq, Text,
}
use mathlib.Core.Path.{ap₂}
use veritext.Contracts.Candidates.{LensCandidate}
use veritext.Critic.Batching.{batch_loop, batches_of, partition_into_batches, same_chunk}

-- A batch that is not empty, is within the size, and whose candidates are of one chunk.
pub record IsBatch (n : ℕ) (batch : List LensCandidate) : Type 0 where
  pub chunk_id : Text
  pub one_chunk : All (λ c. c.chunk_id ≡ chunk_id) batch
  pub nonempty : 0 < length batch
  pub within : length batch ≤ n

slice-over :
    (xs : List LensCandidate) (a b : ℕ) → length xs ≤ b → slice xs a b ≡ slice xs a (length xs)
slice-over xs a b h =
    let n = length-drop a xs in
    take-all (b - a) (drop a xs) (omega (arith, n, h))
    ∙ sym (take-all (length xs - a) (drop a xs) (omega (arith, n)))

slice-split :
    (xs : List LensCandidate) (a b : ℕ)
    → a ≤ b
    → slice xs a b ++ slice xs b (length xs) ≡ slice xs a (length xs)
slice-split xs a b le = elim (Bool-cases (ltb (length xs) b)) [
  | inl past ↦
      let over = ltb→lt _ _ past in
      rw (slice-empty xs b (length xs) (omega (arith, over)), append-nil)
        (slice-over xs a b (omega (arith, over)))
  | inr within ↦ slice-append xs a b (length xs) le (ltb_false→le _ _ within)
]

All-take :
    (P : LensCandidate → Type 0) (n : ℕ) (xs : List LensCandidate) → All P xs → All P (take n xs)
All-take P zero xs h = tt
All-take P (suc n) [] h = tt
All-take P (suc n) (x ∷ xs) h = (h.0, All-take P n xs h.1)

All-drop :
    (P : LensCandidate → Type 0) (n : ℕ) (xs : List LensCandidate) → All P xs → All P (drop n xs)
All-drop P zero xs h = h
All-drop P (suc n) [] h = tt
All-drop P (suc n) (x ∷ xs) h = All-drop P n xs h.1

-- The batches of a group from `start` on: their candidates, and what each of them is.
batch_loop-batches :
    (rounds : ℕ) (group : List LensCandidate) (id : Text) (n start : ℕ)
    → 0 < n
    → length group ≤ start + rounds
    → All (λ c. c.chunk_id ≡ id) group
    → (flatten (batch_loop rounds group n start) ≡ slice group start (length group))
      × All (IsBatch n) (batch_loop rounds group n start)
unfolding batch_loop
batch_loop-batches zero group id n start pos enough h =
    (sym (slice-empty group start (length group) (omega arith)), tt)
batch_loop-batches (suc rounds) group id n start pos enough h =
    elim (Bool-cases (ltb start (length group))) [
      | inl more ↦
          let lt = ltb→lt _ _ more in
          let (rest, others) =
            batch_loop-batches rounds group id n (start + n) pos (omega arith) h in
          let size = length-take (start + n - start) (drop start group) in
          let left = length-drop start group in
          rw (more, flatten, All)
            (
              ap (λ l. slice group start (start + n) ++ l) rest
                  ∙ slice-split group start (start + n) (omega arith),
              (
                record {
                  chunk_id = id;
                  one_chunk =
                      All-take (λ c. c.chunk_id ≡ id) (start + n - start) (drop start group)
                        (All-drop (λ c. c.chunk_id ≡ id) start group h);
                  nonempty = omega (arith, size, left, lt, pos);
                  within = omega (arith, size);
                },
                others,
              ),
            )
      | inr done ↦
          rw done (sym (slice-empty group start (length group) (ltb_false→le _ _ done)), tt)
    ]

OneKey-chunk_id :
    (c : LensCandidate) (cs : List LensCandidate)
    → OneKey same_chunk (c ∷ cs)
    → All (λ d. d.chunk_id ≡ c.chunk_id) (c ∷ cs)
unfolding same_chunk
OneKey-chunk_id c cs h = (
  refl,
  All-map_imp _ (λ d. d.chunk_id ≡ c.chunk_id) cs
      (λ d e. sym ((list_beq_iff c.chunk_id d.chunk_id).0 e)) h,
)

flatten-append :
    {A : Type 0} (xss yss : List (List A)) → flatten (xss ++ yss) ≡ flatten xss ++ flatten yss
flatten-append [] yss = refl
flatten-append (xs ∷ xss) yss =
    ap (λ l. xs ++ l) (flatten-append xss yss) ∙ sym (append_assoc xs (flatten xss) (flatten yss))

-- The batches of all groups.
batches_of_groups :
    (n : ℕ) (groups : List (List LensCandidate))
    → 0 < n
    → All (OneKey same_chunk) groups
    → (batches : List (List (List LensCandidate))) × (map_result (batches_of n) groups ≡ ok batches)
      × (flatten (flatten batches) ≡ flatten groups)
      × All (IsBatch n) (flatten batches)
unfolding map_result batches_of
batches_of_groups n [] pos h = ([], refl, refl, tt)
batches_of_groups n ([] ∷ groups) pos h = absurd h.0
batches_of_groups n ((c ∷ cs) ∷ groups) pos h =
    let (others, made, same, good) = batches_of_groups n groups pos h.1 in
    let (all, batches) =
      batch_loop-batches (length (c ∷ cs)) (c ∷ cs) c.chunk_id n 0 pos (omega arith)
        (OneKey-chunk_id c cs h.0) in
    let first = batch_loop (length (c ∷ cs)) (c ∷ cs) n 0 in
    (
      first ∷ others,
      rw (positive n pos, made) refl,
      flatten-append first (flatten others) ∙ ap₂ (λ a b. a ++ b) (all ∙ slice-all (c ∷ cs)) same,
      All-append (IsBatch n) first (flatten others) batches good,
    )
  where
    positive : (n : ℕ) → 0 < n → leb n 0 ≡ false
    positive n pos = ground arith

-- For a positive batch size, partitioning returns batches that have all candidates, each as
-- often as it was there. No batch is empty, none is larger than the size, and all candidates of
-- a batch are of one chunk.
pub partition_into_batches-perm :
    (candidates : List LensCandidate) (n : ℕ)
    → 0 < n
    → (batches : List (List LensCandidate)) × (partition_into_batches candidates n ≡ ok batches)
      × Perm (flatten batches) candidates
      × All (IsBatch n) batches
unfolding partition_into_batches
partition_into_batches-perm candidates n pos =
    let groups = group_by same_chunk candidates in
    let (found, made, same, good) =
      batches_of_groups n groups pos (group_by-OneKey same_chunk candidates) in
    (flatten found, rw made refl, rw same (group_by-perm same_chunk candidates), good)
