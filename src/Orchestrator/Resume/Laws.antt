-- ===== src/Orchestrator/Resume/Laws.antt =====
-- The chunks that a run can be taken up with.
use veritext.Prelude.{
  ◌≡◌, ◌↔◌, refl, Text, Bool, true, false, not, Option, none, some, List, [], ◌∷◌, map, length,
  slice, list_beq, list_beq_iff, list_eq, nat_eq, contains, ok, raise_if, raise_if-eq-ok, check_all,
  check_all-All, All-check_all, All, All-map_imp, >>=-eq-ok, arith,
}
use veritext.Contracts.Documents.{Document}
use veritext.Contracts.Spans.{Chunk}
use veritext.Orchestrator.Resume.{
  check_dependency, check_parent, check_references, check_text, is_dangling, lacks_chunks,
  range_from, validate_resume_chunks,
}

-- A chunk of the document, with the text at its offsets.
abbrev pub OfDocument : Document → Chunk → Type 0
OfDocument document chunk =
    (chunk.doc_id ≡ document.doc_id)
    × (slice document.text chunk.start_char chunk.end_char ≡ chunk.text)

-- A reference of a chunk to another of the chunks.
abbrev pub Refers : List Text → Chunk → Text → Type 0
Refers ids chunk id = (list_beq id chunk.chunk_id ≡ false) × (contains ids id ≡ true)

abbrev pub ParentRefers : List Text → Chunk → Option Text → Type 0
ParentRefers ids chunk none = Unit
ParentRefers ids chunk (some parent) = Refers ids chunk parent

pub record Resumable (document : Document) (chunks : List Chunk) : Type 0 where
  pub nonempty : lacks_chunks chunks ≡ false
  pub indexes : map (λ c. c.chunk_index) chunks ≡ range_from 0 (length chunks)
  pub texts : All (OfDocument document) chunks
  pub parents : All (λ c. ParentRefers (map (λ c. c.chunk_id) chunks) c c.parent_chunk_id) chunks
  pub dependencies :
      All (λ c. All (Refers (map (λ c. c.chunk_id) chunks) c) c.depends_on_chunk_ids) chunks

check_text-OfDocument :
    (document : Document) (chunk : Chunk)
    → (check_text document chunk ≡ ok tt) ↔ OfDocument document chunk
unfolding check_text
check_text-OfDocument document chunk =
    let d = list_beq_iff chunk.doc_id document.doc_id in
    let t = list_beq_iff (slice document.text chunk.start_char chunk.end_char) chunk.text in
    (λ e. (d.0 (ground arith), t.0 (ground arith)), λ (same, text). rw (d.1 same, t.1 text) refl)

is_dangling-Refers :
    (ids : List Text) (chunk : Chunk) (id : Text)
    → (is_dangling ids chunk id ≡ false) ↔ Refers ids chunk id
unfolding is_dangling
is_dangling-Refers ids chunk id = (λ e. (ground arith, ground arith), λ (a, b). rw (a, b) refl)

check_dependency-Refers :
    (ids : List Text) (chunk : Chunk) (id : Text)
    → (check_dependency ids chunk id ≡ ok tt) ↔ Refers ids chunk id
unfolding check_dependency
check_dependency-Refers ids chunk id =
    let r = is_dangling-Refers ids chunk id in
    (λ e. r.0 (raise_if-eq-ok (is_dangling ids chunk id) _ e), λ h. rw (r.1 h) refl)

check_parent-Refers :
    (ids : List Text) (chunk : Chunk) (parent : Option Text)
    → (check_parent ids chunk parent ≡ ok tt) ↔ ParentRefers ids chunk parent
unfolding check_parent
check_parent-Refers ids chunk none = (λ e. tt, λ h. refl)
check_parent-Refers ids chunk (some parent) =
    let r = is_dangling-Refers ids chunk parent in
    (λ e. r.0 (raise_if-eq-ok (is_dangling ids chunk parent) _ e), λ h. rw (r.1 h) refl)

check_references_lem :
    (ids : List Text) (chunk : Chunk)
    → (check_references ids chunk ≡ ok tt) ↔ (
        ParentRefers ids chunk chunk.parent_chunk_id
        × All (Refers ids chunk) chunk.depends_on_chunk_ids)
unfolding check_references
check_references_lem ids chunk =
    let p = check_parent-Refers ids chunk chunk.parent_chunk_id in
    (
      λ e.
          let (a, parent, rest) = >>=-eq-ok (check_parent ids chunk chunk.parent_chunk_id) _ e in
          (
            p.0 parent,
            All-map_imp _ (Refers ids chunk) chunk.depends_on_chunk_ids
                (λ d. (check_dependency-Refers ids chunk d).0)
                (check_all-All (check_dependency ids chunk) chunk.depends_on_chunk_ids rest),
          ),
      λ (parent, others).
          rw
            (
              p.1 parent,
              All-check_all (check_dependency ids chunk) chunk.depends_on_chunk_ids (
                  All-map_imp _ (λ d. check_dependency ids chunk d ≡ ok tt)
                    chunk.depends_on_chunk_ids (λ d. (check_dependency-Refers ids chunk d).1)
                    others),
            )
            refl,
    )

All-pair : (P Q : Chunk → Type 0) (xs : List Chunk) → All P xs → All Q xs → All (λ x. P x × Q x) xs
All-pair P Q [] h k = tt
All-pair P Q (x ∷ xs) h k = ((h.0, k.0), All-pair P Q xs h.1 k.1)

-- The check of the audited chunks returns them exactly when there is one at least, their indexes
-- count from zero, each is of the document and has its text at its offsets, and each parent and
-- each dependency of a chunk is another chunk of the list.
pub validate_resume_chunks-Resumable :
    (document : Document) (chunks : List Chunk)
    → (validate_resume_chunks document chunks ≡ ok chunks) ↔ Resumable document chunks
unfolding validate_resume_chunks
validate_resume_chunks-Resumable document chunks =
    let ids = map (λ c. c.chunk_id) chunks in
    let counted = list_beq (map (λ c. c.chunk_index) chunks) (range_from 0 (length chunks)) in
    let order = list_beq_iff (map (λ c. c.chunk_index) chunks) (range_from 0 (length chunks)) in
    (
      λ e.
          let (a, some_chunks, more) = >>=-eq-ok (raise_if (lacks_chunks chunks) _) _ e in
          let (b, in_order, more') = >>=-eq-ok (raise_if (not counted) _) _ more in
          let (c, texts, more'') = >>=-eq-ok (check_all (check_text document) chunks) _ more' in
          let (d, references, done) =
            >>=-eq-ok (check_all (check_references ids) chunks) (λ _. ok chunks) more'' in
          let all = check_all-All (check_references ids) chunks references in
          record {
            nonempty = raise_if-eq-ok (lacks_chunks chunks) _ some_chunks;
            indexes = order.0 (not-false counted (raise_if-eq-ok (not counted) _ in_order));
            texts =
                All-map_imp _ (OfDocument document) chunks
                  (λ c. (check_text-OfDocument document c).0)
                  (check_all-All (check_text document) chunks texts);
            parents =
                All-map_imp _ (λ c. ParentRefers ids c c.parent_chunk_id) chunks
                  (λ c h. ((check_references_lem ids c).0 h).0) all;
            dependencies =
                All-map_imp _ (λ c. All (Refers ids c) c.depends_on_chunk_ids) chunks
                  (λ c h. ((check_references_lem ids c).0 h).1) all;
          },
      λ r.
          rw
            (
              r.nonempty,
              order.1 r.indexes,
              All-check_all (check_text document) chunks (
                  All-map_imp _ (λ c. check_text document c ≡ ok tt) chunks
                    (λ c. (check_text-OfDocument document c).1) r.texts),
              All-check_all (check_references ids) chunks (
                  All-map_imp _ (λ c. check_references ids c ≡ ok tt) chunks
                    (λ c. (check_references_lem ids c).1)
                    (All-pair (λ c. ParentRefers ids c c.parent_chunk_id)
                      (λ c. All (Refers ids c) c.depends_on_chunk_ids) chunks r.parents
                      r.dependencies)),
            )
            refl,
    )
  where
    not-false : (b : Bool) → not b ≡ false → b ≡ true
    not-false true e = refl
    not-false false e = cc
