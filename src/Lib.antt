-- ===== src/Lib.antt =====
-- Veritext: the verified core of the extractor.
--
-- Veritext turns a document into data points each of which points back at the source text. A
-- document is ingested and chunked (`src/extractor/chunker`), executors propose candidates with
-- source spans (`src/extractor/executor`), a critic and a verifier review them
-- (`src/extractor/critic`, `src/extractor/verifier`), and a reconciler builds the data points. The
-- parts pass on immutable records, whose pydantic validators are the contracts
-- (`src/extractor/contracts`).
--
-- The modules:
--   Prelude: shared tests, lists, texts, results, sorting, tilings and grouping. A text is a list
--     of code points, its UTF-8 bytes are computed by `encode`, an exception is a value of `Error`,
--     and a dict of lists in insertion order is a list of groups.
--   Contracts: `contracts/documents.py` and `ingestion.py` (Documents for the records, Ingestion
--     for the validators), the chunks and spans of `models.py` (Spans), its plans and candidates
--     with `base.py` and `normalization.py` (Candidates), its reports, rejections and data points
--     with `audit/models.py` (Reports), `==` on these records (Equality), and the loop by which two
--     stages index the accepted reports (Reviews). pydantic's checks of strictness and
--     frozenness have no counterpart: the types stand for them. A validator that returns `self`
--     gives `ok tt` where its value is not needed.
--   Chunker: `chunker/boundaries.py`, `packing.py`, `token_offsets.py` and `tokenizer.py`. The
--     tokenizer is a parameter: `tokenize` for `encode` and `decode` for
--     `decode_single_token_bytes`. `sha256` is a parameter for the hex digest.
--   Executor: `executor/policies.py` (Policies), `models.py`, `ids.py` and `materialization.py`
--     (Materialization), `dedup.py` with `canonical_values.py` (Dedup), `validation.py`
--     (Validation). The Unicode normalization and `casefold` are the parameters `nfkc` and `casefold`.
--   SourceSupport: `source_support.py`, by tokens (Tokens), supported values (Values), the rank of a
--     source (Ranks) and spans of a document (Backing). `casefold` is a parameter.
--   Critic: `critic/batching.py` (Batching), `validation.py` (Validation), and `corrections.py` with
--     `models.py` and a part of `checks.py` (Corrections), where `describe` is a parameter for the
--     text of a ValidationError.
--   Verifier: `verifier/policies.py` with `models.py` (Verdicts, Policies), `validation.py`
--     (Validation), and the review of all batches of `service.py` with the short ids of
--     `llm/views.py` (Batch). What the language model answers for a batch is a parameter, as are
--     `casefold`, `lower` and `sha256`.
--   Reconciler: `reconciler/models.py` (Models), `conflicts.py` (Conflicts), `materialization.py`
--     (Materialization) and `validation.py` (Validation).
--   Orchestrator: `validate_resume_chunks` (Resume) and `_review_stage_complete` (Stages) of
--     `orchestrator/state.py`, with the rejections of `audit/models.py`.
--   Tests: data and witnesses for the modules but the chunker's, which has its own.
--
-- How they interact: the chunker relies on what the validators of a document check, the executor
-- holds the span of a candidate to the text of its chunk, and the critic checks its inputs by the
-- same rules (Critic.Validation uses Executor.Policies). The rules of SourceSupport are read by the
-- critic's corrections, the verifier and the reconciler. The verifier's batches are those of
-- Critic.Batching, the reconciler takes the accepted reports of the critic and the verifier, and
-- what it decides is one dict of data points and one of rejections. Chunker.Windows.Coverage
-- declares what a chunk of a document is, on which Executor.Policies.Provenance builds.
--
-- Loops. The loops over token windows, over character windows and over the slices of a batch run
-- on fuel: the number of tokens, of characters of a block and of candidates of a group. What is
-- proved of them is said below. All other loops are structural.
--
-- Not modelled: input and output, the audit database, the language model client, the parsers of
-- document formats, the planner, the reporter and its signatures, the evaluation tools, the command
-- line, the orchestrator's sequence of stages, the critic's reports, the reconciler's batches and its
-- reconciliation across documents, and of the stages what the modules above do not name.
pub mod Chunker
pub mod Contracts
pub mod Critic
pub mod Executor
pub mod Orchestrator
pub mod Prelude
pub mod Reconciler
pub mod SourceSupport
pub mod Tests
pub mod Verifier
