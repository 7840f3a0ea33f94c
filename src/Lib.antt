-- ===== src/Lib.antt =====
-- The research registry: evidence, claims and reviews.
--
-- The registry (src/research_registry) keeps sources in versions, evidence that points into a version,
-- claims in immutable revisions that cite evidence, and an append-only stream of review events. A
-- review names the revision and the state that it expects, is checked by the rules of the domain, and
-- is written in one transaction with its event and an idempotency key. The schema is brought up to date
-- by packaged migrations, captures wait in a file while their backend is away, what is fetched is held
-- to a policy, as are the locators and the versions of a source that are stored, a search is widened to related records, and a release is judged by gates.
--
-- Which file models what, with the paths from the repository's root:
--
--   Base, Base/*       names shared by all modules: tests, lists, results, tables as lists of rows
--   Text, Text/*       the operations of Python's `str` that the program uses, on code points
--   Domain/Claims      src/research_registry/domain/claims.py: `plan_claim_review`
--   Domain/Review      src/research_registry/domain/review.py: `validate_review_action` and
--                      `review_state_after`
--   Domain/Evidence    src/research_registry/domain/evidence.py: `_unique_text_match`; below it
--                      Selectors (the models of src/research_registry/contracts/v2.py), Pointers
--                      (JSON pointers) and Resolve (`resolve_exact_evidence`)
--   Persistence        src/research_registry/persistence: Schema (the rows), ReviewState
--                      (review_state.py and conflict_state.py), Transaction (unit_of_work.py),
--                      and of repositories.py Mirrors, ReviewRepository, RefreshRepository,
--                      RefreshQueue and Entities (`ReviewRefreshRepository`); Namespaces and Owners
--                      say what belongs to a namespace
--   Application/Refresh
--                      src/research_registry/application/refresh.py: the targets of a refresh and
--                      their place in the queue
--                      (Refresh/Policy: `CapturePolicy`)
--   Ingestion/Reanchor src/research_registry/ingestion/reanchor.py: `reanchor_text`
--   Ingestion/FetchPolicy
--                      src/research_registry/ingestion/fetch_policy.py: `validate_url`; Open and
--                      Sound are about it
--   Ingestion/Locators src/research_registry/locator_security.py: `validate_safe_locator`, with
--                      Parameters (`_parameter_fields` and the keys); Nesting and Sound are about it
--   Ingestion/Blobs    src/research_registry/ingestion/blobs.py: digests and media types, and in Files
--                      and Files/Finalize the file store (`FilesystemBlobStore`); Media and Objects
--                      are about them
--   Domain/Sources     src/research_registry/domain/sources.py: `validate_source_version_spec`, with
--                      Validate; Normal, Facts and Accepted are about it
--   Persistence/SourceVersionRepository
--                      `SourceVersionRepository` of repositories.py; References is about it
--   Application/SourceVersions
--                      src/research_registry/application/source_versions.py: `_validate_reuse`,
--                      in Content `_prepare_content_object` and `_new_source_version`, and in Create
--                      `prepare_in_transaction` and `create_or_reuse`; Sound, Prepared, Backed,
--                      Transactions, Outcomes and Records are about them
--   Application/Review src/research_registry/application/review.py: `ResearchReviewService.review`,
--                      with Request, Revisions (`ClaimRevisionService`), ClaimReview
--                      (`_review_claim`) and EntityReview (`_review_entity`, `_dismiss_refresh`)
--   CaptureQueue       src/research_registry/capture_queue.py: Bundles (the envelopes), Replay
--                      (`_replay_bundle`), Flush (the loop of `flush`) and File (`enqueue`,
--                      `list_pending`, `flush`); Keeps and Lines are about them
--   Migration/Packages src/research_registry/migration_runner.py: `load_sql_migrations`, with Manifest,
--                      Checksum and Load; Order is about what is loaded, Framing about the
--                      bytes of a checksum
--   Migration/Script   src/research_registry/db.py: `split_sql_script`; Pieces is about it
--   Migration/Runner   `MigrationRunner` of src/research_registry/migration_runner.py: the history and
--                      its validation, with Plan (`plan`, `verify`) and Migrate (`migrate`); Histories,
--                      Refinement, Runs, Beginnings, Progress and Again are about it
--   Retrieval/Records, Retrieval/Relationships
--                      src/research_registry/retrieval/relationships.py: the queries, and
--                      `expand_relationships`; Bounds and Anchors are about it
--   Retrieval/Lexical  src/research_registry/retrieval/lexical.py: `_access_clause` and the scores, and in
--                      Search `LexicalSearchAdapter.search` and `fetch`; Visible is about it
--   Release/Gates      src/research_registry/release/gates.py: `assess_release`; Levels is about it
--   Persistence/Frames, Application/*/Frames
--                      relations between stores that every operation of a review keeps; History and
--                      Answers are about two of them, Replay and Guards about whole runs
--   Tests              the theorems at concrete inputs
--
-- How state is modelled. A table is a list of rows, a row a record of its columns, and the store a
-- record of the tables that reviews touch. An operation is a function from a store to a result with a
-- store, or to the exception raised; a transaction keeps the old store when one is raised. Texts that
-- are only compared are native strings; texts that are searched are lists of code points. The clock
-- and the fresh identifiers of a call are an argument (`Stamp`).
--
-- Bounds and fuel. The loop of `_unique_text_match`, which is also that of `reanchor_text`, runs on as
-- much fuel as the upper offset plus one: each round starts at a later position, and no match starts
-- behind the upper offset. The loop over a script for PostgreSQL runs on the script's length, as each
-- round consumes a character. The digits of a port are printed on the port plus one, as a number has no
-- more digits than that. All other loops are structural. The only numbers of a fixed width are the
-- lengths in the bytes of a checksum, with their `OverflowError`.
--
-- A source version lives in two stores, the database and the files of content; a call of
-- `create_or_reuse` is a function on both, whose commit may fail. It stands on tables of its own
-- (`Catalog`), as no other modelled operation writes them.
--
-- Arguments that stand for code outside the model: SHA-256, UTF-8, `json.loads` and `json.dumps`,
-- `str.isdigit` with `int`, and the digest of a request's canonical JSON; the database engine that
-- executes migrations and the upgrade of a legacy schema by the older service (`Driver`), which act on
-- all tables but schema_migrations, since no packaged statement names it, and whose commit or rollback
-- is that of both, with what `executescript` commits in the midst of that upgrade
-- (`committed_by_migrate`, `committed_by_create`); the backend and the deposit service that a flush is
-- given (`Backend`), which are the older service, not modelled, or a remote one, and of which nothing
-- is assumed; the encoding of a bundle
-- (`EnvelopeCodec`), of which `IsLine` states what is relied on; urllib, IDNA,
-- ipaddress and the resolver (`Network`); `urlsplit`, `unquote_plus` and
-- the Unicode database (`Urls`); datetime, pathlib and json (`Library`), of which `TimeLaws` states
-- what is relied on; the full-text engine (`SearchEngine`); the
-- numbers of retrieval reports and matches (`Metrics`).
--
-- Not modelled: the capture of sources over the network and from Git with the service that coordinates
-- it, deposits, the rank of results, the older service, and the web, command line and protocol layers.
-- The search documents that are rebuilt at the end of a review or of a new source version are derived
-- from the modelled tables and are left out, as is the review mirror of a source that has a new version;
-- a search reads the documents as they are. Locks, links and permissions of files, and the atomic
-- replacement of the queue's file, are taken for granted. Real numbers are carried, or compared with a
-- constant in hundredths; the scores of a search are whole numbers of a common part.
pub mod Base
pub mod Text
pub mod CaptureQueue
pub mod Domain
pub mod Ingestion
pub mod Migration
pub mod Persistence
pub mod Release
pub mod Retrieval
pub mod Application
pub mod Tests
