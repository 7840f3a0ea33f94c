-- ===== src/Application/SourceVersions/Create.antt =====
-- application/source_versions.py: `prepare_in_transaction` and `create_or_reuse`.
use codex_research_skill.Base.{
  Bool, true, false, Option, none, some, List, [], any, get_or, if◌then◌else◌, Result, ok, err,
  reject_if, ◌>>=◌, ◌>>◌,
}
use codex_research_skill.Text.{Text, codes, same}
use codex_research_skill.Ingestion.Blobs.{Bytes, BlobError}
use codex_research_skill.Ingestion.Blobs.Files.{StagedBlob, BlobStore, FinalizedBlob, stage_bytes}
use codex_research_skill.Ingestion.Blobs.Files.Finalize.{finalize, discard}
use codex_research_skill.Domain.Sources.{SourceVersionError, SourceVersionSpec}
use codex_research_skill.Domain.Sources.Validate.{validate_source_version_spec}
use codex_research_skill.Persistence.SourceVersionRepository.{
  SourceVersionRecord, SourceRow, Catalog, SourceVersionFailure, bad_spec, bad_blob, conflict,
  projection_failed, commit_failed, find_by_source_and_key, find_source, insert_source_version,
}
use codex_research_skill.Application.SourceVersions.{
  Service, SourceVersionCreateResult, PreparedSourceVersion, validate_reuse,
}
use codex_research_skill.Application.SourceVersions.Content.{
  prepare_content_object, new_source_version,
}

-- The database and the file store.
abbrev pub Stores : Type 0
Stores = Catalog × BlobStore

abbrev pub from_spec :
    Result SourceVersionError SourceVersionSpec → Result SourceVersionFailure SourceVersionSpec
from_spec (ok spec) = ok spec
from_spec (err e) = err (bad_spec e)

-- `raise SourceVersionConflict` for a source that is not there, or is public
abbrev pub require_private_source : Option SourceRow → Result SourceVersionFailure (Unit {0})
require_private_source none = err conflict
require_private_source (some row) = reject_if (same row.visibility (codes "public")) conflict

module _ (service : Service) where
  -- `prepare_in_transaction` for a key that its source does not have yet
  unfoldable pub insert_new :
      SourceVersionSpec
      → Option StagedBlob
      → Bool
      → Catalog
      → BlobStore
      → Result SourceVersionFailure (PreparedSourceVersion × Catalog)
  unfolding find_source prepare_content_object new_source_version insert_source_version same
  insert_new spec staged allow catalog blobs =
      require_private_source (find_source spec.source_id catalog)
      >> (prepare_content_object service spec staged allow catalog blobs >>= λ content.
          let version = new_source_version service spec content.0 in
          insert_source_version version content.2 >>= λ catalog'. ok (
            record {
              result = record { version = version; reused = false };
              needs_finalize = content.1;
            },
            catalog',
          ))

  -- `prepare_in_transaction` from the search for the key on
  unfoldable pub prepare_found :
      SourceVersionSpec
      → Option StagedBlob
      → Bool
      → Catalog
      → BlobStore
      → Option SourceVersionRecord
      → Result SourceVersionFailure (PreparedSourceVersion × Catalog)
  unfolding validate_reuse insert_new
  prepare_found spec staged allow catalog blobs (some existing) =
      validate_reuse service existing spec allow catalog blobs
      >> ok (
        record { result = record { version = existing; reused = true }; needs_finalize = false },
        catalog,
      )
  prepare_found spec staged allow catalog blobs none = insert_new spec staged allow catalog blobs

  -- `prepare_in_transaction`, once the spec is valid
  unfoldable pub prepare_valid :
      SourceVersionSpec
      → Option StagedBlob
      → List Text
      → Catalog
      → BlobStore
      → Result SourceVersionFailure (PreparedSourceVersion × Catalog)
  unfolding find_by_source_and_key prepare_found same
  prepare_valid spec staged pending catalog blobs =
      prepare_found spec staged (any (λ hash. same hash spec.content_sha256) pending) catalog blobs
        (find_by_source_and_key spec.source_id (get_or spec.version_key []) catalog)

  -- `prepare_in_transaction`
  unfoldable pub prepare_in_transaction :
      SourceVersionSpec
      → Option StagedBlob
      → List Text
      → Catalog
      → BlobStore
      → Result SourceVersionFailure (PreparedSourceVersion × Catalog)
  unfolding validate_source_version_spec prepare_valid
  prepare_in_transaction requested staged pending catalog blobs =
      from_spec (validate_source_version_spec service.lib service.max_snapshot_policy requested)
      >>= λ spec. prepare_valid spec staged pending catalog blobs

  -- `if staged is not None: self.blob_store.discard(staged)`
  unfoldable pub discard_staged : Option StagedBlob → BlobStore → BlobStore
  unfolding discard
  discard_staged none blobs = blobs
  discard_staged (some staged) blobs = discard service.hexdigest staged blobs

  -- the commit, which ends the transaction
  unfoldable pub commit :
      SourceVersionCreateResult
      → Catalog
      → Catalog
      → BlobStore
      → Result SourceVersionFailure SourceVersionCreateResult × Stores
  commit result before after blobs =
      if service.commits after
      then (ok result, (after, blobs))
      else (err commit_failed, (before, blobs))

  -- the outcome of a finalization, whose failure rolls back and discards
  unfoldable pub after_finalize :
      SourceVersionCreateResult
      → StagedBlob
      → Result BlobError (FinalizedBlob × BlobStore)
      → Catalog
      → Catalog
      → BlobStore
      → Result SourceVersionFailure SourceVersionCreateResult × Stores
  unfolding commit discard
  after_finalize result staged (err e) before after blobs =
      (err (bad_blob e), (before, discard service.hexdigest staged blobs))
  after_finalize result staged (ok (finalized, blobs')) before after blobs =
      commit result before after blobs'

  -- the end of the transaction: staged bytes are discarded or finalized, and then it commits
  unfoldable pub close :
      PreparedSourceVersion
      → Option StagedBlob
      → Catalog
      → Catalog
      → BlobStore
      → Result SourceVersionFailure SourceVersionCreateResult × Stores
  unfolding commit finalize after_finalize discard
  close prepared none before after blobs = commit prepared.result before after blobs
  close prepared (some staged) before after blobs =
      if prepared.needs_finalize
      then after_finalize prepared.result staged (finalize service.hexdigest staged blobs) before
          after blobs
      else commit prepared.result before after (discard service.hexdigest staged blobs)

  -- the transaction once the records are prepared
  unfoldable pub finish :
      Result SourceVersionFailure (PreparedSourceVersion × Catalog)
      → Option StagedBlob
      → Catalog
      → BlobStore
      → Result SourceVersionFailure SourceVersionCreateResult × Stores
  unfolding discard_staged close
  finish (err e) staged before blobs = (err e, (before, discard_staged staged blobs))
  finish (ok (prepared, after)) staged before blobs =
      if service.projects after
      then close prepared staged before after blobs
      else (err projection_failed, (before, discard_staged staged blobs))

  -- `create_or_reuse` once the bytes, if there are any, are staged
  unfoldable pub store_staged :
      SourceVersionSpec
      → Result BlobError (Option StagedBlob) × BlobStore
      → Catalog
      → Result SourceVersionFailure SourceVersionCreateResult × Stores
  unfolding prepare_in_transaction finish
  store_staged spec (err e, blobs) catalog = (err (bad_blob e), (catalog, blobs))
  store_staged spec (ok staged, blobs) catalog =
      finish (prepare_in_transaction spec staged [] catalog blobs) staged catalog blobs

  abbrev pub given :
      Result BlobError StagedBlob × BlobStore → Result BlobError (Option StagedBlob) × BlobStore
  given (err e, blobs) = (err e, blobs)
  given (ok staged, blobs) = (ok (some staged), blobs)

  -- the staging of the bytes of a spec
  unfoldable pub stage_spec :
      SourceVersionSpec
      → Option Bytes
      → BlobStore
      → Result BlobError (Option StagedBlob) × BlobStore
  unfolding stage_bytes
  stage_spec spec none blobs = (ok none, blobs)
  stage_spec spec (some bytes) blobs = given (
      stage_bytes service.hexdigest service.token bytes (some spec.content_sha256) spec.byte_count
        spec.media_type blobs)

  abbrev pub create_valid :
      Result SourceVersionError SourceVersionSpec
      → Stores
      → Result SourceVersionFailure SourceVersionCreateResult × Stores
  create_valid (err e) stores = (err (bad_spec e), stores)
  create_valid (ok spec) (catalog, blobs) =
      store_staged spec (stage_spec spec spec.snapshot_bytes blobs) catalog

  -- `create_or_reuse`
  unfoldable pub create_or_reuse :
      SourceVersionSpec → Stores → Result SourceVersionFailure SourceVersionCreateResult × Stores
  unfolding validate_source_version_spec stage_spec store_staged
  create_or_reuse requested stores =
      create_valid (validate_source_version_spec service.lib service.max_snapshot_policy requested)
        stores
