-- ===== src/Ingestion/Blobs/Files/Finalize.antt =====
-- ingestion/blobs.py: `finalize`, `discard` and `rollback_finalize`.
use codex_research_skill.Base.{
  Bool, true, false, Option, none, some, ◌∷◌, if◌then◌else◌, Result, ok, err, guard, ◌>>=◌, ◌>>◌,
}
use codex_research_skill.Text.{Text, same}
use codex_research_skill.Ingestion.Blobs.{
  Bytes, BlobError, validation, containment, integrity, not_found, validate_media_type,
  storage_key_for_sha256,
}
use codex_research_skill.Ingestion.Blobs.Files.{
  StagedBlob, FinalizedBlob, BlobStore, lookup, remove, owns, check_reference, is_content, unstaged,
  reference_of, finalized_as,
}

module _ (hexdigest : Bytes → Text) where
  -- the end of `finalize`: the staged bytes move, unless the object is there
  unfoldable pub place :
      StagedBlob → Bytes → BlobStore → Option Bytes → Result BlobError (FinalizedBlob × BlobStore)
  unfolding is_content remove
  place blob content store none = ok (
    finalized_as hexdigest blob false,
    record (unstaged hexdigest blob store) {
      object_files = (blob.storage_key, content) ∷ store.object_files;
    },
  )
  place blob content store (some existing) =
      if is_content hexdigest blob.sha256 blob.byte_count existing
      then ok (finalized_as hexdigest blob true, unstaged hexdigest blob store)
      else err integrity

  -- `_require_owned_stage`
  unfoldable pub require_owned_stage : StagedBlob → BlobStore → Result BlobError (Unit {0})
  unfolding owns storage_key_for_sha256 validate_media_type same
  require_owned_stage blob store =
      guard (owns store blob) validation
      >> (storage_key_for_sha256 blob.sha256 >>= λ key.
          guard (same blob.storage_key key) containment
          >> (validate_media_type blob.media_type >>= λ _. ok tt))

  -- `finalize`, from the staged file on
  unfoldable pub finalize_file :
      StagedBlob → BlobStore → Option Bytes → Result BlobError (FinalizedBlob × BlobStore)
  unfolding is_content check_reference place lookup
  finalize_file blob store none = err not_found
  finalize_file blob store (some content) =
      guard (is_content hexdigest blob.sha256 blob.byte_count content) integrity
      >> check_reference hexdigest (reference_of hexdigest blob)
      >> place blob content store (lookup blob.storage_key store.object_files)

  -- `finalize`
  unfoldable pub finalize : StagedBlob → BlobStore → Result BlobError (FinalizedBlob × BlobStore)
  unfolding require_owned_stage finalize_file lookup
  finalize blob store =
      require_owned_stage blob store
      >> finalize_file blob store (lookup blob.token store.stage_files)

  -- `discard`
  unfoldable pub discard : StagedBlob → BlobStore → BlobStore
  unfolding owns remove
  discard blob store = if owns store blob then unstaged hexdigest blob store else store

  abbrev pub removed :
      FinalizedBlob → BlobStore → Option Bytes → Result BlobError (Bool × BlobStore)
  removed blob store none = err not_found
  removed blob store (some content) =
      if is_content hexdigest blob.sha256 blob.byte_count content
      then ok (true, record store { object_files = remove blob.storage_key store.object_files })
      else err integrity

  -- `rollback_finalize`
  unfoldable pub rollback_finalize : FinalizedBlob → BlobStore → Result BlobError (Bool × BlobStore)
  unfolding check_reference lookup remove is_content
  rollback_finalize blob store =
      if blob.reused
      then ok (false, store)
      else check_reference hexdigest (record {
        sha256 = blob.sha256;
        storage_key = blob.storage_key;
        byte_count = blob.byte_count;
        media_type = blob.media_type;
      })
        >> removed blob store (lookup blob.storage_key store.object_files)
