-- ===== src/Application/SourceVersions.antt =====
-- application/source_versions.py: a source version and its content, in the database and in the file store.
-- Rows come back from the database as they were put in.
pub mod Create
pub mod Sound
pub mod Prepared
pub mod Backed
pub mod Transactions
pub mod Outcomes
pub mod Records
pub mod Content
use codex_research_skill.Base.{
  ℕ, Bool, true, false, not, ◌&&◌, ◌||◌, Option, none, some, List, [], ◌∷◌, ◌++◌, map, any, is_some,
  get_or, ◌==◌, if◌then◌else◌, Result, ok, err, guard, reject_if, ◌>>=◌, ◌>>◌,
}
use codex_research_skill.Text.{Text, codes, same}
use codex_research_skill.Ingestion.Blobs.{Bytes, BlobError, not_found, integrity}
use codex_research_skill.Ingestion.Blobs.Files.{
  BlobReference, StagedBlob, BlobStore, FinalizedBlob, same_option, stage_bytes, read, lookup,
}
use codex_research_skill.Ingestion.Blobs.Files.Finalize.{finalize, discard}
use codex_research_skill.Domain.Sources.{
  SourceVersionError, SourceVersionSpec, Timestamp, iso_text, date_time, Metadata, MetadataValue,
  text_value, json_value, Library,
}
use codex_research_skill.Domain.Sources.Validate.{validate_source_version_spec}
use codex_research_skill.Persistence.SourceVersionRepository.{
  ContentObjectRecord, SourceVersionRecord, SourceRow, Catalog, SourceVersionFailure, bad_spec,
  bad_blob, conflict, content_object_missing, projection_failed, commit_failed,
  find_content_by_sha256, get_content_object, find_by_source_and_key, find_source,
  insert_content_object, insert_source_version,
}

-- The service's policy, and what one call takes from elsewhere: the libraries, `uuid4`, the clock,
-- whether the projection of search documents and the commit succeed.
pub record Service : Type 0 where
  pub max_snapshot_policy : Text
  pub lib : Library
  pub hexdigest : Bytes → Text
  pub token : Text
  pub content_id : Text
  pub version_id : Text
  pub now : Text
  pub projects : Catalog → Bool
  pub commits : Catalog → Bool

pub record SourceVersionCreateResult : Type 0 where
  pub version : SourceVersionRecord
  pub reused : Bool

pub record PreparedSourceVersion : Type 0 where
  pub result : SourceVersionCreateResult
  pub needs_finalize : Bool

-- `_blob_reference`
abbrev pub blob_reference : ContentObjectRecord → BlobReference
blob_reference row = record {
  sha256 = row.sha256;
  storage_key = row.storage_key;
  byte_count = row.byte_count;
  media_type = row.media_type;
}

-- `_validate_content_reuse`
unfoldable pub validate_content_reuse :
    ContentObjectRecord → Text → Text → ℕ → Option Text → Result SourceVersionFailure (Unit {0})
unfolding same same_option
validate_content_reuse row sha256 storage_key byte_count media_type =
    guard
      (same row.storage_backend (codes "filesystem")
        && same row.sha256 sha256
        && same row.storage_key storage_key
        && row.byte_count == byte_count
        && same_option row.media_type media_type
        && same row.compression (codes "none"))
      conflict

-- the exceptions of a read: content that is gone or altered is missing
abbrev pub available : Result BlobError Bytes → Result SourceVersionFailure (Unit {0})
available (ok content) = ok tt
available (err not_found) = err content_object_missing
available (err integrity) = err content_object_missing
available (err other) = err (bad_blob other)

-- `metadata.get(key)`, when it is a string
unfoldable pub get_text : Text → Metadata → Option Text
unfolding same
get_text key [] = none
get_text key ((k, text_value value) ∷ rest) =
    let later = get_text key rest in if same k key then some value else later
get_text key ((k, json_value value) ∷ rest) =
    let later = get_text key rest in if same k key then none else later

-- `{**metadata, key: value}`
unfoldable pub put_text : Text → Text → Metadata → Metadata
unfolding same
put_text key value [] = (key, text_value value) ∷ []
put_text key value ((k, other) ∷ rest) =
    let later = put_text key value rest in
    elim (same k key) [ true ↦ (k, text_value value) ∷ rest | false ↦ (k, other) ∷ later ]

abbrev pub policy_key : Text
policy_key = codes "snapshot_policy"

abbrev pub same_count : Option ℕ → Option ℕ → Bool
same_count none none = true
same_count (some a) (some b) = a == b
same_count _ _ = false

-- the comparison of `_validate_reuse`
unfoldable pub is_same_observation : SourceVersionRecord → SourceVersionSpec → Bool
unfolding same same_option get_text
is_same_observation existing spec =
    same existing.version_kind spec.version_kind
    && same existing.content_sha256 spec.content_sha256
    && same existing.canonical_locator spec.canonical_locator
    && same_option existing.media_type spec.media_type
    && same_count existing.byte_count spec.byte_count
    && same_option existing.parser_name spec.parser_name
    && same_option existing.parser_version spec.parser_version
    && same_option existing.repository_locator spec.repository_locator
    && same_option existing.commit_sha spec.commit_sha
    && same_option existing.blob_sha spec.blob_sha
    && same_option existing.path spec.path
    && same_option (get_text policy_key existing.metadata) (some spec.snapshot_policy)

-- `str(value)` of a normal time
abbrev pub text_of : Timestamp → Text
text_of (iso_text text) = text
text_of (date_time moment) = []

abbrev pub optional_text_of : Option Timestamp → Option Text
optional_text_of none = none
optional_text_of (some value) = some (text_of value)

abbrev pub content_id_of : Option ContentObjectRecord → Option Text
content_id_of none = none
content_id_of (some row) = some row.id

module _ (service : Service) where
  -- the read that checks content which must have been finalized
  unfoldable pub check_available :
      Bool → ContentObjectRecord → BlobStore → Result SourceVersionFailure (Unit {0})
  unfolding read
  check_available allow_unfinalized row blobs =
      if allow_unfinalized
      then ok tt
      else available (read service.hexdigest (blob_reference row) blobs)

  -- the part of `_validate_reuse` on the content
  unfoldable pub validate_snapshot :
      Option Text
      → SourceVersionSpec
      → Bool
      → Catalog
      → BlobStore
      → Result SourceVersionFailure (Unit {0})
  unfolding get_content_object validate_content_reuse check_available
  validate_snapshot none spec allow catalog blobs = reject_if (is_some spec.snapshot_bytes) conflict
  validate_snapshot (some content_id) spec allow catalog blobs =
      guard (is_some spec.snapshot_bytes) conflict
      >> (get_content_object content_id catalog >>= λ row.
          validate_content_reuse row spec.content_sha256 row.storage_key (get_or spec.byte_count 0)
            spec.media_type
          >> check_available allow row blobs)

  -- `_validate_reuse`
  unfoldable pub validate_reuse :
      SourceVersionRecord
      → SourceVersionSpec
      → Bool
      → Catalog
      → BlobStore
      → Result SourceVersionFailure (Unit {0})
  unfolding is_same_observation validate_snapshot
  validate_reuse existing spec allow catalog blobs =
      guard (is_same_observation existing spec) conflict
      >> validate_snapshot existing.content_object_id spec allow catalog blobs
