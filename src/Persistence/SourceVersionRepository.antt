-- ===== src/Persistence/SourceVersionRepository.antt =====
-- persistence/repositories.py: the tables of content and source versions, and `SourceVersionRepository`.
-- The review mirror of a source is a column of its own and is left out here.
pub mod References
use codex_research_skill.Base.{
  ℕ, Bool, true, false, not, ◌&&◌, ◌||◌, Option, none, some, List, [], ◌∷◌, ◌++◌, find, any,
  is_some, length, keep, leb, ◌==◌, Result, ok, err, reject_if, guard, ◌>>=◌, ◌>>◌,
}
use codex_research_skill.Text.{Text, codes, same}
use codex_research_skill.Ingestion.Blobs.{BlobError}
use codex_research_skill.Ingestion.Blobs.Files.{BlobReference, same_option}
use codex_research_skill.Domain.Sources.{SourceVersionError, Metadata}

pub record ContentObjectRecord : Type 0 where
  pub id : Text
  pub sha256 : Text
  pub storage_backend : Text
  pub storage_key : Text
  pub media_type : Option Text
  pub byte_count : ℕ
  pub compression : Text
  pub created_at : Text
  pub metadata : Metadata

pub record SourceVersionRecord : Type 0 where
  pub id : Text
  pub source_id : Text
  pub version_key : Text
  pub version_kind : Text
  pub retrieved_at : Text
  pub published_at : Option Text
  pub content_sha256 : Text
  pub canonical_locator : Text
  pub metadata : Metadata
  pub created_at : Text
  pub content_object_id : Option Text
  pub media_type : Option Text
  pub byte_count : Option ℕ
  pub parser_name : Option Text
  pub parser_version : Option Text
  pub repository_locator : Option Text
  pub commit_sha : Option Text
  pub blob_sha : Option Text
  pub path : Option Text

pub record SourceRow : Type 0 where
  pub id : Text
  pub visibility : Text

-- the tables that the repository reads and writes
pub record Catalog : Type 0 where
  pub sources : List SourceRow
  pub content_objects : List ContentObjectRecord
  pub source_versions : List SourceVersionRecord

-- The exceptions of the operations on source versions. `integrity_error` is a violated constraint of the
-- database, `key_error` a record that is not there, and the last two are failures of the projection of
-- search documents and of the commit.
pub data SourceVersionFailure : Type 0 where
  bad_spec : SourceVersionError → SourceVersionFailure
  bad_blob : BlobError → SourceVersionFailure
  conflict content_object_missing integrity_error key_error : SourceVersionFailure
  projection_failed commit_failed : SourceVersionFailure

unfoldable pub find_content_by_sha256 : Text → Catalog → Option ContentObjectRecord
unfolding same
find_content_by_sha256 sha256 catalog = find (λ row. same row.sha256 sha256) catalog.content_objects

unfoldable pub find_content : Text → List ContentObjectRecord → Option ContentObjectRecord
unfolding same
find_content id rows = find (λ row. same row.id id) rows

abbrev or_key_error : {A : Type 0} → Option A → Result SourceVersionFailure A
or_key_error none = err key_error
or_key_error (some row) = ok row

unfoldable pub get_content_object : Text → Catalog → Result SourceVersionFailure ContentObjectRecord
unfolding find_content
get_content_object id catalog = or_key_error (find_content id catalog.content_objects)

unfoldable pub find_by_source_and_key : Text → Text → Catalog → Option SourceVersionRecord
unfolding same
find_by_source_and_key source_id version_key catalog =
    find (λ row. same row.source_id source_id && same row.version_key version_key)
      catalog.source_versions

unfoldable pub find_source : Text → Catalog → Option SourceRow
unfolding same
find_source source_id catalog = find (λ row. same row.id source_id) catalog.sources

-- The id, the digest and the key of a content object are unique.
unfoldable pub insert_content_object :
    ContentObjectRecord → Catalog → Result SourceVersionFailure Catalog
unfolding same
insert_content_object new catalog =
    reject_if
      (any
        (λ row.
          same row.id new.id || same row.sha256 new.sha256 || same row.storage_key new.storage_key)
        catalog.content_objects)
      integrity_error
    >> ok (record catalog { content_objects = catalog.content_objects ++ new ∷ [] })

abbrev pub refers_to_content : Option Text → Catalog → Bool
refers_to_content none catalog = true
refers_to_content (some id) catalog = any (λ row. same row.id id) catalog.content_objects

-- The id of a source version is unique, so is its key in its source, and it refers to rows that exist.
unfoldable pub insert_source_version :
    SourceVersionRecord → Catalog → Result SourceVersionFailure Catalog
unfolding same find_source
insert_source_version new catalog =
    reject_if
      (any
        (λ row.
          same row.id new.id
          || (same row.source_id new.source_id && same row.version_key new.version_key))
        catalog.source_versions)
      integrity_error
    >> guard (is_some (find_source new.source_id catalog)) integrity_error
    >> guard (refers_to_content new.content_object_id catalog) integrity_error
    >> ok (record catalog { source_versions = catalog.source_versions ++ new ∷ [] })

-- `co.byte_count <> sv.byte_count` fails, which it also does where one is NULL
abbrev pub count_agrees : ℕ → Option ℕ → Bool
count_agrees n none = true
count_agrees n (some m) = n == m

-- the condition of `blob_reference_error_count` on the content that a version refers to
unfoldable pub is_mismatch : Option ContentObjectRecord → SourceVersionRecord → Bool
unfolding same same_option
is_mismatch none version = true
is_mismatch (some content) version =
    not (same content.storage_backend (codes "filesystem"))
    || not (same content.sha256 version.content_sha256)
    || not (count_agrees content.byte_count version.byte_count)
    || not (same_option content.media_type version.media_type)

unfoldable pub reference_error : List ContentObjectRecord → SourceVersionRecord → Option Text → Bool
unfolding is_mismatch find_content
reference_error rows version none = false
reference_error rows version (some id) = is_mismatch (find_content id rows) version

unfoldable pub has_reference_error : List ContentObjectRecord → SourceVersionRecord → Bool
unfolding reference_error
has_reference_error rows version = reference_error rows version version.content_object_id

unfoldable pub blob_reference_error_count : Catalog → ℕ
unfolding has_reference_error
blob_reference_error_count catalog =
    length (keep (has_reference_error catalog.content_objects) catalog.source_versions)
