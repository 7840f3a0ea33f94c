-- ===== src/Application/SourceVersions/Content.antt =====
-- application/source_versions.py: `_prepare_content_object` and `_new_source_version`.
use codex_research_skill.Base.{
  Bool, true, false, Option, none, some, [], ◌∷◌, ◌++◌, get_or, Result, ok, ◌>>=◌, ◌>>◌,
}
use codex_research_skill.Text.{codes}
use codex_research_skill.Ingestion.Blobs.Files.{StagedBlob, BlobStore}
use codex_research_skill.Domain.Sources.{SourceVersionSpec, text_value}
use codex_research_skill.Persistence.SourceVersionRepository.{
  ContentObjectRecord, SourceVersionRecord, Catalog, SourceVersionFailure, find_content_by_sha256,
  insert_content_object,
}
use codex_research_skill.Application.SourceVersions.{
  Service, validate_content_reuse, put_text, policy_key, text_of, optional_text_of, content_id_of,
  check_available,
}

module _ (service : Service) where
  -- the row of content that is new
  unfoldable pub content_record : SourceVersionSpec → StagedBlob → ContentObjectRecord
  content_record spec staged = record {
    id = codes "blob_" ++ service.content_id;
    sha256 = staged.sha256;
    storage_backend = codes "filesystem";
    storage_key = staged.storage_key;
    media_type = staged.media_type;
    byte_count = staged.byte_count;
    compression = codes "none";
    created_at = service.now;
    metadata = (policy_key, text_value spec.snapshot_policy) ∷ [];
  }

  -- `_prepare_content_object` for bytes that are staged, with the content of their digest
  unfoldable pub prepare_staged :
      SourceVersionSpec
      → StagedBlob
      → Bool
      → Catalog
      → BlobStore
      → Option ContentObjectRecord
      → Result SourceVersionFailure (ContentObjectRecord × Bool × Catalog)
  unfolding validate_content_reuse check_available insert_content_object content_record
  prepare_staged spec staged allow catalog blobs (some existing) =
      validate_content_reuse existing staged.sha256 staged.storage_key staged.byte_count
        staged.media_type
      >> check_available service allow existing blobs
      >> ok (existing, false, catalog)
  prepare_staged spec staged allow catalog blobs none =
      let row = content_record spec staged in
      insert_content_object row catalog >>= λ catalog'. ok (row, true, catalog')

  abbrev pub with_content :
      Result SourceVersionFailure (ContentObjectRecord × Bool × Catalog)
      → Result SourceVersionFailure (Option ContentObjectRecord × Bool × Catalog)
  with_content r = r >>= λ p. ok (some p.0, p.1, p.2)

  -- `_prepare_content_object`
  unfoldable pub prepare_content_object :
      SourceVersionSpec
      → Option StagedBlob
      → Bool
      → Catalog
      → BlobStore
      → Result SourceVersionFailure (Option ContentObjectRecord × Bool × Catalog)
  unfolding prepare_staged find_content_by_sha256
  prepare_content_object spec none allow catalog blobs = ok (none, false, catalog)
  prepare_content_object spec (some staged) allow catalog blobs = with_content (
      prepare_staged spec staged allow catalog blobs
        (find_content_by_sha256 spec.content_sha256 catalog))

  -- `_new_source_version`
  unfoldable pub new_source_version :
      SourceVersionSpec → Option ContentObjectRecord → SourceVersionRecord
  unfolding put_text
  new_source_version spec content = record {
    id = codes "srcv_" ++ service.version_id;
    source_id = spec.source_id;
    version_key = get_or spec.version_key [];
    version_kind = spec.version_kind;
    retrieved_at = text_of spec.retrieved_at;
    published_at = optional_text_of spec.published_at;
    content_sha256 = spec.content_sha256;
    canonical_locator = spec.canonical_locator;
    metadata = put_text policy_key spec.snapshot_policy spec.metadata;
    created_at = service.now;
    content_object_id = content_id_of content;
    media_type = spec.media_type;
    byte_count = spec.byte_count;
    parser_name = spec.parser_name;
    parser_version = spec.parser_version;
    repository_locator = spec.repository_locator;
    commit_sha = spec.commit_sha;
    blob_sha = spec.blob_sha;
    path = spec.path;
  }
