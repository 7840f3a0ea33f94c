-- ===== src/Domain/Sources/Validate.antt =====
-- domain/sources.py: `validate_source_version_spec` over the libraries that it calls.
use codex_research_skill.Base.{
  Bool, true, false, not, ◌&&◌, Option, none, some, length, any, leb, ◌==◌, if◌then◌else◌, Result,
  ok, err, guard, ◌>>=◌, ◌>>◌,
}
use Prim.Native.Nat.{◌/◌}
use codex_research_skill.Text.{Text, codes, same, starts_with}
use codex_research_skill.Domain.Evidence.Selectors.{is_git_object_id}
use codex_research_skill.Ingestion.Blobs.{validate_sha256, validate_media_type}
use codex_research_skill.Domain.Sources.{
  SourceVersionError, Moment, Timestamp, iso_text, date_time, Metadata, SourceVersionSpec, Library,
  is_version_kind, check_source_id, from_blobs, check_policy, check_bytes, count_of, key_of,
  check_locator, replace_z, bounded_optional, is_object_id, is_absent_or_object_id,
  source_version_error,
}

module _ (lib : Library) where
  abbrev pub parsed : Timestamp → Option Moment
  parsed (iso_text value) = lib.fromisoformat (replace_z value)
  parsed (date_time moment) = some moment

  abbrev pub in_utc : Option Moment → Result SourceVersionError Text
  in_utc none = err source_version_error
  in_utc (some moment) =
      guard moment.has_offset source_version_error
      >> ok (lib.isoformat (moment.microseconds / 1_000_000))

  -- `_normalize_utc_timestamp`
  unfoldable pub normalize_utc_timestamp : Timestamp → Result SourceVersionError Text
  unfolding replace_z
  normalize_utc_timestamp value = in_utc (parsed value)

  unfoldable pub normalize_optional :
      Option Timestamp → Result SourceVersionError (Option Timestamp)
  unfolding normalize_utc_timestamp
  normalize_optional none = ok none
  normalize_optional (some value) =
      normalize_utc_timestamp value >>= λ text. ok (some (iso_text text))

  -- `_validate_posix_path`
  unfoldable pub is_source_path : Text → Bool
  unfolding same starts_with
  is_source_path value =
      leb 1 (length value)
      && leb (length value) 4096
      && not (starts_with value (codes "/"))
      && not (any (λ c. c == 92) value)
      && not (any (λ part. same part (codes "..")) (lib.posix_parts value))
      && same (lib.posix_str value) value

  abbrev pub is_path : Option Text → Bool
  is_path none = false
  is_path (some path) = is_source_path path

  abbrev pub is_absent_or_path : Option Text → Bool
  is_absent_or_path none = true
  is_absent_or_path (some path) = is_source_path path

  -- the provenance of a Git blob, and what of it another kind may have
  unfoldable pub check_provenance :
      Text → Option Text → Option Text → Option Text → Result SourceVersionError (Unit {0})
  unfolding same is_git_object_id is_source_path
  check_provenance kind commit_sha blob_sha path =
      let complete = is_object_id commit_sha && is_object_id blob_sha && is_path path in
      let partial =
        is_absent_or_object_id commit_sha
        && is_absent_or_object_id blob_sha
        && is_absent_or_path path in
      guard (if same kind (codes "git_blob") then complete else partial) source_version_error

  unfoldable pub check_metadata : Metadata → Result SourceVersionError (Unit {0})
  check_metadata metadata =
      guard (lib.is_json metadata && leb (length metadata) 100) source_version_error

  -- the tests that leave their values as they are, after the byte count
  unfoldable pub check_rest : SourceVersionSpec → Result SourceVersionError (Unit {0})
  unfolding bounded_optional check_provenance check_metadata
  check_rest spec =
      bounded_optional 200 spec.parser_name
      >> bounded_optional 100 spec.parser_version
      >> bounded_optional 8192 spec.repository_locator
      >> check_provenance spec.version_kind spec.commit_sha spec.blob_sha spec.path
      >> check_metadata spec.metadata

  -- `validate_source_version_spec`
  unfoldable pub validate_source_version_spec :
      Text → SourceVersionSpec → Result SourceVersionError SourceVersionSpec
  unfolding check_source_id is_version_kind validate_sha256 validate_media_type check_policy
      check_bytes count_of key_of check_locator normalize_utc_timestamp normalize_optional
      check_rest
  validate_source_version_spec max_policy spec = check_source_id spec.source_id >>= λ source_id.
      guard (is_version_kind spec.version_kind) source_version_error
      >> (from_blobs (validate_sha256 spec.content_sha256) >>= λ content_sha256.
          from_blobs (validate_media_type spec.media_type) >>= λ media_type.
          check_policy spec.snapshot_policy max_policy
          >> check_bytes spec.snapshot_policy spec.snapshot_bytes
          >> (count_of spec.snapshot_bytes spec.byte_count >>= λ byte_count.
              key_of spec.version_key spec.version_kind content_sha256 >>= λ version_key.
              check_locator spec.canonical_locator
              >> (normalize_utc_timestamp spec.retrieved_at >>= λ retrieved_at.
                  normalize_optional spec.published_at >>= λ published_at.
                  check_rest spec
                  >> ok (record spec {
                    source_id = source_id;
                    version_key = some version_key;
                    retrieved_at = iso_text retrieved_at;
                    published_at = published_at;
                    content_sha256 = content_sha256;
                    media_type = media_type;
                    byte_count = byte_count;
                  }))))
