-- ===== src/Domain/Sources/Facts.antt =====
-- What a validation of a source version that succeeds has found, test by test.
use codex_research_skill.Base.{ℕ, ◌≡◌, Option, some, ok, guard, ◌>>◌, >>=-eq-ok, ok-injective}
use codex_research_skill.Text.{Text}
use codex_research_skill.Ingestion.Blobs.{validate_sha256, validate_media_type}
use codex_research_skill.Domain.Sources.{
  SourceVersionSpec, Timestamp, iso_text, Library, source_version_error, check_source_id,
  is_version_kind, from_blobs, check_policy, check_bytes, count_of, key_of, check_locator,
}
use codex_research_skill.Domain.Sources.Validate.{
  normalize_utc_timestamp, normalize_optional, check_rest, validate_source_version_spec,
}

-- The normal form that the parts of a validation make up.
abbrev pub normal_form :
    SourceVersionSpec
    → Text
    → Text
    → Text
    → Option Timestamp
    → Text
    → Option Text
    → Option ℕ
    → SourceVersionSpec
normal_form spec source_id version_key retrieved_at published_at sha256 media_type byte_count =
    record spec {
      source_id = source_id;
      version_key = some version_key;
      retrieved_at = iso_text retrieved_at;
      published_at = published_at;
      content_sha256 = sha256;
      media_type = media_type;
      byte_count = byte_count;
    }

-- What a validation that succeeds has found.
pub record Found (lib : Library) (max_policy : Text) (spec normal : SourceVersionSpec)
    : Type 0 where
  pub source_id : Text
  pub version_key : Text
  pub retrieved_at : Text
  pub published_at : Option Timestamp
  pub sha256 : Text
  pub media_type : Option Text
  pub byte_count : Option ℕ
  pub is_normal :
      normal_form spec source_id version_key retrieved_at published_at sha256 media_type byte_count
      ≡ normal
  pub id_checked : check_source_id spec.source_id ≡ ok source_id
  pub kind_checked : guard (is_version_kind spec.version_kind) source_version_error ≡ ok tt
  pub sha_checked : from_blobs (validate_sha256 spec.content_sha256) ≡ ok sha256
  pub media_checked : from_blobs (validate_media_type spec.media_type) ≡ ok media_type
  pub retention_checked :
      (check_policy spec.snapshot_policy max_policy
        >> check_bytes spec.snapshot_policy spec.snapshot_bytes)
      ≡ ok tt
  pub count_checked : count_of spec.snapshot_bytes spec.byte_count ≡ ok byte_count
  pub key_checked : key_of spec.version_key spec.version_kind sha256 ≡ ok version_key
  pub locator_checked : check_locator spec.canonical_locator ≡ ok tt
  pub retrieved_checked : normalize_utc_timestamp lib spec.retrieved_at ≡ ok retrieved_at
  pub published_checked : normalize_optional lib spec.published_at ≡ ok published_at
  pub rest_checked : check_rest lib spec ≡ ok tt

module _ (lib : Library) (max_policy : Text) (spec normal : SourceVersionSpec) where
  pub validate-Found :
      validate_source_version_spec lib max_policy spec ≡ ok normal
      → Found lib max_policy spec normal
  unfolding validate_source_version_spec
  validate-Found h =
      let (source_id, e1, h1) = >>=-eq-ok (check_source_id spec.source_id) _ h in
      let (_, e2, h2) =
        >>=-eq-ok (guard (is_version_kind spec.version_kind) source_version_error) _ h1 in
      let (sha256, e3, h3) = >>=-eq-ok (from_blobs (validate_sha256 spec.content_sha256)) _ h2 in
      let (media_type, e4, h4) =
        >>=-eq-ok (from_blobs (validate_media_type spec.media_type)) _ h3 in
      let (_, e5, h5) =
        >>=-eq-ok
          (check_policy spec.snapshot_policy max_policy
            >> check_bytes spec.snapshot_policy spec.snapshot_bytes)
          _ h4 in
      let (byte_count, e6, h6) = >>=-eq-ok (count_of spec.snapshot_bytes spec.byte_count) _ h5 in
      let (version_key, e7, h7) =
        >>=-eq-ok (key_of spec.version_key spec.version_kind sha256) _ h6 in
      let (_, e8, h8) = >>=-eq-ok (check_locator spec.canonical_locator) _ h7 in
      let (retrieved_at, e9, h9) = >>=-eq-ok (normalize_utc_timestamp lib spec.retrieved_at) _ h8 in
      let (published_at, e10, h10) = >>=-eq-ok (normalize_optional lib spec.published_at) _ h9 in
      let (_, e11, h11) = >>=-eq-ok (check_rest lib spec) _ h10 in
      record {
        source_id = source_id;
        version_key = version_key;
        retrieved_at = retrieved_at;
        published_at = published_at;
        sha256 = sha256;
        media_type = media_type;
        byte_count = byte_count;
        is_normal = ok-injective h11;
        id_checked = e1;
        kind_checked = e2;
        sha_checked = e3;
        media_checked = e4;
        retention_checked = e5;
        count_checked = e6;
        key_checked = e7;
        locator_checked = e8;
        retrieved_checked = e9;
        published_checked = e10;
        rest_checked = e11;
      }
