-- ===== src/Application/SourceVersions/Backed.antt =====
-- The content that the database refers to and the file store holds, and what is staged for a spec.
use codex_research_skill.Base.{
  All-imply, ◌≡◌, sym, subst, ◌∙◌, some, All, length, ok, guard, ◌>>◌, >>=-eq-ok, then-ok,
  ok-injective, guard-ok, and-true,
}
use codex_research_skill.Text.{Text, same}
use codex_research_skill.Text.Find.{same_iff}
use codex_research_skill.Domain.Evidence.Resolve.{is_sha256}
use codex_research_skill.Ingestion.Blobs.{
  Bytes, validation, validate_media_type, storage_key_for_sha256,
}
use codex_research_skill.Ingestion.Blobs.Files.{
  BlobStore, StagedBlob, blob_of, matches_count, matches_digest, lookup,
}
use codex_research_skill.Ingestion.Blobs.Objects.{Holds, KeepsObjects}
use codex_research_skill.Domain.Sources.{SourceVersionSpec}
use codex_research_skill.Persistence.SourceVersionRepository.{Catalog}
use codex_research_skill.Persistence.SourceVersionRepository.References.{Rows}
use codex_research_skill.Application.SourceVersions.Create.{Stores}
use codex_research_skill.Application.SourceVersions.Sound.{IsConsistent, IsStagedFor}

-- Each content row has an object of its key, digest and length, and no reference to a row is wrong.
pub record IsBacked (hexdigest : Bytes → Text) (stores : Stores) : Type 0 where
  pub consistent : IsConsistent stores.0
  pub backed :
      All
        (λ row. Holds hexdigest stores.1 row.storage_key row.sha256 row.byte_count)
        stores.0.content_objects

module _ (hexdigest : Bytes → Text) where
  abbrev pub Held : BlobStore → Rows → Type 0
  Held blobs rows =
      All (λ row. Holds hexdigest blobs row.storage_key row.sha256 row.byte_count) rows

  pub Held-keeps :
      (before after : BlobStore) (rows : Rows)
      → KeepsObjects before after
      → Held before rows
      → Held after rows
  Held-keeps before after rows keeps =
      All-imply rows
        (λ row (content, found, good). (content, keeps row.storage_key content found, good))

  pub same_files :
      (before after : BlobStore)
      → after.object_files ≡ before.object_files
      → KeepsObjects before after
  same_files before after e key content found =
      subst (λ files. lookup key files ≡ some content) (sym e) found

  pub IsBacked-keeps :
      (catalog : Catalog) (before after : BlobStore)
      → KeepsObjects before after
      → IsBacked hexdigest (catalog, before)
      → IsBacked hexdigest (catalog, after)
  IsBacked-keeps catalog before after keeps h = record {
    consistent = h.consistent;
    backed = Held-keeps before after catalog.content_objects keeps h.backed;
  }

  pub blob_of-IsStagedFor :
      (spec : SourceVersionSpec) (token : Text) (bytes : Bytes) (blob : StagedBlob)
      → validate_media_type spec.media_type ≡ ok spec.media_type
      → blob_of hexdigest token bytes (some spec.content_sha256) spec.byte_count spec.media_type
        ≡ ok blob
      → IsStagedFor spec blob
  unfolding blob_of
  blob_of-IsStagedFor spec token bytes blob media h =
      let digest = hexdigest bytes in
      let right = guard (matches_digest (some spec.content_sha256) digest) validation in
      let counted = guard (matches_count spec.byte_count (length bytes)) validation in
      let (_, checks, h1) = >>=-eq-ok (right >> counted) _ h in
      let (digests, counts) = then-ok right counted checks in
      let (normalized, e2, h2) = >>=-eq-ok (validate_media_type spec.media_type) _ h1 in
      let (key, _, h3) = >>=-eq-ok (storage_key_for_sha256 digest) _ h2 in
      let (_, is_digest) =
        and-true (is_sha256 spec.content_sha256) (same digest spec.content_sha256)
          (guard-ok _ _ digests) in
      subst (IsStagedFor spec) (ok-injective h3) (record {
        sha256 = (same_iff digest spec.content_sha256).0 is_digest;
        byte_count = guard-ok _ _ counts;
        media_type = ok-injective (sym e2 ∙ media);
      })
