-- ===== src/Application/SourceVersions/Outcomes.antt =====
-- However a call of `create_or_reuse` ends, the database refers to content that the file store holds.
use codex_research_skill.Base.{
  keep-none, some-injective, none_not_some, ◌≡◌, refl, sym, ap, subst, ◌∙◌, Option, none, some, [],
  Result, ok, err, ok-injective, err_not_ok,
}
use codex_research_skill.Ingestion.Blobs.{Bytes, BlobError, validate_media_type}
use codex_research_skill.Ingestion.Blobs.Files.{BlobStore, StagedBlob, stage_bytes}
use codex_research_skill.Ingestion.Blobs.Objects.{
  KeepsObjects, stage_bytes-object_files, stage_bytes-blob_of,
}
use codex_research_skill.Domain.Sources.{SourceVersionError, SourceVersionSpec}
use codex_research_skill.Domain.Sources.Validate.{validate_source_version_spec}
use codex_research_skill.Domain.Sources.Normal.{TimeLaws, from_blobs-ok}
use codex_research_skill.Domain.Sources.Facts.{validate-Found}
use codex_research_skill.Domain.Sources.Accepted.{validate_source_version_spec_twice}
use codex_research_skill.Persistence.SourceVersionRepository.{Catalog}
use codex_research_skill.Application.SourceVersions.{Service}
use codex_research_skill.Application.SourceVersions.Create.{
  Stores, prepare_valid, prepare_in_transaction, store_staged, stage_spec, given, create_valid,
  create_or_reuse,
}
use codex_research_skill.Application.SourceVersions.Sound.{IsStagedFor}
use codex_research_skill.Application.SourceVersions.Prepared.{StagedFor, prepare_valid-Prepares}
use codex_research_skill.Persistence.SourceVersionRepository.{
  has_reference_error, blob_reference_error_count,
}
use codex_research_skill.Application.SourceVersions.Backed.{
  IsBacked, same_files, IsBacked-keeps, blob_of-IsStagedFor,
}
use codex_research_skill.Application.SourceVersions.Transactions.{Sound, finish-Sound}

module _ (service : Service) where
  given-store : (run : Result BlobError StagedBlob × BlobStore) → (given service run).1 ≡ run.1
  given-store (err e, blobs) = refl
  given-store (ok staged, blobs) = refl

  given-ok :
      (run : Result BlobError StagedBlob × BlobStore) (staged : Option StagedBlob)
      (blobs : BlobStore)
      → given service run ≡ (ok staged, blobs)
      → (blob : StagedBlob) × (some blob ≡ staged) × (run.0 ≡ ok blob)
  given-ok (err e, b) staged blobs h = elim (err_not_ok (ap (λ p. p.0) h)) [ ]
  given-ok (ok blob, b) staged blobs h = (blob, ok-injective (ap (λ p. p.0) h), refl)

  stage_spec-same_files :
      (spec : SourceVersionSpec) (bytes : Option Bytes) (blobs : BlobStore)
      → KeepsObjects blobs (stage_spec service spec bytes blobs).1
  unfolding stage_spec
  stage_spec-same_files spec none blobs = λ key content found. found
  stage_spec-same_files spec (some bytes) blobs =
      let run =
        stage_bytes service.hexdigest service.token bytes (some spec.content_sha256) spec.byte_count
          spec.media_type blobs in
      same_files service.hexdigest blobs (given service run).1 (
        ap (λ (b : BlobStore). b.object_files) (given-store run)
        ∙ stage_bytes-object_files service.hexdigest service.token bytes (some spec.content_sha256)
            spec.byte_count spec.media_type blobs)

  stage_spec-StagedFor :
      (spec : SourceVersionSpec) (bytes : Option Bytes) (blobs blobs' : BlobStore)
      (staged : Option StagedBlob)
      → validate_media_type spec.media_type ≡ ok spec.media_type
      → stage_spec service spec bytes blobs ≡ (ok staged, blobs')
      → StagedFor service spec staged
  unfolding stage_spec
  stage_spec-StagedFor spec none blobs blobs' staged media h =
      λ blob e. elim (none_not_some (ok-injective (ap (λ p. p.0) h) ∙ e)) [ ]
  stage_spec-StagedFor spec (some bytes) blobs blobs' staged media h = λ blob e.
      let run =
        stage_bytes service.hexdigest service.token bytes (some spec.content_sha256) spec.byte_count
          spec.media_type blobs in
      let (made, same_blob, r) = given-ok run staged blobs' h in
      subst (IsStagedFor spec) (some-injective (same_blob ∙ e)) (
        blob_of-IsStagedFor service.hexdigest spec service.token bytes made media (
          stage_bytes-blob_of service.hexdigest service.token bytes (some spec.content_sha256)
            spec.byte_count spec.media_type blobs made r))

  module _ (laws : TimeLaws service.lib) where
    -- A spec that is normal is prepared as it is.
    prepare_in_transaction-normal :
        (spec : SourceVersionSpec) (staged : Option StagedBlob) (catalog : Catalog)
        (blobs : BlobStore)
        → validate_source_version_spec service.lib service.max_snapshot_policy spec ≡ ok spec
        → prepare_in_transaction service spec staged [] catalog blobs
          ≡ prepare_valid service spec staged [] catalog blobs
    unfolding prepare_in_transaction
    prepare_in_transaction-normal spec staged catalog blobs e = rw e refl

    store_staged-Sound :
        (spec : SourceVersionSpec) (catalog : Catalog) (blobs : BlobStore)
        (run : Result BlobError (Option StagedBlob) × BlobStore)
        → validate_source_version_spec service.lib service.max_snapshot_policy spec ≡ ok spec
        → ((staged : Option StagedBlob) (after : BlobStore)
            → run ≡ (ok staged, after)
            → StagedFor service spec staged)
        → KeepsObjects blobs run.1
        → Sound service (catalog, blobs)
        → Sound service (store_staged service spec run catalog).1
    unfolding store_staged
    store_staged-Sound spec catalog blobs (err e, after) normal for_spec keeps h =
        IsBacked-keeps service.hexdigest catalog blobs after keeps h
    store_staged-Sound spec catalog blobs (ok staged, after) normal for_spec keeps h =
        finish-Sound service (prepare_in_transaction service spec staged [] catalog after) staged
          catalog after
          (λ prepared last e.
            prepare_valid-Prepares service spec staged [] catalog last after prepared
              (for_spec staged after refl) h.consistent
              (sym (prepare_in_transaction-normal spec staged catalog after normal) ∙ e))
          (IsBacked-keeps service.hexdigest catalog blobs after keeps h)

    create_valid-Sound :
        (requested : SourceVersionSpec) (stores : Stores)
        (run : Result SourceVersionError SourceVersionSpec)
        → validate_source_version_spec service.lib service.max_snapshot_policy requested ≡ run
        → Sound service stores
        → Sound service (create_valid service run stores).1
    create_valid-Sound requested stores (err e) valid h = h
    create_valid-Sound requested (catalog, blobs) (ok spec) valid h =
        let normal =
          validate_source_version_spec_twice service.lib laws service.max_snapshot_policy requested
            spec valid in
        let found = validate-Found service.lib service.max_snapshot_policy spec spec normal in
        let media : validate_media_type spec.media_type ≡ ok spec.media_type =
          from_blobs-ok (validate_media_type spec.media_type) found.media_type found.media_checked
          ∙ ap (λ (n : SourceVersionSpec). ok n.media_type) found.is_normal in
        store_staged-Sound spec catalog blobs (stage_spec service spec spec.snapshot_bytes blobs)
          normal
          (λ staged after e.
            stage_spec-StagedFor spec spec.snapshot_bytes blobs after staged media e)
          (stage_spec-same_files spec spec.snapshot_bytes blobs) h

    create_or_reuse-Sound :
        (requested : SourceVersionSpec) (stores : Stores)
        → Sound service stores
        → Sound service (create_or_reuse service requested stores).1
    unfolding create_or_reuse
    create_or_reuse-Sound requested stores h =
        create_valid-Sound requested stores
          (validate_source_version_spec service.lib service.max_snapshot_policy requested) refl h

    -- However a call ends, in success, in an error at any step or in a commit that fails: if the database
    -- had a stored object of the right digest and length for each content row and no wrong reference from
    -- a version to its content, it has so afterwards, and the count of reference errors is zero. What
    -- datetime says of printed UTC times is assumed.
    pub create_or_reuse-IsBacked :
        (requested : SourceVersionSpec) (stores : Stores)
        → IsBacked service.hexdigest stores
        → IsBacked service.hexdigest (create_or_reuse service requested stores).1
          × (blob_reference_error_count (create_or_reuse service requested stores).1.0 ≡ 0)
    unfolding blob_reference_error_count
    create_or_reuse-IsBacked requested stores h =
        let sound = create_or_reuse-Sound requested stores h in
        let catalog = (create_or_reuse service requested stores).1.0 in
        (
          sound,
          keep-none (has_reference_error catalog.content_objects) catalog.source_versions
              sound.consistent.referring,
        )
