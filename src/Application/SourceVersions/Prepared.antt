-- ===== src/Application/SourceVersions/Prepared.antt =====
-- A preparation that succeeds leaves the references right, whether it reuses or inserts.
use codex_research_skill.Base.{
  All-append, ◌≡◌, refl, sym, subst, inl, inr, Bool, false, Option, none, some, List, [], any,
  get_or, Option-cases, ok, >>=-eq-ok, ok-injective,
}
use codex_research_skill.Text.{Text, same}
use codex_research_skill.Ingestion.Blobs.Files.{BlobStore, StagedBlob}
use codex_research_skill.Domain.Sources.{SourceVersionSpec}
use codex_research_skill.Persistence.SourceVersionRepository.{
  ContentObjectRecord, SourceVersionRecord, Catalog, find_content_by_sha256, find_source,
  is_mismatch, reference_error, has_reference_error, insert_source_version, find_by_source_and_key,
}
use codex_research_skill.Persistence.SourceVersionRepository.References.{insert_source_version-ok}
use codex_research_skill.Application.SourceVersions.{Service, PreparedSourceVersion, validate_reuse}
use codex_research_skill.Application.SourceVersions.Content.{
  prepare_staged, prepare_content_object, new_source_version,
}
use codex_research_skill.Application.SourceVersions.Create.{
  insert_new, prepare_found, prepare_valid, require_private_source,
}
use codex_research_skill.Application.SourceVersions.Sound.{
  IsConsistent, IsStagedFor, ContentGrows, Ready, IsPrepared, Fits-no_mismatch,
  prepare_staged-reused, prepare_staged-new,
}

-- A preparation's records are right, and its content rows grow by those that are to be finalized.
abbrev pub Prepares : Option StagedBlob → Catalog → PreparedSourceVersion → Catalog → Type 0
Prepares staged before prepared after =
    IsConsistent after
    × ContentGrows staged before.content_objects after.content_objects prepared.needs_finalize

module _ (service : Service) (spec : SourceVersionSpec) where
  -- Whatever is staged is staged for the spec.
  abbrev pub StagedFor : Option StagedBlob → Type 0
  StagedFor staged = (blob : StagedBlob) → staged ≡ some blob → IsStagedFor spec blob

  prepare_content_object-IsPrepared :
      (staged : Option StagedBlob) (allow : Bool) (catalog after : Catalog) (blobs : BlobStore)
      (content : Option ContentObjectRecord) (needs : Bool)
      → StagedFor staged
      → IsConsistent catalog
      → prepare_content_object service spec staged allow catalog blobs ≡ ok (content, needs, after)
      → IsPrepared service spec staged catalog after content needs
  unfolding prepare_content_object
  prepare_content_object-IsPrepared none allow catalog after blobs content needs for_spec sound h =
      subst (λ p. IsPrepared service spec none catalog p.2 p.0 p.1) (ok-injective h)
        (record { consistent = sound; ready = tt; grows = inl (refl, refl) })
  prepare_content_object-IsPrepared (some blob) allow catalog after blobs content needs for_spec
        sound h =
      let found = find_content_by_sha256 spec.content_sha256 catalog in
      let ((row, fresh, last), r, e) =
        >>=-eq-ok (prepare_staged service spec blob allow catalog blobs found) _ h in
      subst (λ p. IsPrepared service spec (some blob) catalog p.2 p.0 p.1) (ok-injective e)
        (elim (Option-cases found) [
          | inl none_found ↦
              prepare_staged-new service spec blob allow catalog blobs row fresh last
                (for_spec blob refl) sound
                (subst
                  (λ o.
                    prepare_staged service spec blob allow catalog blobs o ≡ ok (row, fresh, last))
                  none_found r)
          | inr (existing, is_found) ↦
              prepare_staged-reused service spec blob allow catalog blobs existing row fresh last
                (for_spec blob refl) sound is_found
                (subst
                  (λ o.
                    prepare_staged service spec blob allow catalog blobs o ≡ ok (row, fresh, last))
                  is_found r)
        ])

  new-no_error :
      (content : Option ContentObjectRecord) (after : Catalog)
      → Ready service spec content after
      → has_reference_error after.content_objects (new_source_version service spec content) ≡ false
  unfolding has_reference_error reference_error new_source_version
  new-no_error none after ready = refl
  new-no_error (some row) after (fits, found) =
      let version = new_source_version service spec (some row) in
      subst (λ o. is_mismatch o version ≡ false) (sym found)
        (Fits-no_mismatch service spec row (some row) fits)

  insert_new-Prepares :
      (staged : Option StagedBlob) (allow : Bool) (catalog after : Catalog) (blobs : BlobStore)
      (prepared : PreparedSourceVersion)
      → StagedFor staged
      → IsConsistent catalog
      → insert_new service spec staged allow catalog blobs ≡ ok (prepared, after)
      → Prepares staged catalog prepared after
  unfolding insert_new
  insert_new-Prepares staged allow catalog after blobs prepared for_spec sound h =
      let (_, _, h1) =
        >>=-eq-ok (require_private_source (find_source spec.source_id catalog)) _ h in
      let ((content, needs, mid), e2, h2) =
        >>=-eq-ok (prepare_content_object service spec staged allow catalog blobs) _ h1 in
      let (last, e3, h3) =
        >>=-eq-ok (insert_source_version (new_source_version service spec content) mid) _ h2 in
      let made =
        prepare_content_object-IsPrepared staged allow catalog mid blobs content needs for_spec
          sound e2 in
      let grown = insert_source_version-ok (new_source_version service spec content) mid last e3 in
      subst (λ p. Prepares staged catalog p.0 p.1) (ok-injective h3)
        (subst
          (λ c.
            IsConsistent c × ContentGrows staged catalog.content_objects c.content_objects needs)
          grown
          (
            record {
              found_by_id = made.consistent.found_by_id;
              referring =
                  All-append (λ v. has_reference_error mid.content_objects v ≡ false)
                    mid.source_versions (new_source_version service spec content)
                    made.consistent.referring (new-no_error content mid made.ready);
            },
            made.grows,
          ))

  prepare_found-Prepares :
      (staged : Option StagedBlob) (allow : Bool) (catalog after : Catalog) (blobs : BlobStore)
      (found : Option SourceVersionRecord) (prepared : PreparedSourceVersion)
      → StagedFor staged
      → IsConsistent catalog
      → prepare_found service spec staged allow catalog blobs found ≡ ok (prepared, after)
      → Prepares staged catalog prepared after
  unfolding prepare_found
  prepare_found-Prepares staged allow catalog after blobs none prepared for_spec sound h =
      insert_new-Prepares staged allow catalog after blobs prepared for_spec sound h
  prepare_found-Prepares staged allow catalog after blobs (some existing) prepared for_spec sound
        h =
      let (_, _, e) = >>=-eq-ok (validate_reuse service existing spec allow catalog blobs) _ h in
      subst (λ p. Prepares staged catalog p.0 p.1) (ok-injective e) (sound, inl (refl, refl))

  pub prepare_valid-Prepares :
      (staged : Option StagedBlob) (pending : List Text) (catalog after : Catalog)
      (blobs : BlobStore) (prepared : PreparedSourceVersion)
      → StagedFor staged
      → IsConsistent catalog
      → prepare_valid service spec staged pending catalog blobs ≡ ok (prepared, after)
      → Prepares staged catalog prepared after
  unfolding prepare_valid
  prepare_valid-Prepares staged pending catalog after blobs prepared for_spec sound h =
      prepare_found-Prepares staged (any (λ hash. same hash spec.content_sha256) pending) catalog
        after blobs (find_by_source_and_key spec.source_id (get_or spec.version_key []) catalog)
        prepared for_spec sound h
