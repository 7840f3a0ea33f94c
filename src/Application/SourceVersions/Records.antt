-- ===== src/Application/SourceVersions/Records.antt =====
-- A call of `create_or_reuse` changes the database only when it answers, and then by rows that are new.
use mathlib.Core.List.{append-nil}
use codex_research_skill.Base.{
  ◌≡◌, refl, sym, ap, subst, ◌⊎◌, inl, inr, Bool, true, false, Option, none, some, List, [], ◌∷◌,
  ◌++◌, any, get_or, both_branches, Result, ok, err, ◌>>◌, >>=-eq-ok, ok-injective,
}
use codex_research_skill.Text.{same}
use codex_research_skill.Ingestion.Blobs.{BlobError}
use codex_research_skill.Ingestion.Blobs.Files.{BlobStore, StagedBlob, FinalizedBlob}
use codex_research_skill.Ingestion.Blobs.Files.Finalize.{finalize, discard}
use codex_research_skill.Domain.Sources.{SourceVersionError, SourceVersionSpec}
use codex_research_skill.Domain.Sources.Validate.{validate_source_version_spec}
use codex_research_skill.Persistence.SourceVersionRepository.{
  ContentObjectRecord, SourceVersionRecord, Catalog, SourceVersionFailure, find_content_by_sha256,
  find_source, find_by_source_and_key, insert_content_object, insert_source_version,
}
use codex_research_skill.Persistence.SourceVersionRepository.References.{
  insert_content_object-ok, insert_source_version-ok,
}
use codex_research_skill.Application.SourceVersions.{
  Service, SourceVersionCreateResult, PreparedSourceVersion, validate_content_reuse,
  check_available, validate_reuse,
}
use codex_research_skill.Application.SourceVersions.Content.{
  content_record, prepare_staged, prepare_content_object, new_source_version,
}
use codex_research_skill.Application.SourceVersions.Create.{
  Stores, from_spec, require_private_source, insert_new, prepare_found, prepare_valid,
  prepare_in_transaction, commit, after_finalize, close, finish, store_staged, stage_spec,
  create_valid, create_or_reuse,
}

-- The rows of content that there were, and perhaps more; the versions are the same.
abbrev GrowsContent : Catalog → Catalog → Type 0
GrowsContent before after =
    (more : List ContentObjectRecord) × (after.content_objects ≡ before.content_objects ++ more)
    × (after.source_versions ≡ before.source_versions)

-- A version that is reused changes no row. One that is new is the only version added, behind the others,
-- and the rows of content stay, with perhaps more behind them.
abbrev pub Records : Catalog → SourceVersionCreateResult → Catalog → Type 0
Records before result after =
    ((result.reused ≡ true) × (after ≡ before))
    ⊎ ((result.reused ≡ false)
        × (after.source_versions ≡ before.source_versions ++ result.version ∷ [])
        × (more : List ContentObjectRecord) × (after.content_objects
            ≡ before.content_objects ++ more))

-- An error leaves the database as it was; an answer tells what was recorded.
abbrev pub Outcome :
    Catalog → Result SourceVersionFailure SourceVersionCreateResult × Stores → Type 0
Outcome before (err e, (after, blobs)) = after ≡ before
Outcome before (ok result, (after, blobs)) = Records before result after

module _ (service : Service) where
  prepare_staged-GrowsContent :
      (spec : SourceVersionSpec) (staged : StagedBlob) (allow : Bool) (catalog after : Catalog)
      (blobs : BlobStore) (found : Option ContentObjectRecord) (row : ContentObjectRecord)
      (needs : Bool)
      → prepare_staged service spec staged allow catalog blobs found ≡ ok (row, needs, after)
      → GrowsContent catalog after
  unfolding prepare_staged
  prepare_staged-GrowsContent spec staged allow catalog after blobs (some existing) row needs h =
      let checks =
        validate_content_reuse existing staged.sha256 staged.storage_key staged.byte_count
          staged.media_type
        >> check_available service allow existing blobs in
      let (_, _, e) = >>=-eq-ok checks _ h in
      subst (λ p. GrowsContent catalog p.2) (ok-injective e) ([], sym (append-nil _), refl)
  prepare_staged-GrowsContent spec staged allow catalog after blobs none row needs h =
      let new = content_record service spec staged in
      let (inserted, put, e) = >>=-eq-ok (insert_content_object new catalog) _ h in
      let (grown, _) = insert_content_object-ok new catalog inserted put in
      subst (λ p. GrowsContent catalog p.2) (ok-injective e)
        (subst (GrowsContent catalog) grown (new ∷ [], refl, refl))

  prepare_content_object-GrowsContent :
      (spec : SourceVersionSpec) (staged : Option StagedBlob) (allow : Bool)
      (catalog after : Catalog) (blobs : BlobStore) (content : Option ContentObjectRecord)
      (needs : Bool)
      → prepare_content_object service spec staged allow catalog blobs ≡ ok (content, needs, after)
      → GrowsContent catalog after
  unfolding prepare_content_object
  prepare_content_object-GrowsContent spec none allow catalog after blobs content needs h =
      subst (λ p. GrowsContent catalog p.2) (ok-injective h) ([], sym (append-nil _), refl)
  prepare_content_object-GrowsContent spec (some blob) allow catalog after blobs content needs h =
      let found = find_content_by_sha256 spec.content_sha256 catalog in
      let ((row, fresh, last), r, e) =
        >>=-eq-ok (prepare_staged service spec blob allow catalog blobs found) _ h in
      subst (λ p. GrowsContent catalog p.2) (ok-injective e)
        (prepare_staged-GrowsContent spec blob allow catalog last blobs found row fresh r)

  insert_new-Records :
      (spec : SourceVersionSpec) (staged : Option StagedBlob) (allow : Bool)
      (catalog after : Catalog) (blobs : BlobStore) (prepared : PreparedSourceVersion)
      → insert_new service spec staged allow catalog blobs ≡ ok (prepared, after)
      → Records catalog prepared.result after
  unfolding insert_new
  insert_new-Records spec staged allow catalog after blobs prepared h =
      let (_, _, h1) =
        >>=-eq-ok (require_private_source (find_source spec.source_id catalog)) _ h in
      let ((content, needs, mid), e2, h2) =
        >>=-eq-ok (prepare_content_object service spec staged allow catalog blobs) _ h1 in
      let version = new_source_version service spec content in
      let (last, e3, h3) = >>=-eq-ok (insert_source_version version mid) _ h2 in
      let (more, contents, versions) =
        prepare_content_object-GrowsContent spec staged allow catalog mid blobs content needs e2 in
      let grown = insert_source_version-ok version mid last e3 in
      subst (λ p. Records catalog p.0.result p.1) (ok-injective h3)
        (subst (λ c. Records catalog (record { version = version; reused = false }) c) grown
          (inr (refl, ap (λ vs. vs ++ version ∷ []) versions, more, contents)))

  prepare_found-Records :
      (spec : SourceVersionSpec) (staged : Option StagedBlob) (allow : Bool)
      (catalog after : Catalog) (blobs : BlobStore) (found : Option SourceVersionRecord)
      (prepared : PreparedSourceVersion)
      → prepare_found service spec staged allow catalog blobs found ≡ ok (prepared, after)
      → Records catalog prepared.result after
  unfolding prepare_found
  prepare_found-Records spec staged allow catalog after blobs none prepared h =
      insert_new-Records spec staged allow catalog after blobs prepared h
  prepare_found-Records spec staged allow catalog after blobs (some existing) prepared h =
      let (_, _, e) = >>=-eq-ok (validate_reuse service existing spec allow catalog blobs) _ h in
      subst (λ p. Records catalog p.0.result p.1) (ok-injective e) (inl (refl, refl))

  prepare_in_transaction-Records :
      (requested : SourceVersionSpec) (staged : Option StagedBlob) (catalog after : Catalog)
      (blobs : BlobStore) (prepared : PreparedSourceVersion)
      → prepare_in_transaction service requested staged [] catalog blobs ≡ ok (prepared, after)
      → Records catalog prepared.result after
  unfolding prepare_in_transaction prepare_valid
  prepare_in_transaction-Records requested staged catalog after blobs prepared h =
      let run =
        from_spec
          (validate_source_version_spec service.lib service.max_snapshot_policy requested) in
      let (spec, _, e) = >>=-eq-ok run _ h in
      prepare_found-Records spec staged (any (λ hash. same hash spec.content_sha256) []) catalog
        after blobs (find_by_source_and_key spec.source_id (get_or spec.version_key []) catalog)
        prepared e

  commit-Outcome :
      (result : SourceVersionCreateResult) (before after : Catalog) (blobs : BlobStore)
      → Records before result after
      → Outcome before (commit service result before after blobs)
  unfolding commit
  commit-Outcome result before after blobs h =
      both_branches (Outcome before) (service.commits after) h refl

  after_finalize-Outcome :
      (result : SourceVersionCreateResult) (blob : StagedBlob)
      (end : Result BlobError (FinalizedBlob × BlobStore)) (before after : Catalog)
      (blobs : BlobStore)
      → Records before result after
      → Outcome before (after_finalize service result blob end before after blobs)
  unfolding after_finalize
  after_finalize-Outcome result blob (err e) before after blobs h = refl
  after_finalize-Outcome result blob (ok (f, blobs')) before after blobs h =
      commit-Outcome result before after blobs' h

  close-Outcome :
      (staged : Option StagedBlob) (before after : Catalog) (prepared : PreparedSourceVersion)
      (blobs : BlobStore)
      → Records before prepared.result after
      → Outcome before (close service prepared staged before after blobs)
  unfolding close
  close-Outcome none before after prepared blobs h =
      commit-Outcome prepared.result before after blobs h
  close-Outcome (some blob) before after prepared blobs h =
      both_branches (Outcome before) prepared.needs_finalize
        (after_finalize-Outcome prepared.result blob (finalize service.hexdigest blob blobs) before
          after blobs h)
        (commit-Outcome prepared.result before after (discard service.hexdigest blob blobs) h)

  finish-Outcome :
      (run : Result SourceVersionFailure (PreparedSourceVersion × Catalog))
      (staged : Option StagedBlob) (before : Catalog) (blobs : BlobStore)
      → ((prepared : PreparedSourceVersion) (after : Catalog)
          → run ≡ ok (prepared, after)
          → Records before prepared.result after)
      → Outcome before (finish service run staged before blobs)
  unfolding finish
  finish-Outcome (err e) staged before blobs made = refl
  finish-Outcome (ok (prepared, after)) staged before blobs made =
      both_branches (Outcome before) (service.projects after)
        (close-Outcome staged before after prepared blobs (made prepared after refl)) refl

  store_staged-Outcome :
      (spec : SourceVersionSpec) (run : Result BlobError (Option StagedBlob) × BlobStore)
      (catalog : Catalog)
      → Outcome catalog (store_staged service spec run catalog)
  unfolding store_staged
  store_staged-Outcome spec (err e, blobs) catalog = refl
  store_staged-Outcome spec (ok staged, blobs) catalog =
      finish-Outcome (prepare_in_transaction service spec staged [] catalog blobs) staged catalog
        blobs
        (λ prepared after e.
          prepare_in_transaction-Records spec staged catalog after blobs prepared e)

  create_valid-Outcome :
      (run : Result SourceVersionError SourceVersionSpec) (stores : Stores)
      → Outcome stores.0 (create_valid service run stores)
  create_valid-Outcome (err e) (catalog, blobs) = refl
  create_valid-Outcome (ok spec) (catalog, blobs) =
      store_staged-Outcome spec (stage_spec service spec spec.snapshot_bytes blobs) catalog

  -- A call that ends in an error leaves the database as it was. One that answers with a reused version
  -- does so too; one that answers with a new version has put it behind the versions that there were, and
  -- these and the rows of content are unchanged, with perhaps more rows of content behind them.
  pub create_or_reuse-Outcome :
      (requested : SourceVersionSpec) (stores : Stores)
      → Outcome stores.0 (create_or_reuse service requested stores)
  unfolding create_or_reuse
  create_or_reuse-Outcome requested stores =
      create_valid-Outcome
        (validate_source_version_spec service.lib service.max_snapshot_policy requested) stores
