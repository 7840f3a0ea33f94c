-- ===== src/Application/SourceVersions/Sound.antt =====
-- The records that a preparation leaves: every reference to content is right.
use codex_research_skill.Base.{
  All-append, All-imply, find-All, ℕ, ◌≡◌, refl, sym, ap, subst, ◌∙◌, inl, inr, ◌⊎◌, Bool, true,
  false, ◌&&◌, Option, none, some, [], ◌∷◌, ◌++◌, All, arith, and-true, Result, ok, ◌>>◌, >>=-eq-ok,
  then-ok, ok-injective, guard-ok, ◌==◌,
}
use codex_research_skill.Text.{Text, codes, same}
use codex_research_skill.Text.Find.{same_refl, same_iff}
use codex_research_skill.Ingestion.Blobs.Files.{BlobStore, StagedBlob, matches_count, same_option}
use codex_research_skill.Domain.Sources.{SourceVersionSpec}
use codex_research_skill.Persistence.SourceVersionRepository.{
  ContentObjectRecord, Catalog, SourceVersionFailure, find_content, find_content_by_sha256,
  is_mismatch, has_reference_error, insert_content_object, count_agrees,
}
use codex_research_skill.Persistence.SourceVersionRepository.References.{
  Rows, FoundById, find_content-append, has_reference_error-append, insert_content_object-ok,
}
use codex_research_skill.Application.SourceVersions.{
  Service, validate_content_reuse, check_available,
}
use codex_research_skill.Application.SourceVersions.Content.{
  prepare_staged, content_record, new_source_version,
}

-- Each content row is found by its id, and no version's reference is wrong.
pub record IsConsistent (catalog : Catalog) : Type 0 where
  pub found_by_id : FoundById catalog.content_objects
  pub referring :
      All (λ v. has_reference_error catalog.content_objects v ≡ false) catalog.source_versions

-- The staged bytes are those that the spec describes.
pub record IsStagedFor (spec : SourceVersionSpec) (staged : StagedBlob) : Type 0 where
  pub sha256 : staged.sha256 ≡ spec.content_sha256
  pub byte_count : matches_count spec.byte_count staged.byte_count ≡ true
  pub media_type : staged.media_type ≡ spec.media_type

-- The content rows that a preparation leaves: the same ones, or with one more for the staged bytes.
abbrev pub ContentGrows : Option StagedBlob → Rows → Rows → Bool → Type 0
ContentGrows staged before after needs =
    ((needs ≡ false) × (after ≡ before))
    ⊎ ((needs ≡ true)
        × (blob : StagedBlob) × (row : ContentObjectRecord) × (staged ≡ some blob)
        × (after ≡ before ++ row ∷ [])
        × (row.storage_key ≡ blob.storage_key)
        × (row.sha256 ≡ blob.sha256)
        × (row.byte_count ≡ blob.byte_count))

-- What a content row is for a spec: no mismatch with a version that the spec makes.
abbrev pub Fits : SourceVersionSpec → ContentObjectRecord → Type 0
Fits spec row =
    (row.storage_backend ≡ codes "filesystem")
    × (row.sha256 ≡ spec.content_sha256)
    × (count_agrees row.byte_count spec.byte_count ≡ true)
    × (row.media_type ≡ spec.media_type)

same_option_refl : (o : Option Text) → same_option o o ≡ true
unfolding same_option
same_option_refl none = refl
same_option_refl (some a) = same_refl a

same_option_eq : (a b : Option Text) → same_option a b ≡ true → a ≡ b
unfolding same_option
same_option_eq none none h = refl
same_option_eq none (some b) h = absurd (ground (arith, h))
same_option_eq (some a) none h = absurd (ground (arith, h))
same_option_eq (some a) (some b) h = ap (λ t. some t) ((same_iff a b).0 h)

count_agrees-staged :
    (n : ℕ) (count : Option ℕ) → matches_count count n ≡ true → count_agrees n count ≡ true
count_agrees-staged n none h = refl
count_agrees-staged n (some m) h = ground (arith, h)

validate_content_reuse-ok :
    (row : ContentObjectRecord) (sha256 key : Text) (count : ℕ) (media_type : Option Text)
    → validate_content_reuse row sha256 key count media_type ≡ ok tt
    → (row.storage_backend ≡ codes "filesystem")
      × (row.sha256 ≡ sha256)
      × (row.byte_count ≡ count)
      × (row.media_type ≡ media_type)
unfolding validate_content_reuse
validate_content_reuse-ok row sha256 key count media_type h =
    let all_same = guard-ok _ _ h in
    let one = same row.storage_backend (codes "filesystem") in
    let two = same row.sha256 sha256 in
    let three = same row.storage_key key in
    let four = row.byte_count == count in
    let five = same_option row.media_type media_type in
    let (h5, _) =
      and-true (one && two && three && four && five) (same row.compression (codes "none"))
        all_same in
    let (h4, e5) = and-true (one && two && three && four) five h5 in
    let (h3, e4) = and-true (one && two && three) four h4 in
    let (h2, _) = and-true (one && two) three h3 in
    let (e1, e2) = and-true one two h2 in
    ((same_iff _ _).0 e1, (same_iff _ _).0 e2, ground (arith, e4), same_option_eq _ _ e5)

module _ (service : Service) (spec : SourceVersionSpec) where
  pub Fits-no_mismatch :
      (row : ContentObjectRecord) (content : Option ContentObjectRecord)
      → Fits spec row
      → is_mismatch (some row) (new_source_version service spec content) ≡ false
  unfolding is_mismatch new_source_version
  Fits-no_mismatch row content (e1, e2, e3, e4) =
      rw (e1, e2, e4)
        (ground (
          arith,
          e3,
          same_refl (codes "filesystem"),
          same_refl spec.content_sha256,
          same_option_refl spec.media_type,
        ))

  -- The content of the version to be is found by its id and fits the spec.
  abbrev pub Ready : Option ContentObjectRecord → Catalog → Type 0
  Ready none catalog = Unit
  Ready (some row) catalog =
      Fits spec row × (find_content row.id catalog.content_objects ≡ some row)

  -- What the preparation of the content leaves.
  pub record IsPrepared (staged : Option StagedBlob) (before after : Catalog)
      (content : Option ContentObjectRecord) (needs : Bool) : Type 0 where
    pub consistent : IsConsistent after
    pub ready : Ready content after
    pub grows : ContentGrows staged before.content_objects after.content_objects needs

  pub prepare_staged-reused :
      (staged : StagedBlob) (allow : Bool) (catalog : Catalog) (blobs : BlobStore)
      (existing row : ContentObjectRecord) (needs : Bool) (after : Catalog)
      → IsStagedFor spec staged
      → IsConsistent catalog
      → find_content_by_sha256 spec.content_sha256 catalog ≡ some existing
      → prepare_staged service spec staged allow catalog blobs (some existing)
        ≡ ok (row, needs, after)
      → IsPrepared (some staged) catalog after (some row) needs
  unfolding prepare_staged find_content_by_sha256
  prepare_staged-reused staged allow catalog blobs existing row needs after for_spec sound found h =
      let reuse =
        validate_content_reuse existing staged.sha256 staged.storage_key staged.byte_count
          staged.media_type in
      let (checks, e) =
        then-ok (reuse >> check_available service allow existing blobs)
          (ok (existing, false, catalog)) h in
      let (fits, _) = then-ok reuse (check_available service allow existing blobs) checks in
      let (backend, sha256, count, media) =
        validate_content_reuse-ok existing staged.sha256 staged.storage_key staged.byte_count
          staged.media_type fits in
      let (by_id, _) =
        find-All (λ c. find_content c.id catalog.content_objects ≡ some c)
          (λ c. same c.sha256 spec.content_sha256) catalog.content_objects existing
          sound.found_by_id found in
      subst (λ p. IsPrepared (some staged) catalog p.2 (some p.0) p.1) (ok-injective e)
        (record {
          consistent = sound;
          ready = (
            (
              backend,
              sha256 ∙ for_spec.sha256,
              rw count (count_agrees-staged staged.byte_count spec.byte_count for_spec.byte_count),
              media ∙ for_spec.media_type,
            ),
            by_id,
          );
          grows = inl (refl, refl);
        })

  pub prepare_staged-new :
      (staged : StagedBlob) (allow : Bool) (catalog : Catalog) (blobs : BlobStore)
      (row : ContentObjectRecord) (needs : Bool) (after : Catalog)
      → IsStagedFor spec staged
      → IsConsistent catalog
      → prepare_staged service spec staged allow catalog blobs none ≡ ok (row, needs, after)
      → IsPrepared (some staged) catalog after (some row) needs
  unfolding prepare_staged content_record
  prepare_staged-new staged allow catalog blobs row needs after for_spec sound h =
      let new = content_record service spec staged in
      let (inserted, put, e) = >>=-eq-ok (insert_content_object new catalog) _ h in
      let (grown, found) = insert_content_object-ok new catalog inserted put in
      let rows = catalog.content_objects in
      let ended =
        subst
          (λ c.
            ◌≡◌ {A = Result SourceVersionFailure (ContentObjectRecord × Bool × Catalog)}
              (ok (new, true, c)) (ok (row, needs, after)))
          (sym grown) e in
      subst (λ p. IsPrepared (some staged) catalog p.2 (some p.0) p.1) (ok-injective ended)
        (record {
          consistent = record {
            found_by_id =
                All-append (λ c. find_content c.id (rows ++ new ∷ []) ≡ some c) rows new
                  (All-imply rows (λ c e. find_content-append c.id rows (new ∷ []) c e)
                    sound.found_by_id)
                  found;
            referring =
                All-imply catalog.source_versions
                  (λ v e. has_reference_error-append rows (new ∷ []) v e) sound.referring;
          };
          ready = (
            (
              refl,
              for_spec.sha256,
              count_agrees-staged staged.byte_count spec.byte_count for_spec.byte_count,
              for_spec.media_type,
            ),
            found,
          );
          grows = inr (refl, staged, new, refl, refl, refl, refl, refl);
        })
