-- ===== src/Ingestion/Blobs/Objects.antt =====
-- What staging, finalizing and discarding do to the stored objects.
use codex_research_skill.Base.{
  ℕ, ◌≡◌, refl, ap, subst, inl, inr, true, Option, none, some, List, ◌∷◌, arith, Bool-cases,
  Option-cases, Result, ok, err, guard, ◌>>◌, then-ok, ok-injective, err_not_ok, guard-ok,
}
use codex_research_skill.Text.{Text, same}
use codex_research_skill.Text.Find.{same_iff, same_refl}
use codex_research_skill.Ingestion.Blobs.{Bytes, BlobError, integrity}
use codex_research_skill.Ingestion.Blobs.Files.{
  StagedBlob, BlobStore, FinalizedBlob, lookup, is_content, stage_bytes, check_reference,
  reference_of, unstaged, blob_of, write_stage, staged_as,
}
use codex_research_skill.Ingestion.Blobs.Files.Finalize.{
  place, finalize, discard, require_owned_stage, finalize_file,
}

-- An object of that key, digest and length is stored.
abbrev pub Holds : (Bytes → Text) → BlobStore → Text → Text → ℕ → Type 0
Holds hexdigest blobs storage_key sha256 byte_count =
    (content : Bytes) × (lookup storage_key blobs.object_files ≡ some content)
    × (is_content hexdigest sha256 byte_count content ≡ true)

-- Every object that is stored before is stored after, as it was.
abbrev pub KeepsObjects : BlobStore → BlobStore → Type 0
KeepsObjects before after =
    (key : Text) (content : Bytes)
    → lookup key before.object_files ≡ some content
    → lookup key after.object_files ≡ some content

lookup-other :
    (key new : Text) (content old : Bytes) (files : List (Text × Bytes))
    → lookup new files ≡ none
    → lookup key files ≡ some old
    → lookup key ((new, content) ∷ files) ≡ some old
unfolding lookup
lookup-other key new content old files fresh found = elim (Bool-cases (same new key)) [
  | inl e ↦
      let gone = subst (λ k. lookup k files ≡ none) ((same_iff new key).0 e) fresh in
      let bad : ⊥ = cc (gone, found) in elim bad [ ]
  | inr e ↦ rw (lookup, e) found
]

lookup-new :
    (key : Text) (content : Bytes) (files : List (Text × Bytes))
    → lookup key ((key, content) ∷ files) ≡ some content
unfolding lookup
lookup-new key content files = rw (lookup, same_refl key) refl

module _ (hexdigest : Bytes → Text) where
  -- What a finalization that succeeds does.
  abbrev Placed : StagedBlob → BlobStore → BlobStore → Type 0
  Placed blob before after =
      KeepsObjects before after × Holds hexdigest after blob.storage_key blob.sha256 blob.byte_count

  place-ok :
      (blob : StagedBlob) (content : Bytes) (before after : BlobStore) (f : FinalizedBlob)
      (there : Option Bytes)
      → lookup blob.storage_key before.object_files ≡ there
      → is_content hexdigest blob.sha256 blob.byte_count content ≡ true
      → place hexdigest blob content before there ≡ ok (f, after)
      → Placed blob before after
  unfolding place
  place-ok blob content before after f none e matches h =
      let moved : record (unstaged hexdigest blob before) {
        object_files = (blob.storage_key, content) ∷ before.object_files;
      }
          ≡ after =
        ap (λ p. p.1) (ok-injective h) in
      subst (Placed blob before) moved (
        (λ key old found.
            lookup-other key blob.storage_key content old before.object_files e found),
        (content, lookup-new blob.storage_key content before.object_files, matches),
      )
  place-ok blob content before after f (some existing) e matches h =
      elim (Bool-cases (is_content hexdigest blob.sha256 blob.byte_count existing)) [
        | inl good ↦
            let reused : unstaged hexdigest blob before ≡ after = ground (arith, h, good) in
            subst (Placed blob before) reused ((λ key old found. found), (existing, e, good))
        | inr bad ↦ let absurd_end : ⊥ = ground (arith, h, bad) in elim absurd_end [ ]
      ]

  pub finalize-ok :
      (blob : StagedBlob) (before after : BlobStore) (f : FinalizedBlob)
      → finalize hexdigest blob before ≡ ok (f, after)
      → Placed blob before after
  unfolding finalize finalize_file
  finalize-ok blob before after f h =
      let (_, h1) =
        then-ok (require_owned_stage hexdigest blob before)
          (finalize_file hexdigest blob before (lookup blob.token before.stage_files)) h in
      elim (Option-cases (lookup blob.token before.stage_files)) [
        | inl e ↦
            elim (err_not_ok
              (subst (λ o. finalize_file hexdigest blob before o ≡ ok (f, after)) e h1)) [ ]
        | inr (content, e) ↦
            let h2 = subst (λ o. finalize_file hexdigest blob before o ≡ ok (f, after)) e h1 in
            let there = lookup blob.storage_key before.object_files in
            let matches =
              guard (is_content hexdigest blob.sha256 blob.byte_count content) integrity in
            let (checks, placed) =
              then-ok (matches >> check_reference hexdigest (reference_of hexdigest blob))
                (place hexdigest blob content before there) h2 in
            let (good, _) =
              then-ok matches (check_reference hexdigest (reference_of hexdigest blob)) checks in
            place-ok blob content before after f there refl (guard-ok _ _ good) placed
      ]

  pub discard-object_files :
      (blob : StagedBlob) (blobs : BlobStore)
      → (discard hexdigest blob blobs).object_files ≡ blobs.object_files
  unfolding discard
  discard-object_files blob blobs = ground arith

  staged_as-object_files :
      (staged : Result BlobError StagedBlob) (content : Bytes) (blobs : BlobStore)
      → (staged_as hexdigest staged content blobs).1.object_files ≡ blobs.object_files
  unfolding write_stage
  staged_as-object_files (err e) content blobs = refl
  staged_as-object_files (ok blob) content blobs = ground arith

  pub stage_bytes-object_files :
      (token : Text) (content : Bytes) (sha256 : Option Text) (count : Option ℕ)
      (media_type : Option Text) (blobs : BlobStore)
      → (stage_bytes hexdigest token content sha256 count media_type blobs).1.object_files
        ≡ blobs.object_files
  unfolding stage_bytes
  stage_bytes-object_files token content sha256 count media_type blobs =
      staged_as-object_files (blob_of hexdigest token content sha256 count media_type) content blobs

  write_stage-ok :
      (blob staged : StagedBlob) (content : Bytes) (blobs : BlobStore) (there : Option Bytes)
      → (write_stage hexdigest blob content blobs there).0 ≡ ok staged
      → blob ≡ staged
  unfolding write_stage
  write_stage-ok blob staged content blobs none h = ok-injective h
  write_stage-ok blob staged content blobs (some present) h = elim (err_not_ok h) [ ]

  staged_as-ok :
      (made : Result BlobError StagedBlob) (content : Bytes) (blobs : BlobStore)
      (staged : StagedBlob)
      → (staged_as hexdigest made content blobs).0 ≡ ok staged
      → made ≡ ok staged
  staged_as-ok (err e) content blobs staged h = elim (err_not_ok h) [ ]
  staged_as-ok (ok blob) content blobs staged h =
      ap (λ b. ok b)
        (write_stage-ok blob staged content blobs (lookup blob.token blobs.stage_files) h)

  pub stage_bytes-blob_of :
      (token : Text) (content : Bytes) (sha256 : Option Text) (count : Option ℕ)
      (media_type : Option Text) (blobs : BlobStore) (staged : StagedBlob)
      → (stage_bytes hexdigest token content sha256 count media_type blobs).0 ≡ ok staged
      → blob_of hexdigest token content sha256 count media_type ≡ ok staged
  unfolding stage_bytes
  stage_bytes-blob_of token content sha256 count media_type blobs staged h =
      staged_as-ok (blob_of hexdigest token content sha256 count media_type) content blobs staged h
