-- ===== src/Application/SourceVersions/Transactions.antt =====
-- However the transaction of `create_or_reuse` ends, the stores stay right.
use codex_research_skill.Base.{
  some-injective, none_not_some, All-append, ◌≡◌, refl, sym, ap, subst, ◌∙◌, inl, inr, Bool, true,
  false, Option, none, some, both_branches, Result, ok, err, if◌then◌else◌,
}
use codex_research_skill.Ingestion.Blobs.{BlobError}
use codex_research_skill.Ingestion.Blobs.Files.{BlobStore, StagedBlob, FinalizedBlob}
use codex_research_skill.Ingestion.Blobs.Files.Finalize.{finalize, discard}
use codex_research_skill.Ingestion.Blobs.Objects.{Holds, finalize-ok, discard-object_files}
use codex_research_skill.Persistence.SourceVersionRepository.{Catalog, SourceVersionFailure}
use codex_research_skill.Application.SourceVersions.{
  Service, SourceVersionCreateResult, PreparedSourceVersion,
}
use codex_research_skill.Application.SourceVersions.Create.{
  Stores, discard_staged, commit, after_finalize, close, finish,
}
use codex_research_skill.Application.SourceVersions.Prepared.{Prepares}
use codex_research_skill.Application.SourceVersions.Backed.{
  IsBacked, Held, Held-keeps, same_files, IsBacked-keeps,
}

module _ (service : Service) where
  abbrev pub Sound : Stores → Type 0
  Sound = IsBacked service.hexdigest

  abbrev Outcome : Type 0
  Outcome = Result SourceVersionFailure SourceVersionCreateResult × Stores

  discard_staged-Sound :
      (staged : Option StagedBlob) (catalog : Catalog) (blobs : BlobStore)
      → Sound (catalog, blobs)
      → Sound (catalog, discard_staged service staged blobs)
  unfolding discard_staged
  discard_staged-Sound none catalog blobs h = h
  discard_staged-Sound (some blob) catalog blobs h =
      IsBacked-keeps service.hexdigest catalog blobs (discard service.hexdigest blob blobs)
        (same_files service.hexdigest blobs (discard service.hexdigest blob blobs)
          (discard-object_files service.hexdigest blob blobs))
        h

  commit-Sound :
      (result : SourceVersionCreateResult) (before after : Catalog) (blobs : BlobStore)
      → Sound (before, blobs)
      → Sound (after, blobs)
      → Sound (commit service result before after blobs).1
  unfolding commit
  commit-Sound result before after blobs was is =
      both_branches (λ (o : Outcome). Sound o.1) (service.commits after) is was

  -- Records that need no more content than there is stay right.
  same_content :
      (staged : Option StagedBlob) (before after : Catalog) (prepared : PreparedSourceVersion)
      (blobs : BlobStore)
      → prepared.needs_finalize ≡ false
      → Prepares staged before prepared after
      → Sound (before, blobs)
      → Sound (after, blobs)
  same_content staged before after prepared blobs none_needed (sound, inl (_, e)) h = record {
    consistent = sound;
    backed = subst (Held service.hexdigest blobs) (sym e) h.backed;
  }
  same_content staged before after prepared blobs none_needed
        (sound, inr (needed, _, _, _, _, _, _, _)) h =
      let bad : ⊥ = cc (none_needed, needed) in elim bad [ ]

  -- Records that need the staged bytes are right once these are finalized.
  new_content :
      (blob : StagedBlob) (before after : Catalog) (prepared : PreparedSourceVersion)
      (blobs blobs' : BlobStore) (f : FinalizedBlob)
      → Prepares (some blob) before prepared after
      → finalize service.hexdigest blob blobs ≡ ok (f, blobs')
      → Sound (before, blobs)
      → Sound (after, blobs')
  new_content blob before after prepared blobs blobs' f (sound, grows) finalized h =
      let (keeps, holds) = finalize-ok service.hexdigest blob blobs blobs' f finalized in
      let old = Held-keeps service.hexdigest blobs blobs' before.content_objects keeps h.backed in
      elim grows [
        | inl (_, e) ↦ record {
          consistent = sound;
          backed = subst (Held service.hexdigest blobs') (sym e) old;
        }
        | inr (_, other, row, is_blob, e, key, sha256, count) ↦
            let same_blob : other ≡ blob = sym (some-injective is_blob) in
            let new : Holds service.hexdigest blobs' row.storage_key row.sha256 row.byte_count =
              rw (key ∙ ap (λ (b : StagedBlob). b.storage_key) same_blob) (
                rw (sha256 ∙ ap (λ (b : StagedBlob). b.sha256) same_blob)
                  (rw (count ∙ ap (λ (b : StagedBlob). b.byte_count) same_blob) holds)) in
            record {
              consistent = sound;
              backed =
                  subst (Held service.hexdigest blobs') (sym e)
                    (All-append _ before.content_objects row old new);
            }
      ]

  after_finalize-Sound :
      (blob : StagedBlob) (before after : Catalog) (prepared : PreparedSourceVersion)
      (blobs : BlobStore) (end : Result BlobError (FinalizedBlob × BlobStore))
      → finalize service.hexdigest blob blobs ≡ end
      → Prepares (some blob) before prepared after
      → Sound (before, blobs)
      → Sound (after_finalize service prepared.result blob end before after blobs).1
  unfolding after_finalize discard_staged
  after_finalize-Sound blob before after prepared blobs (err e) finalized made h =
      discard_staged-Sound (some blob) before blobs h
  after_finalize-Sound blob before after prepared blobs (ok (f, blobs')) finalized made h =
      let (keeps, _) = finalize-ok service.hexdigest blob blobs blobs' f finalized in
      commit-Sound prepared.result before after blobs'
        (IsBacked-keeps service.hexdigest before blobs blobs' keeps h)
        (new_content blob before after prepared blobs blobs' f made finalized h)

  none_staged-none_needed :
      (before after : Catalog) (prepared : PreparedSourceVersion)
      → Prepares none before prepared after
      → prepared.needs_finalize ≡ false
  none_staged-none_needed before after prepared (_, inl (none_needed, _)) = none_needed
  none_staged-none_needed before after prepared (_, inr (_, _, _, is_blob, _, _, _, _)) =
      elim (none_not_some is_blob) [ ]

  close_some-Sound :
      (needs : Bool) (blob : StagedBlob) (before after : Catalog) (prepared : PreparedSourceVersion)
      (blobs : BlobStore)
      → prepared.needs_finalize ≡ needs
      → Prepares (some blob) before prepared after
      → Sound (before, blobs)
      → (let outcome : Outcome =
            if needs
            then after_finalize service prepared.result blob
                (finalize service.hexdigest blob blobs)
                before
                after
                blobs
            else commit service prepared.result before after
                (discard service.hexdigest blob blobs) in
          Sound outcome.1)
  unfolding discard discard_staged
  close_some-Sound true blob before after prepared blobs e made h =
      after_finalize-Sound blob before after prepared blobs (finalize service.hexdigest blob blobs)
        refl made h
  close_some-Sound false blob before after prepared blobs e made h =
      commit-Sound prepared.result before after (discard service.hexdigest blob blobs)
        (discard_staged-Sound (some blob) before blobs h)
        (discard_staged-Sound (some blob) after blobs
          (same_content (some blob) before after prepared blobs e made h))

  close-Sound :
      (staged : Option StagedBlob) (before after : Catalog) (prepared : PreparedSourceVersion)
      (blobs : BlobStore)
      → Prepares staged before prepared after
      → Sound (before, blobs)
      → Sound (close service prepared staged before after blobs).1
  unfolding close
  close-Sound none before after prepared blobs made h =
      commit-Sound prepared.result before after blobs h (
        same_content none before after prepared blobs
          (none_staged-none_needed before after prepared made) made h)
  close-Sound (some blob) before after prepared blobs made h =
      close_some-Sound prepared.needs_finalize blob before after prepared blobs refl made h

  pub finish-Sound :
      (run : Result SourceVersionFailure (PreparedSourceVersion × Catalog))
      (staged : Option StagedBlob) (before : Catalog) (blobs : BlobStore)
      → ((prepared : PreparedSourceVersion) (after : Catalog)
          → run ≡ ok (prepared, after)
          → Prepares staged before prepared after)
      → Sound (before, blobs)
      → Sound (finish service run staged before blobs).1
  unfolding finish
  finish-Sound (err e) staged before blobs made h = discard_staged-Sound staged before blobs h
  finish-Sound (ok (prepared, after)) staged before blobs made h =
      both_branches (λ (o : Outcome). Sound o.1) (service.projects after)
        (close-Sound staged before after prepared blobs (made prepared after refl) h)
        (discard_staged-Sound staged before blobs h)
