-- ===== src/CaptureQueue/Flush/Keeps.antt =====
-- A flush loses no bundle and keeps their order.
use codex_research_skill.Base.{◌≡◌, refl, true, false, Option, List, [], ◌∷◌, Result, ok, err}
use codex_research_skill.Text.{Text}
use codex_research_skill.CaptureQueue.Bundles.{Envelope, BackendStatus}
use codex_research_skill.CaptureQueue.Replay.{Backend, replay}
use codex_research_skill.CaptureQueue.Flush.{
  Flushed, flush_loop, kept, by_outcome, failed, matches_backend,
}

module _ (bk : Backend) (now : Text) (status : BackendStatus) where
  -- How a flush takes the backend from one state to another and divides what was pending into what it
  -- has flushed, what has failed and what it keeps: each bundle is replayed and flushed, or kept as it
  -- was since it is for another backend, or kept with one more attempt since its replay raised.
  pub data Divides
      : bk.State → List Envelope → List Text → List Text → List Envelope → bk.State → Type 0 where
    done : (s : bk.State) → Divides s [] [] [] [] s
    skips :
        (b : Envelope) {bs rest : List Envelope} {ok_ids bad_ids : List Text} {s t : bk.State}
        → matches_backend b status ≡ false
        → Divides s bs ok_ids bad_ids rest t
        → Divides s (b ∷ bs) ok_ids bad_ids (b ∷ rest) t
    stores :
        (b : Envelope) (report : Option Text) {bs rest : List Envelope} {ok_ids bad_ids : List Text}
        {s t : bk.State}
        → matches_backend b status ≡ true
        → (replay bk b s).0 ≡ ok report
        → Divides (replay bk b s).1 bs ok_ids bad_ids rest t
        → Divides s (b ∷ bs) (b.queue_id ∷ ok_ids) bad_ids rest t
    retries :
        (b : Envelope) (error : Text) {bs rest : List Envelope} {ok_ids bad_ids : List Text}
        {s t : bk.State}
        → matches_backend b status ≡ true
        → (replay bk b s).0 ≡ err error
        → Divides (replay bk b s).1 bs ok_ids bad_ids rest t
        → Divides s (b ∷ bs) ok_ids (b.queue_id ∷ bad_ids) (failed error now b ∷ rest) t

  abbrev pub FlushedDivides : bk.State → List Envelope → Flushed bk → Type 0
  FlushedDivides state bundles f =
      Divides state bundles f.result.flushed_queue_ids f.result.failed_queue_ids f.remaining
        f.backend

  -- A flush takes each pending bundle once and in order, and loses none.
  pub flush_loop-Divides :
      (bundles : List Envelope) (state : bk.State)
      → FlushedDivides state bundles (flush_loop bk now status bundles state)
  unfolding flush_loop by_outcome
  flush_loop-Divides [] state = done state
  flush_loop-Divides (b ∷ bundles) state =
      let outcome = replay bk b state in
      let others = flush_loop-Divides bundles state in
      let later = flush_loop-Divides bundles outcome.1 in
      let branch = λ (o : Result Text (Option Text)).
        by_outcome bk now b o (flush_loop bk now status bundles outcome.1) in
      elim (matches_backend b status)
          as (λ m.
            matches_backend b status ≡ m
            → FlushedDivides state (b ∷ bundles) (elim m [
              | false ↦ kept bk b (flush_loop bk now status bundles state)
              | true ↦ branch outcome.0
            ])) [
              | false ↦ λ h. skips b h others
              | true ↦ λ h.
                  elim (outcome.0)
                      as (λ o. outcome.0 ≡ o → FlushedDivides state (b ∷ bundles) (branch o)) [
                        | ok report ↦ λ k. stores b report h k later
                        | err error ↦ λ k. retries b error h k later
                      ]
                    refl
            ]
        refl
