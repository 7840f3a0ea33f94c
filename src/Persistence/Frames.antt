-- ===== src/Persistence/Frames.antt =====
-- Relations between stores that every operation of a review keeps: what such a relation must allow.
use codex_research_skill.Base.{List, ◌∷◌, ◌++◌, String}
use codex_research_skill.Persistence.Schema.{
  Claim, ClaimRevision, ClaimEvidence, ReviewEvent, Source, Excerpt, Report, RefreshItem, Database,
}
use codex_research_skill.Persistence.Transaction.{change, write_claims, write_queue}
use codex_research_skill.Persistence.Transaction.Keeps.{
  IsStable, Keeps, keeps_rules, Keeps-change, Keeps-bind, Keeps-then, Keeps-query, Keeps-require,
}
use codex_research_skill.Persistence.ReviewRepository.{
  insert_claim_revision, copy_claim_evidence, copied_evidence, update_current, insert_review_event,
}
use codex_research_skill.Persistence.RefreshQueue.{enqueue_refresh, dismiss_refresh}

-- The tables that a review may rewrite, and those to which it may only add.
pub record Frame (R : Database → Database → Type 0) : Type 0 where
  pub stable : IsStable R
  pub claims : (d : Database) (rows : List Claim) → R d (record d { claims = rows })
  pub queue : (d : Database) (rows : List RefreshItem) → R d (record d { refresh_queue = rows })
  pub sources : (d : Database) (rows : List Source) → R d (record d { sources = rows })
  pub excerpts : (d : Database) (rows : List Excerpt) → R d (record d { excerpts = rows })
  pub reports : (d : Database) (rows : List Report) → R d (record d { reports = rows })
  pub revision :
      (d : Database) (r : ClaimRevision)
      → R d (record d { claim_revisions = r ∷ d.claim_revisions })
  pub evidence :
      (d : Database) (rows : List ClaimEvidence)
      → R d (record d { claim_evidence = rows ++ d.claim_evidence })
  pub event :
      (d : Database) (e : ReviewEvent) → R d (record d { review_events = e ∷ d.review_events })

module _ {R : Database → Database → Type 0} where
  pub frame-IsStable : Frame R → IsStable R
  frame-IsStable frame = frame.stable

  write_claims-Keeps : Frame R → (f : List Claim → List Claim) → Keeps R (write_claims f)
  unfolding write_claims
  write_claims-Keeps frame f = Keeps-change _ (λ d. frame.claims d _)

  write_queue-Keeps : Frame R → (f : List RefreshItem → List RefreshItem) → Keeps R (write_queue f)
  unfolding write_queue
  write_queue-Keeps frame f = Keeps-change _ (λ d. frame.queue d _)

  add_revision-Keeps :
      Frame R
      → (r : ClaimRevision)
      → Keeps R (change (λ db. record db { claim_revisions = r ∷ db.claim_revisions }))
  add_revision-Keeps frame r = Keeps-change _ (λ d. frame.revision d r)

  add_event-Keeps :
      Frame R
      → (e : ReviewEvent)
      → Keeps R (change (λ db. record db { review_events = e ∷ db.review_events }))
  add_event-Keeps frame e = Keeps-change _ (λ d. frame.event d e)

pub ruleset frame_rules = (keeps_rules, frame-IsStable)

module _ {R : Database → Database → Type 0} where
  pub insert_claim_revision-Keeps :
      Frame R → (r : ClaimRevision) → Keeps R (insert_claim_revision r)
  unfolding insert_claim_revision
  insert_claim_revision-Keeps frame r =
      Keeps-bind frame.stable _ _ (Keeps-query frame.stable _) λ taken.
        Keeps-then frame.stable _ _ (Keeps-require frame.stable _ _) (add_revision-Keeps frame r)

  pub insert_review_event-Keeps : Frame R → (e : ReviewEvent) → Keeps R (insert_review_event e)
  unfolding insert_review_event
  insert_review_event-Keeps frame e =
      Keeps-bind frame.stable _ _ (Keeps-query frame.stable _) λ taken.
        Keeps-then frame.stable _ _ (Keeps-require frame.stable _ _) (add_event-Keeps frame e)

  pub copy_claim_evidence-Keeps : Frame R → (a b : String) → Keeps R (copy_claim_evidence a b)
  unfolding copy_claim_evidence
  copy_claim_evidence-Keeps frame a b =
      Keeps-change _ (λ d. frame.evidence d (copied_evidence a b d.claim_evidence))

  pub update_current-Keeps :
      Frame R
      → (claim_id revision_id : String) (f : Claim → Claim)
      → Keeps R (update_current claim_id revision_id f)
  unfolding update_current
  update_current-Keeps frame claim_id revision_id f =
      search (frame_rules, write_claims-Keeps) depth 8

  pub enqueue_refresh-Keeps : Frame R → (q : RefreshItem) → Keeps R (enqueue_refresh q)
  unfolding enqueue_refresh
  enqueue_refresh-Keeps frame q = search (frame_rules, write_queue-Keeps) depth 10

  pub dismiss_refresh-Keeps :
      Frame R → (id state now : String) → Keeps R (dismiss_refresh id state now)
  unfolding dismiss_refresh
  dismiss_refresh-Keeps frame id state now = search (frame_rules, write_queue-Keeps) depth 10
