-- ===== src/Application/Review/Frames.antt =====
-- Every operation of a review keeps every frame.
use codex_research_skill.Base.{none, some, String, Option, Bool, true, false, find, if◌then◌else◌}
use codex_research_skill.Domain.Review.{ReviewableEntityKind, ReviewAction}
use codex_research_skill.Persistence.Schema.{Database}
use codex_research_skill.Persistence.Transaction.Keeps.{Keeps, Keeps-pure, Keeps-if, Keeps-change}
use codex_research_skill.Persistence.Frames.{
  Frame, frame_rules, insert_claim_revision-Keeps, insert_review_event-Keeps,
  copy_claim_evidence-Keeps, update_current-Keeps, dismiss_refresh-Keeps,
}
use codex_research_skill.Persistence.ReviewRepository.{
  ClaimRow, CurrentValues, update_claim_current, update_claim_review_state,
}
use codex_research_skill.Persistence.Mirrors.{
  refresh_claim_review_mirror, refresh_source_review_mirror, refresh_evidence_review_mirror,
  update_report_mirror,
}
use codex_research_skill.Persistence.RefreshRepository.{Target}
use codex_research_skill.Persistence.Entities.{Reviewable}
use codex_research_skill.Application.Refresh.Frames.{
  resolve_refresh_targets-Keeps, enqueue_refresh_targets-Keeps,
}
use codex_research_skill.Application.Review.{dispatch}
use codex_research_skill.Application.Review.Request.{ReviewRequest, Caller}
use codex_research_skill.Application.Review.ClaimReview.{
  request_targets, claim_state, decide_claim, refreshes_mirror, review_claim,
}
use codex_research_skill.Application.Review.EntityReview.{
  entity_mirror, decide_entity, review_entity, dismiss_item,
}
use codex_research_skill.Application.Review.Revisions.{ReviewNewRevision, Stamp, apply_review}

module _ {R : Database → Database → Type 0} where
  update_claim_current-Keeps :
      Frame R → (a b : String) (v : CurrentValues) → Keeps R (update_claim_current a b v)
  unfolding update_claim_current
  update_claim_current-Keeps frame a b v = update_current-Keeps frame a b _

  update_claim_review_state-Keeps :
      Frame R → (a b c d e : String) → Keeps R (update_claim_review_state a b c d e)
  unfolding update_claim_review_state
  update_claim_review_state-Keeps frame a b c d e = update_current-Keeps frame a b _

  apply_review-Keeps :
      Frame R
      → (row : ClaimRow) (id : String) (a : ReviewAction) (r : Option ReviewNewRevision) (s : Stamp)
      → Keeps R (apply_review row id a r s)
  unfolding apply_review
  apply_review-Keeps frame row id a r s =
      search
        (
          frame_rules, insert_claim_revision-Keeps, copy_claim_evidence-Keeps,
          update_claim_current-Keeps, update_claim_review_state-Keeps,
        )
        depth 14

  mirror-Keeps :
      Frame R
      → (a : ReviewAction) (f : Database → Database) → ((d : Database) → R d (f d))
      → Keeps R (refreshes_mirror a f)
  unfolding refreshes_mirror
  mirror-Keeps frame a f h = Keeps-if _ _ _ (Keeps-pure frame.stable tt) (Keeps-change f h)

  claim_mirror-Keeps :
      Frame R
      → (a : ReviewAction) (id : String)
      → Keeps R (refreshes_mirror a (refresh_claim_review_mirror id))
  unfolding refresh_claim_review_mirror
  claim_mirror-Keeps frame a id = mirror-Keeps frame a _ (λ d. frame.claims d _)

  -- The mirrors of a store are it, or it with one table rewritten.
  module _ (frame : Frame R) (d : Database) where
    optional :
        {A : Type 0} (o : Option A) (f : A → Database)
        → ((a : A) → R d (f a))
        → R d (elim o [ none ↦ d | some a ↦ f a ])
    optional none f h = frame.stable.same d
    optional (some a) f h = h a

    either : (b : Bool) (x y : Database) → R d x → R d y → R d (if b then x else y)
    either true x y hx hy = hx
    either false x y hx hy = hy

    source_mirror : (id : String) → R d (refresh_source_review_mirror id d)
    unfolding refresh_source_review_mirror
    source_mirror id = frame.sources d _

    evidence_mirror :
        (id : String) (excerpt : Option String) → R d (refresh_evidence_review_mirror id excerpt d)
    unfolding refresh_evidence_review_mirror
    evidence_mirror id none = frame.stable.same d
    evidence_mirror id (some excerpt) =
        optional (find _ d.evidence_spans) _ (λ e. frame.excerpts d _)

    report_mirror : (id s c : String) → R d (update_report_mirror id s c d)
    unfolding update_report_mirror
    report_mirror id s c = frame.reports d _

    mirrored : (e : Reviewable) (s c : String) → R d (entity_mirror e s c d)
    unfolding entity_mirror
    mirrored e s c = either _ _ _ (optional e.legacy_id _ source_mirror) (
        either _ _ _ (evidence_mirror e.event_id e.legacy_id)
          (optional e.legacy_id _ (λ id. report_mirror id s c)))

  entity_mirror-Keeps :
      Frame R
      → (a : ReviewAction) (e : Reviewable) (s c : String)
      → Keeps R (refreshes_mirror a (entity_mirror e s c))
  entity_mirror-Keeps frame a e s c = mirror-Keeps frame a _ (λ d. mirrored frame d e s c)

  request_targets-Keeps :
      Frame R → (t : Target) (c : Caller) (s : Stamp) → Keeps R (request_targets t c s)
  unfolding request_targets
  request_targets-Keeps frame t c s =
      search (frame_rules, resolve_refresh_targets-Keeps, enqueue_refresh_targets-Keeps) depth 8

  claim_state-Keeps : Frame R → (row : ClaimRow) → Keeps R (claim_state row)
  unfolding claim_state
  claim_state-Keeps frame row = search frame_rules depth 8

  decide_claim-Keeps :
      Frame R
      → (row : ClaimRow) (id : String) (r : ReviewRequest) (c : Caller) (s : Stamp)
      → Keeps R (decide_claim row id r c s)
  unfolding decide_claim
  decide_claim-Keeps frame row id r c s =
      search (frame_rules, request_targets-Keeps, apply_review-Keeps) depth 10

  review_claim-Keeps :
      Frame R → (r : ReviewRequest) (c : Caller) (s : Stamp) → Keeps R (review_claim r c s)
  unfolding review_claim
  review_claim-Keeps frame r c s =
      search
        (
          frame_rules, decide_claim-Keeps, insert_review_event-Keeps, claim_mirror-Keeps,
          claim_state-Keeps,
        )
        depth 40

  decide_entity-Keeps :
      Frame R
      → (e : Reviewable) (r : ReviewRequest) (c : Caller) (s : Stamp)
      → Keeps R (decide_entity e r c s)
  unfolding decide_entity
  decide_entity-Keeps frame e r c s = search (frame_rules, request_targets-Keeps) depth 10

  review_entity-Keeps :
      Frame R → (r : ReviewRequest) (c : Caller) (s : Stamp) → Keeps R (review_entity r c s)
  unfolding review_entity
  review_entity-Keeps frame r c s =
      search (frame_rules, decide_entity-Keeps, insert_review_event-Keeps, entity_mirror-Keeps)
        depth 40

  dismiss_item-Keeps :
      Frame R → (r : ReviewRequest) (c : Caller) (s : Stamp) → Keeps R (dismiss_item r c s)
  unfolding dismiss_item
  dismiss_item-Keeps frame r c s =
      search (frame_rules, insert_review_event-Keeps, dismiss_refresh-Keeps) depth 40

  pub dispatch-Keeps :
      Frame R
      → (k : ReviewableEntityKind) (r : ReviewRequest) (c : Caller) (s : Stamp)
      → Keeps R (dispatch k r c s)
  unfolding dispatch
  dispatch-Keeps frame ReviewableEntityKind.claim_revision = review_claim-Keeps frame
  dispatch-Keeps frame ReviewableEntityKind.refresh_item = dismiss_item-Keeps frame
  dispatch-Keeps frame ReviewableEntityKind.evidence = review_entity-Keeps frame
  dispatch-Keeps frame ReviewableEntityKind.source_version = review_entity-Keeps frame
  dispatch-Keeps frame ReviewableEntityKind.report = review_entity-Keeps frame
