-- ===== src/Application/Review/Request.antt =====
-- The request of a review (application/review.py, contracts/v2.py), and the checks made before the
-- store is opened.
use codex_research_skill.Base.{Bool, true, false, ◌||◌, not, Option, is_some, String}
use codex_research_skill.Domain.Review.{
  ReviewableEntityKind, ReviewAction, contest, reject, supersede, request_refresh, dismiss_refresh,
  same_action, validate_review_action,
}
use codex_research_skill.Persistence.Schema.{ReviewEntity}
use codex_research_skill.Persistence.Transaction.{
  Action, ◌>>◌, require, lift, misplaced_revision, bad_review,
}
use codex_research_skill.Persistence.RefreshRepository.{Namespace}
use codex_research_skill.Application.Review.Revisions.{ReviewNewRevision}

-- `ResearchReviewRequest` of contracts/v2.py
pub record ReviewRequest : Type 0 where
  pub idempotency_key : String
  pub entity : ReviewEntity
  pub action : ReviewAction
  pub expected_revision_id : Option String
  pub expected_state : Option String
  pub note : Option String
  pub new_revision : Option ReviewNewRevision

-- The namespace and the actor of a call.
pub record Caller : Type 0 where
  pub namespace : Namespace
  pub actor_type : String
  pub actor_id : Option String

abbrev pub kind_text : ReviewableEntityKind → String
kind_text ReviewableEntityKind.claim_revision = "claim_revision"
kind_text ReviewableEntityKind.evidence = "evidence"
kind_text ReviewableEntityKind.source_version = "source_version"
kind_text ReviewableEntityKind.report = "report"
kind_text ReviewableEntityKind.refresh_item = "refresh_item"

abbrev pub is_claim_kind : ReviewableEntityKind → Bool
is_claim_kind ReviewableEntityKind.claim_revision = true
is_claim_kind _ = false

-- `action in {"contest", "reject", "supersede"}`
abbrev pub makes_revision : ReviewAction → Bool
makes_revision action =
    same_action action contest || same_action action reject || same_action action supersede

-- `new_revision` is refused but for the replacement of a claim revision, and so are the actions that
-- the kind does not take.
unfoldable pub check_request : ReviewRequest → Action (Unit {0})
check_request command = do
  require (is_claim_kind command.entity.kind || not (is_some command.new_revision))
      misplaced_revision
  require (not (is_some command.new_revision) || same_action command.action supersede)
      misplaced_revision
  require
      (not
          (same_action command.action request_refresh || same_action command.action dismiss_refresh)
        || not (is_some command.new_revision))
      misplaced_revision
  lift bad_review (validate_review_action command.entity.kind command.action)
