-- ===== src/Application/Review.antt =====
-- application/review.py: one authorized, optimistic, append-only review decision.
pub mod Revisions
pub mod Request
pub mod ClaimReview
pub mod EntityReview
pub mod Frames
pub mod History
pub mod Answers
pub mod Replay
pub mod Guards
use codex_research_skill.Base.{
  true, false, not, Option, none, some, if◌then◌else◌, String, str_eq, Result,
}
use codex_research_skill.Domain.Review.{ReviewableEntityKind}
use codex_research_skill.Persistence.Schema.{
  ReviewResult, IdempotencyKey, Response, result, other, Database,
}
use codex_research_skill.Persistence.Transaction.{
  Action, ◌>>=◌, ◌>>◌, pure, raise, require, demand, in_transaction, Failure, idempotency_conflict,
  database_integrity, assertion_error,
}
use codex_research_skill.Persistence.ReviewRepository.{
  KeyName, get_idempotency, reserve_idempotency, complete_idempotency, is_reservation,
}
use codex_research_skill.Application.Review.Revisions.{Stamp}
use codex_research_skill.Application.Review.Request.{ReviewRequest, Caller, check_request}
use codex_research_skill.Application.Review.ClaimReview.{review_claim}
use codex_research_skill.Application.Review.EntityReview.{review_entity, dismiss_item}

-- `_OPERATION`
abbrev pub operation : String
operation = "research_review_v2"

abbrev pub key_name : ReviewRequest → Caller → KeyName
key_name command caller = record {
  namespace_kind = caller.namespace.0;
  namespace_id = caller.namespace.1;
  operation = operation;
  key = command.idempotency_key;
}

unfoldable pub stored_result : Response → Action ReviewResult
stored_result (other text) = raise database_integrity
stored_result (result r) = pure (record r { idempotent_replay = true })

-- `_replay`
unfoldable pub replay : IdempotencyKey → String → Action ReviewResult
unfolding stored_result
replay row request_hash = do
  require (str_eq row.request_sha256 request_hash) idempotency_conflict
  stored_result row.response

unfoldable pub dispatch :
    ReviewableEntityKind → ReviewRequest → Caller → Stamp → Action ReviewResult
dispatch ReviewableEntityKind.claim_revision = review_claim
dispatch ReviewableEntityKind.refresh_item = dismiss_item
dispatch _ = review_entity

-- `digest` is the SHA-256 of the request's canonical JSON.
module _ (digest : ReviewRequest → String) where
  -- The work of a request whose key was reserved.
  unfoldable pub perform : ReviewRequest → Caller → Stamp → Action ReviewResult
  unfolding dispatch
  perform command caller stamp = do
    answer ← dispatch command.entity.kind command caller stamp
    complete_idempotency (key_name command caller) stamp.reservation (result answer)
    pure answer

  -- What the second look at the key decides.
  unfoldable pub claimed : IdempotencyKey → ReviewRequest → Caller → Stamp → Action ReviewResult
  unfolding perform replay
  claimed row command caller stamp = do
    require (str_eq row.request_sha256 (digest command)) idempotency_conflict
    if is_reservation stamp.reservation row.response
        then perform command caller stamp
        else replay row (digest command)

  unfoldable pub first_review : ReviewRequest → Caller → Stamp → Action ReviewResult
  unfolding claimed
  first_review command caller stamp = do
    reserve_idempotency (key_name command caller) (digest command) stamp.reservation stamp.now
    reserved ← get_idempotency (key_name command caller)
    row ← demand reserved assertion_error
    claimed row command caller stamp

  unfoldable pub review_action : ReviewRequest → Caller → Stamp → Action ReviewResult
  unfolding first_review replay
  review_action command caller stamp = do
    check_request command
    existing ← get_idempotency (key_name command caller)
    elim existing [
      | some row ↦ replay row (digest command)
      | none ↦ first_review command caller stamp
    ]

  -- `ResearchReviewService.review`. The projection that `rebuild_search_documents` rewrites from these
  -- tables is not among them.
  unfoldable pub review :
      ReviewRequest → Caller → Stamp → Database → Result Failure ReviewResult × Database
  review command caller stamp = in_transaction (review_action command caller stamp)
