-- ===== src/Application/Review/ClaimReview.antt =====
-- `_review_claim` of application/review.py: a decision on the current revision of a claim.
use codex_research_skill.Base.{
  Bool, leb, length, Option, none, ◌||◌, false, ◌&&◌, not, some, List, [], ◌∷◌, map, if◌then◌else◌,
  String, str_eq,
}
use codex_research_skill.Domain.Review.{ReviewAction, contest, reject, request_refresh, same_action}
use codex_research_skill.Persistence.Schema.{of_revision, ReviewResult, ClaimCurrentState, Database}
use codex_research_skill.Persistence.Transaction.{
  Action, ◌>>=◌, ◌>>◌, pure, query, change, require, demand, record_not_found,
  expected_revision_mismatch, expected_state_mismatch, assertion_error, public_claim,
  validation_error,
}
use codex_research_skill.Persistence.Mirrors.{is_id, refresh_claim_review_mirror}
use codex_research_skill.Persistence.ReviewRepository.{
  ClaimRow, get_claim_for_revision, get_claim, insert_review_event,
}
use codex_research_skill.Persistence.RefreshRepository.{Target}
use codex_research_skill.Persistence.Entities.{claim_freshness}
use codex_research_skill.Application.Refresh.{
  RefreshPlanItem, resolve_refresh_targets, enqueue_refresh_targets,
}
use codex_research_skill.Application.Review.Revisions.{
  Stamp, ReviewNewRevision, action_text, apply_review,
}
use codex_research_skill.Application.Review.Request.{ReviewRequest, Caller, makes_revision}

-- `_claim_state`
unfoldable pub claim_state : ClaimRow → Action ClaimCurrentState
claim_state row = do
  freshness ← query (claim_freshness row.claim.id)
  pure (record {
    claim_id = row.claim.id;
    current_revision_id = row.claim.current_revision_id;
    revision_number = row.revision.revision_number;
    status = row.revision.status;
    review_state = row.review_state;
    conflict_state = row.conflict_state;
    freshness = freshness;
  })

-- the refresh of one entity that a review asks for
unfoldable pub request_targets : Target → Caller → Stamp → Action (List String)
request_targets target caller stamp = do
  targets ← resolve_refresh_targets (target ∷ []) caller.namespace
  items ← enqueue_refresh_targets stamp.refresh_id targets "0.5" stamp.now
  pure (map (λ (item : RefreshPlanItem). item.refresh_item_id) items)

-- What a decision leaves: the identifier under review, its state, and the queued items.
pub record Decision : Type 0 where
  pub id : String
  pub state : String
  pub event_action : String
  pub refresh_ids : List String

unfoldable pub decide_claim : ClaimRow → String → ReviewRequest → Caller → Stamp → Action Decision
unfolding request_targets
decide_claim row current_id command caller stamp =
    if same_action command.action request_refresh
    then (do
      ids ← request_targets ("claim", row.claim.id) caller stamp
      pure (record {
        id = current_id;
        state = row.review_state;
        event_action = "refresh_requested";
        refresh_ids = ids;
      }))
    else (do
      after ← apply_review row current_id command.action command.new_revision stamp
      pure (record {
        id = after.0;
        state = after.1;
        event_action = action_text command.action;
        refresh_ids = [];
      }))

unfoldable pub refreshes_mirror : ReviewAction → (Database → Database) → Action (Unit {0})
refreshes_mirror action mirror =
    if same_action action request_refresh then pure tt else change mirror

-- the `evidence_mode` that an event records
abbrev pub event_evidence_mode : ReviewAction → Option ReviewNewRevision → String
event_evidence_mode action (some replacement) = if replacement.inherits then "inherit" else "none"
event_evidence_mode action none =
    if same_action action contest || same_action action reject then "inherit" else "none"

-- `max_length=200` of `ResearchReviewResult.refresh_item_ids`
unfoldable pub fits_result : List String → Bool
fits_result ids = leb (length ids) 200

-- `_review_claim`
unfoldable pub review_claim : ReviewRequest → Caller → Stamp → Action ReviewResult
unfolding decide_claim refreshes_mirror claim_state fits_result
review_claim command caller stamp = do
  expected_id ← demand command.expected_revision_id expected_revision_mismatch
  expected_state ← demand command.expected_state expected_state_mismatch
  found ← query (get_claim_for_revision command.entity.id caller.namespace.0 caller.namespace.1)
  row ← demand found record_not_found
  require (is_id row.claim.current_revision_id expected_id && str_eq command.entity.id expected_id)
      expected_revision_mismatch
  require (str_eq row.review_state expected_state) expected_state_mismatch
  require (not (str_eq row.claim.visibility "public" && makes_revision command.action)) public_claim
  decision ← decide_claim row expected_id command caller stamp
  insert_review_event (record {
    id = stamp.event_id;
    entity_kind = "claim_revision";
    entity_id = decision.id;
    action = decision.event_action;
    from_state = row.review_state;
    to_state = decision.state;
    note = command.note;
    actor_type = caller.actor_type;
    actor_id = caller.actor_id;
    created_at = stamp.now;
    metadata =
        of_revision expected_id decision.refresh_ids
          (event_evidence_mode command.action command.new_revision);
  })
  refreshes_mirror command.action (refresh_claim_review_mirror row.claim.id)
  reread ← query (get_claim row.claim.id caller.namespace.0 caller.namespace.1)
  current ← demand reread assertion_error
  state ← claim_state current
  require (fits_result decision.refresh_ids) validation_error
  pure (record {
    idempotent_replay = false;
    event_id = stamp.event_id;
    entity = command.entity;
    current_revision_id = some decision.id;
    revision_created = not (str_eq decision.id expected_id);
    current_state = some state;
    refresh_item_ids = decision.refresh_ids;
  })
