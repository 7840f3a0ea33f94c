-- ===== src/Application/Review/EntityReview.antt =====
-- `_review_entity` and `_dismiss_refresh` of application/review.py.
use codex_research_skill.Base.{false, none, some, List, [], ◌∷◌, if◌then◌else◌, String, str_eq}
use codex_research_skill.Domain.Review.{contest, request_refresh, same_action, review_state_after}
use codex_research_skill.Persistence.Schema.{of_entity, of_refresh, ReviewResult, Database}
use codex_research_skill.Persistence.Transaction.{
  Action, ◌>>=◌, ◌>>◌, pure, query, require, demand, lift, record_not_found,
  expected_state_mismatch, invalid_refresh_transition, bad_review, validation_error,
}
use codex_research_skill.Persistence.Mirrors.{
  refresh_source_review_mirror, refresh_evidence_review_mirror, update_report_mirror,
}
use codex_research_skill.Persistence.ReviewRepository.{insert_review_event}
use codex_research_skill.Persistence.Entities.{Reviewable, get_reviewable_entity}
use codex_research_skill.Persistence.RefreshRepository.{get_refresh_item}
use codex_research_skill.Persistence.RefreshQueue.{dismiss_refresh, review_event_target}
use codex_research_skill.Application.Review.Revisions.{Stamp, action_text}
use codex_research_skill.Application.Review.Request.{ReviewRequest, Caller, kind_text}
use codex_research_skill.Application.Review.ClaimReview.{
  fits_result, Decision, request_targets, refreshes_mirror,
}

unfoldable pub decide_entity : Reviewable → ReviewRequest → Caller → Stamp → Action Decision
unfolding request_targets
decide_entity entity command caller stamp =
    if same_action command.action request_refresh
    then (do
      ids ← request_targets entity.queue caller stamp
      pure (record {
        id = entity.event_id;
        state = entity.review_state;
        event_action = "refresh_requested";
        refresh_ids = ids;
      }))
    else (do
      state ← lift bad_review (review_state_after entity.review_state command.action)
      pure (record {
        id = entity.event_id;
        state = state;
        event_action = action_text command.action;
        refresh_ids = [];
      }))

-- the mirror of the entity's older record
unfoldable pub entity_mirror : Reviewable → String → String → Database → Database
entity_mirror entity state conflict_state db =
    if str_eq entity.event_kind "source_version"
    then elim entity.legacy_id [ none ↦ db | some id ↦ refresh_source_review_mirror id db ]
    else if str_eq entity.event_kind "evidence"
    then refresh_evidence_review_mirror entity.event_id entity.legacy_id db
    else elim entity.legacy_id [
      | none ↦ db
      | some id ↦ update_report_mirror id state conflict_state db
    ]

-- A result that names no claim.
abbrev pub plain_result : ReviewRequest → String → List String → ReviewResult
plain_result command event_id refresh_ids = record {
  idempotent_replay = false;
  event_id = event_id;
  entity = command.entity;
  current_revision_id = none;
  revision_created = false;
  current_state = none;
  refresh_item_ids = refresh_ids;
}

-- `_review_entity`
unfoldable pub review_entity : ReviewRequest → Caller → Stamp → Action ReviewResult
unfolding decide_entity refreshes_mirror entity_mirror fits_result
review_entity command caller stamp = do
  expected_state ← demand command.expected_state expected_state_mismatch
  found ←
      query
        (get_reviewable_entity (kind_text command.entity.kind) command.entity.id caller.namespace)
  entity ← demand found record_not_found
  require (str_eq entity.review_state expected_state) expected_state_mismatch
  decision ← decide_entity entity command caller stamp
  insert_review_event (record {
    id = stamp.event_id;
    entity_kind = entity.event_kind;
    entity_id = entity.event_id;
    action = decision.event_action;
    from_state = entity.review_state;
    to_state = decision.state;
    note = command.note;
    actor_type = caller.actor_type;
    actor_id = caller.actor_id;
    created_at = stamp.now;
    metadata = of_entity decision.refresh_ids;
  })
  refreshes_mirror command.action (
      entity_mirror entity decision.state
        (if same_action command.action contest then "conflicted" else "none"))
  require (fits_result decision.refresh_ids) validation_error
  pure (plain_result command stamp.event_id decision.refresh_ids)

-- `_dismiss_refresh`
unfoldable pub dismiss_item : ReviewRequest → Caller → Stamp → Action ReviewResult
dismiss_item command caller stamp = do
  expected_state ← demand command.expected_state expected_state_mismatch
  found ← query (get_refresh_item command.entity.id caller.namespace)
  item ← demand found record_not_found
  require (str_eq item.status expected_state) expected_state_mismatch
  require (str_eq item.status "pending") invalid_refresh_transition
  dismissed ← dismiss_refresh command.entity.id expected_state stamp.now
  owner ← query (review_event_target (dismissed.entity_kind, dismissed.entity_id))
  target ← demand owner record_not_found
  insert_review_event (record {
    id = stamp.event_id;
    entity_kind = target.0;
    entity_id = target.1;
    action = "refresh_resolved";
    from_state = item.status;
    to_state = "dismissed";
    note = command.note;
    actor_type = caller.actor_type;
    actor_id = caller.actor_id;
    created_at = stamp.now;
    metadata = of_refresh command.entity.id;
  })
  pure (plain_result command stamp.event_id (command.entity.id ∷ []))
