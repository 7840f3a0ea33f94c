-- ===== src/Application/Review/Revisions.antt =====
-- `ClaimRevisionService` of application/review.py: one immutable revision, and the pointer to it.
use codex_research_skill.Base.{
  ℕ, Bool, true, false, ◌||◌, Option, none, some, List, [], ◌∷◌, if◌then◌else◌, String, str_eq,
}
use codex_research_skill.Domain.Claims.{
  ClaimRevisionStatus, contested, same_status, ClaimReviewAction, ReviewState, unreviewed, reviewed,
  flagged, ClaimRevisionChange, plan_claim_review, v1_claim_status,
}
use codex_research_skill.Domain.Claims
use codex_research_skill.Domain.Review.{
  ReviewAction, approve, contest, reject, supersede, request_refresh, dismiss_refresh,
}
use codex_research_skill.Persistence.Schema.{ClaimRevision}
use codex_research_skill.Persistence.ReviewState.{has_refuting_evidence}
use codex_research_skill.Persistence.Transaction.{
  Action, ◌>>=◌, ◌>>◌, pure, query, lift, bad_claim_review,
}
use codex_research_skill.Persistence.ReviewRepository.{
  ClaimRow, next_claim_revision_number, insert_claim_revision, copy_claim_evidence,
  update_claim_current, update_claim_review_state, current_claim_has_refuting_evidence,
}

-- `evidence_mode` of a replacement is `inherit` or `none`.
pub record ReviewNewRevision : Type 0 where
  pub title : String
  pub statement : String
  pub status : ClaimRevisionStatus
  pub confidence : String
  pub inherits : Bool

-- The clock and the fresh identifiers (`uuid4`) of one call.
pub record Stamp : Type 0 where
  pub now : String
  pub reservation : String
  pub revision_id : String
  pub event_id : String
  pub refresh_id : ℕ → String

abbrev pub state_text : ReviewState → String
state_text unreviewed = "unreviewed"
state_text reviewed = "reviewed"
state_text flagged = "flagged"

-- `plan_claim_review` takes every action that is no other one for `supersede`.
abbrev pub claim_action : ReviewAction → ClaimReviewAction
claim_action approve = Claims.approve
claim_action contest = Claims.contest
claim_action reject = Claims.reject
claim_action _ = Claims.supersede

abbrev pub action_text : ReviewAction → String
action_text approve = "approve"
action_text contest = "contest"
action_text reject = "reject"
action_text supersede = "supersede"
action_text request_refresh = "request_refresh"
action_text dismiss_refresh = "dismiss_refresh"

-- `_evidence_mode`
unfoldable pub inherits_evidence : ReviewAction → Option ReviewNewRevision → Bool
inherits_evidence contest replacement = true
inherits_evidence reject replacement = true
inherits_evidence action none = false
inherits_evidence action (some replacement) = replacement.inherits

abbrev evidence_mode : ReviewAction → Option ReviewNewRevision → String
unfolding inherits_evidence
evidence_mode action replacement =
    if inherits_evidence action replacement then "inherit" else "none"

-- `{**metadata, key: value}`
unfoldable pub with_field : String → String → List (String × String) → List (String × String)
with_field key value [] = (key, value) ∷ []
with_field key value ((k, v) ∷ rest) =
    if str_eq k key then (k, value) ∷ rest else (k, v) ∷ with_field key value rest

abbrev pub replacement_status : Option ReviewNewRevision → Option ClaimRevisionStatus
replacement_status none = none
replacement_status (some r) = some r.status

-- The new revision, with the values of the replacement or those of the reviewed revision.
unfoldable pub drafted :
    ClaimRow
    → String
    → ReviewAction
    → Option ReviewNewRevision
    → ClaimRevisionStatus
    → Stamp
    → ℕ
    → ClaimRevision
unfolding with_field inherits_evidence
drafted row current_id action replacement status stamp number = record {
  id = stamp.revision_id;
  claim_id = row.claim.id;
  revision_number = number;
  title = elim replacement [ none ↦ row.revision.title | some r ↦ r.title ];
  statement = elim replacement [ none ↦ row.revision.statement | some r ↦ r.statement ];
  status = status;
  confidence = elim replacement [ none ↦ row.revision.confidence | some r ↦ r.confidence ];
  valid_from = row.revision.valid_from;
  valid_until = row.revision.valid_until;
  supersedes_revision_id = some current_id;
  created_by_model = row.revision.created_by_model;
  created_at = stamp.now;
  metadata = with_field "evidence_mode" (evidence_mode action replacement) (
      with_field "reviewed_revision_id" current_id
        (with_field "review_action" (action_text action) row.revision.metadata));
}

abbrev conflict_text : Bool → String
conflict_text conflicted = if conflicted then "conflicted" else "none"

-- A review that creates no revision.
confirm_revision : ClaimRow → String → String → Stamp → Action (String × String)
confirm_revision row current_id review_state stamp = do
  refuted ← query (current_claim_has_refuting_evidence row.claim.id)
  let conflict = conflict_text (same_status row.revision.status contested || refuted)
  update_claim_review_state row.claim.id current_id review_state conflict stamp.now
  pure (current_id, review_state)

-- A review that creates one.
create_revision :
    ClaimRow
    → String
    → ReviewAction
    → Option ReviewNewRevision
    → ClaimRevisionChange
    → Stamp
    → Action (String × String)
unfolding drafted
create_revision row current_id action replacement plan stamp = do
  number ← query (next_claim_revision_number row.claim.id)
  let new = drafted row current_id action replacement plan.status stamp number
  insert_claim_revision new
  if inherits_evidence action replacement
      then copy_claim_evidence current_id stamp.revision_id
      else pure tt
  refuted ← query (λ db. has_refuting_evidence db stamp.revision_id)
  let conflict = conflict_text (same_status plan.status contested || refuted)
  update_claim_current row.claim.id current_id (record {
    revision_id = stamp.revision_id;
    title = new.title;
    statement = new.statement;
    legacy_status = v1_claim_status plan.status;
    confidence = new.confidence;
    review_state = state_text plan.review_state;
    conflict_state = conflict;
    updated_at = stamp.now;
  })
  pure (stamp.revision_id, state_text plan.review_state)

-- `ClaimRevisionService.apply` at the row's current revision: the revision that is current after it,
-- and the review state. The third value that the source returns is not used by its caller.
unfoldable pub apply_review :
    ClaimRow → String → ReviewAction → Option ReviewNewRevision → Stamp → Action (String × String)
unfolding confirm_revision create_revision
apply_review row current_id action replacement stamp = do
  plan ←
      lift bad_claim_review (
        plan_claim_review row.revision.status (claim_action action)
          (replacement_status replacement))
  if plan.creates_revision
      then create_revision row current_id action replacement plan stamp
      else confirm_revision row current_id (state_text plan.review_state) stamp
