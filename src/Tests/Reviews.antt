-- ===== src/Tests/Reviews.antt =====
-- The theorems on whole reviews, at a store with one claim.
use codex_research_skill.Base.{
  Option, ◌<◌, Result, ◌≡◌, ◌≢◌, refl, true, false, none, some, [], ◌∷◌, ok, err, String,
  str_eq_iff, arith,
}
use codex_research_skill.Domain.Claims.{
  partial, contested, plan_claim_review, require_status_transition, v1_claim_status,
}
use codex_research_skill.Domain.Review.{
  claim_revision, refresh_item, report, contest, validate_review_action, review_state_after,
}
use codex_research_skill.Persistence.Schema.{
  RefreshItem, ReviewResult, IdempotencyKey, other, Claim, ClaimRevision, Database,
}
use codex_research_skill.Persistence.Namespaces.{Exists, Owns}
use codex_research_skill.Persistence.Growth.{Grows}
use codex_research_skill.Application.Review.Revisions.{
  Stamp, apply_review, drafted, inherits_evidence, with_field,
}
use codex_research_skill.Application.Review.Request.{ReviewRequest, Caller, check_request}
use codex_research_skill.Application.Review.{
  review, key_name, claimed, dispatch, first_review, perform, replay, review_action, stored_result,
}
use codex_research_skill.Application.Review.Answers.{replayed}
use codex_research_skill.Application.Review.Guards.{
  dismiss_item-pending, Expected, review_claim-Expected, review_entity-expected,
}
use codex_research_skill.Application.Review.ClaimReview.{
  review_claim, claim_state, decide_claim, fits_result, refreshes_mirror, request_targets,
}
use codex_research_skill.Application.Review.EntityReview.{
  dismiss_item, review_entity, plain_result, decide_entity, entity_mirror,
}
use codex_research_skill.Persistence.Entities.{Reviewable, get_reviewable_entity, claim_freshness}
use codex_research_skill.Domain.Review
use codex_research_skill.Persistence.RefreshRepository.{
  get_refresh_item, refresh_root, resolve_refresh_root,
}
use codex_research_skill.Persistence.RefreshQueue.{dismiss_refresh, review_event_target, in_state}
use codex_research_skill.Persistence.Numbers.{next_claim_revision_number-above}
use mathlib.Core.List.Memᴰ
use codex_research_skill.Application.Review.Replay.{review-again, review-conflict}
use codex_research_skill.Persistence.Transaction.{
  Failure, idempotency_conflict, ◌>>=◌, ◌>>◌, require, pure, lift, change, demand, in_transaction,
  query, raise, write_claims, write_keys, write_queue,
}
use codex_research_skill.Persistence.ReviewRepository.{
  key_row, has_name, next_claim_revision_number, claim_join, clashes, complete_idempotency,
  copied_evidence, copy_claim_evidence, current_claim_has_refuting_evidence, get_claim,
  get_claim_for_revision, get_idempotency, in_namespace, insert_claim_revision, insert_review_event,
  is_current, is_reservation, reserve_idempotency, reserved_as, set_current, update_claim_current,
  update_claim_review_state, update_current,
}
use codex_research_skill.Application.Review.History.{review-Grows}
use codex_research_skill.Persistence.Mirrors.{
  claim_row, mirror_of, refresh_claim_review_mirror, refresh_evidence_review_mirror,
  refresh_source_review_mirror, revision_of, set_claim_state, update_report_mirror,
  write_claim_states,
}
use codex_research_skill.Persistence.ReviewState.{
  claim_revision_conflict_state, decided_state, decides, effective_conflict_state,
  effective_review_state, has_refuting_evidence, is_about, is_decision, is_legacy_conflict,
  is_review_state, normalize_review_state, refutes,
}
use codex_research_skill.Persistence.RefreshRepository.{cites, find_report}
use codex_research_skill.Persistence.RefreshQueue.{in_state, is_unresolved, unresolved_for}

abbrev a_claim : Claim
a_claim = record {
  id = "c1";
  namespace_kind = "user";
  namespace_id = "local";
  current_revision_id = some "r1";
  title = "A title";
  statement = "A statement";
  status = "partial";
  confidence = "0.5";
  review_state = "unreviewed";
  conflict_state = "none";
  human_reviewed = false;
  visibility = "private";
  session_id = none;
  updated_at = "t0";
}

abbrev a_revision : ClaimRevision
a_revision = record {
  id = "r1";
  claim_id = "c1";
  revision_number = 1;
  title = "A title";
  statement = "A statement";
  status = partial;
  confidence = "0.5";
  valid_from = none;
  valid_until = none;
  supersedes_revision_id = none;
  created_by_model = none;
  created_at = "t0";
  metadata = [];
}

abbrev store : Database
store = record {
  claims = a_claim ∷ [];
  claim_revisions = a_revision ∷ [];
  claim_evidence = [];
  review_events = [];
  sources = [];
  source_versions = [];
  evidence_spans = [];
  excerpts = [];
  reports = [];
  report_claims = [];
  refresh_queue = [];
  research_sessions = [];
  idempotency_keys = [];
}

abbrev request : ReviewRequest
request = record {
  idempotency_key = "k1";
  entity = record { kind = claim_revision; id = "r1" };
  action = contest;
  expected_revision_id = some "r1";
  expected_state = some "unreviewed";
  note = none;
  new_revision = none;
}

abbrev caller : Caller
caller = record { namespace = ("user", "local"); actor_type = "human"; actor_id = none }

abbrev stamp : Stamp
stamp = record {
  now = "t1";
  reservation = "pending:1";
  revision_id = "r2";
  event_id = "e1";
  refresh_id = λ n. "q";
}

abbrev digest : ReviewRequest → String
digest r = r.idempotency_key

review-Grows_example : Grows store (review digest request caller stamp store).1
review-Grows_example = review-Grows digest request caller stamp store

-- The claim is contested by a second revision.
abbrev answer : ReviewResult
answer = record {
  idempotent_replay = false;
  event_id = "e1";
  entity = record { kind = claim_revision; id = "r1" };
  current_revision_id = some "r2";
  revision_created = true;
  current_state = some (record {
    claim_id = "c1";
    current_revision_id = some "r2";
    revision_number = 2;
    status = contested;
    review_state = "flagged";
    conflict_state = "conflicted";
    freshness = "fresh";
  });
  refresh_item_ids = [];
}

abbrev reviewed_store : Database
reviewed_store = (review digest request caller stamp store).1

answered : review digest request caller stamp store ≡ (ok answer, reviewed_store)
unfolding ◌>>=◌ ◌>>◌ pure raise query change write_claims write_keys write_queue require demand lift
    in_transaction has_name key_row get_idempotency reserve_idempotency is_reservation reserved_as
    complete_idempotency claim_join in_namespace get_claim_for_revision get_claim
    next_claim_revision_number clashes insert_claim_revision copied_evidence copy_claim_evidence
    is_current update_current set_current update_claim_current update_claim_review_state
    current_claim_has_refuting_evidence insert_review_event revision_of set_claim_state mirror_of
    write_claim_states claim_row refresh_claim_review_mirror refresh_source_review_mirror
    refresh_evidence_review_mirror update_report_mirror is_decision is_review_state
    normalize_review_state is_legacy_conflict is_about decides decided_state effective_review_state
    effective_conflict_state refutes has_refuting_evidence claim_revision_conflict_state cites
    is_unresolved unresolved_for in_state claim_freshness stored_result replay dispatch perform
    claimed first_review review_action review inherits_evidence with_field drafted apply_review
    check_request claim_state request_targets decide_claim refreshes_mirror fits_result review_claim
    v1_claim_status require_status_transition plan_claim_review validate_review_action
    review_state_after
answered = refl

abbrev later : Stamp
later = record stamp { now = "t2"; reservation = "pending:2"; revision_id = "r3"; event_id = "e2" }

review-again_example :
    review digest request caller later reviewed_store ≡ (ok (replayed answer), reviewed_store)
review-again_example =
    review-again digest request caller stamp later answer store reviewed_store answered

-- A key that another request holds.
abbrev other_key : IdempotencyKey
other_key = record {
  namespace_kind = "user";
  namespace_id = "local";
  operation = "research_review_v2";
  key = "k1";
  request_sha256 = "another digest";
  response = other "pending:0";
  created_at = "t0";
}

abbrev used_store : Database
used_store = record store { idempotency_keys = other_key ∷ [] }

request_passes : check_request request used_store ≡ ok (tt, used_store)
unfolding check_request ◌>>◌ require lift validate_review_action
request_passes = refl

key_used : key_row (key_name request caller) used_store ≡ some other_key
unfolding key_row has_name
key_used = refl

other_digest : ◌≢◌ {A = String} "another digest" "k1"
other_digest h = ground (arith, (str_eq_iff "another digest" "k1").1 h)

review-conflict_example :
    review digest request caller stamp used_store ≡ (err idempotency_conflict, used_store)
review-conflict_example =
    review-conflict digest request caller stamp other_key used_store request_passes key_used
      other_digest

-- What a run leaves.
abbrev left : Result Failure (ReviewResult × Database) → Database
left (ok (y, d)) = d
left (err x) = store

claim_reviewed :
    review_claim request caller stamp store
    ≡ ok (answer, left (review_claim request caller stamp store))
unfolding ◌>>=◌ ◌>>◌ pure raise query change write_claims write_keys write_queue require demand lift
    in_transaction has_name key_row get_idempotency reserve_idempotency is_reservation reserved_as
    complete_idempotency claim_join in_namespace get_claim_for_revision get_claim
    next_claim_revision_number clashes insert_claim_revision copied_evidence copy_claim_evidence
    is_current update_current set_current update_claim_current update_claim_review_state
    current_claim_has_refuting_evidence insert_review_event revision_of set_claim_state mirror_of
    write_claim_states claim_row refresh_claim_review_mirror refresh_source_review_mirror
    refresh_evidence_review_mirror update_report_mirror is_decision is_review_state
    normalize_review_state is_legacy_conflict is_about decides decided_state effective_review_state
    effective_conflict_state refutes has_refuting_evidence claim_revision_conflict_state cites
    is_unresolved unresolved_for in_state claim_freshness stored_result replay dispatch perform
    claimed first_review review_action review inherits_evidence with_field drafted apply_review
    check_request claim_state request_targets decide_claim refreshes_mirror fits_result review_claim
    v1_claim_status require_status_transition plan_claim_review validate_review_action
    review_state_after
claim_reviewed = refl

review_claim-Expected_example : Expected request caller store
review_claim-Expected_example =
    review_claim-Expected request caller stamp answer store
      (left (review_claim request caller stamp store)) claim_reviewed

abbrev report_store : Database
report_store = record store {
  reports =
      record {
        id = "p1";
        namespace_kind = "user";
        namespace_id = "local";
        review_state = "unreviewed";
        conflict_state = "none";
        human_reviewed = false;
      }
      ∷ [];
}

abbrev report_request : ReviewRequest
report_request = record request { entity = record { kind = report; id = "p1" } }

report_reviewed :
    review_entity report_request caller stamp report_store
    ≡ ok (
      plain_result report_request "e1" [],
      left (review_entity report_request caller stamp report_store),
    )
unfolding get_reviewable_entity find_report review_entity decide_entity entity_mirror ◌>>=◌ ◌>>◌
    pure raise query change write_claims write_keys write_queue require demand lift in_transaction
    has_name key_row get_idempotency reserve_idempotency is_reservation reserved_as
    complete_idempotency claim_join in_namespace get_claim_for_revision get_claim
    next_claim_revision_number clashes insert_claim_revision copied_evidence copy_claim_evidence
    is_current update_current set_current update_claim_current update_claim_review_state
    current_claim_has_refuting_evidence insert_review_event revision_of set_claim_state mirror_of
    write_claim_states claim_row refresh_claim_review_mirror refresh_source_review_mirror
    refresh_evidence_review_mirror update_report_mirror is_decision is_review_state
    normalize_review_state is_legacy_conflict is_about decides decided_state effective_review_state
    effective_conflict_state refutes has_refuting_evidence claim_revision_conflict_state cites
    is_unresolved unresolved_for in_state claim_freshness stored_result replay dispatch perform
    claimed first_review review_action review inherits_evidence with_field drafted apply_review
    check_request claim_state request_targets decide_claim refreshes_mirror fits_result review_claim
    v1_claim_status require_status_transition plan_claim_review validate_review_action
    review_state_after
report_reviewed = refl

review_entity-expected_example :
    (entity : Reviewable) × (get_reviewable_entity "report" "p1" ("user", "local") report_store
      ≡ some entity)
    × Owns report_store ("user", "local") "report" "p1"
    × (some "unreviewed" ≡ some entity.review_state)
review_entity-expected_example =
    review_entity-expected report_request caller stamp (plain_result report_request "e1" [])
      report_store (left (review_entity report_request caller stamp report_store)) report_reviewed

next_claim_revision_number-above_example : 1 < next_claim_revision_number "c1" store
next_claim_revision_number-above_example =
    next_claim_revision_number-above "c1" a_revision store (Memᴰ.head refl) refl

abbrev queue_store : Database
queue_store = record store {
  refresh_queue =
      record {
        id = "q1";
        entity_kind = "claim";
        entity_id = "c1";
        reason = "manual";
        status = "pending";
        priority = "0.5";
        detected_at = "t0";
        resolved_at = none;
      }
      ∷ [];
}

abbrev dismissal : ReviewRequest
dismissal = record request {
  entity = record { kind = refresh_item; id = "q1" };
  action = Review.dismiss_refresh;
  expected_revision_id = none;
  expected_state = some "pending";
}

dismissed :
    dismiss_item dismissal caller stamp queue_store
    ≡ ok (
      plain_result dismissal "e1" ("q1" ∷ []),
      left (dismiss_item dismissal caller stamp queue_store),
    )
unfolding get_refresh_item refresh_root resolve_refresh_root dismiss_refresh review_event_target
    dismiss_item get_reviewable_entity find_report review_entity decide_entity entity_mirror ◌>>=◌
    ◌>>◌ pure raise query change write_claims write_keys write_queue require demand lift
    in_transaction has_name key_row get_idempotency reserve_idempotency is_reservation reserved_as
    complete_idempotency claim_join in_namespace get_claim_for_revision get_claim
    next_claim_revision_number clashes insert_claim_revision copied_evidence copy_claim_evidence
    is_current update_current set_current update_claim_current update_claim_review_state
    current_claim_has_refuting_evidence insert_review_event revision_of set_claim_state mirror_of
    write_claim_states claim_row refresh_claim_review_mirror refresh_source_review_mirror
    refresh_evidence_review_mirror update_report_mirror is_decision is_review_state
    normalize_review_state is_legacy_conflict is_about decides decided_state effective_review_state
    effective_conflict_state refutes has_refuting_evidence claim_revision_conflict_state cites
    is_unresolved unresolved_for in_state claim_freshness stored_result replay dispatch perform
    claimed first_review review_action review inherits_evidence with_field drafted apply_review
    check_request claim_state request_targets decide_claim refreshes_mirror fits_result review_claim
    v1_claim_status require_status_transition plan_claim_review validate_review_action
    review_state_after
dismissed = refl

dismiss_item-pending_example :
    (item : RefreshItem) × (get_refresh_item "q1" ("user", "local") queue_store ≡ some item)
    × Exists (λ (q : RefreshItem). (q ≡ item) × (q.id ≡ "q1")) queue_store.refresh_queue
    × Owns queue_store ("user", "local") item.entity_kind item.entity_id
    × (item.status ≡ "pending")
    × (◌≡◌ {A = Option String} (some "pending") (some "pending"))
dismiss_item-pending_example =
    dismiss_item-pending dismissal caller stamp (plain_result dismissal "e1" ("q1" ∷ []))
      queue_store (left (dismiss_item dismissal caller stamp queue_store)) dismissed
