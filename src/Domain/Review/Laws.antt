-- ===== src/Domain/Review/Laws.antt =====
-- The review actions and states of domain/review.py.
use codex_research_skill.Base.{◌≡◌, ◌≢◌, ◌⊎◌, ◌↔◌, ok, String, str_eq_iff, arith}
use codex_research_skill.Domain.Review.{
  ReviewableEntityKind, claim_revision, evidence, source_version, report, refresh_item,
  ReviewAction, approve, contest, reject, supersede, request_refresh, dismiss_refresh,
  review_state_after, validate_review_action,
}

-- An action is accepted for a kind exactly if: a refresh item is dismissed and nothing else is, only
-- a claim revision is superseded, and every other action goes to every other kind.
pub validate_review_action_iff :
    (kind : ReviewableEntityKind) (action : ReviewAction)
    → (validate_review_action kind action ≡ ok tt) ↔ (
        ((action ≡ dismiss_refresh) ↔ (kind ≡ refresh_item))
        × (action ≡ supersede → kind ≡ claim_revision))
unfolding validate_review_action
validate_review_action_iff claim_revision action = ground arith
validate_review_action_iff evidence action = ground arith
validate_review_action_iff source_version action = ground arith
validate_review_action_iff report action = ground arith
validate_review_action_iff refresh_item action = ground arith

-- A decision that is accepted changes the state: approving makes it reviewed, contesting and rejecting
-- make it flagged. An action that decides nothing keeps it.
pub review_state_after_lem :
    (current state : String) (action : ReviewAction)
    → review_state_after current action ≡ ok state
    → ((action ≡ approve) × (state ≡ "reviewed") × (current ≢ state))
      ⊎ ((((action ≡ contest) ⊎ (action ≡ reject)) × (state ≡ "flagged") × (current ≢ state))
          ⊎ (((action ≡ supersede) ⊎ ((action ≡ request_refresh) ⊎ (action ≡ dismiss_refresh)))
              × (state ≡ current)))
unfolding review_state_after
review_state_after_lem current state approve h = ground (arith, str_eq_iff current "reviewed")
review_state_after_lem current state contest h = ground (arith, str_eq_iff current "flagged")
review_state_after_lem current state reject h = ground (arith, str_eq_iff current "flagged")
review_state_after_lem current state supersede h = ground arith
review_state_after_lem current state request_refresh h = ground arith
review_state_after_lem current state dismiss_refresh h = ground arith
