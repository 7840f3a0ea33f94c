-- ===== src/Domain/Claims.antt =====
-- domain/claims.py: the status of a claim revision and the effect of a review action on it.
pub mod Effects
pub mod History
use codex_research_skill.Base.{
  Bool, true, false, not, Option, none, some, List, [], ◌∷◌, any, if◌then◌else◌, Result, ok, err,
  ◌>>◌, guard, String,
}

pub data ClaimRevisionStatus : Type 0 where
  draft partial supported contested rejected superseded : ClaimRevisionStatus

pub data ClaimReviewAction : Type 0 where
  approve contest reject supersede : ClaimReviewAction

pub data ReviewState : Type 0 where
  unreviewed reviewed flagged : ReviewState

abbrev pub same_status : ClaimRevisionStatus → ClaimRevisionStatus → Bool
same_status draft draft = true
same_status partial partial = true
same_status supported supported = true
same_status contested contested = true
same_status rejected rejected = true
same_status superseded superseded = true
same_status _ _ = false

-- `_STATUS_TRANSITIONS`
abbrev pub status_transitions : ClaimRevisionStatus → List ClaimRevisionStatus
status_transitions draft = partial ∷ supported ∷ rejected ∷ superseded ∷ []
status_transitions partial = supported ∷ contested ∷ rejected ∷ superseded ∷ []
status_transitions supported = contested ∷ rejected ∷ superseded ∷ []
status_transitions contested = supported ∷ rejected ∷ superseded ∷ []
status_transitions rejected = superseded ∷ []
status_transitions superseded = []

-- `V1_CLAIM_STATUS`
unfoldable pub v1_claim_status : ClaimRevisionStatus → String
v1_claim_status supported = "supported"
v1_claim_status partial = "partial"
v1_claim_status contested = "conflicted"
v1_claim_status draft = "insufficient_evidence"
v1_claim_status rejected = "insufficient_evidence"
v1_claim_status superseded = "insufficient_evidence"

pub record ClaimRevisionChange : Type 0 where
  pub status : ClaimRevisionStatus
  pub review_state : ReviewState
  pub creates_revision : Bool

-- The `ValueError`s of the module, one constructor for each message.
pub data ClaimError : Type 0 where
  revision_terminal needs_replacement contest_status reject_status : ClaimError
  supersede_needs_replacement replacement_superseded : ClaimError
  cannot_supersede : ClaimRevisionStatus → ClaimError
  bad_transition : ClaimRevisionStatus → ClaimRevisionStatus → ClaimError

abbrev pub allows : ClaimRevisionStatus → ClaimRevisionStatus → Bool
allows current target = any (same_status target) (status_transitions current)

unfoldable pub require_status_transition :
    ClaimRevisionStatus → ClaimRevisionStatus → Result ClaimError (Unit {0})
require_status_transition current target =
    guard (allows current target) (bad_transition current target)

-- `replacement_status in {None, allowed}`
abbrev none_or : ClaimRevisionStatus → Option ClaimRevisionStatus → Bool
none_or allowed none = true
none_or allowed (some s) = same_status s allowed

abbrev change : ClaimRevisionStatus → ReviewState → Bool → Result ClaimError ClaimRevisionChange
change s r c = ok (record { status = s; review_state = r; creates_revision = c })

plan_approve :
    ClaimRevisionStatus → Option ClaimRevisionStatus → Result ClaimError ClaimRevisionChange
plan_approve current none =
    if same_status current rejected then err needs_replacement else change current reviewed false
plan_approve current (some replacement) = do
  if same_status replacement current then ok tt else require_status_transition current replacement
  change replacement reviewed true

plan_supersede :
    ClaimRevisionStatus → Option ClaimRevisionStatus → Result ClaimError ClaimRevisionChange
plan_supersede current none = err supersede_needs_replacement
plan_supersede current (some replacement) = do
  guard (not (same_status replacement superseded)) replacement_superseded
  guard (allows current superseded) (cannot_supersede current)
  change replacement unreviewed true

plan_action :
    ClaimRevisionStatus
    → ClaimReviewAction
    → Option ClaimRevisionStatus
    → Result ClaimError ClaimRevisionChange
unfolding plan_approve plan_supersede require_status_transition
plan_action current approve replacement = plan_approve current replacement
plan_action current contest replacement = do
  guard (none_or contested replacement) contest_status
  require_status_transition current contested
  change contested flagged true
plan_action current reject replacement = do
  guard (none_or rejected replacement) reject_status
  require_status_transition current rejected
  change rejected flagged true
plan_action current supersede replacement = plan_supersede current replacement

unfoldable pub plan_claim_review :
    ClaimRevisionStatus
    → ClaimReviewAction
    → Option ClaimRevisionStatus
    → Result ClaimError ClaimRevisionChange
unfolding plan_action
plan_claim_review current action replacement =
    if same_status current superseded
    then err revision_terminal
    else plan_action current action replacement
