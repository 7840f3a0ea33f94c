-- ===== src/Domain/Claims/Effects.antt =====
-- `plan_claim_review` of domain/claims.py against a description of the permitted effects.
use codex_research_skill.Base.{Bool, true, false, ◌≡◌, ◌≢◌, ◌⊎◌, ◌↔◌, Option, none, some, ok, arith}
use codex_research_skill.Domain.Claims.{
  ClaimRevisionStatus, draft, partial, supported, contested, rejected, superseded,
  ClaimReviewAction, approve, contest, reject, supersede, ReviewState, unreviewed, reviewed,
  flagged, ClaimRevisionChange, allows, plan_claim_review,
}

-- The statuses from which a status may be entered, listed by the status entered.
abbrev pub Enters : ClaimRevisionStatus → ClaimRevisionStatus → Type 0
Enters draft s = ⊥
Enters partial s = s ≡ draft
Enters supported s = (s ≡ draft) ⊎ ((s ≡ partial) ⊎ (s ≡ contested))
Enters contested s = (s ≡ partial) ⊎ (s ≡ supported)
Enters rejected s = (s ≢ rejected) × (s ≢ superseded)
Enters superseded s = s ≢ superseded

allows-Enters : (s t : ClaimRevisionStatus) → (allows s t ≡ true) ↔ Enters t s
allows-Enters s draft = ground arith
allows-Enters s partial = ground arith
allows-Enters s supported = ground arith
allows-Enters s contested = ground arith
allows-Enters s rejected = ground arith
allows-Enters s superseded = ground arith

abbrev effect : ClaimRevisionStatus → ReviewState → Bool → ClaimRevisionChange
effect s r c = record { status = s; review_state = r; creates_revision = c }

-- The decisions that a review may make, and the one effect of each.
abbrev pub Permits :
    ClaimRevisionStatus
    → ClaimReviewAction
    → Option ClaimRevisionStatus
    → ClaimRevisionChange
    → Type 0
Permits s approve none c = (s ≢ rejected) × (c ≡ effect s reviewed false)
Permits s approve (some t) c = ((t ≡ s) ⊎ Enters t s) × (c ≡ effect t reviewed true)
Permits s contest r c =
    ((r ≡ none) ⊎ (r ≡ some contested)) × Enters contested s × (c ≡ effect contested flagged true)
Permits s reject r c =
    ((r ≡ none) ⊎ (r ≡ some rejected)) × Enters rejected s × (c ≡ effect rejected flagged true)
Permits s supersede none c = ⊥
Permits s supersede (some t) c = (t ≢ superseded) × (c ≡ effect t unreviewed true)

-- A review is accepted exactly if the revision is not superseded and the decision is permitted, and
-- its effect is then the permitted one.
pub plan_claim_review_iff :
    (s : ClaimRevisionStatus) (a : ClaimReviewAction) (r : Option ClaimRevisionStatus)
    (c : ClaimRevisionChange)
    → (plan_claim_review s a r ≡ ok c) ↔ ((s ≢ superseded) × Permits s a r c)
unfolding plan_claim_review
plan_claim_review_iff s approve none c = ground arith
plan_claim_review_iff s approve (some t) c = ground (arith, allows-Enters s t)
plan_claim_review_iff s contest r c = ground arith
plan_claim_review_iff s reject r c = ground arith
plan_claim_review_iff s supersede none c = ground arith
plan_claim_review_iff s supersede (some t) c = ground arith
