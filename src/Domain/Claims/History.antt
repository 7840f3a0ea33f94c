-- ===== src/Domain/Claims/History.antt =====
-- The status of a claim over a sequence of reviews.
use codex_research_skill.Base.{ℕ, ◌≤◌, ◌≢◌, Option, List, [], ◌∷◌, All, Result, ok, err, arith}
use codex_research_skill.Domain.Claims.{
  ClaimRevisionStatus, draft, partial, supported, contested, rejected, superseded,
  ClaimReviewAction, approve, contest, reject, supersede, ClaimRevisionChange, ClaimError,
  plan_claim_review,
}

abbrev pub Review : Type 0
Review = ClaimReviewAction × Option ClaimRevisionStatus

-- A review that raises leaves the claim as it was.
abbrev settle : ClaimRevisionStatus → Result ClaimError ClaimRevisionChange → ClaimRevisionStatus
settle s (ok c) = c.status
settle s (err e) = s

pub after : ClaimRevisionStatus → List Review → ClaimRevisionStatus
after s [] = s
after s ((a, r) ∷ rest) = after (settle s (plan_claim_review s a r)) rest

abbrev pub stage : ClaimRevisionStatus → ℕ
stage draft = 0
stage partial = 1
stage supported = 2
stage contested = 2
stage rejected = 3
stage superseded = 4

stage-settle :
    (s : ClaimRevisionStatus) (a : ClaimReviewAction) (r : Option ClaimRevisionStatus)
    → a ≢ supersede
    → stage s ≤ stage (settle s (plan_claim_review s a r))
unfolding plan_claim_review
stage-settle s approve r h = ground arith
stage-settle s contest r h = ground arith
stage-settle s reject r h = ground arith
stage-settle s supersede r h = ground arith

-- Reviews other than replacements never take a claim back to an earlier stage: draft, partial, then
-- supported or contested, then rejected, then superseded.
pub stage-after :
    (s : ClaimRevisionStatus) (reviews : List Review)
    → All (λ review. review.0 ≢ supersede) reviews
    → stage s ≤ stage (after s reviews)
unfolding after
stage-after s [] h = omega arith
stage-after s ((a, r) ∷ rest) (h, hs) =
    omega (arith, stage-settle s a r h, stage-after (settle s (plan_claim_review s a r)) rest hs)
