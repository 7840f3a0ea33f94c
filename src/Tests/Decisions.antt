-- ===== src/Tests/Decisions.antt =====
-- The theorems on the review rules, at concrete claims and entities.
use codex_research_skill.Base.{
  ◌≡◌, ◌≢◌, ◌⊎◌, ◌↔◌, ◌≤◌, refl, none, some, List, [], ◌∷◌, ok, true, String, arith,
}
use codex_research_skill.Domain.Claims.{
  ClaimRevisionStatus, draft, partial, supported, contested, superseded, ClaimReviewAction,
  ClaimRevisionChange, reviewed, plan_claim_review,
}
use codex_research_skill.Domain.Claims
use codex_research_skill.Domain.Claims.Effects.{Permits, plan_claim_review_iff}
use codex_research_skill.Domain.Claims.History.{Review, after, stage, stage-after}
use codex_research_skill.Domain.Review.{
  report, refresh_item, claim_revision, approve, contest, reject, supersede, request_refresh,
  dismiss_refresh, validate_review_action, review_state_after,
}
use codex_research_skill.Domain.Review.Laws.{validate_review_action_iff, review_state_after_lem}

abbrev approved : ClaimRevisionChange
approved = record { status = supported; review_state = reviewed; creates_revision = true }

plan_claim_review_iff_example :
    (plan_claim_review draft Claims.approve (some supported) ≡ ok approved)
    ↔ ((draft ≢ superseded) × Permits draft Claims.approve (some supported) approved)
plan_claim_review_iff_example = plan_claim_review_iff draft Claims.approve (some supported) approved

abbrev two_reviews : List Review
two_reviews = (Claims.approve, some partial) ∷ (Claims.contest, none) ∷ []

not_replacements : (Claims.approve ≢ Claims.supersede) × (Claims.contest ≢ Claims.supersede)
not_replacements = ground arith

stage-after_example : stage draft ≤ stage (after draft two_reviews)
stage-after_example = stage-after draft two_reviews (not_replacements.0, (not_replacements.1, tt))

validate_review_action_iff_example : (validate_review_action report supersede ≡ ok tt) ↔ (
    ((supersede ≡ dismiss_refresh) ↔ (report ≡ refresh_item))
    × (supersede ≡ supersede → report ≡ claim_revision))
validate_review_action_iff_example = validate_review_action_iff report supersede

contested_report : review_state_after "reviewed" contest ≡ ok "flagged"
unfolding review_state_after
contested_report = refl

review_state_after_lem_example :
    ((contest ≡ approve)
      × (◌≡◌ {A = String} "flagged" "reviewed")
      × (◌≢◌ {A = String} "reviewed" "flagged"))
    ⊎ ((((contest ≡ contest) ⊎ (contest ≡ reject))
          × (◌≡◌ {A = String} "flagged" "flagged")
          × (◌≢◌ {A = String} "reviewed" "flagged"))
        ⊎ (((contest ≡ supersede) ⊎ ((contest ≡ request_refresh) ⊎ (contest ≡ dismiss_refresh)))
            × (◌≡◌ {A = String} "flagged" "reviewed")))
review_state_after_lem_example =
    review_state_after_lem "reviewed" "flagged" contest contested_report
