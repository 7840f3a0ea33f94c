-- ===== src/Domain/Review.antt =====
-- domain/review.py: which review actions an entity takes, and the review state after one.
pub mod Laws
use codex_research_skill.Base.{
  Bool, true, false, ◌||◌, List, [], ◌∷◌, any, if◌then◌else◌, Result, ok, err, ◌>>◌, guard,
  reject_if, String, str_eq,
}

pub data ReviewableEntityKind : Type 0 where
  claim_revision evidence source_version report refresh_item : ReviewableEntityKind

pub data ReviewAction : Type 0 where
  approve contest reject supersede request_refresh dismiss_refresh : ReviewAction

abbrev pub same_action : ReviewAction → ReviewAction → Bool
same_action approve approve = true
same_action contest contest = true
same_action reject reject = true
same_action supersede supersede = true
same_action request_refresh request_refresh = true
same_action dismiss_refresh dismiss_refresh = true
same_action _ _ = false

-- `_ENTITY_ACTIONS`
abbrev pub entity_actions : ReviewableEntityKind → List ReviewAction
entity_actions claim_revision = approve ∷ contest ∷ reject ∷ supersede ∷ request_refresh ∷ []
entity_actions evidence = approve ∷ contest ∷ reject ∷ request_refresh ∷ []
entity_actions source_version = approve ∷ contest ∷ reject ∷ request_refresh ∷ []
entity_actions report = approve ∷ contest ∷ reject ∷ request_refresh ∷ []
entity_actions refresh_item = dismiss_refresh ∷ []

pub data ReviewRuleError : Type 0 where
  not_valid_for : ReviewAction → ReviewableEntityKind → ReviewRuleError
  already_reviewed already_flagged : ReviewRuleError

unfoldable pub validate_review_action :
    ReviewableEntityKind → ReviewAction → Result ReviewRuleError (Unit {0})
validate_review_action kind action =
    guard (any (same_action action) (entity_actions kind)) (not_valid_for action kind)

-- A state is a text, as the store holds it.
unfoldable pub review_state_after : String → ReviewAction → Result ReviewRuleError String
review_state_after current approve = do
  reject_if (str_eq current "reviewed") already_reviewed
  ok "reviewed"
review_state_after current contest = do
  reject_if (str_eq current "flagged") already_flagged
  ok "flagged"
review_state_after current reject = do
  reject_if (str_eq current "flagged") already_flagged
  ok "flagged"
review_state_after current action = ok current
