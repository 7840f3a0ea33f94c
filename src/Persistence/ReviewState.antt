-- ===== src/Persistence/ReviewState.antt =====
-- persistence/review_state.py and persistence/conflict_state.py: the states that the append-only
-- event stream decides.
use codex_research_skill.Base.{
  Bool, ◌&&◌, ◌||◌, none, some, List, [], ◌∷◌, find, any, if◌then◌else◌, String, str_eq,
}
use codex_research_skill.Domain.Claims.{ClaimRevisionStatus, contested, same_status}
use codex_research_skill.Persistence.Schema.{ReviewEvent, ClaimEvidence, Database}

-- `DECISION_REVIEW_ACTIONS`
abbrev pub decision_review_actions : List String
decision_review_actions = "approve" ∷ "contest" ∷ "reject" ∷ "supersede" ∷ []

-- `REVIEW_STATES`
abbrev pub review_states : List String
review_states = "unreviewed" ∷ "reviewed" ∷ "flagged" ∷ []

unfoldable pub is_decision : String → Bool
is_decision action = any (str_eq action) decision_review_actions

unfoldable pub is_review_state : String → Bool
is_review_state state = any (str_eq state) review_states

-- `normalize_review_state`
unfoldable pub normalize_review_state : String → String
unfolding is_review_state
normalize_review_state value = if is_review_state value then value else "unreviewed"

-- `_LEGACY_CONFLICTED_MIGRATION_SQL`
unfoldable pub is_legacy_conflict : ReviewEvent → Bool
is_legacy_conflict e =
    str_eq e.actor_type "migration" && str_eq e.action "contest" && str_eq e.to_state "conflicted"

unfoldable pub is_about : String → String → ReviewEvent → Bool
is_about kind id e = str_eq e.entity_kind kind && str_eq e.entity_id id

-- an event that decides the review state of an entity
unfoldable pub decides : String → String → ReviewEvent → Bool
unfolding is_about is_decision is_review_state is_legacy_conflict
decides kind id e =
    is_about kind id e
    && is_decision e.action
    && (is_review_state e.to_state || is_legacy_conflict e)

-- the state that a deciding event leaves
unfoldable pub decided_state : ReviewEvent → String
unfolding is_legacy_conflict
decided_state e = if is_legacy_conflict e then "flagged" else e.to_state

-- `latest_effective_review_state`, and `effective_review_state_sql` in a query
unfoldable pub effective_review_state : Database → String → String → String → String
unfolding decides decided_state normalize_review_state
effective_review_state db kind id fallback = elim (find (decides kind id) db.review_events) [
  | none ↦ normalize_review_state fallback
  | some e ↦ normalize_review_state (decided_state e)
]

-- `latest_effective_conflict_state`
unfoldable pub effective_conflict_state : Database → String → String → String
unfolding is_about is_decision
effective_conflict_state db kind id =
    elim (find (λ e. is_about kind id e && is_decision e.action) db.review_events) [
      | none ↦ "none"
      | some e ↦ if str_eq e.action "contest" then "conflicted" else "none"
    ]

unfoldable pub refutes : String → ClaimEvidence → Bool
refutes revision_id ce = str_eq ce.claim_revision_id revision_id && str_eq ce.relationship "refutes"

-- `claim_revision_has_refuting_evidence`
unfoldable pub has_refuting_evidence : Database → String → Bool
unfolding refutes
has_refuting_evidence db revision_id = any (refutes revision_id) db.claim_evidence

-- `latest_claim_revision_conflict_state`, and `claim_revision_conflict_state_sql` in a query
unfoldable pub claim_revision_conflict_state : Database → String → ClaimRevisionStatus → String
unfolding has_refuting_evidence effective_conflict_state
claim_revision_conflict_state db revision_id status =
    if same_status status contested || has_refuting_evidence db revision_id
    then "conflicted"
    else effective_conflict_state db "claim_revision" revision_id
