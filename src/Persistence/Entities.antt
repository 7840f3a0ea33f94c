-- ===== src/Persistence/Entities.antt =====
-- `ReviewRefreshRepository` of persistence/repositories.py: the entities that can be reviewed, and the
-- freshness of a claim.
use codex_research_skill.Base.{
  Bool, false, ◌&&◌, ◌||◌, Option, none, some, List, [], ◌∷◌, map, find, keep, any, get_or,
  if◌then◌else◌, String, str_eq,
}
use codex_research_skill.Persistence.Schema.{
  Claim, EvidenceSpan, RefreshItem, ResearchSession, Database,
}
use codex_research_skill.Persistence.ReviewState.{effective_review_state}
use codex_research_skill.Persistence.Mirrors.{claim_row}
use codex_research_skill.Persistence.RefreshRepository.{
  Target, Namespace, find_evidence, version_source, find_report, cites,
}
use codex_research_skill.Persistence.RefreshQueue.{is_unresolved}

-- What `get_reviewable_entity` returns.
pub record Reviewable : Type 0 where
  pub event_kind : String
  pub event_id : String
  pub queue : Target
  pub review_state : String
  pub legacy_id : Option String

-- `get_reviewable_entity`
unfoldable pub get_reviewable_entity : String → String → Namespace → Database → Option Reviewable
unfolding find_evidence version_source find_report
get_reviewable_entity kind id ns db =
    if str_eq kind "evidence"
    then elim (find_evidence db ns id) [
      | none ↦ none
      | some e ↦ some (record {
        event_kind = "evidence";
        event_id = id;
        queue = ("evidence", id);
        review_state = effective_review_state db "evidence" id e.review_state;
        legacy_id = e.legacy_excerpt_id;
      })
    ]
    else if str_eq kind "source_version"
    then elim (version_source db ns id) [
      | none ↦ none
      | some s ↦ some (record {
        event_kind = "source_version";
        event_id = id;
        queue = ("source", s);
        review_state = effective_review_state db "source_version" id "unreviewed";
        legacy_id = some s;
      })
    ]
    else if str_eq kind "report"
    then elim (find_report db ns id) [
      | none ↦ none
      | some r ↦ some (record {
        event_kind = "report";
        event_id = id;
        queue = ("report", id);
        review_state = effective_review_state db "report" id r.review_state;
        legacy_id = some id;
      })
    ]
    else none

-- a queue item of the claim, or of evidence that its current revision cites
touches : Database → String → RefreshItem → Bool
unfolding claim_row cites
touches db claim_id q =
    (str_eq q.entity_kind "claim" && str_eq q.entity_id claim_id)
    || (str_eq q.entity_kind "evidence"
        && elim (claim_row db claim_id) [ none ↦ false | some c ↦ cites db (q.entity_id ∷ []) c ])

stale_evidence : Database → List String
stale_evidence db =
    map (λ (e : EvidenceSpan). e.id)
      (keep (λ (e : EvidenceSpan). str_eq e.anchor_state "stale") db.evidence_spans)

is_freshness : String → Bool
is_freshness value = any (str_eq value) ("fresh" ∷ "needs_refresh" ∷ "stale" ∷ "unknown" ∷ [])

session_freshness : Database → Claim → String
session_freshness db c = elim c.session_id [
  | none ↦ "fresh"
  | some id ↦ elim (find (λ (s : ResearchSession). str_eq s.id id) db.research_sessions) [
    | none ↦ "fresh"
    | some s ↦ get_or s.freshness_state "fresh"
  ]
]

-- `claim_freshness`
unfoldable pub claim_freshness : String → Database → String
unfolding touches stale_evidence is_freshness session_freshness claim_row cites is_unresolved
claim_freshness claim_id db = elim (claim_row db claim_id) [
  | none ↦
      if any (λ q. str_eq q.status "failed" && touches db claim_id q) db.refresh_queue
      then "stale"
      else if any (λ q. is_unresolved q.status && touches db claim_id q) db.refresh_queue
      then "needs_refresh"
      else "unknown"
  | some c ↦
      if cites db (stale_evidence db) c
      then "stale"
      else if any (λ q. str_eq q.status "failed" && touches db claim_id q) db.refresh_queue
      then "stale"
      else if any (λ q. is_unresolved q.status && touches db claim_id q) db.refresh_queue
      then "needs_refresh"
      else if is_freshness (session_freshness db c)
      then session_freshness db c
      else "unknown"
]
