-- ===== src/Persistence/Schema.antt =====
-- The rows that reviews read and write (persistence/repositories.py), as the tables' columns.
--
-- Identifiers, times, states and kinds are texts. A real number is carried and never computed with:
-- it stands here as a text too. A JSON object is a list of keys with their printed values. The table
-- `review_events` lists the last position of the event stream first. `claims`, `evidence_spans` and
-- `reports` list their rows by id, and `source_versions` lists the newest first, which is the order in
-- which the queries want them.
use codex_research_skill.Base.{ℕ, Bool, Option, List, String}
use codex_research_skill.Domain.Claims.{ClaimRevisionStatus}
use codex_research_skill.Domain.Review.{ReviewableEntityKind}

pub record Claim : Type 0 where
  pub id : String
  pub namespace_kind : String
  pub namespace_id : String
  pub current_revision_id : Option String
  pub title : String
  pub statement : String
  pub status : String
  pub confidence : String
  pub review_state : String
  pub conflict_state : String
  pub human_reviewed : Bool
  pub visibility : String
  pub session_id : Option String
  pub updated_at : String

pub record ClaimRevision : Type 0 where
  pub id : String
  pub claim_id : String
  pub revision_number : ℕ
  pub title : String
  pub statement : String
  pub status : ClaimRevisionStatus
  pub confidence : String
  pub valid_from : Option String
  pub valid_until : Option String
  pub supersedes_revision_id : Option String
  pub created_by_model : Option String
  pub created_at : String
  pub metadata : List (String × String)

pub record ClaimEvidence : Type 0 where
  pub claim_revision_id : String
  pub evidence_span_id : String
  pub relationship : String
  pub rationale : Option String
  pub weight : String
  pub review_state : String
  pub created_at : String

-- What `metadata_json` of an event holds, by the kind of decision.
pub data EventMetadata : Type 0 where
  of_revision : String → List String → String → EventMetadata
  of_entity : List String → EventMetadata
  of_refresh : String → EventMetadata

pub record ReviewEvent : Type 0 where
  pub id : String
  pub entity_kind : String
  pub entity_id : String
  pub action : String
  pub from_state : String
  pub to_state : String
  pub note : Option String
  pub actor_type : String
  pub actor_id : Option String
  pub created_at : String
  pub metadata : EventMetadata

pub record Source : Type 0 where
  pub id : String
  pub namespace_kind : String
  pub namespace_id : String
  pub review_state : String
  pub conflict_state : String

pub record SourceVersion : Type 0 where
  pub id : String
  pub source_id : String

-- `legacy_excerpt_id` is the excerpt that the span's metadata names.
pub record EvidenceSpan : Type 0 where
  pub id : String
  pub source_version_id : String
  pub review_state : String
  pub anchor_state : String
  pub legacy_excerpt_id : Option String

pub record Excerpt : Type 0 where
  pub id : String
  pub review_state : String
  pub conflict_state : String
  pub human_reviewed : Bool

pub record Report : Type 0 where
  pub id : String
  pub namespace_kind : String
  pub namespace_id : String
  pub review_state : String
  pub conflict_state : String
  pub human_reviewed : Bool

pub record ReportClaim : Type 0 where
  pub report_id : String
  pub claim_id : String

pub record RefreshItem : Type 0 where
  pub id : String
  pub entity_kind : String
  pub entity_id : String
  pub reason : String
  pub status : String
  pub priority : String
  pub detected_at : String
  pub resolved_at : Option String

-- `freshness_state` of a research session, which may be null
pub record ResearchSession : Type 0 where
  pub id : String
  pub freshness_state : Option String

pub record ClaimCurrentState : Type 0 where
  pub claim_id : String
  pub current_revision_id : Option String
  pub revision_number : ℕ
  pub status : ClaimRevisionStatus
  pub review_state : String
  pub conflict_state : String
  pub freshness : String

pub record ReviewEntity : Type 0 where
  pub kind : ReviewableEntityKind
  pub id : String

-- `ResearchReviewResult` of contracts/v2.py
pub record ReviewResult : Type 0 where
  pub idempotent_replay : Bool
  pub event_id : String
  pub entity : ReviewEntity
  pub current_revision_id : Option String
  pub revision_created : Bool
  pub current_state : Option ClaimCurrentState
  pub refresh_item_ids : List String

-- `response_json`: the text of a review result, or any other text, such as a reservation.
pub data Response : Type 0 where
  result : ReviewResult → Response
  other : String → Response

pub record IdempotencyKey : Type 0 where
  pub namespace_kind : String
  pub namespace_id : String
  pub operation : String
  pub key : String
  pub request_sha256 : String
  pub response : Response
  pub created_at : String

pub record Database : Type 0 where
  pub claims : List Claim
  pub claim_revisions : List ClaimRevision
  pub claim_evidence : List ClaimEvidence
  pub review_events : List ReviewEvent
  pub sources : List Source
  pub source_versions : List SourceVersion
  pub evidence_spans : List EvidenceSpan
  pub excerpts : List Excerpt
  pub reports : List Report
  pub report_claims : List ReportClaim
  pub refresh_queue : List RefreshItem
  pub research_sessions : List ResearchSession
  pub idempotency_keys : List IdempotencyKey
