-- ===== src/CaptureQueue/Bundles.antt =====
-- capture_queue.py: what waits in the queue, and what a backend is asked to create. Numbers, times and
-- parts that the queue only passes on are texts.
use codex_research_skill.Base.{ℕ, Bool, true, false, ◌&&◌, Option, none, some, List, get_or}
use codex_research_skill.Text.{Text, codes, same}

pub record SourceCreate : Type 0 where
  pub locator : Text
  pub namespace_kind : Text
  pub namespace_id : Text
  pub dedupe_key : Option Text
  pub other_fields : Text

pub record SourceSelector : Type 0 where
  pub exact : Option Text
  pub other_fields : Text

-- The fields that several records have: who made it, and for whom.
pub record Authorship : Type 0 where
  pub visibility : Text
  pub author_type : Text
  pub model_name : Option Text
  pub model_version : Option Text

pub record QueuedAnnotation : Type 0 where
  pub temp_id : Text
  pub source : SourceCreate
  pub subject : Text
  pub note : Text
  pub selector : SourceSelector
  pub quote_text : Option Text
  pub confidence : Text
  pub authorship : Authorship
  pub parent_annotation_temp_id : Option Text
  pub tags : List Text

pub record QueuedFinding : Type 0 where
  pub temp_id : Text
  pub title : Text
  pub subject : Text
  pub claim : Text
  pub annotation_temp_ids : List Text
  pub authorship : Authorship
  pub confidence : Option Text

pub record QueuedReport : Type 0 where
  pub question : Text
  pub subject : Text
  pub summary_md : Text
  pub finding_temp_ids : List Text
  pub authorship : Authorship

pub record RunCreate : Type 0 where
  pub question : Text
  pub notes : Option Text
  pub freshness_ttl_days : Text
  pub authorship : Authorship

pub record QueuedCaptureBundle : Type 0 where
  pub prompt : Text
  pub normalized_topic : Text
  pub run : RunCreate
  pub annotations : List QueuedAnnotation
  pub findings : List QueuedFinding
  pub report : QueuedReport

-- The fields of a deposit request that the queue reads.
pub record Deposit : Type 0 where
  pub validate_only : Bool
  pub namespace : Option (Text × Text)
  pub other_fields : Text

pub data Body : Type 0 where
  capture : QueuedCaptureBundle → Body
  v2 : Deposit → Body

-- `QueueEnvelope`, with the fields that both kinds have.
pub record Envelope : Type 0 where
  pub queue_id : Text
  pub created_at : Text
  pub body : Body
  pub backend_url : Option Text
  pub backend_name : Option Text
  pub namespace_kind : Text
  pub namespace_id : Text
  pub retry_count : ℕ
  pub last_error : Option Text
  pub last_attempted_at : Option Text

-- `QueuedV2Deposit.require_committing_deposit`
unfoldable pub require_committing_deposit : Deposit → Text → Text → Bool
unfolding same
require_committing_deposit deposit namespace_kind namespace_id =
    let (expected_kind, expected_id) = get_or deposit.namespace (codes "user", codes "local") in
    elim deposit.validate_only [
      | true ↦ false
      | false ↦ same namespace_kind expected_kind && same namespace_id expected_id
    ]

pub record BackendStatus : Type 0 where
  pub url : Option Text
  pub name : Text
  pub namespace_kind : Text
  pub namespace_id : Text

-- `QueuedV2Deposit.create`, with the fresh identifier and the time
unfoldable pub create_v2 : Text → Text → Deposit → Option BackendStatus → Envelope
create_v2 queue_id now deposit status =
    let (kind, id) = get_or deposit.namespace (codes "user", codes "local") in
    record {
      queue_id = queue_id;
      created_at = now;
      body = v2 deposit;
      backend_url = elim status [ none ↦ none | some s ↦ s.url ];
      backend_name = elim status [ none ↦ none | some s ↦ some s.name ];
      namespace_kind = kind;
      namespace_id = id;
      retry_count = 0;
      last_error = none;
      last_attempted_at = none;
    }

pub record QuestionCreate : Type 0 where
  pub prompt : Text
  pub focal_label : Text
  pub visibility : Text
  pub author_type : Text
  pub namespace_kind : Text
  pub namespace_id : Text
  pub dedupe_key : Text

pub record ResearchSessionCreate : Type 0 where
  pub question_id : Text
  pub prompt : Text
  pub notes : Text
  pub mode : Text
  pub ttl_days : Text
  pub source_signals : List Text
  pub authorship : Authorship
  pub namespace_kind : Text
  pub namespace_id : Text
  pub dedupe_key : Text

pub record ExcerptCreate : Type 0 where
  pub source_id : Text
  pub question_id : Text
  pub session_id : Text
  pub focal_label : Text
  pub note : Text
  pub selector : SourceSelector
  pub quote_text : Text
  pub confidence : Text
  pub tags : List Text
  pub authorship : Authorship
  pub namespace_kind : Text
  pub namespace_id : Text
  pub dedupe_key : Text

pub record ClaimCreate : Type 0 where
  pub question_id : Text
  pub session_id : Text
  pub title : Text
  pub focal_label : Text
  pub statement : Text
  pub excerpt_ids : List Text
  pub authorship : Authorship
  pub confidence : Text
  pub namespace_kind : Text
  pub namespace_id : Text
  pub dedupe_key : Text

pub record ReportCreate : Type 0 where
  pub question_id : Text
  pub session_id : Text
  pub title : Text
  pub focal_label : Text
  pub summary_md : Text
  pub claim_ids : List Text
  pub authorship : Authorship
  pub namespace_kind : Text
  pub namespace_id : Text
  pub dedupe_key : Text

pub data Create : Type 0 where
  create_question : QuestionCreate → Create
  create_session : ResearchSessionCreate → Create
  create_source : SourceCreate → Create
  create_excerpt : ExcerptCreate → Create
  create_claim : ClaimCreate → Create
  create_report : ReportCreate → Create

abbrev pub key_of : Create → Option Text
key_of (create_question q) = some q.dedupe_key
key_of (create_session s) = some s.dedupe_key
key_of (create_source s) = s.dedupe_key
key_of (create_excerpt e) = some e.dedupe_key
key_of (create_claim c) = some c.dedupe_key
key_of (create_report r) = some r.dedupe_key
