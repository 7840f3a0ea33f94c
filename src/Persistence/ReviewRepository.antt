-- ===== src/Persistence/ReviewRepository.antt =====
-- `ReviewRefreshRepository` of persistence/repositories.py: idempotency keys, claims, their revisions
-- and the review events.
use codex_research_skill.Base.{
  ℕ, ◌+◌, Bool, false, ◌&&◌, ◌||◌, not, Option, none, some, List, [], ◌∷◌, ◌++◌, map, find, keep,
  any, update, row_count, leb, ◌==◌, if◌then◌else◌, String, str_eq,
}
use codex_research_skill.Persistence.Schema.{
  Claim, ClaimRevision, ClaimEvidence, ReviewEvent, Response, result, other, IdempotencyKey,
  Database,
}
use codex_research_skill.Persistence.ReviewState.{
  effective_review_state, claim_revision_conflict_state, has_refuting_evidence,
}
use codex_research_skill.Persistence.Mirrors.{is_id, revision_of, set_claim_state, claim_row}
use codex_research_skill.Persistence.Transaction.{
  Action, ◌>>=◌, ◌>>◌, query, change, write_claims, write_keys, require, runtime_error,
  integrity_error,
}

-- A namespace and a key within an operation.
pub record KeyName : Type 0 where
  pub namespace_kind : String
  pub namespace_id : String
  pub operation : String
  pub key : String

unfoldable pub has_name : KeyName → IdempotencyKey → Bool
has_name n row =
    str_eq row.namespace_kind n.namespace_kind
    && str_eq row.namespace_id n.namespace_id
    && str_eq row.operation n.operation
    && str_eq row.key n.key

unfoldable pub key_row : KeyName → Database → Option IdempotencyKey
key_row n db = find (has_name n) db.idempotency_keys

unfoldable pub get_idempotency : KeyName → Action (Option IdempotencyKey)
get_idempotency n = query (key_row n)

-- the row that a reservation inserts
abbrev pub reserved_row : KeyName → String → String → String → IdempotencyKey
reserved_row n request_sha256 reservation created_at = record {
  namespace_kind = n.namespace_kind;
  namespace_id = n.namespace_id;
  operation = n.operation;
  key = n.key;
  request_sha256 = request_sha256;
  response = other reservation;
  created_at = created_at;
}

-- `ON CONFLICT … DO NOTHING`
unfoldable pub reserve_idempotency : KeyName → String → String → String → Action (Unit {0})
unfolding key_row
reserve_idempotency n request_sha256 reservation created_at = change (λ db. elim (key_row n db) [
  | some row ↦ db
  | none ↦ record db {
    idempotency_keys = reserved_row n request_sha256 reservation created_at ∷ db.idempotency_keys;
  }
])

unfoldable pub is_reservation : String → Response → Bool
is_reservation reservation (result r) = false
is_reservation reservation (other text) = str_eq text reservation

unfoldable pub reserved_as : KeyName → String → IdempotencyKey → Bool
unfolding has_name is_reservation
reserved_as n reservation row = has_name n row && is_reservation reservation row.response

unfoldable pub complete_idempotency : KeyName → String → Response → Action (Unit {0})
unfolding reserved_as
complete_idempotency n reservation response = do
  rows ← query (λ db. row_count (reserved_as n reservation) db.idempotency_keys)
  require (rows == 1) runtime_error
  write_keys (update (reserved_as n reservation) (λ row. record row { response = response }))

-- A row of the join of a claim with one of its revisions.
pub record ClaimRow : Type 0 where
  pub claim : Claim
  pub revision : ClaimRevision
  pub review_state : String
  pub conflict_state : String

unfoldable pub claim_join : Database → Claim → ClaimRevision → ClaimRow
claim_join db c r = record {
  claim = c;
  revision = r;
  review_state = effective_review_state db "claim_revision" r.id "unreviewed";
  conflict_state = claim_revision_conflict_state db r.id r.status;
}

unfoldable pub in_namespace : String → String → String → Claim → Bool
in_namespace id namespace_kind namespace_id c =
    str_eq c.id id && str_eq c.namespace_kind namespace_kind && str_eq c.namespace_id namespace_id

-- `get_claim_for_revision`
unfoldable pub get_claim_for_revision : String → String → String → Database → Option ClaimRow
unfolding in_namespace claim_join
get_claim_for_revision revision_id namespace_kind namespace_id db =
    elim (find (λ (r : ClaimRevision). str_eq r.id revision_id) db.claim_revisions) [
      | none ↦ none
      | some r ↦ elim (find (in_namespace r.claim_id namespace_kind namespace_id) db.claims) [
        | none ↦ none
        | some c ↦ some (claim_join db c r)
      ]
    ]

-- `get_claim`
unfoldable pub get_claim : String → String → String → Database → Option ClaimRow
unfolding in_namespace claim_join revision_of
get_claim claim_id namespace_kind namespace_id db =
    elim (find (in_namespace claim_id namespace_kind namespace_id) db.claims) [
      | none ↦ none
      | some c ↦ elim (revision_of db c.current_revision_id) [
        | none ↦ none
        | some r ↦ some (claim_join db c r)
      ]
    ]

abbrev pub max_number : List ClaimRevision → ℕ
max_number [] = 0
max_number (r ∷ rs) =
    let most = max_number rs in if leb r.revision_number most then most else r.revision_number

-- `next_claim_revision_number`
unfoldable pub next_claim_revision_number : String → Database → ℕ
next_claim_revision_number claim_id db =
    max_number (keep (λ (r : ClaimRevision). str_eq r.claim_id claim_id) db.claim_revisions) + 1

-- the primary key and the unique constraint of `claim_revisions`
unfoldable pub clashes : ClaimRevision → ClaimRevision → Bool
clashes r other_row =
    str_eq other_row.id r.id
    || (str_eq other_row.claim_id r.claim_id && other_row.revision_number == r.revision_number)

-- `insert_claim_revision`
unfoldable pub insert_claim_revision : ClaimRevision → Action (Unit {0})
unfolding clashes
insert_claim_revision r = do
  taken ← query (λ db. any (clashes r) db.claim_revisions)
  require (not taken) integrity_error
  change (λ db. record db { claim_revisions = r ∷ db.claim_revisions })

-- `copy_claim_evidence`
unfoldable pub copied_evidence : String → String → List ClaimEvidence → List ClaimEvidence
copied_evidence from_id to_id rows =
    map (λ (ce : ClaimEvidence). record ce { claim_revision_id = to_id })
      (keep (λ (ce : ClaimEvidence). str_eq ce.claim_revision_id from_id) rows)

unfoldable pub copy_claim_evidence : String → String → Action (Unit {0})
unfolding copied_evidence
copy_claim_evidence from_id to_id = change (λ db. record db {
  claim_evidence = copied_evidence from_id to_id db.claim_evidence ++ db.claim_evidence;
})

-- `WHERE id = ? AND current_revision_id = ?`
unfoldable pub is_current : String → String → Claim → Bool
is_current claim_id revision_id c = str_eq c.id claim_id && is_id c.current_revision_id revision_id

unfoldable pub update_current : String → String → (Claim → Claim) → Action (Unit {0})
unfolding is_current
update_current claim_id expected_revision_id f = do
  rows ← query (λ db. row_count (is_current claim_id expected_revision_id) db.claims)
  require (rows == 1) runtime_error
  write_claims (update (is_current claim_id expected_revision_id) f)

-- the columns that `update_claim_current` sets
pub record CurrentValues : Type 0 where
  pub revision_id : String
  pub title : String
  pub statement : String
  pub legacy_status : String
  pub confidence : String
  pub review_state : String
  pub conflict_state : String
  pub updated_at : String

unfoldable pub set_current : CurrentValues → Claim → Claim
set_current v c = record c {
  current_revision_id = some v.revision_id;
  title = v.title;
  statement = v.statement;
  status = v.legacy_status;
  confidence = v.confidence;
  review_state = v.review_state;
  conflict_state = v.conflict_state;
  human_reviewed = str_eq v.review_state "reviewed";
  updated_at = v.updated_at;
}

-- `update_claim_current`
unfoldable pub update_claim_current : String → String → CurrentValues → Action (Unit {0})
unfolding update_current set_current
update_claim_current claim_id expected_revision_id v =
    update_current claim_id expected_revision_id (set_current v)

-- `update_claim_review_state`
unfoldable pub update_claim_review_state :
    String → String → String → String → String → Action (Unit {0})
unfolding update_current set_claim_state
update_claim_review_state claim_id expected_revision_id review_state conflict_state updated_at =
    update_current claim_id expected_revision_id
      (λ c. record (set_claim_state review_state conflict_state c) { updated_at = updated_at })

-- `current_claim_has_refuting_evidence`
unfoldable pub current_claim_has_refuting_evidence : String → Database → Bool
unfolding claim_row
current_claim_has_refuting_evidence claim_id db = elim (claim_row db claim_id) [
  | none ↦ false
  | some c ↦ elim c.current_revision_id [ none ↦ false | some id ↦ has_refuting_evidence db id ]
]

-- `insert_review_event`, behind which a trigger gives the event the next position of the stream
unfoldable pub insert_review_event : ReviewEvent → Action (Unit {0})
insert_review_event e = do
  taken ← query (λ db. any (λ (x : ReviewEvent). str_eq x.id e.id) db.review_events)
  require (not taken) integrity_error
  change (λ db. record db { review_events = e ∷ db.review_events })
