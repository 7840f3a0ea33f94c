-- ===== src/Persistence/Mirrors.antt =====
-- The compatibility mirrors of persistence/repositories.py: columns of the older tables that repeat
-- the states which the event stream decides.
use codex_research_skill.Base.{Bool, Option, none, some, find, update, String, str_eq}
use codex_research_skill.Persistence.Schema.{
  Claim, ClaimRevision, Source, SourceVersion, EvidenceSpan, Excerpt, Report, Database,
}
use codex_research_skill.Persistence.ReviewState.{
  effective_review_state, effective_conflict_state, claim_revision_conflict_state,
}

-- `id = ?` where the row's value may be null
abbrev pub is_id : Option String → String → Bool
is_id none id = Bool.false
is_id (some given) id = str_eq given id

unfoldable pub revision_of : Database → Option String → Option ClaimRevision
revision_of db none = none
revision_of db (some id) = find (λ (r : ClaimRevision). str_eq r.id id) db.claim_revisions

unfoldable pub set_claim_state : String → String → Claim → Claim
set_claim_state review_state conflict_state c = record c {
  review_state = review_state;
  conflict_state = conflict_state;
  human_reviewed = str_eq review_state "reviewed";
}

-- the review and conflict states that the mirror of a claim takes
unfoldable pub mirror_of : Database → Option ClaimRevision → String × String
mirror_of db none = ("unreviewed", "none")
mirror_of db (some r) = (
  effective_review_state db "claim_revision" r.id "unreviewed",
  claim_revision_conflict_state db r.id r.status,
)

unfoldable pub write_claim_states : Database → String → String × String → Database
unfolding set_claim_state
write_claim_states db claim_id (review_state, conflict_state) = record db {
  claims =
      update (λ (c : Claim). str_eq c.id claim_id) (set_claim_state review_state conflict_state)
        db.claims;
}

unfoldable pub claim_row : Database → String → Option Claim
claim_row db claim_id = find (λ (c : Claim). str_eq c.id claim_id) db.claims

-- `_refresh_claim_review_mirror`
unfoldable pub refresh_claim_review_mirror : String → Database → Database
unfolding write_claim_states mirror_of revision_of claim_row
refresh_claim_review_mirror claim_id db =
    let revision : Option ClaimRevision = elim (claim_row db claim_id) [
      | none ↦ none
      | some c ↦ revision_of db c.current_revision_id
    ] in
    write_claim_states db claim_id (mirror_of db revision)

newest_version : Database → String → Option SourceVersion
newest_version db source_id =
    find (λ (v : SourceVersion). str_eq v.source_id source_id) db.source_versions

version_states : Database → Option SourceVersion → String × String
version_states db none = ("unreviewed", "none")
version_states db (some v) = (
  effective_review_state db "source_version" v.id "unreviewed",
  effective_conflict_state db "source_version" v.id,
)

-- `_refresh_source_review_mirror`
unfoldable pub refresh_source_review_mirror : String → Database → Database
unfolding newest_version version_states
refresh_source_review_mirror source_id db =
    let (review_state, conflict_state) = version_states db (newest_version db source_id) in
    record db {
      sources =
          update (λ (s : Source). str_eq s.id source_id)
            (λ s. record s { review_state = review_state; conflict_state = conflict_state })
            db.sources;
    }

set_excerpt : String → String → String → Database → Database
set_excerpt excerpt_id review_state conflict_state db = record db {
  excerpts =
      update (λ (x : Excerpt). str_eq x.id excerpt_id)
        (λ x. record x {
          review_state = review_state;
          conflict_state = conflict_state;
          human_reviewed = str_eq review_state "reviewed";
        })
        db.excerpts;
}

-- `_refresh_evidence_review_mirror`
unfoldable pub refresh_evidence_review_mirror : String → Option String → Database → Database
unfolding set_excerpt
refresh_evidence_review_mirror evidence_id none db = db
refresh_evidence_review_mirror evidence_id (some excerpt_id) db =
    elim (find (λ (e : EvidenceSpan). str_eq e.id evidence_id) db.evidence_spans) [
      | none ↦ db
      | some e ↦
          set_excerpt excerpt_id (effective_review_state db "evidence" evidence_id e.review_state)
            (effective_conflict_state db "evidence" evidence_id) db
    ]

-- `update_legacy_review_mirror` at the table of reports, the only one for which it is called
unfoldable pub update_report_mirror : String → String → String → Database → Database
update_report_mirror report_id review_state conflict_state db = record db {
  reports =
      update (λ (r : Report). str_eq r.id report_id)
        (λ r. record r {
          review_state = review_state;
          conflict_state = conflict_state;
          human_reviewed = str_eq review_state "reviewed";
        })
        db.reports;
}
