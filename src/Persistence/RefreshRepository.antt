-- ===== src/Persistence/RefreshRepository.antt =====
-- `ReviewRefreshRepository` of persistence/repositories.py: the entities of a namespace, and what a
-- refresh of one of them reaches.
use codex_research_skill.Base.{
  Bool, false, ◌&&◌, Option, none, some, List, [], ◌∷◌, ◌++◌, map, find, keep, any, distinct,
  is_some, if◌then◌else◌, String, str_eq,
}
use codex_research_skill.Persistence.Schema.{
  Claim, ClaimEvidence, Source, SourceVersion, EvidenceSpan, Report, ReportClaim, RefreshItem,
  Database,
}
use codex_research_skill.Persistence.Mirrors.{is_id}

-- The kind of an entity and its identifier.
abbrev pub Target : Type 0
Target = String × String

unfoldable pub same_target : Target → Target → Bool
same_target (k, i) (l, j) = str_eq k l && str_eq i j

-- A namespace.
abbrev pub Namespace : Type 0
Namespace = String × String

unfoldable pub source_of : Database → String → Option SourceVersion
source_of db version_id = find (λ (v : SourceVersion). str_eq v.id version_id) db.source_versions

unfoldable pub has_source : Database → Namespace → String → Bool
has_source db (kind, ns) id =
    any (λ (s : Source). str_eq s.id id && str_eq s.namespace_kind kind && str_eq s.namespace_id ns)
      db.sources

unfoldable pub has_claim : Database → Namespace → String → Bool
has_claim db (kind, ns) id =
    any (λ (c : Claim). str_eq c.id id && str_eq c.namespace_kind kind && str_eq c.namespace_id ns)
      db.claims

unfoldable pub find_report : Database → Namespace → String → Option Report
find_report db (kind, ns) id =
    find
      (λ (r : Report). str_eq r.id id && str_eq r.namespace_kind kind && str_eq r.namespace_id ns)
      db.reports

-- the source of a version, if the namespace has it
unfoldable pub version_source : Database → Namespace → String → Option String
unfolding source_of has_source
version_source db ns version_id = elim (source_of db version_id) [
  | none ↦ none
  | some v ↦ if has_source db ns v.source_id then some v.source_id else none
]

-- an evidence span of a source of the namespace
unfoldable pub find_evidence : Database → Namespace → String → Option EvidenceSpan
unfolding version_source
find_evidence db ns id = elim (find (λ (e : EvidenceSpan). str_eq e.id id) db.evidence_spans) [
  | none ↦ none
  | some e ↦ if is_some (version_source db ns e.source_version_id) then some e else none
]

-- `resolve_refresh_root` at a kind other than `refresh_item`
unfoldable pub refresh_root : String → String → Namespace → Database → Option Target
unfolding version_source find_evidence has_source has_claim find_report
refresh_root kind id ns db =
    if str_eq kind "source"
    then (if has_source db ns id then some ("source", id) else none)
    else if str_eq kind "source_version"
    then elim (version_source db ns id) [ none ↦ none | some s ↦ some ("source", s) ]
    else if str_eq kind "evidence"
    then (if is_some (find_evidence db ns id) then some ("evidence", id) else none)
    else if str_eq kind "claim"
    then (if has_claim db ns id then some ("claim", id) else none)
    else if str_eq kind "report"
    then (if is_some (find_report db ns id) then some ("report", id) else none)
    else none

-- `get_refresh_item`
unfoldable pub get_refresh_item : String → Namespace → Database → Option RefreshItem
unfolding refresh_root
get_refresh_item id ns db = elim (find (λ (q : RefreshItem). str_eq q.id id) db.refresh_queue) [
  | none ↦ none
  | some q ↦ if is_some (refresh_root q.entity_kind q.entity_id ns db) then some q else none
]

-- `resolve_refresh_root`
unfoldable pub resolve_refresh_root : String → String → Namespace → Database → Option Target
unfolding get_refresh_item refresh_root
resolve_refresh_root kind id ns db =
    if str_eq kind "refresh_item"
    then elim (get_refresh_item id ns db) [
      | none ↦ none
      | some q ↦ some (q.entity_kind, q.entity_id)
    ]
    else refresh_root kind id ns db

-- The current revision of the claim cites one of the evidence spans.
unfoldable pub cites : Database → List String → Claim → Bool
cites db evidence_ids c =
    any
      (λ (ce : ClaimEvidence).
        is_id c.current_revision_id ce.claim_revision_id
        && any (str_eq ce.evidence_span_id) evidence_ids)
      db.claim_evidence

reports_on : Database → List String → Report → Bool
reports_on db claim_ids r =
    any (λ (rc : ReportClaim). str_eq rc.report_id r.id && any (str_eq rc.claim_id) claim_ids)
      db.report_claims

evidence_of_source : Database → String → List String
unfolding source_of
evidence_of_source db source_id =
    map (λ (e : EvidenceSpan). e.id)
      (keep
        (λ (e : EvidenceSpan). elim (source_of db e.source_version_id) [
          | none ↦ false
          | some v ↦ str_eq v.source_id source_id
        ])
        db.evidence_spans)

claims_on : Database → List String → List String
unfolding cites
claims_on db [] = []
claims_on db evidence_ids = map (λ (c : Claim). c.id) (keep (cites db evidence_ids) db.claims)

reports_of : Database → List String → List String
unfolding reports_on
reports_of db [] = []
reports_of db claim_ids = map (λ (r : Report). r.id) (keep (reports_on db claim_ids) db.reports)

abbrev tag : String → List String → List Target
tag kind ids = map (λ id. (kind, id)) ids

-- `expand_refresh_targets`
unfoldable pub expand_refresh_targets : Target → Database → List Target
unfolding evidence_of_source claims_on reports_of same_target distinct
expand_refresh_targets (kind, id) db =
    let from_source = if str_eq kind "source" then evidence_of_source db id else [] in
    let evidence_ids = if str_eq kind "evidence" then id ∷ [] else from_source in
    let reached = claims_on db evidence_ids in
    let claim_ids = if str_eq kind "claim" then id ∷ [] else reached in
    distinct same_target (
      (kind, id)
      ∷ (tag "evidence" from_source
          ++ (tag "claim" reached ++ tag "report" (reports_of db claim_ids))))
