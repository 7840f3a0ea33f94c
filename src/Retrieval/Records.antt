-- ===== src/Retrieval/Records.antt =====
-- retrieval/relationships.py: the tables and the queries of `_expand_one`.
use codex_research_skill.Base.{
  Bool, false, not, ◌&&◌, Option, none, some, List, [], ◌∷◌, ◌++◌, map, keep, take, distinct,
  String, str_eq,
}
use mathlib.Core.List.{reverse}
use codex_research_skill.Text.{Text}
use codex_research_skill.Text.Sorted.{sort_by}

pub record ClaimRow : Type 0 where
  pub id : String
  pub current_revision_id : Option String
  pub question_id : String

pub record ClaimEvidenceRow : Type 0 where
  pub claim_revision_id : String
  pub evidence_span_id : String

pub record ReportClaimRow : Type 0 where
  pub report_id : String
  pub claim_id : String

pub record ReportRow : Type 0 where
  pub id : String
  pub question_id : String

pub record EvidenceRow : Type 0 where
  pub id : String
  pub source_version_id : String
  pub question_id : Option String

pub record VersionRow : Type 0 where
  pub id : String
  pub source_id : String
  pub retrieved_at : Text

-- The tables that the queries read. A query gives its rows in the order of the tables.
pub record Tables : Type 0 where
  pub claims : List ClaimRow
  pub claim_evidence : List ClaimEvidenceRow
  pub report_claims : List ReportClaimRow
  pub reports : List ReportRow
  pub evidence_spans : List EvidenceRow
  pub source_versions : List VersionRow

pub data Kind : Type 0 where
  claim report evidence source source_version question other_kind : Kind

abbrev pub flat_map : {A B : Type 0} → (A → List B) → List A → List B
flat_map f [] = []
flat_map f (x ∷ xs) = f x ++ flat_map f xs

abbrev pub opt_eq : Option String → String → Bool
opt_eq none s = false
opt_eq (some t) s = str_eq t s

-- The queries of `_expand_one`.
module _ (db : Tables) (record_id : String) where
  claim_rows : List ClaimRow
  claim_rows = keep (λ c. str_eq c.id record_id) db.claims

  unfoldable pub evidence_of_claim : List String
  unfolding claim_rows
  evidence_of_claim =
      flat_map
        (λ c.
          map (λ ce. ce.evidence_span_id)
            (keep (λ ce. opt_eq c.current_revision_id ce.claim_revision_id) db.claim_evidence))
        claim_rows

  unfoldable pub reports_of_claim : List String
  reports_of_claim =
      map (λ rc. rc.report_id) (keep (λ rc. str_eq rc.claim_id record_id) db.report_claims)

  unfoldable pub versions_of : String → List (String × String)
  versions_of span_id =
      flat_map
        (λ e.
          map (λ v. (v.id, v.source_id))
            (keep (λ v. str_eq v.id e.source_version_id) db.source_versions))
        (keep (λ e. str_eq e.id span_id) db.evidence_spans)

  unfoldable pub sources_of_claim : List (String × String)
  unfolding evidence_of_claim versions_of distinct
  sources_of_claim =
      distinct (λ a b. str_eq a.0 b.0 && str_eq a.1 b.1) (flat_map versions_of evidence_of_claim)

  unfoldable pub claims_of_report : List String
  claims_of_report =
      map (λ rc. rc.claim_id) (keep (λ rc. str_eq rc.report_id record_id) db.report_claims)

  unfoldable pub claims_of_evidence : List String
  claims_of_evidence =
      flat_map
        (λ ce.
          map (λ c. c.id) (keep (λ c. opt_eq c.current_revision_id ce.claim_revision_id) db.claims))
        (keep (λ ce. str_eq ce.evidence_span_id record_id) db.claim_evidence)

  unfoldable pub versions_of_source : List VersionRow
  versions_of_source = keep (λ v. str_eq v.source_id record_id) db.source_versions

  unfoldable pub evidence_of_version : String → List String
  evidence_of_version version_id =
      map (λ e. e.id) (keep (λ e. str_eq e.source_version_id version_id) db.evidence_spans)

  unfoldable pub current_versions : List VersionRow
  current_versions = keep (λ v. str_eq v.id record_id) db.source_versions

  unfoldable pub newer_versions : List String
  unfolding current_versions sort_by
  newer_versions =
      let others =
        flat_map
          (λ current.
            keep (λ v. str_eq v.source_id current.source_id && not (str_eq v.id current.id))
              db.source_versions)
          current_versions in
      take 20 (map (λ v. v.id) (reverse (sort_by (λ v. v.retrieved_at) others)))
