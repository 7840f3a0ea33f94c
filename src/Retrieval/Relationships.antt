-- ===== src/Retrieval/Relationships.antt =====
-- retrieval/relationships.py: the records that are related to the best matches.
pub mod Bounds
pub mod Anchors
use codex_research_skill.Base.{
  Metrics, ℕ, ◌+◌, Bool, true, false, not, ◌&&◌, ◌||◌, Option, none, some, List, [], ◌∷◌, ◌++◌, map,
  keep, take, length, any, is_some, get_or, leb, if◌then◌else◌, distinct, String, str_eq,
}
use mathlib.Core.List.{reverse}
use codex_research_skill.Text.{Text}
use codex_research_skill.Text.Sorted.{sort_by}
use codex_research_skill.Retrieval.Records.{
  Tables, Kind, claim, report, evidence, source, source_version, question, other_kind, flat_map,
  opt_eq, ClaimRow, ClaimEvidenceRow, ReportClaimRow, ReportRow, EvidenceRow, VersionRow,
  evidence_of_claim, reports_of_claim, versions_of, sources_of_claim, claims_of_report,
  claims_of_evidence, versions_of_source, evidence_of_version, current_versions, newer_versions,
}

pub data Reason : Type 0 where
  claim_to_evidence claim_to_report claim_evidence_source report_to_claim evidence_to_claim : Reason
  evidence_to_source source_to_version source_to_evidence version_to_source version_to_evidence :
      Reason
  newer_version question_to_claim question_to_report question_to_evidence : Reason

abbrev code_of : Reason → ℕ
code_of claim_to_evidence = 0
code_of claim_to_report = 1
code_of claim_evidence_source = 2
code_of report_to_claim = 3
code_of evidence_to_claim = 4
code_of evidence_to_source = 5
code_of source_to_version = 6
code_of source_to_evidence = 7
code_of version_to_source = 8
code_of version_to_evidence = 9
code_of newer_version = 10
code_of question_to_claim = 11
code_of question_to_report = 12
code_of question_to_evidence = 13

abbrev pub same_reason : Reason → Reason → Bool
same_reason a b = leb (code_of a) (code_of b) && leb (code_of b) (code_of a)

-- The score is in hundredths.
pub record RelationshipMatch : Type 0 where
  pub score : ℕ
  pub matched_by : List Reason

-- `dict[str, RelationshipMatch]`, in the order of insertion
abbrev pub Related : Type 0
Related = List (String × RelationshipMatch)

unfoldable pub found : Related → String → Option RelationshipMatch
found [] id = none
found ((k, m) ∷ related) id = let rest = found related id in if str_eq k id then some m else rest

unfoldable pub put : String → RelationshipMatch → Related → Related
put id m [] = (id, m) ∷ []
put id m ((k, old) ∷ related) =
    let rest = put id m related in if str_eq k id then (k, m) ∷ related else (k, old) ∷ rest

abbrev larger : ℕ → ℕ → ℕ
larger a b = if leb a b then b else a

-- the new value of an entry
abbrev pub matched : Option RelationshipMatch → ℕ → Reason → RelationshipMatch
unfolding distinct
matched none score reason = record { score = larger score 0; matched_by = reason ∷ [] }
matched (some current) score reason = record {
  score = larger score current.score;
  matched_by = distinct same_reason (current.matched_by ++ reason ∷ []);
}

-- A call of `_add_rows` or `_add_dual`.
pub data Addition : Type 0 where
  rows : List String → ℕ → Reason → Addition
  dual : List (String × String) → ℕ → Reason → Addition

module _ (max_related : ℕ) where
  -- `_add`
  unfoldable pub add : Related → String → ℕ → Reason → Related
  unfolding found put
  add related id score reason =
      if not (is_some (found related id)) && leb max_related (length related)
      then related
      else put id (matched (found related id) score reason) related

  -- `_add_rows`
  unfoldable pub add_rows : Related → List String → ℕ → Reason → Related
  unfolding add
  add_rows related [] score reason = related
  add_rows related (id ∷ ids) score reason = add_rows (add related id score reason) ids score reason

  -- `_add_dual`
  unfoldable pub add_dual : Related → List (String × String) → ℕ → Reason → Related
  unfolding add
  add_dual related [] score reason = related
  add_dual related ((id, source_id) ∷ pairs) score reason =
      add_dual (add (add related id score reason) source_id score reason) pairs score reason

  -- one call after the other
  unfoldable pub add_all : Related → List Addition → Related
  unfolding add_rows add_dual
  add_all related [] = related
  add_all related (rows ids score reason ∷ rest) = add_all (add_rows related ids score reason) rest
  add_all related (dual ids score reason ∷ rest) = add_all (add_dual related ids score reason) rest

module _ (db : Tables) (record_id : String) where
  -- the calls of `_expand_one` for a kind of anchor, in order
  unfoldable pub additions : Kind → List Addition
  unfolding evidence_of_claim reports_of_claim sources_of_claim claims_of_report claims_of_evidence
      versions_of versions_of_source evidence_of_version current_versions newer_versions
  additions claim =
      rows (evidence_of_claim db record_id) 80 claim_to_evidence
      ∷ rows (reports_of_claim db record_id) 80 claim_to_report
      ∷ dual (sources_of_claim db record_id) 55 claim_evidence_source
      ∷ []
  additions report = rows (claims_of_report db record_id) 80 report_to_claim ∷ []
  additions evidence =
      rows (claims_of_evidence db record_id) 80 evidence_to_claim
      ∷ dual (versions_of db record_id record_id) 70 evidence_to_source
      ∷ []
  additions source =
      rows (map (λ v. v.id) (versions_of_source db record_id)) 75 source_to_version
      ∷ rows
          (flat_map (λ v. evidence_of_version db record_id v.id) (versions_of_source db record_id))
          65 source_to_evidence
      ∷ []
  additions source_version =
      rows (map (λ v. v.source_id) (current_versions db record_id)) 75 version_to_source
      ∷ rows (evidence_of_version db record_id record_id) 75 version_to_evidence
      ∷ rows (newer_versions db record_id) 60 newer_version
      ∷ []
  additions question =
      rows (map (λ c. c.id) (keep (λ c. str_eq c.question_id record_id) db.claims)) 70
        question_to_claim
      ∷ rows (map (λ r. r.id) (keep (λ r. str_eq r.question_id record_id) db.reports)) 70
          question_to_report
      ∷ rows (map (λ e. e.id) (keep (λ e. opt_eq e.question_id record_id) db.evidence_spans)) 70
          question_to_evidence
      ∷ []
  additions other_kind = []

  -- `_expand_one`
  unfoldable pub expand_one : ℕ → Kind → Related → Related
  unfolding add_all additions
  expand_one most kind related = add_all most related (additions kind)

module _ (m : Metrics) where
  pub record LexicalMatch : Type 0 where
    pub id : String
    pub kind : Kind
    pub exact : m.Number
    pub lexical : m.Number

  abbrev is_strong : LexicalMatch → Bool
  is_strong match_ = m.at_least match_.exact 80 || m.at_least match_.lexical 45

  -- the loop over the anchors
  unfoldable pub expand_all : Tables → ℕ → List LexicalMatch → Related → Related
  unfolding expand_one
  expand_all db most [] related = related
  expand_all db most (anchor ∷ anchors) related =
      let rest = expand_all db most anchors (expand_one db anchor.id most anchor.kind related) in
      if leb most (length related) then related else rest

  -- `related.pop(anchor.document.id, None)` for each anchor
  unfoldable pub without : List LexicalMatch → Related → Related
  without [] related = related
  without (anchor ∷ anchors) related =
      without anchors (keep (λ entry. not (str_eq entry.0 anchor.id)) related)

  -- the anchors that are expanded
  abbrev pub strong_of : ℕ → List LexicalMatch → List LexicalMatch
  strong_of max_anchors anchors = take max_anchors (keep is_strong anchors)

  -- `expand_relationships`
  unfoldable pub expand_relationships : Tables → ℕ → ℕ → List LexicalMatch → Related
  unfolding expand_all without
  expand_relationships db max_anchors max_related anchors =
      let strong = strong_of max_anchors anchors in
      without strong (expand_all db max_related strong [])
