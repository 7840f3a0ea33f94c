-- ===== src/Tests/Relations.antt =====
-- The theorem on related records, for a question with one claim and two reports.
use codex_research_skill.Base.{Metrics, ℕ, ◌≡◌, List, none, some, [], ◌∷◌, leb, All}
use codex_research_skill.Retrieval.Relationships.{
  LexicalMatch, found, strong_of, expand_relationships,
}
use codex_research_skill.Retrieval.Records.{Kind, Tables}
use codex_research_skill.Retrieval.Relationships.Bounds.{IsRelated}
use codex_research_skill.Retrieval.Relationships.Anchors.{expand_relationships-IsRelated}

abbrev percent : Metrics
percent = record { Number = ℕ; at_least = λ value minimum. leb minimum value }

abbrev tables : Tables
tables = record {
  claims = record { id = "c"; current_revision_id = some "r"; question_id = "q" } ∷ [];
  claim_evidence = [];
  report_claims = record { report_id = "p"; claim_id = "c" } ∷ [];
  reports = record { id = "p"; question_id = "q" } ∷ record { id = "s"; question_id = "q" } ∷ [];
  evidence_spans = [];
  source_versions = [];
}

abbrev anchors : List (LexicalMatch percent)
anchors =
    record { id = "q"; kind = Kind.question; exact = 90; lexical = 0 }
    ∷ record { id = "c"; kind = Kind.claim; exact = 0; lexical = 50 }
    ∷ []

expand_relationships-IsRelated_example :
    IsRelated 2 (expand_relationships percent tables 20 2 anchors)
    × All
        (λ (a : LexicalMatch percent).
          found (expand_relationships percent tables 20 2 anchors) a.id ≡ none)
        (strong_of percent 20 anchors)
expand_relationships-IsRelated_example = expand_relationships-IsRelated 2 percent tables 20 anchors
