-- ===== src/Release/Gates.antt =====
-- release/gates.py: the level of a release by its gates.
pub mod Levels
use codex_research_skill.Base.{
  ℕ, Bool, true, false, Option, none, some, List, [], ◌∷◌, if◌then◌else◌, String, Metrics,
}

pub record GateResult : Type 0 where
  pub passed : Bool
  pub missing : List String

abbrev pub Requirements : Type 0
Requirements = List (String × Bool)

-- the names of the requirements that are not met, in order
unfoldable pub missing_of : Requirements → List String
missing_of [] = []
missing_of ((name, passed) ∷ rest) =
    let others = missing_of rest in if passed then others else name ∷ others

abbrev pub is_empty : List String → Bool
is_empty [] = true
is_empty (_ ∷ _) = false

-- `_gate`
unfoldable pub gate : Requirements → GateResult
unfolding missing_of
gate requirements = record {
  passed = is_empty (missing_of requirements);
  missing = missing_of requirements;
}

-- `Mapping[str, bool]`, as its `get`
abbrev pub Flags : Type 0
Flags = String → Option Bool

-- `_flag`
abbrev pub flag : Flags → String → Bool
flag values name = elim (values name) [ some b ↦ b | none ↦ false ]

pub data Level : Type 0 where
  blocked alpha beta stable : Level

pub record ReleaseAssessment : Type 0 where
  pub level : Level
  pub alpha_gate : GateResult
  pub beta_gate : GateResult
  pub stable_gate : GateResult

unfoldable pub alpha_requirements : Flags → Requirements
alpha_requirements automated =
    ("automated.v1_tests", flag automated "v1_tests")
    ∷ ("automated.migration_fixtures", flag automated "migration_fixtures")
    ∷ ("automated.atomic_deposit", flag automated "atomic_deposit")
    ∷ ("automated.local_stdio", flag automated "local_stdio")
    ∷ ("automated.security_suite", flag automated "security_suite")
    ∷ ("automated.backup_restore", flag automated "backup_restore")
    ∷ ("automated.package_artifacts", flag automated "package_artifacts")
    ∷ []

module _ (m : Metrics) where
  open m use {Number, at_least}

  -- A value of the report is a number or, as `none`, of another type.
  abbrev pub Retrieval : Type 0
  Retrieval = String → Option (Option Number)

  -- `_metric`
  abbrev pub metric : Retrieval → String → ℕ → Bool
  metric values name minimum = elim (values name) [
    | some (some value) ↦ at_least value minimum
    | some none ↦ false
    | none ↦ false
  ]

  unfoldable pub beta_requirements : Bool → Retrieval → Flags → Flags → Requirements
  beta_requirements alpha_passed retrieval automated operator =
      ("gate.alpha", alpha_passed)
      ∷ ("retrieval.recall_at_5>=0.75", metric retrieval "recall_at_5" 75)
      ∷ ("retrieval.evidence_resolvability>=0.90", metric retrieval "evidence_resolvability" 90)
      ∷ ("retrieval.sqlite_postgres_overlap>=0.90", metric retrieval "sqlite_postgres_overlap" 90)
      ∷ ("automated.plugin", flag automated "plugin")
      ∷ ("automated.review_refresh", flag automated "review_refresh")
      ∷ ("automated.ingestion_security", flag automated "ingestion_security")
      ∷ ("automated.legacy_hidden", flag automated "legacy_hidden")
      ∷ ("operator.real_v1_migration", flag operator "real_v1_migration")
      ∷ ("operator.shared_compose", flag operator "shared_compose")
      ∷ []

  unfoldable pub stable_requirements : Bool → Retrieval → Flags → Flags → Requirements
  stable_requirements beta_passed retrieval automated operator =
      ("gate.beta", beta_passed)
      ∷ ("retrieval.recall_at_5>=0.80", metric retrieval "recall_at_5" 80)
      ∷ ("retrieval.evidence_resolvability>=0.95", metric retrieval "evidence_resolvability" 95)
      ∷ ("retrieval.exact_recall_at_1=1.0", metric retrieval "exact_recall_at_1" 100)
      ∷ ("automated.zero_migration_data_loss", flag automated "zero_migration_data_loss")
      ∷ ("automated.zero_partial_deposits", flag automated "zero_partial_deposits")
      ∷ ("automated.docs", flag automated "docs")
      ∷ ("automated.schemas_frozen", flag automated "schemas_frozen")
      ∷ ("automated.sbom_provenance", flag automated "sbom_provenance")
      ∷ ("automated.upgrade_rollback", flag automated "upgrade_rollback")
      ∷ ("operator.security_review", flag operator "security_review")
      ∷ []

  -- `assess_release`
  unfoldable pub assess_release : Retrieval → Flags → Flags → ReleaseAssessment
  assess_release retrieval automated operator =
      let alpha_result = gate (alpha_requirements automated) in
      let beta_result = gate (beta_requirements alpha_result.passed retrieval automated operator) in
      let stable_result =
        gate (stable_requirements beta_result.passed retrieval automated operator) in
      record {
        level =
            if stable_result.passed
            then stable
            else if beta_result.passed
            then beta
            else if alpha_result.passed
            then alpha
            else blocked;
        alpha_gate = alpha_result;
        beta_gate = beta_result;
        stable_gate = stable_result;
      }
