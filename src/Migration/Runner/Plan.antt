-- ===== src/Migration/Runner/Plan.antt =====
-- migration_runner.py, MigrationRunner: the results, the selection, planning and verifying.
use codex_research_skill.Base.{
  Bool, false, not, Option, none, some, List, [], ◌∷◌, map, keep, if◌then◌else◌, Result, ok, err,
  reject_if, ◌>>=◌, ◌>>◌,
}
use codex_research_skill.Text.{Text, same}
use codex_research_skill.Migration.Packages.{
  Dialect, SourceKind, SqlMigration, MigrationError, selected_files, is_transactional,
  unknown_target, adoption_required,
}
use codex_research_skill.Migration.Runner.{
  Driver, Store, History, is_applied, needs_adoption, list_tables, validate_applied,
}

pub data Operation : Type 0 where
  plan_operation verify_operation dry_run_operation migrate_operation : Operation

pub data Status : Type 0 where
  planned verified rolled_back_status applied_status current : Status

pub data StepState : Type 0 where
  applied_step pending_step : StepState

pub record MigrationStep : Type 0 where
  pub migration_id : Text
  pub checksum_sha256 : Text
  pub state : StepState
  pub source_kind : SourceKind
  pub component_files : List Text
  pub selected : List Text
  pub transactional : Bool

pub record MigrationResult : Type 0 where
  pub operation : Operation
  pub database_kind : Dialect
  pub status : Status
  pub target : Option Text
  pub migrations : List MigrationStep
  pub applied_ids : List Text
  pub adopted_ids : List Text
  pub pending_ids : List Text
  pub verified_ids : List Text
  pub skipped_non_transactional_ids : List Text
  pub skipped_non_transactional_files : List Text
  pub rolled_back : Bool

abbrev pub ids_of : List SqlMigration → List Text
ids_of = map (λ migration. migration.migration_id)

unfoldable pub up_to : Text → List SqlMigration → Option (List SqlMigration)
up_to target [] = none
up_to target (migration ∷ migrations) =
    let rest = up_to target migrations in
    if same migration.migration_id target
    then some (migration ∷ [])
    else elim rest [ none ↦ none | some selected ↦ some (migration ∷ selected) ]

-- `_select_migrations`
unfoldable pub select_migrations :
    List SqlMigration → Option Text → Result MigrationError (List SqlMigration)
unfolding up_to
select_migrations migrations none = ok migrations
select_migrations migrations (some target) = elim (up_to target migrations) [
  | none ↦ err (unknown_target target)
  | some selected ↦ ok selected
]

-- The selected migrations that are not applied, and those that are.
abbrev pub pending_of : History → List SqlMigration → List SqlMigration
pending_of applied = keep (λ migration. not (is_applied applied migration.migration_id))

abbrev pub verified_of : History → List SqlMigration → List SqlMigration
verified_of applied = keep (λ migration. is_applied applied migration.migration_id)

-- `_steps`
unfoldable pub steps : Dialect → History → List SqlMigration → List MigrationStep
unfolding selected_files
steps dialect applied = map λ migration. record {
  migration_id = migration.migration_id;
  checksum_sha256 = migration.checksum_sha256;
  state = if is_applied applied migration.migration_id then applied_step else pending_step;
  source_kind = migration.source_kind;
  component_files = migration.component_files;
  selected = selected_files migration dialect;
  transactional = is_transactional migration dialect;
}

module _ (d : Driver) (packaged : List SqlMigration) (dialect : Dialect) where
  -- `_read_and_validate_applied`
  unfoldable pub read_and_validate_applied : Store d → Result MigrationError History
  unfolding list_tables validate_applied
  read_and_validate_applied store = elim store.schema_migrations [
    | none ↦ reject_if (needs_adoption (list_tables d store)) adoption_required >> ok []
    | some rows ↦ validate_applied d packaged rows store >> ok rows
  ]

  unfoldable pub inspect :
      Operation → Status → Option Text → Store d → Result MigrationError MigrationResult
  unfolding select_migrations read_and_validate_applied steps
  inspect operation status target store = select_migrations packaged target >>= λ selected.
      read_and_validate_applied store >>= λ applied. ok record {
        operation = operation;
        database_kind = dialect;
        status = status;
        target = target;
        migrations = steps dialect applied selected;
        applied_ids = [];
        adopted_ids = [];
        pending_ids = ids_of (pending_of applied selected);
        verified_ids = ids_of (verified_of applied selected);
        skipped_non_transactional_ids = [];
        skipped_non_transactional_files = [];
        rolled_back = false;
      }

  -- `plan`
  unfoldable pub plan : Option Text → Store d → Result MigrationError MigrationResult
  unfolding inspect
  plan = inspect plan_operation planned

  -- `verify`
  unfoldable pub verify : Option Text → Store d → Result MigrationError MigrationResult
  unfolding inspect
  verify = inspect verify_operation verified
