-- ===== src/Migration/Runner/Migrate.antt =====
-- migration_runner.py, MigrationRunner.migrate.
use codex_research_skill.Base.{
  ℕ, ltb, Bool, true, false, not, ◌&&◌, Option, none, some, List, [], ◌∷◌, ◌++◌, map, any, all,
  keep, if◌then◌else◌, Result, ok, err, reject_if, ◌>>=◌, ◌>>◌,
}
use codex_research_skill.Text.{Text, codes, same}
use codex_research_skill.Migration.Script.{split_sqlite_script, split_postgres_script}
use codex_research_skill.Migration.Packages.{
  Dialect, postgres, sqlite, flat, bundle, SqlMigration, MigrationError, sql_for, selected_files,
  is_transactional, operator_recovery, adoption_required, database_error,
}
use codex_research_skill.Migration.Runner.{
  Driver, Store, History, entry_of, is_applied, record_migration, record_all, has_name,
  managed_tables, is_empty, list_tables, applied_migrations, ensure_schema_migrations_table,
  validate_applied,
}
use codex_research_skill.Migration.Runner.Plan.{
  MigrationResult, applied_status, current, dry_run_operation, ids_of, migrate_operation,
  pending_of, rolled_back_status, select_migrations, steps, verified_of,
}

abbrev or_raise : {A : Type 0} → Option A → Result MigrationError A
or_raise none = err database_error
or_raise (some a) = ok a

-- The `skipped_files` of a dry run.
unfoldable pub skipped_files : Dialect → List SqlMigration → List Text
unfolding selected_files
skipped_files dialect [] = []
skipped_files dialect (migration ∷ migrations) =
    map (λ name. migration.migration_id ++ 47 ∷ name) (selected_files migration dialect)
    ++ skipped_files dialect migrations

-- `non_transactional[0]`, when there is one
abbrev pub refuse_first : List SqlMigration → Result MigrationError (Unit {0})
refuse_first [] = ok tt
refuse_first (migration ∷ _) = err (operator_recovery migration.migration_id)

abbrev pub is_flat : SqlMigration → Bool
is_flat migration = elim migration.source_kind [ flat ↦ true | bundle ↦ false ]

module _ (d : Driver) (packaged : List SqlMigration) (dialect : Dialect) where
  unfoldable pub execute_all : List Text → d.Schema → Option d.Schema
  execute_all [] schema = some schema
  execute_all (statement ∷ statements) schema = elim (d.execute statement schema) [
    | none ↦ none
    | some next ↦ execute_all statements next
  ]

  -- `split_sql_script`
  unfoldable pub split_sql_script : Text → Option (List Text)
  unfolding split_sqlite_script split_postgres_script
  split_sql_script script = elim dialect [
    | sqlite ↦ some (split_sqlite_script d.complete_statement script)
    | postgres ↦ split_postgres_script script
  ]

  -- `_apply_migration`
  unfoldable pub apply_migration : SqlMigration → d.Schema → Option d.Schema
  unfolding split_sql_script execute_all sql_for
  apply_migration migration schema = elim (split_sql_script (sql_for migration dialect)) [
    | none ↦ none
    | some statements ↦ execute_all statements schema
  ]

  abbrev pub with_record : SqlMigration → d.Schema → History → Store d
  unfolding record_migration
  with_record migration schema rows = record {
    schema = schema;
    schema_migrations = some (record_migration migration rows);
  }

  -- `for migration in executable`
  unfoldable pub run_all : List SqlMigration → Store d → Result MigrationError (Store d)
  unfolding apply_migration
  run_all [] store = ok store
  run_all (migration ∷ migrations) store =
      or_raise (apply_migration migration store.schema) >>= λ schema.
      run_all migrations (with_record migration schema (applied_migrations d store))

  -- The legacy service brings an older schema to its last version.
  unfoldable pub upgrade_legacy : Option ℕ → d.Schema → Option d.Schema
  upgrade_legacy none schema = some schema
  upgrade_legacy (some version) schema =
      if ltb version 4
      then elim (d.migrate_schema_legacy version schema) [
        | none ↦ none
        | some next ↦ d.create_schema_legacy next
      ]
      else some schema

  -- `_bootstrap_schema`
  unfoldable pub bootstrap_schema : Store d → Result MigrationError (Store d)
  unfolding upgrade_legacy record_all list_tables
  bootstrap_schema store =
      let tables = list_tables d store in
      let adopted =
        or_raise (upgrade_legacy (d.schema_version store.schema) store.schema) >>= λ schema.
        ok record {
          schema = schema;
          schema_migrations =
              some (record_all (keep is_flat packaged) (applied_migrations d store));
        } in
      let fresh = reject_if (any (has_name tables) managed_tables) adoption_required >> ok store in
      if all (same (codes "schema_migrations")) tables
      then ok store
      else if has_name tables (codes "schema_meta")
      then adopted
      else fresh

  -- the result of a dry run
  unfoldable pub dry_result :
      Option Text
      → List SqlMigration
      → History
      → List Text
      → List SqlMigration
      → List SqlMigration
      → MigrationResult
  unfolding steps skipped_files
  dry_result target selected applied adopted_ids pending non_transactional = record {
    operation = dry_run_operation;
    database_kind = dialect;
    status = rolled_back_status;
    target = target;
    migrations = steps dialect applied selected;
    applied_ids = [];
    adopted_ids = adopted_ids;
    pending_ids = ids_of pending;
    verified_ids = ids_of (verified_of applied selected);
    skipped_non_transactional_ids = ids_of non_transactional;
    skipped_non_transactional_files = skipped_files dialect non_transactional;
    rolled_back = true;
  }

  -- the result after the commit
  unfoldable pub committed_result :
      Option Text → List SqlMigration → History → List Text → List SqlMigration → MigrationResult
  unfolding steps
  committed_result target selected applied adopted_ids executable =
      let final_applied = applied ++ map entry_of executable in
      record {
        operation = migrate_operation;
        database_kind = dialect;
        status = if is_empty executable && is_empty adopted_ids then current else applied_status;
        target = target;
        migrations = steps dialect final_applied selected;
        applied_ids = ids_of executable;
        adopted_ids = adopted_ids;
        pending_ids = ids_of (pending_of final_applied selected);
        verified_ids = ids_of (verified_of applied selected);
        skipped_non_transactional_ids = [];
        skipped_non_transactional_files = [];
        rolled_back = false;
      }

  -- `migrate` once the history is valid: the pending migrations are run
  unfoldable pub run_pending :
      Option Text
      → Bool
      → List SqlMigration
      → History
      → Store d
      → Result MigrationError (MigrationResult × Store d)
  unfolding dry_result committed_result run_all
  run_pending target dry_run selected applied_before ready =
      let applied = applied_migrations d ready in
      let adopted_ids =
        map (λ row. row.migration_id)
          (keep (λ row. not (is_applied applied_before row.migration_id)) applied) in
      let pending = pending_of applied selected in
      let non_transactional =
        keep (λ migration. not (is_transactional migration dialect)) pending in
      let skipped = ids_of non_transactional in
      let executable = keep (λ migration. not (has_name skipped migration.migration_id)) pending in
      (if dry_run then ok tt else refuse_first non_transactional)
      >> (run_all executable ready >>= λ done. ok (
        (if dry_run
            then dry_result target selected applied adopted_ids pending non_transactional
            else committed_result target selected applied adopted_ids executable),
        done,
      ))

  -- `migrate` from the validation of what is there to that of what is adopted
  unfoldable pub adopt : Store d → Result MigrationError (Store d)
  unfolding validate_applied bootstrap_schema
  adopt ensured =
      let applied_before = applied_migrations d ensured in
      let bootstrapped = bootstrap_schema ensured in
      validate_applied d packaged applied_before ensured
      >> ((if is_empty applied_before then bootstrapped else ok ensured) >>= λ ready.
          validate_applied d packaged (applied_migrations d ready) ready >> ok ready)

  -- `migrate` up to its commit or rollback, with the store that it leaves
  unfoldable pub migrate_within :
      Option Text → Bool → Store d → Result MigrationError (MigrationResult × Store d)
  unfolding select_migrations adopt run_pending
  migrate_within target dry_run store =
      let ensured = ensure_schema_migrations_table d store in
      select_migrations packaged target >>= λ selected. adopt ensured >>= λ ready.
      run_pending target dry_run selected (applied_migrations d ensured) ready

  -- what `executescript` commits in the upgrade of an older schema
  unfoldable pub upgrade_commits : Option ℕ → d.Schema → Option d.Schema
  upgrade_commits none schema = none
  upgrade_commits (some version) schema =
      if ltb version 4
      then elim (d.migrate_schema_legacy version schema) [
        | none ↦ d.committed_by_migrate version schema
        | some next ↦ elim (d.committed_by_create next) [
          | none ↦ d.committed_by_migrate version schema
          | some committed ↦ some committed
        ]
      ]
      else none

  -- and so in `_bootstrap_schema`
  unfoldable pub bootstrap_commits : Store d → Option d.Schema
  unfolding upgrade_commits list_tables
  bootstrap_commits store =
      let tables = list_tables d store in
      let upgraded = upgrade_commits (d.schema_version store.schema) store.schema in
      if all (same (codes "schema_migrations")) tables
      then none
      else if has_name tables (codes "schema_meta")
      then upgraded
      else none

  abbrev pub or_committed : Store d → Option d.Schema → Store d
  or_committed store none = store
  or_committed store (some schema) = record {
    schema = schema;
    schema_migrations = some (applied_migrations d store);
  }

  -- The store that a rollback restores: the one at the beginning, but for what is committed before.
  unfoldable pub restored : Option Text → Store d → Store d
  unfolding bootstrap_commits validate_applied select_migrations
  restored target store =
      let ensured = ensure_schema_migrations_table d store in
      let rows = applied_migrations d ensured in
      let commits = if is_empty rows then bootstrap_commits ensured else none in
      or_committed store
        (elim (select_migrations packaged target >>= λ _.
          validate_applied d packaged rows ensured) [ ok _ ↦ commits | err _ ↦ none ])

  -- The commit, or the rollback of a dry run or after an exception, to the given store.
  unfoldable pub settle :
      Bool
      → Store d
      → Result MigrationError (MigrationResult × Store d)
      → Result MigrationError MigrationResult × Store d
  settle dry_run store (err e) = (err e, store)
  settle true store (ok (result, after)) = (ok result, store)
  settle false store (ok (result, after)) = (ok result, after)

  -- `migrate`: what it returns or raises, and the store that it leaves
  unfoldable pub migrate :
      Option Text → Bool → Store d → Result MigrationError MigrationResult × Store d
  unfolding migrate_within settle restored
  migrate target dry_run store =
      settle dry_run (restored target store) (migrate_within target dry_run store)
