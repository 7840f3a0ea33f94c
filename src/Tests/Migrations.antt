-- ===== src/Tests/Migrations.antt =====
-- The theorems on scripts and migrations, with an engine whose statements add a table of their text.
use codex_research_skill.Base.{
  ℕ, ◌≡◌, refl, true, false, none, some, List, [], ◌∷◌, ok, err, Result, arith, take, drop, ◌+◌,
  ◌-◌,
}
use codex_research_skill.Text.{Text, codes, same, starts_with}
use codex_research_skill.Text.Spaces.{strip, before}
use codex_research_skill.Migration.Script.{split_sqlite_script, split_postgres_script}
use codex_research_skill.Migration.Script.Pieces.{
  Pieces, semicolon, split_postgres_script-Pieces, split_sqlite_script-Pieces,
}
use codex_research_skill.Migration.Packages.{sqlite, flat, SqlMigration, MigrationError}
use codex_research_skill.Migration.Runner.{
  Driver, Store, check_rows, check_order, require_tables, list_tables, check_schema, check_adoption,
  validate_applied, applied_migrations, ensure_schema_migrations_table,
}
use codex_research_skill.Migration.Runner.Migrate.{
  run_all, bootstrap_schema, run_pending, adopt, migrate_within, settle, migrate, restored,
  bootstrap_commits,
}
use codex_research_skill.Migration.Runner.Plan.{
  Operation, Status, current, MigrationResult, ids_of, select_migrations,
}
use codex_research_skill.Migration.Runner.Refinement.{Represents}
use codex_research_skill.Migration.Runner.Beginnings.{Begins}
use codex_research_skill.Migration.Runner.Progress.{migrate-Represents, dry_run-predicts}
use codex_research_skill.Migration.Runner.Again.{migrate-again}

abbrev engine : Driver
engine = record {
  Schema = List Text;
  table_names = λ tables. tables;
  column_exists = λ tables table column. true;
  schema_version = λ tables. none;
  execute = λ statement tables. some (statement ∷ tables);
  complete_statement = λ statement. true;
  migrate_schema_legacy = λ version tables. some tables;
  create_schema_legacy = λ tables. some tables;
  committed_by_migrate = λ version tables. none;
  committed_by_create = λ tables. some tables;
}

abbrev script_of : Text → Text → SqlMigration
script_of migration_id sql = record {
  migration_id = migration_id;
  checksum_sha256 = sql;
  sql = sql;
  dialect_sql = λ _. none;
  component_files = [];
  transactional_dialects = λ _. true;
  source_kind = flat;
}

abbrev two_scripts : List SqlMigration
two_scripts = script_of (codes "01") (codes "a;b;") ∷ script_of (codes "02") (codes "c;") ∷ []

abbrev fresh : Store engine
fresh = record { schema = []; schema_migrations = none }

abbrev answer_of : Result MigrationError MigrationResult → MigrationResult
answer_of (ok result) = result
answer_of (err e) = record {
  operation = Operation.plan_operation;
  database_kind = sqlite;
  status = Status.current;
  target = none;
  migrations = [];
  applied_ids = [];
  adopted_ids = [];
  pending_ids = [];
  verified_ids = [];
  skipped_non_transactional_ids = [];
  skipped_non_transactional_files = [];
  rolled_back = false;
}

abbrev migrated : Result MigrationError MigrationResult × Store engine
migrated = migrate engine two_scripts sqlite none false fresh

migrated-ok : migrated ≡ (ok (answer_of migrated.0), migrated.1)
unfolding migrate migrate_within settle select_migrations adopt validate_applied check_adoption
    list_tables check_rows check_order check_schema require_tables bootstrap_schema run_pending
    run_all same strip before
migrated-ok = refl

-- the first script alone
abbrev begun : Result MigrationError MigrationResult × Store engine
begun = migrate engine two_scripts sqlite (some (codes "01")) false fresh

-- and the second after it
abbrev ended : Result MigrationError MigrationResult × Store engine
ended = migrate engine two_scripts sqlite none false begun.1

ended-ok : ended ≡ (ok (answer_of ended.0), ended.1)
unfolding migrate migrate_within settle select_migrations adopt validate_applied check_adoption
    list_tables check_rows check_order check_schema require_tables bootstrap_schema run_pending
    run_all same strip before
ended-ok = refl

migrate-Represents_example :
    (n : ℕ) × (k : ℕ) × (started : Store engine) × (select_migrations two_scripts none
      ≡ ok (take k two_scripts))
    × Begins engine two_scripts sqlite begun.1 started n
    × (run_all engine two_scripts sqlite (drop n (take k two_scripts)) started ≡ ok ended.1)
    × Represents two_scripts (applied_migrations engine ended.1) (n + (k - n))
    × ((answer_of ended.0).applied_ids ≡ ids_of (drop n (take k two_scripts)))
migrate-Represents_example =
    migrate-Represents engine two_scripts sqlite none begun.1 ended.1 (answer_of ended.0) ended-ok

-- The first run has applied the first script, and the second the other one.
ended_ids :
    ((answer_of begun.0).applied_ids ≡ codes "01" ∷ [])
    × ((answer_of ended.0).applied_ids ≡ codes "02" ∷ [])
unfolding migrate migrate_within settle select_migrations adopt validate_applied check_adoption
    list_tables check_rows check_order check_schema require_tables bootstrap_schema run_pending
    run_all same strip before
ended_ids = (refl, refl)

dry_run-predicts_example :
    (answer : MigrationResult) × (migrate engine two_scripts sqlite none true fresh
      ≡ (ok answer, fresh))
    × (answer.pending_ids ≡ (answer_of migrated.0).applied_ids)
    × (answer.adopted_ids ≡ (answer_of migrated.0).adopted_ids)
    × (answer.skipped_non_transactional_ids ≡ [])
dry_run-predicts_example =
    dry_run-predicts engine two_scripts sqlite none fresh migrated.1 (answer_of migrated.0)
      migrated-ok (λ v e. ground (arith, e))

migrated-valid :
    validate_applied engine two_scripts
      (applied_migrations engine migrated.1)
      (ensure_schema_migrations_table engine migrated.1)
    ≡ ok tt
unfolding migrate migrate_within settle select_migrations adopt validate_applied check_adoption
    list_tables check_rows check_order check_schema require_tables bootstrap_schema run_pending
    run_all same strip before
migrated-valid = refl

migrate-again_example :
    (second : MigrationResult) × (migrate engine two_scripts sqlite none false migrated.1
      ≡ (ok second, ensure_schema_migrations_table engine migrated.1))
    × (second.status ≡ current)
    × (second.applied_ids ≡ [])
migrate-again_example =
    migrate-again engine two_scripts sqlite fresh migrated.1 (answer_of migrated.0) migrated-ok
      (omega arith) migrated-valid

-- A database of version 3, whose upgrade adds a table.
abbrev old_engine : Driver
old_engine = record engine {
  schema_version = λ tables. some 3;
  create_schema_legacy = λ tables. some (codes "topics" ∷ tables);
  committed_by_create = λ tables. some (codes "topics" ∷ tables);
}

abbrev old : Store old_engine
old = record { schema = codes "schema_meta" ∷ []; schema_migrations = none }

-- Its dry run leaves the upgraded schema behind.
old_dry_run :
    (migrate old_engine two_scripts sqlite none true old).1
    ≡ record { schema = codes "topics" ∷ codes "schema_meta" ∷ []; schema_migrations = some [] }
unfolding migrate migrate_within settle restored bootstrap_commits select_migrations adopt
    validate_applied check_adoption list_tables check_rows check_order check_schema require_tables
    bootstrap_schema run_pending run_all same strip before
old_dry_run = refl

split_postgres_script-Pieces_example :
    Pieces semicolon
      (split_postgres_script (codes "a ';' b; -- c;\n; $x$;$x$"))
      []
      (codes "a ';' b; -- c;\n; $x$;$x$")
split_postgres_script-Pieces_example =
    split_postgres_script-Pieces (codes "a ';' b; -- c;\n; $x$;$x$")

split_sqlite_script-Pieces_example :
    Pieces [] (some (split_sqlite_script (λ _. true) (codes "a; b"))) [] (codes "a; b")
split_sqlite_script-Pieces_example = split_sqlite_script-Pieces (λ _. true) (codes "a; b")

-- Quotes, comments and dollar quotes keep their semicolons.
split_postgres_script_three :
    split_postgres_script (codes "a ';'; -- ;\n; $x$;$x$")
    ≡ some (codes "a ';'" ∷ codes "-- ;" ∷ codes "$x$;$x$" ∷ [])
unfolding split_postgres_script same strip starts_with
split_postgres_script_three = refl
