-- ===== src/Migration/Runner.antt =====
-- migration_runner.py: the history of a database, and whether it fits the packaged migrations.
pub mod Plan
pub mod Migrate
pub mod Histories
pub mod Refinement
pub mod Runs
pub mod Beginnings
pub mod Progress
pub mod Again
use codex_research_skill.Base.{
  ℕ, suc, ◌+◌, Bool, true, false, not, ◌&&◌, ◌||◌, Option, none, some, List, [], ◌∷◌, ◌++◌, map,
  any, all, keep, is_some, get_or, if◌then◌else◌, String, Result, ok, err, guard, reject_if, ◌>>=◌,
  ◌>>◌,
}
use codex_research_skill.Text.{Text, codes, same}
use codex_research_skill.Text.Spaces.{before}
use codex_research_skill.Migration.Packages.{
  Dialect, SqlMigration, MigrationError, adoption_required, unknown_applied, checksum_mismatch,
  out_of_order, missing_tables, missing_columns, unknown_target,
}

-- The database engine and the legacy service, for all tables but schema_migrations, which no packaged
-- statement names. `none` is an exception. The version is that of the first row of schema_meta. The last two
-- are what `executescript` has committed when a call of `_migrate_schema_legacy` or
-- `_create_schema_legacy` ends: it commits the open transaction of SQLite, and nothing on PostgreSQL.
pub record Driver : Type 1 where
  pub Schema : Type 0
  pub table_names : Schema → List Text
  pub column_exists : Schema → Text → Text → Bool
  pub schema_version : Schema → Option ℕ
  pub execute : Text → Schema → Option Schema
  pub complete_statement : Text → Bool
  pub migrate_schema_legacy : ℕ → Schema → Option Schema
  pub create_schema_legacy : Schema → Option Schema
  pub committed_by_migrate : ℕ → Schema → Option Schema
  pub committed_by_create : Schema → Option Schema

-- a row of schema_migrations
pub record Applied : Type 0 where
  pub migration_id : Text
  pub checksum_sha256 : Text

abbrev pub History : Type 0
History = List Applied

abbrev pub entry_of : SqlMigration → Applied
entry_of migration = record {
  migration_id = migration.migration_id;
  checksum_sha256 = migration.checksum_sha256;
}

-- `applied.get(migration_id)`
unfoldable pub recorded : History → Text → Option Text
recorded [] migration_id = none
recorded (row ∷ rows) migration_id =
    let rest = recorded rows migration_id in
    if same row.migration_id migration_id then some row.checksum_sha256 else rest

-- `migration_id in applied`
abbrev pub is_applied : History → Text → Bool
is_applied rows migration_id = is_some (recorded rows migration_id)

-- A new row of the table, whose rows are in the order of their primary key.
unfoldable pub place : Applied → History → History
place row [] = row ∷ []
place row (next ∷ rows) =
    let rest = place row rows in
    if before row.migration_id next.migration_id then row ∷ next ∷ rows else next ∷ rest

-- `_record_migration`, with its ON CONFLICT(migration_id) DO NOTHING
unfoldable pub record_migration : SqlMigration → History → History
unfolding recorded place
record_migration migration rows =
    if is_applied rows migration.migration_id then rows else place (entry_of migration) rows

unfoldable pub record_all : List SqlMigration → History → History
unfolding record_migration
record_all [] rows = rows
record_all (migration ∷ migrations) rows = record_all migrations (record_migration migration rows)

abbrev pub names : List String → List Text
names [] = []
names (s ∷ rest) = codes s ∷ names rest

abbrev v1_managed_tables : List Text
v1_managed_tables = names (
    "api_keys" ∷ "audit_log" ∷ "claim_excerpts" ∷ "claims" ∷ "excerpts" ∷ "org_memberships"
    ∷ "organizations" ∷ "questions" ∷ "report_claims" ∷ "reports" ∷ "research_sessions" ∷ "sources"
    ∷ "topics" ∷ "users" ∷ [])

abbrev v2_managed_tables : List Text
v2_managed_tables = names (
    "claim_evidence" ∷ "claim_revisions" ∷ "content_objects" ∷ "evidence_spans" ∷ "idempotency_keys"
    ∷ "migration_backfill_errors" ∷ "migration_backfill_progress" ∷ "migration_backfill_warnings"
    ∷ "refresh_queue" ∷ "review_events" ∷ "source_versions" ∷ [])

abbrev v2_search_managed_tables : List Text
v2_search_managed_tables = names ("search_documents" ∷ [])

abbrev v2_projection_managed_tables : List Text
v2_projection_managed_tables = names ("legacy_projection_identity" ∷ [])

abbrev pub managed_tables : List Text
managed_tables =
    v1_managed_tables ++ v2_managed_tables ++ v2_search_managed_tables
    ++ v2_projection_managed_tables

abbrev v2_claim_columns : List Text
v2_claim_columns =
    names ("canonical_key" ∷ "current_revision_id" ∷ "scope_json" ∷ "updated_at" ∷ [])

abbrev pub has_name : List Text → Text → Bool
has_name all_names name = any (same name) all_names

abbrev missing_from : List Text → List Text → List Text
missing_from tables expected = keep (λ name. not (has_name tables name)) expected

abbrev pub is_empty {ℓ} : {A : Type ℓ} → List A → Bool
is_empty [] = true
is_empty (_ ∷ _) = false

-- Whether tables are there that only migrations make, and none that the older versions had.
abbrev pub needs_adoption : List Text → Bool
needs_adoption tables =
    not (has_name tables (codes "schema_meta")) && any (has_name tables) managed_tables

-- the loop over `applied.items()`
unfoldable pub check_rows : History → History → Result MigrationError (Unit {0})
unfolding recorded
check_rows packaged [] = ok tt
check_rows packaged (row ∷ rows) =
    let rest = check_rows packaged rows in
    elim (recorded packaged row.migration_id) [
      | none ↦ err (unknown_applied row.migration_id)
      | some checksum ↦
          guard (same row.checksum_sha256 checksum) (checksum_mismatch row.migration_id) >> rest
    ]

-- the loop with `seen_pending`
unfoldable pub check_order : History → Bool → List SqlMigration → Result MigrationError (Unit {0})
unfolding recorded
check_order applied seen_pending [] = ok tt
check_order applied seen_pending (migration ∷ migrations) =
    let is_here = is_applied applied migration.migration_id in
    reject_if (is_here && seen_pending) (out_of_order migration.migration_id)
    >> check_order applied (seen_pending || not is_here) migrations

unfoldable pub require_tables :
    History → Text → List Text → List Text → Result MigrationError (Unit {0})
require_tables applied migration_id tables expected =
    let missing = missing_from tables expected in
    reject_if (is_applied applied migration_id && not (is_empty missing)) (missing_tables missing)

module _ (d : Driver) where
  pub record Store : Type 0 where
    pub schema : d.Schema
    pub schema_migrations : Option History

  -- `service._list_tables(conn)`
  unfoldable pub list_tables : Store → List Text
  list_tables store =
      let others = d.table_names store.schema in
      if is_some store.schema_migrations then codes "schema_migrations" ∷ others else others

  -- `_applied_migrations`
  abbrev pub applied_migrations : Store → History
  applied_migrations store = get_or store.schema_migrations []

  -- `_ensure_schema_migrations_table`
  abbrev pub ensure_schema_migrations_table : Store → Store
  ensure_schema_migrations_table store = record {
    schema = store.schema;
    schema_migrations = some (applied_migrations store);
  }

  -- the rest of `_validate_applied`: the tables and columns that applied migrations have made
  unfoldable pub check_schema : History → Store → Result MigrationError (Unit {0})
  unfolding require_tables list_tables
  check_schema applied store =
      let tables = list_tables store in
      let columns =
        keep (λ c. not (d.column_exists store.schema (codes "claims") c)) v2_claim_columns in
      require_tables applied (codes "0001_initial") tables v1_managed_tables
      >> require_tables applied (codes "0003_v2_evidence") tables v2_managed_tables
      >> reject_if (is_applied applied (codes "0003_v2_evidence") && not (is_empty columns))
          (missing_columns columns)
      >> require_tables applied (codes "0004_v2_search") tables v2_search_managed_tables
      >> require_tables applied (codes "0006_v2_legacy_projection_identity") tables
          v2_projection_managed_tables

  -- the first test of `_validate_applied`
  unfoldable pub check_adoption : History → Store → Result MigrationError (Unit {0})
  unfolding list_tables
  check_adoption applied store =
      reject_if (is_empty applied && needs_adoption (list_tables store)) adoption_required

  -- `_validate_applied`
  unfoldable pub validate_applied :
      List SqlMigration → History → Store → Result MigrationError (Unit {0})
  unfolding check_adoption check_rows check_order check_schema
  validate_applied migrations applied store =
      check_adoption applied store
      >> check_rows (map entry_of migrations) applied
      >> check_order applied false migrations
      >> check_schema applied store
