-- ===== src/Migration/Packages.antt =====
-- migration_runner.py, load_sql_migrations: the migrations of a directory, as files and as bundles.
pub mod Load
pub mod Manifest
pub mod Checksum
pub mod Order
pub mod Framing
use codex_research_skill.Base.{
  ℕ, suc, ◌+◌, ◌-◌, Bool, true, false, not, ◌&&◌, ◌||◌, Option, none, some, List, [], ◌∷◌, ◌++◌,
  map, length, take, leb, any, all, keep, is_some, ◌==◌, if◌then◌else◌, Result, ok, err, guard,
  reject_if, ◌>>=◌, ◌>>◌,
}
use codex_research_skill.Text.{Text, codes, same, starts_with, ends_with}
use codex_research_skill.Domain.Evidence.Pointers.{Json}
use codex_research_skill.Text.Spaces.{strip, before, join_with}

pub data Dialect : Type 0 where
  postgres sqlite : Dialect

pub data SourceKind : Type 0 where
  flat bundle : SourceKind

pub record SqlMigration : Type 0 where
  pub migration_id : Text
  pub checksum_sha256 : Text
  pub sql : Text
  pub dialect_sql : Dialect → Option Text
  pub component_files : List Text
  pub transactional_dialects : Dialect → Bool
  pub source_kind : SourceKind

-- The messages of the `RuntimeError`s, in the order of the source.
pub data MigrationError : Type 0 where
  duplicate_id empty_file invalid_id undecodable : Text → MigrationError
  incomplete_bundle : Text → List Text → MigrationError
  invalid_manifest id_mismatch invalid_description invalid_transactional : Text → MigrationError
  invalid_component : Text → Text → MigrationError
  operator_recovery unknown_target : Text → MigrationError
  adoption_required : MigrationError
  unknown_applied checksum_mismatch out_of_order : Text → MigrationError
  missing_tables missing_columns : List Text → MigrationError
  overflow database_error : MigrationError

abbrev pub is_blank : Text → Bool
is_blank [] = true
is_blank (_ ∷ _) = false

abbrev pub dialect_name : Dialect → Text
dialect_name postgres = codes "postgres"
dialect_name sqlite = codes "sqlite"

-- `SqlMigration.sql_for`
unfoldable pub sql_for : SqlMigration → Dialect → Text
sql_for migration dialect = elim (migration.dialect_sql dialect) [
  | none ↦ migration.sql
  | some selected ↦
      join_with (10 ∷ 10 ∷ []) (keep (λ part. not (is_blank part)) (migration.sql ∷ selected ∷ []))
]

-- `SqlMigration.selected_files`
unfoldable pub selected_files : SqlMigration → Dialect → List Text
selected_files migration dialect = elim migration.source_kind [
  | flat ↦ migration.component_files
  | bundle ↦ codes "common.sql" ∷ (dialect_name dialect ++ codes ".sql") ∷ []
]

-- `SqlMigration.is_transactional`
abbrev pub is_transactional : SqlMigration → Dialect → Bool
is_transactional migration dialect = migration.transactional_dialects dialect

-- `_SAFE_MIGRATION_ID`
unfoldable pub is_id_char : ℕ → Bool
is_id_char c =
    (leb 65 c && leb c 90)
    || (leb 97 c && leb c 122)
    || (leb 48 c && leb c 57)
    || c == 95
    || c == 46
    || c == 45

-- `_validate_migration_id`
unfoldable pub validate_migration_id : Text → Result MigrationError (Unit {0})
unfolding is_id_char
validate_migration_id migration_id =
    guard
      (leb 1 (length migration_id) && leb (length migration_id) 128 && all is_id_char migration_id)
      (invalid_id migration_id)

abbrev pub Bytes : Type 0
Bytes = List ℕ

-- UTF-8, `json.loads` and the hexadecimal SHA-256 of the standard library.
pub record Codecs : Type 0 where
  pub decode : Bytes → Option Text
  pub encode : Text → Bytes
  pub parse_json : Text → Option Json
  pub digest : Bytes → Text

abbrev pub or_raise : {A : Type 0} → Option A → MigrationError → Result MigrationError A
or_raise none e = err e
or_raise (some a) e = ok a
