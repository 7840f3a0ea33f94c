-- ===== src/Migration/Packages/Load.antt =====
-- migration_runner.py: one migration read from a file or from a bundle, and those of a directory.
use codex_research_skill.Base.{
  ◌-◌, Bool, true, not, ◌||◌, Option, none, some, List, [], ◌∷◌, ◌++◌, length, take, any, keep,
  is_some, if◌then◌else◌, Result, ok, reject_if, ◌>>=◌, ◌>>◌,
}
use codex_research_skill.Text.{Text, codes, same, starts_with, ends_with}
use codex_research_skill.Text.Sorted.{sort_by}
use codex_research_skill.Text.Spaces.{strip}
use codex_research_skill.Migration.Packages.{
  Dialect, postgres, sqlite, flat, bundle, SqlMigration, MigrationError, duplicate_id, empty_file,
  undecodable, incomplete_bundle, invalid_component, validate_migration_id, is_blank, Bytes, Codecs,
  or_raise,
}
use codex_research_skill.Migration.Packages.Manifest.{parse_manifest, transactional_dialects}
use codex_research_skill.Migration.Packages.Checksum.{unix_lines, bundle_checksum}

-- An entry of the directory. A bundle is its files, by name.
pub data Entry : Type 0 where
  file : Text → Bytes → Entry
  directory : Text → List (Text × Bytes) → Entry
  special : Text → Entry

abbrev pub name_of : Entry → Text
name_of (file name _) = name
name_of (directory name _) = name
name_of (special name) = name

abbrev bundle_components : List Text
bundle_components =
    codes "common.sql" ∷ codes "manifest.json" ∷ codes "postgres.sql" ∷ codes "sqlite.sql" ∷ []

abbrev file_of : List (Text × Bytes) → Text → Option Bytes
file_of [] name = none
file_of ((n, content) ∷ files) name =
    let rest = file_of files name in if same n name then some content else rest

-- `_load_flat_migration`, with the entry's name and its stem. `read_text` turns every line end into a
-- line feed.
load_flat_migration : Codecs → Text → Text → Bytes → Result MigrationError SqlMigration
unfolding strip validate_migration_id unix_lines
load_flat_migration io name stem content =
    or_raise (io.decode content) (undecodable name) >>= λ decoded.
    let sql = strip (unix_lines decoded) in
    reject_if (is_blank sql) (empty_file name)
    >> validate_migration_id stem
    >> ok record {
      migration_id = stem;
      checksum_sha256 = io.digest (io.encode sql);
      sql = sql;
      dialect_sql = λ _. none;
      component_files = name ∷ [];
      transactional_dialects = λ _. true;
      source_kind = flat;
    }

-- `_decode_sql_component`
decode_sql_component : Codecs → Text → Text → Bytes → Result MigrationError Text
unfolding strip
decode_sql_component io migration_id name content =
    or_raise (io.decode content) (invalid_component migration_id name) >>= λ decoded.
    ok (strip decoded)

abbrev by_name : Text → Text → Dialect → Option Text
by_name p s postgres = some p
by_name p s sqlite = some s

abbrev components : Bytes → Bytes → Bytes → Bytes → List (Text × Bytes)
components common raw_manifest for_postgres for_sqlite =
    (codes "common.sql", common)
    ∷ (codes "manifest.json", raw_manifest)
    ∷ (codes "postgres.sql", for_postgres)
    ∷ (codes "sqlite.sql", for_sqlite)
    ∷ []

-- `_load_migration_bundle` once its files are read
bundle_of : Codecs → Text → Bytes → Bytes → Bytes → Bytes → Result MigrationError SqlMigration
unfolding parse_manifest decode_sql_component transactional_dialects bundle_checksum
bundle_of io migration_id common raw_manifest for_postgres for_sqlite =
    parse_manifest io migration_id raw_manifest >>= λ manifest.
    decode_sql_component io migration_id (codes "common.sql") common >>= λ common_sql.
    decode_sql_component io migration_id (codes "postgres.sql") for_postgres >>= λ postgres_sql.
    decode_sql_component io migration_id (codes "sqlite.sql") for_sqlite >>= λ sqlite_sql.
    transactional_dialects migration_id manifest >>= λ transactional.
    bundle_checksum io (components common raw_manifest for_postgres for_sqlite) >>= λ checksum.
    ok record {
      migration_id = migration_id;
      checksum_sha256 = checksum;
      sql = common_sql;
      dialect_sql = by_name postgres_sql sqlite_sql;
      component_files = bundle_components;
      transactional_dialects = transactional;
      source_kind = bundle;
    }

-- `_load_migration_bundle`
load_migration_bundle : Codecs → Text → List (Text × Bytes) → Result MigrationError SqlMigration
unfolding validate_migration_id bundle_of
load_migration_bundle io migration_id files =
    let missing = keep (λ name. not (is_some (file_of files name))) bundle_components in
    let refusal = incomplete_bundle migration_id missing in
    validate_migration_id migration_id
    >> (or_raise (file_of files (codes "common.sql")) refusal >>= λ common.
        or_raise (file_of files (codes "manifest.json")) refusal >>= λ raw_manifest.
        or_raise (file_of files (codes "postgres.sql")) refusal >>= λ for_postgres.
        or_raise (file_of files (codes "sqlite.sql")) refusal >>= λ for_sqlite.
        bundle_of io migration_id common raw_manifest for_postgres for_sqlite)

-- `path.name.startswith((".", "__"))`
abbrev is_hidden : Text → Bool
is_hidden name = starts_with name (codes ".") || starts_with name (codes "__")

-- the body of the loop for one entry; `none` where it goes on with the next
unfoldable pub load_entry : Codecs → Entry → Option (Result MigrationError SqlMigration)
unfolding starts_with ends_with load_flat_migration load_migration_bundle
load_entry io (file name content) =
    if is_hidden name || not (ends_with name (codes ".sql"))
    then none
    else some (load_flat_migration io name (take (length name - 4) name) content)
load_entry io (directory name files) =
    if is_hidden name then none else some (load_migration_bundle io name files)
load_entry io (special name) = none

-- the end of the loop's body: a loaded migration is added, unless its identifier is known
unfoldable pub add_loaded :
    List SqlMigration
    → Option (Result MigrationError SqlMigration)
    → Result MigrationError (List SqlMigration)
add_loaded migrations none = ok migrations
add_loaded migrations (some loaded) = loaded >>= λ migration.
    reject_if (any (λ seen. same seen.migration_id migration.migration_id) migrations)
      (duplicate_id migration.migration_id)
    >> ok (migrations ++ migration ∷ [])

-- the loop, with the migrations so far
unfoldable pub load_entries :
    Codecs → List SqlMigration → List Entry → Result MigrationError (List SqlMigration)
unfolding load_entry add_loaded
load_entries io migrations [] = ok migrations
load_entries io migrations (entry ∷ entries) =
    add_loaded migrations (load_entry io entry) >>= λ next. load_entries io next entries

-- `load_sql_migrations`
unfoldable pub load_sql_migrations : Codecs → List Entry → Result MigrationError (List SqlMigration)
unfolding sort_by load_entries
load_sql_migrations io entries = load_entries io [] (sort_by name_of entries) >>= λ migrations.
    ok (sort_by (λ migration. migration.migration_id) migrations)
