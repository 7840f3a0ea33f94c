-- ===== src/Migration/Runner/Beginnings.antt =====
-- The store that the pending migrations of a run start from, and the one that a rollback restores.
use codex_research_skill.Base.{
  ℕ, zero, suc, ◌≤◌, ◌≡◌, ◌⊎◌, refl, sym, ap, ◌∙◌, inl, inr, Bool, true, false, Option, none, some,
  List, [], ◌∷◌, map, take, keep, all, length, ok, err, arith, Result, Bool-cases, Option-cases,
  if◌then◌else◌,
}
use codex_research_skill.Text.{Text, codes, same}
use codex_research_skill.Text.Find.{same_iff, same_refl}
use codex_research_skill.Migration.Packages.{Dialect, SqlMigration, MigrationError}
use codex_research_skill.Migration.Runner.{
  Driver, Store, entry_of, recorded, record_all, has_name, is_empty, list_tables,
  applied_migrations, ensure_schema_migrations_table,
}
use codex_research_skill.Migration.Runner.Migrate.{
  is_flat, upgrade_legacy, bootstrap_schema, upgrade_commits, bootstrap_commits, or_committed,
  restored,
}
use codex_research_skill.Migration.Runner.Refinement.{Represents}

no_meta :
    (tables : List Text)
    → all (same (codes "schema_migrations")) tables ≡ true
    → has_name tables (codes "schema_meta") ≡ false
unfolding same
no_meta [] h = refl
no_meta (t ∷ tables) h =
    let here : same (codes "schema_migrations") t ≡ true = ground (arith, h) in
    let rest : all (same (codes "schema_migrations")) tables ≡ true = ground (arith, h) in
    let other : same (codes "schema_meta") t ≡ false =
      ap (same (codes "schema_meta")) (sym ((same_iff (codes "schema_migrations") t).0 here)) in
    ground (arith, other, no_meta tables rest)

pub none_applied :
    (packaged : List SqlMigration) (n : ℕ) → n ≤ length packaged → Represents packaged [] n → n ≡ 0
unfolding recorded
none_applied packaged zero b r = refl
none_applied [] (suc n) b r = let bad : ⊥ = omega (arith, b) in elim bad [ ]
none_applied (m ∷ packaged) (suc n) b r =
    let first = r m.migration_id in
    let itself = same_refl m.migration_id in
    let bad : ⊥ = ground (arith, first, itself) in elim bad [ ]

module _ (d : Driver) (packaged : List SqlMigration) (dialect : Dialect) where
  -- Whether the database has the table of the older versions.
  abbrev pub has_meta : Store d → Bool
  has_meta store = has_name (d.table_names store.schema) (codes "schema_meta")

  -- How a run begins: with a history of the first n migrations; with none, in a database that no older
  -- version has made; or with that of the flat migrations, in one that an older version has made.
  pub data Begins (store started : Store d) (n : ℕ) : Type 0 where
    continues :
        is_empty (applied_migrations d store) ≡ false
        → Represents packaged (applied_migrations d store) n
        → started ≡ ensure_schema_migrations_table d store
        → Begins store started n
    is_new :
        is_empty (applied_migrations d store) ≡ true
        → has_meta store ≡ false
        → n ≡ 0
        → started ≡ ensure_schema_migrations_table d store
        → Begins store started n
    adopts :
        is_empty (applied_migrations d store) ≡ true
        → has_meta store ≡ true
        → ((id : Text)
            → recorded (map entry_of (keep is_flat packaged)) id
              ≡ recorded (map entry_of (take n packaged)) id)
        → upgrade_legacy d packaged dialect (d.schema_version store.schema) store.schema
          ≡ some started.schema
        → Begins store started n

  -- A database that no older version has made, or one of version 4 at least.
  abbrev pub IsUpgraded : Store d → Type 0
  IsUpgraded store = (v : ℕ) → d.schema_version store.schema ≡ some v → 4 ≤ v

  abbrev with_history : d.Schema → Store d → Store d
  with_history schema store = record {
    schema = schema;
    schema_migrations = some (record_all (keep is_flat packaged) (applied_migrations d store));
  }

  pub bootstrap_schema-cases :
      (store ready : Store d)
      → bootstrap_schema d packaged dialect store ≡ ok ready
      → ((has_name (list_tables d store) (codes "schema_meta") ≡ false) × (store ≡ ready))
        ⊎ ((has_name (list_tables d store) (codes "schema_meta") ≡ true)
            × (upgrade_legacy d packaged dialect (d.schema_version store.schema) store.schema
                ≡ some ready.schema)
            × (applied_migrations d ready
                ≡ record_all (keep is_flat packaged) (applied_migrations d store)))
  unfolding bootstrap_schema
  bootstrap_schema-cases store ready h =
      let tables = list_tables d store in
      elim (Bool-cases (all (same (codes "schema_migrations")) tables)) [
        | inl a ↦ inl (no_meta tables a, ground (arith, h, a))
        | inr b ↦ elim (Bool-cases (has_name tables (codes "schema_meta"))) [
          | inl m ↦
              let upgraded =
                upgrade_legacy d packaged dialect (d.schema_version store.schema) store.schema in
              elim (Option-cases upgraded) [
                | inl out ↦ let bad : ⊥ = ground (arith, h, b, m, out) in elim bad [ ]
                | inr (schema, e) ↦
                    let adopted : with_history schema store ≡ ready = ground (arith, h, b, m, e) in
                    inr (
                      m,
                      e ∙ ap (λ (s : Store d). some s.schema) adopted,
                      ap (λ (s : Store d). applied_migrations d s) (sym adopted),
                    )
              ]
          | inr f ↦ inl (f, ground (arith, h, b, f))
        ]
      ]

  upgrade_commits-none :
      (version : Option ℕ) (schema : d.Schema)
      → ((v : ℕ) → version ≡ some v → 4 ≤ v)
      → upgrade_commits d packaged dialect version schema ≡ none
  unfolding upgrade_commits
  upgrade_commits-none none schema h = refl
  upgrade_commits-none (some v) schema h = let late = h v refl in ground (arith, late)

  bootstrap_commits-none :
      (store : Store d) → IsUpgraded store → bootstrap_commits d packaged dialect store ≡ none
  unfolding bootstrap_commits
  bootstrap_commits-none store h =
      let nothing = upgrade_commits-none (d.schema_version store.schema) store.schema h in
      ground (arith, nothing)

  or_committed-same :
      (store : Store d) (m : Result MigrationError (Unit {0})) (b : Bool) (o : Option d.Schema)
      → o ≡ none
      → or_committed d packaged dialect store
          (elim m [ ok _ ↦ (if b then o else none) | err _ ↦ none ])
        ≡ store
  or_committed-same store (err e) b o h = refl
  or_committed-same store (ok _) true o h = ap (or_committed d packaged dialect store) h
  or_committed-same store (ok _) false o h = refl

  -- A rollback restores the store, if no older schema is to be upgraded.
  pub restored-same :
      (target : Option Text) (store : Store d)
      → IsUpgraded store
      → restored d packaged dialect target store ≡ store
  unfolding restored
  restored-same target store h =
      let nothing = bootstrap_commits-none (ensure_schema_migrations_table d store) h in
      or_committed-same store _ (is_empty (applied_migrations d store)) _ nothing
