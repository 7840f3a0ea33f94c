-- ===== src/Migration/Runner/Progress.antt =====
-- Whole migrations: what they leave of the history, and what a dry run says of them.
use codex_research_skill.Migration.Runner.Beginnings.{
  Begins, continues, is_new, adopts, bootstrap_schema-cases, none_applied, IsUpgraded,
  restored-same,
}
use codex_research_skill.Base.{
  Bool-cases, inl, inr, keep, refl, ◌∷◌, arith, ℕ, ◌+◌, ◌-◌, ◌≡◌, sym, ap, ◌∙◌, subst, true, false,
  Option, List, [], take, drop, ok, err, then-ok, >>=-eq-ok, ok-injective, err_not_ok, Result,
  ◌>>=◌, ◌>>◌, if◌then◌else◌,
}
use codex_research_skill.Text.{Text, same}
use codex_research_skill.Migration.Packages.{Dialect, SqlMigration, MigrationError}
use codex_research_skill.Migration.Runner.{
  Driver, Store, is_empty, applied_migrations, validate_applied, ensure_schema_migrations_table,
}
use codex_research_skill.Migration.Runner.Migrate.{
  run_pending, adopt, bootstrap_schema, migrate_within, settle, migrate, run_all, restored, is_flat,
}
use codex_research_skill.Migration.Runner.Plan.{MigrationResult, ids_of, select_migrations}
use codex_research_skill.Migration.Runner.{History, recorded, record_all, list_tables}
use codex_research_skill.Migration.Runner.Histories.{recorded-record_all}
use codex_research_skill.Migration.Runner.Refinement.{Represents}
use codex_research_skill.Migration.Runner.Runs.{
  Stands, select_migrations-take, validate_applied-Stands, run_pending-Represents, run_pending-dry,
}

pair_path : {A B : Type 0} {a a' : A} {b b' : B} → a ≡ a' → b ≡ b' → ◌≡◌ {A = A × B} (a, b) (a', b')
pair_path p q = cc

empty-nil : (rows : History) → is_empty rows ≡ true → rows ≡ []
empty-nil [] h = refl
empty-nil (row ∷ rows) h = ground (arith, h)

module _ (d : Driver) (packaged : List SqlMigration) (dialect : Dialect) where
  -- The validated store of a migration: its history stands, and it is how the run begins.
  record Ready (store ready : Store d) (n : ℕ) : Type 0 where
    pub stands : Stands packaged (applied_migrations d ready) n
    pub begins : Begins d packaged dialect store ready n

  abbrev ensured_store : Store d → Store d
  ensured_store store = ensure_schema_migrations_table d store

  bootstrap_schema-Begins :
      (store ready : Store d) (n : ℕ)
      → Stands packaged (applied_migrations d ready) n
      → is_empty (applied_migrations d store) ≡ true
      → (if is_empty (applied_migrations d store)
          then bootstrap_schema d packaged dialect (ensured_store store)
          else ok (ensured_store store))
        ≡ ok ready
      → Begins d packaged dialect store ready n
  unfolding list_tables same recorded
  bootstrap_schema-Begins store ready n stands empty h =
      let boot = bootstrap_schema d packaged dialect (ensured_store store) in
      let booted : boot ≡ ok ready =
        ap (λ b. if b then boot else ok (ensured_store store)) (sym empty) ∙ h in
      let no_rows = empty-nil (applied_migrations d store) empty in
      elim (bootstrap_schema-cases d packaged dialect (ensured_store store) ready booted) [
        | inl (no_meta, same_store) ↦
            let no_history : applied_migrations d ready ≡ [] =
              ap (λ (s : Store d). applied_migrations d s) (sym same_store) ∙ no_rows in
            is_new empty no_meta
              (none_applied packaged n stands.bound
                (subst (λ rows. Represents packaged rows n) no_history stands.represents))
              (sym same_store)
        | inr (meta, upgraded, history) ↦
            let flat_history = history ∙ ap (record_all (keep is_flat packaged)) no_rows in
            adopts empty meta
              (λ id.
                sym (recorded-record_all (keep is_flat packaged) [] id)
                ∙ ap (λ rows. recorded rows id) (sym flat_history)
                ∙ stands.represents id)
              upgraded
      ]

  ensure_schema_migrations_table-Begins :
      (store ready : Store d) (n : ℕ)
      → Stands packaged (applied_migrations d ready) n
      → is_empty (applied_migrations d store) ≡ false
      → (if is_empty (applied_migrations d store)
          then bootstrap_schema d packaged dialect (ensured_store store)
          else ok (ensured_store store))
        ≡ ok ready
      → Begins d packaged dialect store ready n
  ensure_schema_migrations_table-Begins store ready n stands full h =
      let boot = bootstrap_schema d packaged dialect (ensured_store store) in
      let same_store : ensured_store store ≡ ready =
        ok-injective (ap (λ b. if b then boot else ok (ensured_store store)) (sym full) ∙ h) in
      continues full
        (subst (λ s. Represents packaged (applied_migrations d s) n) (sym same_store)
          stands.represents)
        (sym same_store)

  adopt-Ready :
      (store ready : Store d)
      → adopt d packaged dialect (ensured_store store) ≡ ok ready
      → (n : ℕ) × Ready store ready n
  unfolding adopt
  adopt-Ready store ready h =
      let rows = applied_migrations d store in
      let ensured = ensured_store store in
      let boot = bootstrap_schema d packaged dialect ensured in
      let bootstrapped = if is_empty rows then boot else ok ensured in
      let (_, rest) =
        then-ok (validate_applied d packaged rows ensured)
          (bootstrapped >>= λ s. validate_applied d packaged (applied_migrations d s) s >> ok s)
          h in
      let (ready', booted, tail) = >>=-eq-ok bootstrapped _ rest in
      let (valid, answer) =
        then-ok (validate_applied d packaged (applied_migrations d ready') ready') (ok ready')
          tail in
      let (n, stands) =
        validate_applied-Stands d packaged (applied_migrations d ready') ready' valid in
      let begins : Begins d packaged dialect store ready' n = elim (Bool-cases (is_empty rows)) [
        | inl empty ↦ bootstrap_schema-Begins store ready' n stands empty booted
        | inr full ↦ ensure_schema_migrations_table-Begins store ready' n stands full booted
      ] in
      subst (λ s. (n : ℕ) × Ready store s n) (ok-injective answer)
        (n, record { stands = stands; begins = begins })

  settle-ok :
      (store after : Store d) (result : MigrationResult)
      (m : Result MigrationError (MigrationResult × Store d))
      → settle d packaged dialect false store m ≡ (ok result, after)
      → m ≡ ok (result, after)
  unfolding settle
  settle-ok store after result (err e) h = elim (err_not_ok (ap (λ p. p.0) h)) [ ]
  settle-ok store after result (ok (r, s)) h =
      ap (λ (p : MigrationResult × Store d). ok p)
        (pair_path (ok-injective (ap (λ p. p.0) h)) (ap (λ p. p.1) h))

  pub migrate-within :
      (target : Option Text) (store after : Store d) (result : MigrationResult)
      → migrate d packaged dialect target false store ≡ (ok result, after)
      → migrate_within d packaged dialect target false store ≡ ok (result, after)
  unfolding migrate
  migrate-within target store after result h =
      settle-ok (restored d packaged dialect target store) after result
        (migrate_within d packaged dialect target false store) h

  -- A migration that succeeds begins with a history of the first n packaged migrations, and ends with
  -- that of the first n or of those up to its target, whichever are more; it has run the ones in between,
  -- one after the other, and reports them. It begins with what is there, if that has a history; with no
  -- history, n being 0, in a database without schema_meta; and else with the history of the flat
  -- migrations, on the upgraded schema.
  pub migrate-Represents :
      (target : Option Text) (store after : Store d) (result : MigrationResult)
      → migrate d packaged dialect target false store ≡ (ok result, after)
      → (n : ℕ) × (k : ℕ) × (started : Store d) × (select_migrations packaged target
          ≡ ok (take k packaged))
        × Begins d packaged dialect store started n
        × (run_all d packaged dialect (drop n (take k packaged)) started ≡ ok after)
        × Represents packaged (applied_migrations d after) (n + (k - n))
        × (result.applied_ids ≡ ids_of (drop n (take k packaged)))
  unfolding migrate_within
  migrate-Represents target store after result h =
      let ensured = ensure_schema_migrations_table d store in
      let (selected, selects, rest) =
        >>=-eq-ok (select_migrations packaged target) _
          (migrate-within target store after result h) in
      let (k, taken) = select_migrations-take packaged target selected selects in
      let (ready, adopted, runs) = >>=-eq-ok (adopt d packaged dialect ensured) _ rest in
      let (n, facts) = adopt-Ready store ready adopted in
      let before = applied_migrations d ensured in
      let (represents, applied_ids, ran) =
        run_pending-Represents d packaged dialect target k n before ready after result facts.stands
          (ap (λ ms. run_pending d packaged dialect target false ms before ready) (sym taken)
            ∙ runs) in
      (n, k, ready, selects ∙ ap (λ ms. ok ms) taken, facts.begins, ran, represents, applied_ids)

  -- Where a migration would succeed in a database that has no version below 4 in schema_meta, a dry run
  -- succeeds too, leaves the database as it is, and lists as pending what the migration applies and as
  -- adopted what it adopts.
  pub dry_run-predicts :
      (target : Option Text) (store after : Store d) (result : MigrationResult)
      → migrate d packaged dialect target false store ≡ (ok result, after)
      → IsUpgraded d packaged dialect store
      → (answer : MigrationResult) × (migrate d packaged dialect target true store
          ≡ (ok answer, store))
        × (answer.pending_ids ≡ result.applied_ids)
        × (answer.adopted_ids ≡ result.adopted_ids)
        × (answer.skipped_non_transactional_ids ≡ [])
  unfolding migrate migrate_within settle
  dry_run-predicts target store after result h upgraded =
      let ensured = ensure_schema_migrations_table d store in
      let before = applied_migrations d ensured in
      let (selected, selects, rest) =
        >>=-eq-ok (select_migrations packaged target) _
          (migrate-within target store after result h) in
      let (ready, adopted, runs) = >>=-eq-ok (adopt d packaged dialect ensured) _ rest in
      let (answer, dry, pending_ids, adopted_ids, skipped) =
        run_pending-dry d packaged dialect target selected before ready after result runs in
      (
        answer,
        ap (settle d packaged dialect true (restored d packaged dialect target store)) (
              ap
                (λ m. m >>= λ ms. adopt d packaged dialect ensured >>= λ s.
                  run_pending d packaged dialect target true ms before s)
                selects
              ∙ ap (λ m. m >>= λ s. run_pending d packaged dialect target true selected before s)
                  adopted
              ∙ dry)
            ∙ ap (λ s. settle d packaged dialect true s (ok (answer, after)))
                (restored-same d packaged dialect target store upgraded),
        pending_ids,
        adopted_ids,
        skipped,
      )
