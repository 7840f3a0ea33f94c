-- ===== src/Migration/Runner/Again.antt =====
-- A second migration: nothing is left to do.
use codex_research_skill.Base.{
  All-imply, ℕ, zero, suc, ◌+◌, ◌-◌, ◌≤◌, ◌≡◌, refl, sym, ap, ◌∙◌, true, false, not, none, List, [],
  ◌∷◌, map, length, take, keep, is_some, All, ok, ok-injective, arith, Result, ◌>>=◌, ◌>>◌,
  if◌then◌else◌,
}
use codex_research_skill.Text.{Text}
use codex_research_skill.Migration.Packages.{
  Dialect, SqlMigration, MigrationError, is_transactional,
}
use codex_research_skill.Migration.Runner.{
  Applied, Driver, Store, History, entry_of, recorded, is_applied, has_name, is_empty,
  applied_migrations, validate_applied, ensure_schema_migrations_table,
}
use codex_research_skill.Migration.Runner.Migrate.{
  run_pending, run_all, committed_result, refuse_first, bootstrap_schema, adopt, migrate_within,
  settle, migrate, restored,
}
use codex_research_skill.Migration.Runner.Plan.{
  MigrationResult, current, ids_of, pending_of, select_migrations,
}
use codex_research_skill.Migration.Runner.Histories.{AllApplied}
use codex_research_skill.Text.Find.{same_refl}
use codex_research_skill.Migration.Runner.Progress.{migrate-Represents}

later :
    (row : Applied) (rows : History) (id : Text)
    → is_applied rows id ≡ true
    → is_applied (row ∷ rows) id ≡ true
unfolding recorded
later row rows id h = ground (arith, h)

here : (row : Applied) (rows : History) → is_applied (row ∷ rows) row.migration_id ≡ true
unfolding recorded
here row rows = let itself = same_refl row.migration_id in ground (arith, itself)

own_rows : (rows : History) → All (λ (row : Applied). is_applied rows row.migration_id ≡ true) rows
own_rows [] = tt
own_rows (row ∷ rows) =
    (here row rows, All-imply rows (λ r. later row rows r.migration_id) (own_rows rows))

own_entries : (ms : List SqlMigration) → AllApplied (map entry_of ms) ms
own_entries [] = tt
own_entries (m ∷ ms) = (
  here (entry_of m) (map entry_of ms),
  All-imply ms (λ x. later (entry_of m) (map entry_of ms) x.migration_id) (own_entries ms),
)

pending-nil :
    (rows : History) (ms : List SqlMigration) → AllApplied rows ms → pending_of rows ms ≡ []
pending-nil rows [] h = refl
pending-nil rows (m ∷ ms) (p, h) = ground (arith, p, pending-nil rows ms h)

unknown-nil :
    (known rows : History)
    → All (λ (row : Applied). is_applied known row.migration_id ≡ true) rows
    → keep (λ row. not (is_applied known row.migration_id)) rows ≡ []
unknown-nil known [] h = refl
unknown-nil known (row ∷ rows) (p, h) = ground (arith, p, unknown-nil known rows h)

take-more : (ms : List SqlMigration) (k n : ℕ) → take k ms ≡ ms → k ≤ n → take n ms ≡ ms
take-more [] k zero h b = refl
take-more [] k (suc n) h b = refl
take-more (m ∷ ms) zero n h b = ground (arith, h)
take-more (m ∷ ms) (suc k) zero h b = let bad : ⊥ = omega (arith, b) in elim bad [ ]
take-more (m ∷ ms) (suc k) (suc n) h b =
    let rest : take k ms ≡ ms = ground (arith, h) in
    ap (λ t. m ∷ t) (take-more ms k n rest (omega (arith, b)))

applied-non_empty :
    (rows : History) (ms : List SqlMigration)
    → 1 ≤ length ms
    → AllApplied rows ms
    → is_empty rows ≡ false
unfolding recorded
applied-non_empty rows [] b h = let bad : ⊥ = omega (arith, b) in elim bad [ ]
applied-non_empty [] (m ∷ ms) b (p, h) = ground (arith, p)
applied-non_empty (row ∷ rows) (m ∷ ms) b h = refl

module _ (d : Driver) (packaged : List SqlMigration) (dialect : Dialect) where
  -- After a whole migration, all that is packaged is applied.
  migrate-AllApplied :
      (store after : Store d) (result : MigrationResult)
      → migrate d packaged dialect none false store ≡ (ok result, after)
      → AllApplied (applied_migrations d after) packaged
  unfolding select_migrations
  migrate-AllApplied store after result h =
      let (n, k, started, selects, begins, ran, represents, ids) =
        migrate-Represents d packaged dialect none store after result h in
      let whole = take-more packaged k (n + (k - n)) (sym (ok-injective selects)) (omega arith) in
      All-imply packaged
        (λ m p.
          ap is_some
            (represents m.migration_id ∙ ap (λ ms. recorded (map entry_of ms) m.migration_id) whole)
          ∙ p)
        (own_entries packaged)

  abbrev ok_pair : MigrationResult → Store d → Result MigrationError (MigrationResult × Store d)
  ok_pair result store = ok (result, store)

  adopt-same :
      (store : Store d)
      → is_empty (applied_migrations d store) ≡ false
      → validate_applied d packaged (applied_migrations d store) store ≡ ok tt
      → adopt d packaged dialect store ≡ ok store
  unfolding adopt
  adopt-same store full valid =
      let rows = applied_migrations d store in
      let boot = bootstrap_schema d packaged dialect store in
      let checked =
        λ (s : Store d). validate_applied d packaged (applied_migrations d s) s >> ok s in
      let within = (if is_empty rows then boot else ok store) >>= checked in
      ap (λ m. m >> within) valid
      ∙ ap (λ b. (if b then boot else ok store) >>= checked) full
      ∙ ap (λ m. m >> ok store) valid

  run_pending-current :
      (store : Store d)
      → AllApplied (applied_migrations d store) packaged
      → (result : MigrationResult) × (run_pending d packaged dialect none false packaged
            (applied_migrations d store)
            store
          ≡ ok (result, store))
        × (result.status ≡ current)
        × (result.applied_ids ≡ [])
  unfolding run_pending committed_result run_all
  run_pending-current store h =
      let rows = applied_migrations d store in
      let outcome = λ (pending : List SqlMigration) (adopted : History).
        let refused = keep (λ m. not (is_transactional m dialect)) pending in
        let executable = keep (λ m. not (has_name (ids_of refused) m.migration_id)) pending in
        refuse_first refused
        >> (run_all d packaged dialect executable store >>= λ done.
            ok_pair
              (committed_result d packaged dialect none packaged rows
                (map (λ (row : Applied). row.migration_id) adopted) executable)
              done) in
      (
        committed_result d packaged dialect none packaged rows [] [],
        ap (λ ms. outcome ms (keep (λ row. not (is_applied rows row.migration_id)) rows))
              (pending-nil rows packaged h)
            ∙ ap (outcome []) (unknown-nil rows rows (own_rows rows)),
        refl,
        refl,
      )

  -- After a migration of all that is packaged, whose history still fits the schema, a second one is
  -- current: it succeeds, applies nothing and leaves the database as it is.
  pub migrate-again :
      (store after : Store d) (result : MigrationResult)
      → migrate d packaged dialect none false store ≡ (ok result, after)
      → 1 ≤ length packaged
      → validate_applied d packaged
          (applied_migrations d after)
          (ensure_schema_migrations_table d after)
        ≡ ok tt
      → (second : MigrationResult) × (migrate d packaged dialect none false after
          ≡ (ok second, ensure_schema_migrations_table d after))
        × (second.status ≡ current)
        × (second.applied_ids ≡ [])
  unfolding migrate migrate_within settle select_migrations
  migrate-again store after result h some_packaged valid =
      let all_applied = migrate-AllApplied store after result h in
      let ensured = ensure_schema_migrations_table d after in
      let full =
        applied-non_empty (applied_migrations d after) packaged some_packaged all_applied in
      let (second, runs, status, ids) = run_pending-current ensured all_applied in
      (
        second,
        ap (settle d packaged dialect false (restored d packaged dialect none after)) (
            ap
              (λ m.
                m
                >>= run_pending d packaged dialect none false packaged
                    (applied_migrations d ensured))
              (adopt-same ensured full valid)
            ∙ runs),
        status,
        ids,
      )
