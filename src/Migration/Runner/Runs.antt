-- ===== src/Migration/Runner/Runs.antt =====
-- What a run of the pending migrations leaves of the history.
use codex_research_skill.Base.{
  ℕ, suc, ◌+◌, ◌-◌, ◌≤◌, ◌≡◌, refl, sym, ap, ◌∙◌, subst, true, false, not, Option, none, some, List,
  [], ◌∷◌, map, length, take, drop, keep, ok, ◌>>=◌, ◌>>◌, then-ok, >>=-eq-ok, ok-injective, arith,
  Option-cases, Bool-cases, inl, inr, Result,
}
use codex_research_skill.Text.{Text, same}
use codex_research_skill.Migration.Packages.{
  Dialect, SqlMigration, MigrationError, is_transactional,
}
use codex_research_skill.Migration.Runner.{
  Applied, Driver, Store, History, entry_of, recorded, is_applied, has_name, check_adoption,
  check_schema, check_rows, check_order, record_all, applied_migrations, validate_applied,
}
use codex_research_skill.Migration.Runner.Migrate.{
  with_record, apply_migration, run_all, refuse_first, run_pending, committed_result, dry_result,
}
use codex_research_skill.Migration.Runner.Plan.{
  MigrationResult, pending_of, ids_of, select_migrations, up_to,
}
use codex_research_skill.Migration.Runner.Histories.{
  or_else, recorded-record_all, check_order-split, AllApplied, NoneApplied,
}
use codex_research_skill.Migration.Runner.Refinement.{
  Represents, check-Represents, pending-drop, extend-Represents,
}

-- A history that is the first `n` packaged migrations, the others being pending.
pub record Stands (packaged : List SqlMigration) (rows : History) (n : ℕ) : Type 0 where
  pub bound : n ≤ length packaged
  pub represents : Represents packaged rows n
  pub first_applied : AllApplied rows (take n packaged)
  pub others_pending : NoneApplied rows (drop n packaged)

pub take-all : {A : Type 0} (xs : List A) → take (length xs) xs ≡ xs
take-all [] = refl
take-all (x ∷ xs) = ap (λ t. x ∷ t) (take-all xs)

up_to-take :
    (target : Text) (ms selected : List SqlMigration)
    → up_to target ms ≡ some selected
    → (k : ℕ) × (selected ≡ take k ms)
unfolding up_to
up_to-take target [] selected h = ground (arith, h)
up_to-take target (m ∷ ms) selected h = elim (Bool-cases (same m.migration_id target)) [
  | inl here ↦ (1, ground (arith, h, here))
  | inr away ↦ elim (Option-cases (up_to target ms)) [
    | inl out ↦ (0, ground (arith, h, away, out))
    | inr (rest, found) ↦
        let (k, p) = up_to-take target ms rest found in (suc k, ground (arith, h, away, found, p))
  ]
]

pub select_migrations-take :
    (ms : List SqlMigration) (target : Option Text) (selected : List SqlMigration)
    → select_migrations ms target ≡ ok selected
    → (k : ℕ) × (selected ≡ take k ms)
unfolding select_migrations
select_migrations-take ms none selected h = (length ms, ground (arith, h, take-all ms))
select_migrations-take ms (some target) selected h = elim (Option-cases (up_to target ms)) [
  | inl out ↦ (0, ground (arith, h, out))
  | inr (rest, found) ↦
      let (k, p) = up_to-take target ms rest found in (k, ground (arith, h, found, p))
]

module _ (d : Driver) (packaged : List SqlMigration) where
  pub validate_applied-Stands :
      (rows : History) (store : Store d)
      → validate_applied d packaged rows store ≡ ok tt
      → (n : ℕ) × Stands packaged rows n
  unfolding validate_applied
  validate_applied-Stands rows store h =
      let rows_checked = check_rows (map entry_of packaged) rows in
      let order_checked = check_order rows false packaged in
      let adoption_checked = check_adoption d rows store in
      let (first, _) =
        then-ok (adoption_checked >> rows_checked >> order_checked) (check_schema d rows store) h in
      let (second, ordered) = then-ok (adoption_checked >> rows_checked) order_checked first in
      let (_, checked) = then-ok adoption_checked rows_checked second in
      let (n, bound, all_applied, none_applied) = check_order-split rows packaged ordered in
      (
        n,
        record {
          bound = bound;
          represents = check-Represents packaged rows n checked all_applied none_applied;
          first_applied = all_applied;
          others_pending = none_applied;
        },
      )

  module _ (dialect : Dialect) where
    run_all-record_all :
        (ms : List SqlMigration) (store after : Store d)
        → run_all d packaged dialect ms store ≡ ok after
        → applied_migrations d after ≡ record_all ms (applied_migrations d store)
    unfolding run_all record_all
    run_all-record_all [] store after h = ground (arith, h)
    run_all-record_all (m ∷ ms) store after h =
        elim (Option-cases (apply_migration d packaged dialect m store.schema)) [
          | inl raised ↦ ground (arith, h, raised)
          | inr (schema, applied) ↦
              run_all-record_all ms
                (with_record d packaged dialect m schema (applied_migrations d store)) after
                (ground (arith, h, applied))
        ]

    pub keep_all : (ms : List SqlMigration) → keep (λ m. not (has_name [] m.migration_id)) ms ≡ ms
    keep_all [] = refl
    keep_all (m ∷ ms) = ap (λ t. m ∷ t) (keep_all ms)

    abbrev ok_pair : MigrationResult → Store d → Result MigrationError (MigrationResult × Store d)
    ok_pair result store = ok (result, store)

    executed :
        (target : Option Text) (selected executable : List SqlMigration) (applied : History)
        (adopted : List Text) (ready after : Store d) (result : MigrationResult)
        → (run_all d packaged dialect executable ready >>= λ done.
            ok_pair
              (committed_result d packaged dialect target selected applied adopted executable)
              done)
          ≡ ok (result, after)
        → (run_all d packaged dialect executable ready ≡ ok after)
          × (result
              ≡ committed_result d packaged dialect target selected applied adopted executable)
    executed target selected executable applied adopted ready after result h =
        let (done, ran, answer) = >>=-eq-ok (run_all d packaged dialect executable ready) _ h in
        let same_pair = ok-injective answer in
        (ran ∙ ap (λ p. ok p.1) same_pair, sym (ap (λ p. p.0) same_pair))

    -- what a run that is no dry run does, with the migrations that it refuses
    finished :
        Option Text
        → List SqlMigration
        → List SqlMigration
        → List SqlMigration
        → History
        → List Text
        → Store d
        → Result MigrationError (MigrationResult × Store d)
    finished target selected pending refused applied adopted ready =
        let executable = keep (λ m. not (has_name (ids_of refused) m.migration_id)) pending in
        refuse_first refused
        >> (run_all d packaged dialect executable ready >>= λ done.
            ok (
              committed_result d packaged dialect target selected applied adopted executable,
              done,
            ))

    finished-run_all :
        (target : Option Text) (selected pending refused : List SqlMigration) (applied : History)
        (adopted : List Text) (ready after : Store d) (result : MigrationResult)
        → finished target selected pending refused applied adopted ready ≡ ok (result, after)
        → (run_all d packaged dialect pending ready ≡ ok after)
          × (result ≡ committed_result d packaged dialect target selected applied adopted pending)
    unfolding finished
    finished-run_all target selected pending [] applied adopted ready after result h =
        let kept = keep_all pending in
        subst
          (λ e.
            (run_all d packaged dialect e ready ≡ ok after)
            × (result ≡ committed_result d packaged dialect target selected applied adopted e))
          kept (executed target selected _ applied adopted ready after result h)
    finished-run_all target selected pending (m ∷ ms) applied adopted ready after result h =
        ground (arith, h)

    -- A run that is no dry run and succeeds has run the pending migrations, which are transactional.
    pub run_pending-Represents :
        (target : Option Text) (k n : ℕ) (before : History) (ready after : Store d)
        (result : MigrationResult)
        → Stands packaged (applied_migrations d ready) n
        → run_pending d packaged dialect target false (take k packaged) before ready
          ≡ ok (result, after)
        → Represents packaged (applied_migrations d after) (n + (k - n))
          × (result.applied_ids ≡ ids_of (drop n (take k packaged)))
          × (run_all d packaged dialect (drop n (take k packaged)) ready ≡ ok after)
    unfolding run_pending committed_result finished
    run_pending-Represents target k n before ready after result stands h =
        let applied = applied_migrations d ready in
        let pending = pending_of applied (take k packaged) in
        let (ran, answer) =
          finished-run_all target (take k packaged) pending _ applied _ ready after result h in
        let left = pending-drop applied n k packaged stands.first_applied stands.others_pending in
        let applied_ids = ap (λ r. r.applied_ids) answer ∙ ap ids_of left in
        (
          λ id.
              ap (λ rows. recorded rows id) (run_all-record_all pending ready after ran)
              ∙ recorded-record_all pending applied id
              ∙ ap (λ ms. or_else (recorded applied id) (recorded (map entry_of ms) id)) left
              ∙ extend-Represents packaged applied n k id stands.represents,
          applied_ids,
          ap (λ ms. run_all d packaged dialect ms ready) (sym left) ∙ ran,
        )

    refuse_first-nil : (ms : List SqlMigration) → refuse_first ms ≡ ok tt → ms ≡ []
    refuse_first-nil [] h = refl
    refuse_first-nil (m ∷ ms) h = ground (arith, h)

    -- A dry run of what a run does succeeds and has its answer.
    pub run_pending-dry :
        (target : Option Text) (selected : List SqlMigration) (before : History)
        (ready after : Store d) (result : MigrationResult)
        → run_pending d packaged dialect target false selected before ready ≡ ok (result, after)
        → (answer : MigrationResult) × (run_pending d packaged dialect target true selected before
              ready
            ≡ ok (answer, after))
          × (answer.pending_ids ≡ result.applied_ids)
          × (answer.adopted_ids ≡ result.adopted_ids)
          × (answer.skipped_non_transactional_ids ≡ [])
    unfolding run_pending committed_result dry_result finished
    run_pending-dry target selected before ready after result h =
        let applied = applied_migrations d ready in
        let pending = pending_of applied selected in
        let refused = keep (λ m. not (is_transactional m dialect)) pending in
        let adopted =
          map (λ (row : Applied). row.migration_id)
            (keep (λ row. not (is_applied before row.migration_id)) applied) in
        let executable = keep (λ m. not (has_name (ids_of refused) m.migration_id)) pending in
        let (ran, answer) =
          finished-run_all target selected pending refused applied adopted ready after result h in
        let (allowed, _) =
          then-ok (refuse_first refused)
            (run_all d packaged dialect executable ready >>= λ done.
              ok_pair
                (committed_result d packaged dialect target selected applied adopted executable)
                done)
            h in
        let none_refused = refuse_first-nil refused allowed in
        let all_pending =
          ap (λ ms. keep (λ m. not (has_name (ids_of ms) m.migration_id)) pending) none_refused
          ∙ keep_all pending in
        let said = dry_result d packaged dialect target selected applied adopted pending refused in
        (
          said,
          ap (λ ms. run_all d packaged dialect ms ready >>= λ done. ok_pair said done) all_pending
              ∙ ap (λ m. m >>= λ done. ok_pair said done) ran,
          sym (ap (λ r. r.applied_ids) answer),
          sym (ap (λ r. r.adopted_ids) answer),
          ap ids_of none_refused,
        )
