-- ===== src/Migration/Runner/Histories.antt =====
-- Histories as finite maps, and what the checks of a history say of it.
use codex_research_skill.Base.{
  ℕ, suc, ◌≤◌, ◌≡◌, inl, inr, refl, sym, ap, ◌∙◌, true, false, Option, none, some, List, [], ◌∷◌,
  ◌++◌, map, length, take, drop, All, ok, arith, Bool-cases,
}
use codex_research_skill.Text.{Text, same}
use codex_research_skill.Text.Find.{same_iff}
use codex_research_skill.Migration.Packages.{SqlMigration}
use codex_research_skill.Migration.Runner.{
  Applied, History, entry_of, recorded, is_applied, place, record_migration, record_all, check_rows,
  check_order,
}

abbrev pub or_else {ℓ} : {A : Type ℓ} → Option A → Option A → Option A
or_else none b = b
or_else (some a) _ = some a

same_join : (a b c : Text) → same a c ≡ true → same b c ≡ true → same a b ≡ true
same_join a b c h k = (same_iff a b).1 ((same_iff a c).0 h ∙ sym ((same_iff b c).0 k))

pub recorded-same :
    (rows : History) (a b : Text) → same a b ≡ true → recorded rows a ≡ recorded rows b
recorded-same rows a b h = ap (recorded rows) ((same_iff a b).0 h)

pub recorded-append :
    (xs ys : History) (id : Text)
    → recorded (xs ++ ys) id ≡ or_else (recorded xs id) (recorded ys id)
unfolding recorded
recorded-append [] ys id = refl
recorded-append (x ∷ xs) ys id = ground (arith, recorded-append xs ys id)

recorded-place :
    (row : Applied) (rows : History) (id : Text)
    → recorded rows row.migration_id ≡ none
    → recorded (place row rows) id ≡ or_else (recorded rows id) (recorded (row ∷ []) id)
unfolding recorded place
recorded-place row [] id h = refl
recorded-place row (next ∷ rows) id h = ground (
  arith,
  h,
  same_join next.migration_id row.migration_id id,
  recorded-same rows row.migration_id id,
  recorded-place row rows id,
)

recorded-record_migration :
    (m : SqlMigration) (rows : History) (id : Text)
    → recorded (record_migration m rows) id
      ≡ or_else (recorded rows id) (recorded (entry_of m ∷ []) id)
unfolding record_migration
recorded-record_migration m rows id =
    ground (arith, recorded-same rows m.migration_id id, recorded-place (entry_of m) rows id)

pub recorded-record_all :
    (ms : List SqlMigration) (rows : History) (id : Text)
    → recorded (record_all ms rows) id ≡ or_else (recorded rows id) (recorded (map entry_of ms) id)
unfolding record_all
recorded-record_all [] rows id = elim (recorded rows id) as (λ o. o ≡ or_else o none) [
  | none ↦ refl
  | some _ ↦ refl
]
recorded-record_all (m ∷ ms) rows id = ground (
  arith,
  recorded-record_all ms (record_migration m rows) id,
  recorded-record_migration m rows id,
)

-- A checked row has the checksum that is packaged.
pub check_rows-packaged :
    (packaged rows : History)
    → check_rows packaged rows ≡ ok tt
    → (id c : Text) → recorded rows id ≡ some c
    → recorded packaged id ≡ some c
unfolding check_rows recorded
check_rows-packaged packaged [] h id c k = cc
check_rows-packaged packaged (row ∷ rows) h id c k =
    let deeper = check_rows-packaged packaged rows in grind (arith, h, k, same_iff, deeper)

abbrev pub AllApplied : History → List SqlMigration → Type 0
AllApplied rows = All (λ m. is_applied rows m.migration_id ≡ true)

abbrev pub NoneApplied : History → List SqlMigration → Type 0
NoneApplied rows = All (λ m. is_applied rows m.migration_id ≡ false)

check_order-NoneApplied :
    (rows : History) (ms : List SqlMigration)
    → check_order rows true ms ≡ ok tt
    → NoneApplied rows ms
unfolding check_order
check_order-NoneApplied rows [] h = tt
check_order-NoneApplied rows (m ∷ ms) h = ground (arith, h, check_order-NoneApplied rows ms)

pub check_order-split :
    (rows : History) (ms : List SqlMigration)
    → check_order rows false ms ≡ ok tt
    → (n : ℕ) × (n ≤ length ms) × AllApplied rows (take n ms) × NoneApplied rows (drop n ms)
unfolding check_order
check_order-split rows [] h = (0, omega arith, tt, tt)
check_order-split rows (m ∷ ms) h = elim (Bool-cases (is_applied rows m.migration_id)) [
  | inl here ↦
      let (n, bound, all_applied, none_applied) =
        check_order-split rows ms (ground (arith, h, here)) in
      (suc n, omega (arith, bound), (here, all_applied), none_applied)
  | inr absent ↦
      (0, omega arith, tt, (absent, check_order-NoneApplied rows ms (ground (arith, h, absent))))
]
