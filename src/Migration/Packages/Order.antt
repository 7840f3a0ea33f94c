-- ===== src/Migration/Packages/Order.antt =====
-- The loaded migrations have different identifiers, in ascending order.
use codex_research_skill.Base.{
  All-append, ◌≡◌, refl, sym, subst, true, false, Option, none, some, List, [], ◌∷◌, ◌++◌, any, All,
  ok, err, reject_if, Result, >>=-eq-ok, then-ok, ok-injective, arith, Bool-cases, inl, inr,
  both_branches, if◌then◌else◌,
}
use codex_research_skill.Text.{Text, same}
use codex_research_skill.Text.Sorted.{insert_sorted, sort_by}
use codex_research_skill.Text.Spaces.{before}
use codex_research_skill.Migration.Packages.{SqlMigration, MigrationError, duplicate_id, Codecs}
use codex_research_skill.Migration.Packages.Load.{
  Entry, name_of, load_entry, add_loaded, load_entries, load_sql_migrations,
}

before-same : (s t : Text) → before t s ≡ false → same s t ≡ false → before s t ≡ true
unfolding before same
before-same [] [] h k = ground (arith, k)
before-same [] (b ∷ t) h k = refl
before-same (a ∷ s) [] h k = ground (arith, h)
before-same (a ∷ s) (b ∷ t) h k = ground (arith, h, k, before-same s t)

abbrev id_of : SqlMigration → Text
id_of migration = migration.migration_id

-- No identifier stands twice.
abbrev Distinct : List SqlMigration → Type 0
Distinct [] = Unit
Distinct (m ∷ ms) = All (λ x. same m.migration_id x.migration_id ≡ false) ms × Distinct ms

abbrev Below : Text → List SqlMigration → Type 0
Below id [] = Unit
Below id (m ∷ _) = before id m.migration_id ≡ true

-- Each identifier is less than the next.
abbrev pub Ascending : List SqlMigration → Type 0
Ascending [] = Unit
Ascending (m ∷ ms) = Below m.migration_id ms × Ascending ms

insert_sorted-All :
    (P : SqlMigration → Type 0) (x : SqlMigration) (ms : List SqlMigration)
    → P x
    → All P ms
    → All P (insert_sorted id_of x ms)
unfolding insert_sorted
insert_sorted-All P x [] p h = (p, tt)
insert_sorted-All P x (m ∷ ms) p (q, h) =
    both_branches (All P) (before m.migration_id x.migration_id) (q, insert_sorted-All P x ms p h)
      (p, (q, h))

sort_by-All :
    (P : SqlMigration → Type 0) (ms : List SqlMigration) → All P ms → All P (sort_by id_of ms)
unfolding sort_by
sort_by-All P [] h = tt
sort_by-All P (m ∷ ms) (p, h) = insert_sorted-All P m (sort_by id_of ms) p (sort_by-All P ms h)

insert_sorted-Below :
    (id : Text) (x : SqlMigration) (ms : List SqlMigration)
    → Below id ms
    → before id x.migration_id ≡ true
    → Below id (insert_sorted id_of x ms)
unfolding insert_sorted
insert_sorted-Below id x [] h k = k
insert_sorted-Below id x (m ∷ ms) h k =
    both_branches (Below id) (before m.migration_id x.migration_id) h k

insert_sorted-Ascending :
    (x : SqlMigration) (ms : List SqlMigration)
    → Ascending ms
    → All (λ y. same x.migration_id y.migration_id ≡ false) ms
    → Ascending (insert_sorted id_of x ms)
unfolding insert_sorted
insert_sorted-Ascending x [] h k = (tt, tt)
insert_sorted-Ascending x (m ∷ ms) (below, h) (differs, k) =
    elim (Bool-cases (before m.migration_id x.migration_id)) [
      | inl less ↦
          subst (λ b. Ascending (if b then m ∷ insert_sorted id_of x ms else x ∷ m ∷ ms)) (sym less)
            (insert_sorted-Below m.migration_id x ms below less, insert_sorted-Ascending x ms h k)
      | inr not_less ↦
          subst (λ b. Ascending (if b then m ∷ insert_sorted id_of x ms else x ∷ m ∷ ms))
            (sym not_less) (before-same x.migration_id m.migration_id not_less differs, (below, h))
    ]

sort_by-Ascending : (ms : List SqlMigration) → Distinct ms → Ascending (sort_by id_of ms)
unfolding sort_by
sort_by-Ascending [] h = tt
sort_by-Ascending (m ∷ ms) (p, h) =
    insert_sorted-Ascending m (sort_by id_of ms) (sort_by-Ascending ms h)
      (sort_by-All (λ y. same m.migration_id y.migration_id ≡ false) ms p)

Distinct-append :
    (ms : List SqlMigration) (m : SqlMigration)
    → Distinct ms
    → any (λ seen. same seen.migration_id m.migration_id) ms ≡ false
    → Distinct (ms ++ m ∷ [])
Distinct-append [] m h k = (tt, tt)
Distinct-append (x ∷ ms) m (p, h) k =
    (All-append _ ms m p (ground (arith, k)), Distinct-append ms m h (ground (arith, k)))

add_loaded-Distinct :
    (ms : List SqlMigration) (o : Option (Result MigrationError SqlMigration))
    (next : List SqlMigration)
    → Distinct ms
    → add_loaded ms o ≡ ok next
    → Distinct next
unfolding add_loaded
add_loaded-Distinct ms none next h k = subst Distinct (ok-injective k) h
add_loaded-Distinct ms (some (err e)) next h k = ground (arith, k)
add_loaded-Distinct ms (some (ok m)) next h k =
    let duplicate = any (λ seen. same seen.migration_id m.migration_id) ms in
    elim (Bool-cases duplicate) [
      | inl known ↦ ground (arith, k, known)
      | inr unknown ↦
          let (_, added) =
            then-ok (reject_if duplicate (duplicate_id m.migration_id)) (ok (ms ++ m ∷ [])) k in
          subst Distinct (ok-injective added) (Distinct-append ms m h unknown)
    ]

load_entries-Distinct :
    (io : Codecs) (ms : List SqlMigration) (entries : List Entry) (loaded : List SqlMigration)
    → Distinct ms
    → load_entries io ms entries ≡ ok loaded
    → Distinct loaded
unfolding load_entries
load_entries-Distinct io ms [] loaded h k = subst Distinct (ok-injective k) h
load_entries-Distinct io ms (entry ∷ entries) loaded h k =
    let (next, added, rest) = >>=-eq-ok (add_loaded ms (load_entry io entry)) _ k in
    load_entries-Distinct io next entries loaded
      (add_loaded-Distinct ms (load_entry io entry) next h added) rest

-- The identifiers of the loaded migrations ascend, so that none stands twice.
pub load_sql_migrations-Ascending :
    (io : Codecs) (entries : List Entry) (loaded : List SqlMigration)
    → load_sql_migrations io entries ≡ ok loaded
    → Ascending loaded
unfolding load_sql_migrations
load_sql_migrations-Ascending io entries loaded h =
    let (found, loads, sorted) = >>=-eq-ok (load_entries io [] (sort_by name_of entries)) _ h in
    subst Ascending (ok-injective sorted) (
      sort_by-Ascending found
        (load_entries-Distinct io [] (sort_by name_of entries) found tt loads))
