-- ===== src/Migration/Runner/Refinement.antt =====
-- A valid history is a number of the packaged migrations, the first ones.
use mathlib.Core.List.{append-nil, map-append}
use codex_research_skill.Base.{
  ℕ, zero, suc, ◌+◌, ◌-◌, ◌≡◌, refl, sym, ap, ◌∙◌, Bool, true, false, none, some, List, [], ◌∷◌,
  ◌++◌, map, take, drop, All, ok, arith,
}
use codex_research_skill.Text.{Text}
use codex_research_skill.Migration.Packages.{SqlMigration}
use codex_research_skill.Migration.Runner.{History, entry_of, recorded, is_applied, check_rows}
use codex_research_skill.Migration.Runner.Plan.{pending_of}
use codex_research_skill.Migration.Runner.Histories.{
  or_else, recorded-same, recorded-append, check_rows-packaged, AllApplied, NoneApplied,
}

-- As a finite map, the history is that of the first `n` packaged migrations.
abbrev pub Represents : List SqlMigration → History → ℕ → Type 0
Represents packaged rows n =
    (id : Text) → recorded rows id ≡ recorded (map entry_of (take n packaged)) id

recorded-take :
    (ms : List SqlMigration) (n : ℕ) (id c : Text)
    → recorded (map entry_of (take n ms)) id ≡ some c
    → recorded (map entry_of ms) id ≡ some c
unfolding recorded
recorded-take ms zero id c h = cc
recorded-take [] (suc n) id c h = cc
recorded-take (m ∷ ms) (suc n) id c h = ground (arith, h, recorded-take ms n id c)

recorded-drop :
    (ms : List SqlMigration) (n : ℕ) (id : Text)
    → recorded (map entry_of (take n ms)) id ≡ none
    → recorded (map entry_of ms) id ≡ recorded (map entry_of (drop n ms)) id
unfolding recorded
recorded-drop ms zero id h = refl
recorded-drop [] (suc n) id h = refl
recorded-drop (m ∷ ms) (suc n) id h = ground (arith, h, recorded-drop ms n id)

-- An entry among migrations that are all applied, or all not, is or is not applied.
recorded-All :
    (rows : History) (ms : List SqlMigration) (b : Bool) (id c : Text)
    → All (λ m. is_applied rows m.migration_id ≡ b) ms
    → recorded (map entry_of ms) id ≡ some c
    → is_applied rows id ≡ b
unfolding recorded
recorded-All rows [] b id c h k = cc
recorded-All rows (m ∷ ms) b id c (here, rest) k =
    let same_entry = recorded-same rows m.migration_id id in
    ground (arith, k, same_entry, here, recorded-All rows ms b id c rest)

pub check-Represents :
    (ms : List SqlMigration) (rows : History) (n : ℕ)
    → check_rows (map entry_of ms) rows ≡ ok tt
    → AllApplied rows (take n ms)
    → NoneApplied rows (drop n ms)
    → Represents ms rows n
check-Represents ms rows n checked all_applied none_applied id =
    let packaged_entry = check_rows-packaged (map entry_of ms) rows checked id in
    let first_entry = recorded-take ms n id in
    let last_entry = recorded-drop ms n id in
    let applied_entry = λ (c : Text). recorded-All rows (take n ms) true id c all_applied in
    let pending_entry = λ (c : Text). recorded-All rows (drop n ms) false id c none_applied in
    grind (arith, packaged_entry, first_entry, last_entry, applied_entry, pending_entry)

drop-nil : (n : ℕ) → [] ≡ drop {A = SqlMigration} n []
drop-nil zero = refl
drop-nil (suc n) = refl

pub pending-drop :
    (rows : History) (n k : ℕ) (ms : List SqlMigration)
    → AllApplied rows (take n ms)
    → NoneApplied rows (drop n ms)
    → pending_of rows (take k ms) ≡ drop n (take k ms)
pending-drop rows n zero ms h h' = drop-nil n
pending-drop rows n (suc k) [] h h' = drop-nil n
pending-drop rows zero (suc k) (m ∷ ms) h (absent, h') =
    ground (arith, absent, pending-drop rows zero k ms tt h')
pending-drop rows (suc n) (suc k) (m ∷ ms) (here, h) h' =
    ground (arith, here, pending-drop rows n k ms h h')

pub take-larger :
    (n k m : ℕ) (ms : List SqlMigration)
    → m ≡ n + (k - n)
    → take n ms ++ drop n (take k ms) ≡ take m ms
take-larger zero k m ms h = ap (λ i. take i ms) (omega (arith, h))
take-larger (suc n) k zero ms h = let bad : ⊥ = omega (arith, h) in elim bad [ ]
take-larger (suc n) zero (suc m) [] h = refl
take-larger (suc n) (suc k) (suc m) [] h = refl
take-larger (suc n) zero (suc m) (x ∷ ms) h =
    ap (λ t. x ∷ t) (append-nil (take n ms) ∙ ap (λ i. take i ms) (omega (arith, h)))
take-larger (suc n) (suc k) (suc m) (x ∷ ms) h =
    ap (λ t. x ∷ t) (take-larger n k m ms (omega (arith, h)))

-- A history of `n` migrations and the pending ones up to the `k`-th are that of the larger number.
pub extend-Represents :
    (ms : List SqlMigration) (rows : History) (n k : ℕ) (id : Text)
    → Represents ms rows n
    → or_else (recorded rows id) (recorded (map entry_of (drop n (take k ms))) id)
      ≡ recorded (map entry_of (take (n + (k - n)) ms)) id
extend-Represents ms rows n k id h =
    ap (λ o. or_else o (recorded (map entry_of (drop n (take k ms))) id)) (h id)
    ∙ sym (recorded-append (map entry_of (take n ms)) (map entry_of (drop n (take k ms))) id)
    ∙ ap (λ t. recorded t id) (sym (map-append entry_of (take n ms) (drop n (take k ms))))
    ∙ ap (λ t. recorded (map entry_of t) id) (take-larger n k (n + (k - n)) ms refl)
