-- ===== src/Persistence/Transaction.antt =====
-- persistence/unit_of_work.py: actions on the store that may raise, and the transaction around one.
pub mod Keeps
pub mod Runs
use codex_research_skill.Base.{Bool, Option, List, none, some, Result, ok, err, if◌then◌else◌}
use codex_research_skill.Domain.Claims.{ClaimError}
use codex_research_skill.Domain.Review.{ReviewRuleError}
use codex_research_skill.Persistence.Schema.{Claim, IdempotencyKey, RefreshItem, Database}

-- The exceptions of the review and refresh operations. `runtime_error` is a `RuntimeError` of the
-- repositories, `integrity_error` a violated constraint of the store, `assertion_error` an `assert`,
-- `validation_error` a result that its contract refuses.
pub data Failure : Type 0 where
  record_not_found idempotency_conflict expected_revision_mismatch expected_state_mismatch : Failure
  refresh_record_not_found result_limit invalid_refresh_transition database_integrity : Failure
  runtime_error integrity_error assertion_error : Failure
  misplaced_revision public_claim validation_error : Failure
  bad_review : ReviewRuleError → Failure
  bad_claim_review : ClaimError → Failure

abbrev pub Action : Type 0 → Type 0
Action A = Database → Result Failure (A × Database)

infixl 5 ◌>>=◌ ◌>>◌
unfoldable pub ◌>>=◌ : {A B : Type 0} → Action A → (A → Action B) → Action B
◌>>=◌ m f db = elim (m db) [ err e ↦ err e | ok (a, db') ↦ f a db' ]

unfoldable pub ◌>>◌ : {B : Type 0} → Action (Unit {0}) → Action B → Action B
unfolding ◌>>=◌
m >> k = m >>= λ _. k

unfoldable pub pure : {A : Type 0} → A → Action A
pure a db = ok (a, db)

unfoldable pub raise : {A : Type 0} → Failure → Action A
raise e db = err e

unfoldable pub query : {A : Type 0} → (Database → A) → Action A
query f db = ok (f db, db)

unfoldable pub change : (Database → Database) → Action (Unit {0})
change f db = ok (tt, f db)

-- the changes of one table
unfoldable pub write_claims : (List Claim → List Claim) → Action (Unit {0})
unfolding change
write_claims f = change (λ db. record db { claims = f db.claims })

unfoldable pub write_keys : (List IdempotencyKey → List IdempotencyKey) → Action (Unit {0})
unfolding change
write_keys f = change (λ db. record db { idempotency_keys = f db.idempotency_keys })

unfoldable pub write_queue : (List RefreshItem → List RefreshItem) → Action (Unit {0})
unfolding change
write_queue f = change (λ db. record db { refresh_queue = f db.refresh_queue })

-- `if not test: raise e`
unfoldable pub require : Bool → Failure → Action (Unit {0})
unfolding pure raise
require test e = if test then pure tt else raise e

-- `if row is None: raise e`
unfoldable pub demand : {A : Type 0} → Option A → Failure → Action A
unfolding pure raise
demand none e = raise e
demand (some a) e = pure a

-- a pure function that may raise
unfoldable pub lift : {E A : Type 0} → (E → Failure) → Result E A → Action A
unfolding pure raise
lift name (ok a) = pure a
lift name (err e) = raise (name e)

-- The outcome of an operation, and the store after it: `UnitOfWork` rolls back on an exception.
unfoldable pub in_transaction : {A : Type 0} → Action A → Database → Result Failure A × Database
in_transaction m db = elim (m db) [ ok (a, db') ↦ (ok a, db') | err e ↦ (err e, db) ]
