-- ===== src/Persistence/Transaction/Runs.antt =====
-- The steps of a run that succeeds.
use codex_research_skill.Base.{
  if◌then◌else◌, sym, ◌≡◌, refl, Bool, true, false, Option, none, some, Result, ok, err, arith,
}
use codex_research_skill.Persistence.Schema.{Database}
use codex_research_skill.Persistence.Transaction.{
  pure, raise, query, Failure, Action, ◌>>=◌, ◌>>◌, require, demand, in_transaction,
}

module _ {A : Type 0} where
  bind_result :
      {B : Type 0} (run : Result Failure (A × Database)) (f : A → Action B) (b : B) (e : Database)
      → (let next : Result Failure (B × Database) = elim run [
        | err x ↦ err x
        | ok (a, d') ↦ f a d'
      ] in
          next)
        ≡ ok (b, e)
      → (a : A) × (mid : Database) × (run ≡ ok (a, mid)) × (f a mid ≡ ok (b, e))
  bind_result (err x) f b e h = cc
  bind_result (ok (a, mid)) f b e h = (a, mid, refl, h)

  pub bind-ok :
      {B : Type 0} (m : Action A) (f : A → Action B) (d e : Database) (b : B)
      → (m >>= f) d ≡ ok (b, e)
      → (a : A) × (mid : Database) × (m d ≡ ok (a, mid)) × (f a mid ≡ ok (b, e))
  unfolding ◌>>=◌
  bind-ok m f d e b h = bind_result (m d) f b e h

  pub bind-run :
      {B : Type 0} (m : Action A) (f : A → Action B) (d mid : Database) (a : A)
      → m d ≡ ok (a, mid)
      → (m >>= f) d ≡ f a mid
  unfolding ◌>>=◌
  bind-run m f d mid a h = rw (◌>>=◌, h) refl

  pub in_transaction-ok :
      (m : Action A) (d e : Database) (a : A) → in_transaction m d ≡ (ok a, e) → m d ≡ ok (a, e)
  unfolding in_transaction
  in_transaction-ok m d e a h = ended (m d) h
    where
      ended :
          (run : Result Failure (A × Database))
          → (let out : Result Failure A × Database = elim run [
            | ok (a', d') ↦ (ok a', d')
            | err x ↦ (err x, d)
          ] in
              out)
            ≡ (ok a, e)
          → run ≡ ok (a, e)
      ended (ok (a', d')) k = ground (arith, k)
      ended (err x) k = ground (arith, k)

  pub ok-in_transaction :
      (m : Action A) (d e : Database) (a : A) → m d ≡ ok (a, e) → in_transaction m d ≡ (ok a, e)
  unfolding in_transaction
  ok-in_transaction m d e a h = ground (arith, h)

  pub err-in_transaction :
      (m : Action A) (d : Database) (x : Failure) → m d ≡ err x → in_transaction m d ≡ (err x, d)
  unfolding in_transaction
  err-in_transaction m d x h = ground (arith, h)

pub then-ok :
    {B : Type 0} (m : Action (Unit {0})) (k : Action B) (d e : Database) (b : B)
    → (m >> k) d ≡ ok (b, e)
    → (mid : Database) × (m d ≡ ok (tt, mid)) × (k mid ≡ ok (b, e))
unfolding ◌>>◌
then-ok m k d e b h =
    let (done, mid, first, last) = bind-ok m (λ _. k) d e b h in (mid, first, last)

pub then-run :
    {B : Type 0} (m : Action (Unit {0})) (k : Action B) (d mid : Database)
    → m d ≡ ok (tt, mid)
    → (m >> k) d ≡ k mid
unfolding ◌>>◌
then-run m k d mid h = bind-run m (λ _. k) d mid tt h

pub ended :
    {A : Type 0} (a b : A) (d e : Database)
    → ◌≡◌ {A = Result Failure (A × Database)} (ok (a, d)) (ok (b, e))
    → (a ≡ b) × (d ≡ e)
ended a b d e k = ground (arith, k)

pub required :
    (b : Bool) (f : Failure) (d e : Database) → require b f d ≡ ok (tt, e) → (b ≡ true) × (e ≡ d)
unfolding require pure raise
required b f d e k = ground (arith, k)

pub chosen :
    {A : Type 0} (b : Bool) (m n : Action A) (d : Database) {z : Result Failure (A × Database)}
    → b ≡ true
    → (if b then m else n) d ≡ z
    → m d ≡ z
chosen true m n d h k = k
chosen false m n d h k = cc

pub demanded :
    {A : Type 0} (o : Option A) (f : Failure) (d e : Database) (a : A)
    → demand o f d ≡ ok (a, e)
    → (o ≡ some a) × (e ≡ d)
unfolding demand pure raise
demanded none f d e a k = cc
demanded (some b) f d e a k = ground (arith, k)

pub queried :
    {A : Type 0} (f : Database → A) (d e : Database) (a : A)
    → query f d ≡ ok (a, e)
    → (f d ≡ a) × (e ≡ d)
unfolding query
queried f d e a k = let (is, same) = ended (f d) a d e k in (is, sym same)
