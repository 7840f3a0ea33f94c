-- ===== src/Persistence/Transaction/Keeps.antt =====
-- Relations between the store before and after an action, with one rule for each way to build one.
use codex_research_skill.Base.{
  Bool, true, false, Option, none, some, Result, ok, err, if◌then◌else◌,
}
use codex_research_skill.Persistence.Schema.{Database}
use codex_research_skill.Persistence.Transaction.{
  Failure, Action, ◌>>=◌, ◌>>◌, pure, raise, query, change, require, demand, lift,
}

pub record IsStable (R : Database → Database → Type 0) : Type 0 where
  pub same : (d : Database) → R d d
  pub step : (d e f : Database) → R d e → R e f → R d f

-- `R` relates a store to the one that a result holds, if it holds one.
abbrev pub After :
    {A : Type 0}
    → (Database → Database → Type 0)
    → Database
    → Result Failure (A × Database)
    → Type 0
After R d (ok (a, e)) = R d e
After R d (err f) = Unit

-- A successful run of `m` leaves a store that `R` relates to the one before.
pub record Keeps {A : Type 0} (R : Database → Database → Type 0) (m : Action A) : Type 0 where
  pub at : (d : Database) → After R d (m d)

module _ {R : Database → Database → Type 0} (stable : IsStable R) where
  pub Keeps-pure : {A : Type 0} (a : A) → Keeps R (pure a)
  unfolding pure
  Keeps-pure a = record { at = stable.same }

  pub Keeps-query : {A : Type 0} (f : Database → A) → Keeps R (query f)
  unfolding query
  Keeps-query f = record { at = stable.same }

  pub Keeps-require : (b : Bool) (f : Failure) → Keeps R (require b f)
  unfolding require
  Keeps-require true f = record { at = stable.same }
  Keeps-require false f = record { at = λ d. tt }

  pub Keeps-demand : {A : Type 0} (o : Option A) (f : Failure) → Keeps R (demand o f)
  unfolding demand
  Keeps-demand none f = record { at = λ d. tt }
  Keeps-demand (some a) f = record { at = stable.same }

  pub Keeps-lift : {E A : Type 0} (name : E → Failure) (r : Result E A) → Keeps R (lift name r)
  unfolding lift
  Keeps-lift name (ok a) = record { at = stable.same }
  Keeps-lift name (err e) = record { at = λ d. tt }

  After-step :
      {A B : Type 0} (f : A → Action B)
      → ((a : A) → Keeps R (f a))
      → (d : Database) (r : Result Failure (A × Database)) → After R d r
      → After R d (
          let next : Result Failure (B × Database) = elim r [
            | err e ↦ err e
            | ok (a, d') ↦ f a d'
          ] in
          next)
  After-step f kf d (err e) h = tt
  After-step f kf d (ok (a, e)) h = last (f a e) ((kf a).at e)
    where
      last : {B : Type 0} (r : Result Failure (B × Database)) → After R e r → After R d r
      last (ok (b, g)) k = stable.step d e g h k
      last (err x) k = tt

  pub Keeps-bind :
      {A B : Type 0} (m : Action A) (f : A → Action B)
      → Keeps R m
      → ((a : A) → Keeps R (f a))
      → Keeps R (m >>= f)
  unfolding ◌>>=◌
  Keeps-bind m f km kf = record { at = λ d. After-step f kf d (m d) (km.at d) }

  pub Keeps-then :
      {B : Type 0} (m : Action (Unit {0})) (k : Action B) → Keeps R m → Keeps R k → Keeps R (m >> k)
  unfolding ◌>>◌
  Keeps-then m k km kk = record { at = λ d. After-step (λ _. k) (λ _. kk) d (m d) (km.at d) }

module _ {R : Database → Database → Type 0} where
  pub Keeps-raise : {A : Type 0} (f : Failure) → Keeps R (raise {A = A} f)
  unfolding raise
  Keeps-raise f = record { at = λ d. tt }

  pub Keeps-change : (f : Database → Database) → ((d : Database) → R d (f d)) → Keeps R (change f)
  unfolding change
  Keeps-change f h = record { at = h }

  pub Keeps-if :
      {A : Type 0} (b : Bool) (m n : Action A)
      → Keeps R m
      → Keeps R n
      → Keeps R (if b then m else n)
  Keeps-if true m n km kn = km
  Keeps-if false m n km kn = kn

pub ruleset keeps_rules = (
  Keeps-pure, Keeps-query, Keeps-require, Keeps-demand, Keeps-lift, Keeps-raise, Keeps-bind,
  Keeps-then, Keeps-if,
)
