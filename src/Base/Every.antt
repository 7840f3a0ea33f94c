-- ===== src/Base/Every.antt =====
-- What holds of every item of a list, and of the items that a search or a test picks.
use Prim.Native.Nat.{ℕ, zero, suc, ◌≤◌}
use mathlib.Core.Path.{◌≡◌, refl, subst}
use mathlib.Core.Logic.{inl, inr}
use mathlib.Core.Bool.{Bool, true, false}
use mathlib.Core.List.{List, [], ◌∷◌, ◌++◌}
use mathlib.Core.Option.{some}
use native.Mathlib.Omega.{arith}
use codex_research_skill.Base.Lists.{All, find, keep, take, length}
use codex_research_skill.Base.Tests.{Bool-cases}

pub All-imply :
    {A : Type 0} {P Q : A → Type 0} (xs : List A) → ((x : A) → P x → Q x) → All P xs → All Q xs
All-imply [] f h = tt
All-imply (x ∷ xs) f (p, h) = (f x p, All-imply xs f h)

module _ {A : Type 0} where
  pub All-append : (P : A → Type 0) (xs : List A) (y : A) → All P xs → P y → All P (xs ++ y ∷ [])
  All-append P [] y h p = (p, tt)
  All-append P (x ∷ xs) y (h, hs) p = (h, All-append P xs y hs p)

  pub All-take : (P : A → Type 0) (n : ℕ) (xs : List A) → All P xs → All P (take n xs)
  All-take P zero xs h = tt
  All-take P (suc n) [] h = tt
  All-take P (suc n) (x ∷ xs) (h, hs) = (h, All-take P n xs hs)

  pub length-take_le : (n : ℕ) (xs : List A) → length (take n xs) ≤ n
  length-take_le zero xs = omega arith
  length-take_le (suc n) [] = omega arith
  length-take_le (suc n) (x ∷ xs) = omega (arith, length-take_le n xs)

  pub find-append :
      (p : A → Bool) (xs ys : List A) (x : A) → find p xs ≡ some x → find p (xs ++ ys) ≡ some x
  find-append p [] ys x h = absurd (ground (arith, h))
  find-append p (y ∷ xs) ys x h = ground (arith, h, find-append p xs ys x)

  -- The item that is found satisfies the test, and what all items satisfy.
  pub find-All :
      (P : A → Type 0) (p : A → Bool) (xs : List A) (x : A)
      → All P xs
      → find p xs ≡ some x
      → P x × (p x ≡ true)
  find-All P p [] x h e = absurd (ground (arith, e))
  find-All P p (y ∷ xs) x (h, hs) e = elim (Bool-cases (p y)) [
    | inl t ↦
        let same_item : y ≡ x = ground (arith, e, t) in
        (subst P same_item h, subst (λ z. p z ≡ true) same_item t)
    | inr f ↦ find-All P p xs x hs (ground (arith, e, f))
  ]

  kept :
      (P : A → Type 0) (b : Bool) (x : A) (rest : List A)
      → (b ≡ true → P x)
      → All P rest
      → (let out : List A = elim b [ true ↦ x ∷ rest | false ↦ rest ] in All P out)
  kept P true x rest h hs = (h refl, hs)
  kept P false x rest h hs = hs

  -- What the test shows holds of every item that is kept.
  pub All-keep :
      (P : A → Type 0) (p : A → Bool) (xs : List A)
      → ((x : A) → p x ≡ true → P x)
      → All P (keep p xs)
  All-keep P p [] h = tt
  All-keep P p (x ∷ xs) h = kept P (p x) x (keep p xs) (h x) (All-keep P p xs h)

  pub keep-none : (p : A → Bool) (xs : List A) → All (λ x. p x ≡ false) xs → length (keep p xs) ≡ 0
  keep-none p [] h = refl
  keep-none p (x ∷ xs) (h, hs) = ground (arith, h, keep-none p xs hs)
