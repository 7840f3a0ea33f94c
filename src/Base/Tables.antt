-- ===== src/Base/Tables.antt =====
-- Tables as lists of rows: how many rows pass a test, and an update of those.
use Prim.Native.Nat.{ℕ, suc}
use mathlib.Core.Path.{◌≡◌}
use mathlib.Core.Bool.{Bool}
use mathlib.Core.List.{List, [], ◌∷◌, ◌++◌}
use codex_research_skill.Base.Tests.{if◌then◌else◌}

module _ {ℓ} {A : Type ℓ} where
  -- `cursor.rowcount` of an update
  abbrev pub row_count : (A → Bool) → List A → ℕ
  row_count p [] = 0
  row_count p (x ∷ xs) = let rest = row_count p xs in if p x then suc rest else rest

  -- `UPDATE … SET f WHERE p`
  abbrev pub update : (A → Bool) → (A → A) → List A → List A
  update p f [] = []
  update p f (x ∷ xs) = (if p x then f x else x) ∷ update p f xs

  -- `xs` is `ys` with rows put before them.
  abbrev pub Extends : List A → List A → Type ℓ
  Extends xs ys = (new : List A) × (xs ≡ new ++ ys)
