-- ===== src/Base/Distinct.antt =====
-- `list(dict.fromkeys(xs))`: the first of equal items stays, in order.
use mathlib.Core.Bool.{Bool, true, false}
use mathlib.Core.List.{List, [], ◌∷◌}
use codex_research_skill.Base.Lists.{keep}

module _ {ℓ} {A : Type ℓ} (same : A → A → Bool) where
  abbrev pub first_only : A → List A → List A
  first_only x rest = keep (λ y. elim (same x y) [ true ↦ false | false ↦ true ]) rest

  unfoldable pub distinct : List A → List A
  distinct [] = []
  distinct (x ∷ xs) = x ∷ first_only x (distinct xs)
