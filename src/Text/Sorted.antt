-- ===== src/Text/Sorted.antt =====
-- `sorted` of items by a text that each has.
use codex_research_skill.Base.{List, [], ◌∷◌, if◌then◌else◌}
use codex_research_skill.Text.{Text}
use codex_research_skill.Text.Spaces.{before}

-- `sorted(items, key=…)`: an item goes before the first one that it is less than.
module _ {A : Type 0} (key : A → Text) where
  unfoldable pub insert_sorted : A → List A → List A
  unfolding before
  insert_sorted x [] = x ∷ []
  insert_sorted x (y ∷ ys) =
      let rest = insert_sorted x ys in if before (key y) (key x) then y ∷ rest else x ∷ y ∷ ys

  unfoldable pub sort_by : List A → List A
  unfolding insert_sorted
  sort_by [] = []
  sort_by (x ∷ xs) = insert_sorted x (sort_by xs)
