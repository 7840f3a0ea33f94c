-- ===== src/Text/Spaces.antt =====
-- Whitespace, `str.strip`, the order of texts, and texts put together again.
use codex_research_skill.Base.{
  ℕ, zero, suc, ◌≡◌, refl, ap, Bool, true, false, ◌&&◌, ◌||◌, List, [], ◌∷◌, ◌++◌, any, take, drop,
  leb, ltb, ◌==◌, if◌then◌else◌,
}
use codex_research_skill.Text.{Text}

-- `str.isspace` of one code point
unfoldable pub is_space : ℕ → Bool
is_space c =
    (leb 9 c && leb c 13)
    || (leb 28 c && leb c 32)
    || (leb 8192 c && leb c 8202)
    || any (λ d. c == d) (133 ∷ 160 ∷ 5760 ∷ 8232 ∷ 8233 ∷ 8239 ∷ 8287 ∷ 12288 ∷ [])

-- `text.lstrip()`
unfoldable pub strip_left : Text → Text
unfolding is_space
strip_left [] = []
strip_left (c ∷ text) = let rest = strip_left text in if is_space c then rest else c ∷ text

-- `text.rstrip()`
unfoldable pub strip_right : Text → Text
unfolding is_space
strip_right [] = []
strip_right (c ∷ text) = elim (strip_right text) [
  | [] ↦ if is_space c then [] else c ∷ []
  | d ∷ rest ↦ c ∷ d ∷ rest
]

-- `text.strip()`
unfoldable pub strip : Text → Text
unfolding strip_left strip_right
strip text = strip_right (strip_left text)

-- `a < b` of strings, which compares code points
unfoldable pub before : Text → Text → Bool
before _ [] = false
before [] (_ ∷ _) = true
before (a ∷ s) (b ∷ t) = let rest = before s t in ltb a b || (a == b && rest)

-- `separator.join(parts)`
unfoldable pub join_with : Text → List Text → Text
join_with separator [] = []
join_with separator (part ∷ []) = part
join_with separator (part ∷ next ∷ parts) =
    part ++ (separator ++ join_with separator (next ∷ parts))

pub take-drop : (n : ℕ) (text : Text) → take n text ++ drop n text ≡ text
take-drop zero text = refl
take-drop (suc n) [] = refl
take-drop (suc n) (c ∷ text) = ap (λ t. c ∷ t) (take-drop n text)
