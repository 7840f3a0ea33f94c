-- ===== src/Text.antt =====
-- The operations of Python's `str` that the program uses, on lists of code points.
pub mod Find
pub mod Lines
pub mod Spaces
pub mod Strips
pub mod Sorted
use codex_research_skill.Base.{
  ℕ, zero, suc, ◌+◌, ◌-◌, Bool, true, false, ◌&&◌, ◌||◌, Option, none, some, List, [], ◌∷◌, ◌++◌,
  length, take, drop, leb, ◌==◌, if◌then◌else◌, String,
}
use Prim.Native.Char.{code}

abbrev pub Text : Type 0
Text = List ℕ

-- The code points of a literal.
abbrev pub codes : String → Text
codes String.[] = []
codes (String.◌∷◌ c s) = code c ∷ codes s

-- `a == b`
unfoldable pub same : Text → Text → Bool
same [] [] = true
same (a ∷ s) (b ∷ t) = a == b && same s t
same _ _ = false

-- Whether the text is one of the literals.
abbrev pub one_of : Text → List String → Bool
one_of text [] = false
one_of text (s ∷ rest) = same text (codes s) || one_of text rest

-- `text[start:end]` for offsets that are not negative.
abbrev pub slice : Text → ℕ → ℕ → Text
slice text start end = take (end - start) (drop start text)

-- `text.startswith(part)`
unfoldable pub starts_with : Text → Text → Bool
unfolding same
starts_with text part = same (take (length part) text) part

-- `text.endswith(part)`
unfoldable pub ends_with : Text → Text → Bool
unfolding same
ends_with text part =
    leb (length part) (length text) && same (drop (length text - length part) text) part

-- Whether `exact` stands at `position`.
unfoldable pub stands_at : Text → Text → ℕ → Bool
unfolding same
stands_at text exact position = same (slice text position (position + length exact)) exact

-- The first of the next `n` positions at which `exact` stands.
unfoldable pub find_next : Text → Text → ℕ → ℕ → Option ℕ
find_next text exact zero position = none
find_next text exact (suc n) position =
    let rest = find_next text exact n (position + 1) in
    if stands_at text exact position then some position else rest

-- `text.find(exact, position, upper)`, with `none` for -1 and an `upper` within the text.
unfoldable pub find_text : Text → Text → ℕ → ℕ → Option ℕ
find_text text exact position upper =
    find_next text exact (upper + 1 - (position + length exact)) position

-- The code points at which `str.splitlines` ends a line; 13 and 10 together end one line.
unfoldable pub is_line_break : ℕ → Bool
is_line_break c =
    (leb 10 c && leb c 13) || (leb 28 c && leb c 30) || c == 133 || c == 8232 || c == 8233

-- `line` holds the current line so far.
unfoldable pub split_from : Text → Text → List Text
unfolding is_line_break
split_from [] [] = []
split_from (c ∷ line) [] = (c ∷ line) ∷ []
split_from line (c ∷ []) = (line ++ c ∷ []) ∷ []
split_from line (c ∷ d ∷ rest) =
    let pair = (line ++ c ∷ d ∷ []) ∷ split_from [] rest in
    let single = (line ++ c ∷ []) ∷ split_from [] (d ∷ rest) in
    let longer = split_from (line ++ c ∷ []) (d ∷ rest) in
    if c == 13 && d == 10 then pair else if is_line_break c then single else longer

-- `text.splitlines(keepends=True)`
unfoldable pub split_lines : Text → List Text
unfolding split_from
split_lines text = split_from [] text

-- `sum(len(line) for line in lines)`
unfoldable pub total_length : List Text → ℕ
total_length [] = 0
total_length (line ∷ lines) = length line + total_length lines
