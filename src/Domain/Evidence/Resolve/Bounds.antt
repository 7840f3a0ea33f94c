-- ===== src/Domain/Evidence/Resolve/Bounds.antt =====
-- The bounds of a line range (`_line_bounds` of domain/evidence.py).
use codex_research_skill.Base.{ℕ, ◌+◌, ◌-◌, ◌≤◌, ◌≡◌, length, take, drop, arith, ok}
use codex_research_skill.Text.{Text, slice, split_lines}
use codex_research_skill.Text.Lines.{joined, slice-lines}
use codex_research_skill.Domain.Evidence.Resolve.{line_bounds}

-- The bounds of the lines `first` to `last` are offsets of the text, in order, between which stand
-- exactly these lines, and both lines exist.
pub line_bounds-slice :
    (text : Text) (first last lower upper : ℕ)
    → 1 ≤ first
    → first ≤ last
    → line_bounds text first last ≡ ok (lower, upper)
    → (slice text lower upper
        ≡ joined (take (last - (first - 1)) (drop (first - 1) (split_lines text))))
      × (lower ≤ upper)
      × (upper ≤ length text)
      × (last ≤ length (split_lines text))
unfolding line_bounds
line_bounds-slice text first last lower upper h₁ h₂ h =
    let start : ℕ = first - 1 in
    let count : ℕ = last - start in
    let e : start + count ≡ last = omega arith in
    let (stands, order, fits) = slice-lines start count text in
    ground (arith, e, stands, order, fits, h)
