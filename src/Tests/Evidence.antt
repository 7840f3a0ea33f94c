-- ===== src/Tests/Evidence.antt =====
-- The theorems on exact evidence, at a small document.
use codex_research_skill.Base.{
  ℕ, ◌+◌, ◌≤◌, ◌≡◌, ◌⊎◌, refl, true, false, Option, none, some, length, take, drop, ok, arith,
}
use codex_research_skill.Text.{
  Text, codes, slice, split_lines, total_length, find_text, find_next, stands_at, ends_with,
}
use codex_research_skill.Text.Lines.{joined}
use codex_research_skill.Domain.Evidence.{unique_text_match, match_loop, context_matches}
use codex_research_skill.Domain.Evidence.Matching.{
  located, places, the_only, unique_text_match-places,
}
use codex_research_skill.Domain.Evidence.Soundness.{Shown, unique_text_match_sound}
use codex_research_skill.Domain.Evidence.Pointers.{unescape, has_bad_escape}
use codex_research_skill.Domain.Evidence.Pointers.Escapes.{escape, unescape-escape}
use codex_research_skill.Domain.Evidence.Resolve.{line_bounds}
use codex_research_skill.Domain.Evidence.Resolve.Bounds.{line_bounds-slice}

-- Two lines, in each of which the quote stands.
abbrev document_text : Text
document_text = codes "one fact\nthe fact"

abbrev quote : Text
quote = codes "fact"

unique_text_match-places_example :
    unique_text_match document_text quote 0 17 (some (codes "the ")) none none
    ≡ the_only 4 (places document_text quote 17 (some (codes "the ")) none 0)
unique_text_match-places_example =
    unique_text_match-places document_text quote 17 (some (codes "the ")) none 0

second_fact :
    unique_text_match document_text quote 0 17 (some (codes "the ")) none none ≡ ok (13, 17)
unfolding unique_text_match match_loop find_text find_next stands_at context_matches ends_with
second_fact = refl

unique_text_match_sound_example :
    Shown document_text quote 0 17 (some (codes "the ")) none 13 17
    × (◌≡◌ {A = Option (ℕ × ℕ)} none (some (13, 17))
        ⊎ ((i : ℕ)
            → 0 ≤ i
            → i + 4 ≤ 17
            → located document_text quote 17 (some (codes "the ")) none i ≡ true
            → i ≡ 13))
unique_text_match_sound_example =
    unique_text_match_sound document_text quote 0 17 (some (codes "the ")) none none 13 17
      second_fact

unescape-escape_example :
    (has_bad_escape (escape (codes "a/b~c")) ≡ false)
    × (unescape (escape (codes "a/b~c")) ≡ codes "a/b~c")
unescape-escape_example = unescape-escape (codes "a/b~c")

second_line : line_bounds document_text 2 2 ≡ ok (9, 17)
unfolding line_bounds split_lines total_length
second_line = refl

line_bounds-slice_example :
    (slice document_text 9 17 ≡ joined (take 1 (drop 1 (split_lines document_text))))
    × (9 ≤ 17)
    × (17 ≤ 17)
    × (2 ≤ length (split_lines document_text))
line_bounds-slice_example =
    line_bounds-slice document_text 2 2 9 17 (omega arith) (omega arith) second_line
