-- ===== src/Domain/Evidence.antt =====
-- domain/evidence.py: exact evidence in a source version's text, and the selectors that locate it.
pub mod Matching
pub mod Selectors
pub mod Pointers
pub mod Resolve
pub mod Soundness
use codex_research_skill.Base.{
  ℕ, zero, suc, ◌+◌, ◌-◌, Bool, true, false, ◌&&◌, Option, none, some, List, [], ◌∷◌, length, leb,
  take, if◌then◌else◌, Result, ok, err, ◌>>=◌, ◌>>◌, reject_if, guard,
}
use codex_research_skill.Text.{
  Text, slice, same, starts_with, ends_with, find_text, split_lines, total_length,
}

-- The exceptions of the module; `bad_number` is the `ValueError` of `int`.
pub data EvidenceError : Type 0 where
  invalid_selector hash_mismatch unresolved ambiguous bad_number : EvidenceError

-- `text[:start].endswith(prefix)`, which holds where no prefix is given
prefix_matches : Text → ℕ → Option Text → Bool
prefix_matches text start none = true
prefix_matches text start (some prefix) = ends_with (take start text) prefix

-- `text[end:].startswith(suffix)`, which holds where no suffix is given
suffix_matches : Text → ℕ → Option Text → Bool
suffix_matches text end none = true
suffix_matches text end (some suffix) = starts_with (slice text end (length text)) suffix

unfoldable pub context_matches : Text → ℕ → ℕ → Option Text → Option Text → Bool
unfolding prefix_matches suffix_matches
context_matches text start end prefix suffix =
    prefix_matches text start prefix && suffix_matches text end suffix

-- `matches` of the source holds one match at most when a round begins.
abbrev pub finish : ℕ → Option ℕ → Result EvidenceError (ℕ × ℕ)
finish size none = err unresolved
finish size (some start) = ok (start, start + size)

-- What a second match does.
abbrev pub second : Option ℕ → Result EvidenceError (ℕ × ℕ) → Result EvidenceError (ℕ × ℕ)
second none rest = rest
second (some _) rest = err ambiguous

module _ (text exact : Text) (upper : ℕ) (prefix suffix : Option Text) where
  -- `while position <= upper - len(exact)`, a round for each unit of fuel
  unfoldable pub match_loop : ℕ → ℕ → Option ℕ → Result EvidenceError (ℕ × ℕ)
  match_loop zero position found = finish (length exact) found
  match_loop (suc fuel) position found = elim (leb (position + length exact) upper) [
    | false ↦ finish (length exact) found
    | true ↦ elim (find_text text exact position upper) [
      | none ↦ finish (length exact) found
      | some start ↦ elim (context_matches text start (start + length exact) prefix suffix) [
        | true ↦ second found (match_loop fuel (start + 1) (some start))
        | false ↦ match_loop fuel (start + 1) found
      ]
    ]
  ]

-- `_unique_text_match`
unfoldable pub unique_text_match :
    Text → Text → ℕ → ℕ → Option Text → Option Text → Option (ℕ × ℕ) → Result EvidenceError (ℕ × ℕ)
unique_text_match text exact lower upper prefix suffix (some (start, end)) =
    if leb lower start
      && leb end upper
      && leb start end
      && same (slice text start end) exact
      && context_matches text start end prefix suffix
    then ok (start, end)
    else err unresolved
unique_text_match text exact lower upper prefix suffix none =
    match_loop text exact upper prefix suffix (upper + 1) lower none
