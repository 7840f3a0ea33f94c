-- ===== src/Domain/Evidence/Selectors.antt =====
-- contracts/v2.py: the selectors of exact evidence, and what their closed models accept. A selector's
-- `deep_link`, which the resolution does not read, is left out.
use codex_research_skill.Base.{
  ℕ, Bool, true, ◌&&◌, ◌||◌, not, Option, none, some, List, [], ◌∷◌, ◌++◌, length, leb, ◌==◌, all,
  any, if◌then◌else◌, Result, ok, err,
}
use codex_research_skill.Text.{Text, codes, same, starts_with}
use codex_research_skill.Domain.Evidence.{EvidenceError, invalid_selector}

pub data Selector : Type 0 where
  text_quote : Text → Option Text → Option Text → Option ℕ → Option ℕ → Selector
  line_range : ℕ → ℕ → Text → Option Text → Option Text → Selector
  git_line_range : Text → Text → Text → ℕ → ℕ → Text → Option Text → Option Text → Selector
  page_range : ℕ → ℕ → Text → Option ℕ → Option ℕ → Selector
  char_range : ℕ → ℕ → Text → Selector
  json_pointer : Text → Option Text → Selector
  dom_text : Option Text → Text → Option Text → Option Text → Selector

-- `closed.get("exact")`
unfoldable pub exact_of : Selector → Option Text
exact_of (text_quote exact _ _ _ _) = some exact
exact_of (line_range _ _ exact _ _) = some exact
exact_of (git_line_range _ _ _ _ _ exact _ _) = some exact
exact_of (page_range _ _ exact _ _) = some exact
exact_of (char_range _ _ exact) = some exact
exact_of (json_pointer _ exact) = exact
exact_of (dom_text _ exact _ _) = some exact

-- `_validate_order`
in_order : Option ℕ → Option ℕ → Bool
in_order (some start) (some end) = leb start end
in_order _ _ = true

-- `min_length=1, max_length=20_000`
exact_fits : Text → Bool
exact_fits exact = leb 1 (length exact) && leb (length exact) 20_000

-- an optional text of at most so many code points
within : ℕ → Option Text → Bool
within most none = true
within most (some text) = leb (length text) most

-- `[0-9a-f]`
abbrev pub is_hex : ℕ → Bool
is_hex c = (leb b'0' c && leb c b'9') || (leb b'a' c && leb c b'f')

-- `^(?:[0-9a-f]{40}|[0-9a-f]{64})$`
unfoldable pub is_git_object_id : Text → Bool
is_git_object_id text = (length text == 40 || length text == 64) && all is_hex text

-- `text.split(sep)` for one code point
split_parts : ℕ → Text → Text → List Text
split_parts sep part [] = part ∷ []
split_parts sep part (c ∷ rest) =
    let cut = part ∷ split_parts sep [] rest in
    let longer = split_parts sep (part ++ c ∷ []) rest in if c == sep then cut else longer

unfoldable pub split_on : ℕ → Text → List Text
unfolding split_parts
split_on sep text = split_parts sep [] text

-- `validate_posix_path` of the Git selector
unfoldable pub is_posix_path : Text → Bool
unfolding same starts_with split_on
is_posix_path path =
    leb 1 (length path)
    && leb (length path) 4_096
    && not (starts_with path (codes "/"))
    && not (any (λ c. c == b'\\') path)
    && not (any (λ part. same part (codes "..")) (split_on b'/' path))

-- What the closed model of the selector's type accepts.
unfoldable pub is_closed : Selector → Bool
unfolding in_order exact_fits within is_posix_path is_git_object_id
is_closed (text_quote exact prefix suffix start end) =
    exact_fits exact && within 2_000 prefix && within 2_000 suffix && in_order start end
is_closed (line_range start_line end_line exact prefix suffix) =
    leb 1 start_line
    && leb 1 end_line
    && exact_fits exact
    && within 2_000 prefix
    && within 2_000 suffix
    && leb start_line end_line
is_closed (git_line_range path commit_sha blob_sha start_line end_line exact prefix suffix) =
    is_posix_path path
    && is_git_object_id commit_sha
    && is_git_object_id blob_sha
    && leb 1 start_line
    && leb 1 end_line
    && exact_fits exact
    && within 2_000 prefix
    && within 2_000 suffix
    && leb start_line end_line
is_closed (page_range start_page end_page exact start end) =
    leb 1 start_page
    && leb 1 end_page
    && exact_fits exact
    && leb start_page end_page
    && in_order start end
is_closed (char_range start end exact) = exact_fits exact && leb start end
is_closed (json_pointer pointer exact) =
    leb (length pointer) 4_096
    && within 20_000 exact
    && (length pointer == 0 || starts_with pointer (codes "/"))
is_closed (dom_text css_selector exact prefix suffix) =
    within 2_000 css_selector && exact_fits exact && within 2_000 prefix && within 2_000 suffix

-- `validate_selector`
unfoldable pub validate_selector : Selector → Result EvidenceError Selector
unfolding is_closed
validate_selector selector = if is_closed selector then ok selector else err invalid_selector
