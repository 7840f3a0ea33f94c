-- ===== src/Domain/Evidence/Resolve.antt =====
-- `resolve_exact_evidence` of domain/evidence.py.
pub mod Sound
pub mod Bounds
pub mod Example
use codex_research_skill.Base.{
  ℕ, ◌-◌, Bool, false, ◌&&◌, Option, none, some, List, [], ◌∷◌, ◌++◌, length, take, drop, leb, ltb,
  ◌==◌, all, if◌then◌else◌, Result, ok, err, ◌>>=◌, ◌>>◌, guard, String,
}
use codex_research_skill.Text.{Text, slice, same, split_lines, total_length}
use codex_research_skill.Domain.Evidence.{
  EvidenceError, invalid_selector, hash_mismatch, unresolved, unique_text_match,
}
use codex_research_skill.Domain.Evidence.Selectors.{
  Selector, text_quote, line_range, git_line_range, page_range, char_range, json_pointer, dom_text,
  exact_of, validate_selector, is_hex,
}
use codex_research_skill.Domain.Evidence.Pointers.{Json, Digits, point_to}

pub record EvidenceDocument : Type 0 where
  pub text : Option Text
  pub pages : Option (List Text)
  pub json_value : Option Json
  pub dom_text : List (Text × Text)

pub record SourceVersionProvenance : Type 0 where
  pub path : Option Text
  pub commit_sha : Option Text
  pub blob_sha : Option Text

pub record EvidenceResolution : Type 0 where
  pub selector_type : String
  pub start : Option ℕ
  pub end : Option ℕ
  pub start_line : Option ℕ
  pub end_line : Option ℕ
  pub start_page : Option ℕ
  pub end_page : Option ℕ
  pub pointer : Option Text

-- A resolution that has offsets only.
abbrev pub span : String → ℕ × ℕ → EvidenceResolution
span kind (start, end) = record {
  selector_type = kind;
  start = some start;
  end = some end;
  start_line = none;
  end_line = none;
  start_page = none;
  end_page = none;
  pointer = none;
}

-- What the program takes from Python's library: `sha256(…).hexdigest()` of a text's UTF-8, `json`
-- (`none` where `json.loads` raises), and the digits of a pointer's array index.
pub record Python : Type 0 where
  pub hexdigest : Text → Text
  pub loads : Text → Option Json
  pub dumps : Json → Text
  pub digits : Digits

-- `validate_sha256` of ingestion/blobs.py
unfoldable pub is_sha256 : Text → Bool
is_sha256 value = length value == 64 && all is_hex value

-- `_require_text`
require_text : EvidenceDocument → Result EvidenceError Text
require_text document = elim document.text [ none ↦ err unresolved | some text ↦ ok text ]

-- `_line_bounds`
unfoldable pub line_bounds : Text → ℕ → ℕ → Result EvidenceError (ℕ × ℕ)
line_bounds text start_line end_line =
    let lines = split_lines text in
    if leb start_line (length lines) && leb end_line (length lines)
    then ok (total_length (take (start_line - 1) lines), total_length (take end_line lines))
    else err unresolved

-- an optional text that is given and is the one wanted
is_text : Option Text → Text → Bool
unfolding same
is_text none text = false
is_text (some given) text = same given text

-- `_validate_git_provenance`
validate_git_provenance :
    Text → Text → Text → Option SourceVersionProvenance → Result EvidenceError (Unit {0})
unfolding is_text
validate_git_provenance path commit_sha blob_sha none = err unresolved
validate_git_provenance path commit_sha blob_sha (some provenance) =
    guard
      (is_text provenance.path path
        && is_text provenance.commit_sha commit_sha
        && is_text provenance.blob_sha blob_sha)
      unresolved

-- Offsets are supplied together or not at all.
abbrev pub both_offsets : Option ℕ → Option ℕ → Result EvidenceError (Option (ℕ × ℕ))
both_offsets none none = ok none
both_offsets (some start) (some end) = ok (some (start, end))
both_offsets _ _ = err invalid_selector

-- `"\n".join(pages)`
join_pages : List Text → Text
join_pages [] = []
join_pages (page ∷ []) = page
join_pages (page ∷ next ∷ pages) = page ++ b'\n' ∷ join_pages (next ∷ pages)

-- The text on which a page range is resolved.
unfoldable pub selected_pages : EvidenceDocument → ℕ → ℕ → Result EvidenceError Text
unfolding join_pages
selected_pages document start_page end_page = elim document.pages [
  | none ↦ err unresolved
  | some pages ↦
      if ltb (length pages) end_page
      then err unresolved
      else ok (join_pages (take (end_page - (start_page - 1)) (drop (start_page - 1) pages)))
]

-- `_resolve_page_range`
resolve_page_range :
    EvidenceDocument → ℕ → ℕ → Option ℕ → Option ℕ → Text → Result EvidenceError EvidenceResolution
resolve_page_range document start_page end_page start end quote_text = do
  selected ← selected_pages document start_page end_page
  expected ← both_offsets start end
  found ← unique_text_match selected quote_text 0 (length selected) none none expected
  ok (record (span "page_range" found) { start_page = some start_page; end_page = some end_page })

-- `document.dom_text.get(css_selector)`
dom_get : Text → List (Text × Text) → Result EvidenceError Text
unfolding same
dom_get selector [] = err unresolved
dom_get selector ((k, v) ∷ rest) = if same k selector then ok v else dom_get selector rest

-- The text on which a DOM selector is resolved.
unfoldable pub dom_target : EvidenceDocument → Option Text → Result EvidenceError Text
unfolding dom_get require_text
dom_target document none = require_text document
dom_target document (some css_selector) = dom_get css_selector document.dom_text

-- `_resolve_dom_text`
resolve_dom_text :
    EvidenceDocument
    → Option Text
    → Option Text
    → Option Text
    → Text
    → Result EvidenceError EvidenceResolution
unfolding dom_target
resolve_dom_text document css_selector prefix suffix quote_text = do
  text ← dom_target document css_selector
  found ← unique_text_match text quote_text 0 (length text) prefix suffix none
  ok (span "dom_text" found)

-- The branch of a line range, and of a Git line range behind its provenance.
resolve_lines :
    String
    → EvidenceDocument
    → ℕ
    → ℕ
    → Option Text
    → Option Text
    → Text
    → Result EvidenceError EvidenceResolution
unfolding require_text
resolve_lines kind document start_line end_line prefix suffix quote_text = do
  text ← require_text document
  bounds ← line_bounds text start_line end_line
  found ← unique_text_match text quote_text bounds.0 bounds.1 prefix suffix none
  ok (record (span kind found) { start_line = some start_line; end_line = some end_line })

module _ (python : Python) where
  -- the value of a document: given, or parsed from its text
  unfoldable pub json_of : EvidenceDocument → Result EvidenceError Json
  unfolding require_text
  json_of document = elim document.json_value [
    | some value ↦ ok value
    | none ↦ do
      text ← require_text document
      elim (python.loads text) [ none ↦ err unresolved | some value ↦ ok value ]
  ]

  unfoldable pub render : Json → Text
  render (Json.text s) = s
  render value = python.dumps value

  -- `_resolve_json_pointer`
  resolve_json_pointer : EvidenceDocument → Text → Text → Result EvidenceError EvidenceResolution
  unfolding json_of render same
  resolve_json_pointer document pointer quote_text = do
    value ← json_of document
    current ← point_to python.digits value pointer
    guard (same (render current) quote_text) unresolved
    ok (record {
      selector_type = "json_pointer";
      start = none;
      end = none;
      start_line = none;
      end_line = none;
      start_page = none;
      end_page = none;
      pointer = some pointer;
    })

  -- the checks of the quote and its digest
  check_quote : Text → Option Text → Result EvidenceError (Unit {0})
  unfolding is_sha256 same
  check_quote quote_text quote_sha256 = do
    guard (leb 1 (length quote_text) && leb (length quote_text) 20_000) hash_mismatch
    elim quote_sha256 [
      | none ↦ ok tt
      | some digest ↦
          guard (is_sha256 digest && same (python.hexdigest quote_text) digest) hash_mismatch
    ]

  -- `exact is not None and exact != quote_text`
  check_exact : Selector → Text → Result EvidenceError (Unit {0})
  unfolding exact_of same
  check_exact selector quote_text = elim (exact_of selector) [
    | none ↦ ok tt
    | some exact ↦ guard (same exact quote_text) hash_mismatch
  ]

  -- the branches on the selector's type
  resolve_selector :
      EvidenceDocument
      → Selector
      → Text
      → Option SourceVersionProvenance
      → Result EvidenceError EvidenceResolution
  unfolding require_text resolve_lines resolve_page_range resolve_dom_text resolve_json_pointer
      validate_git_provenance same
  resolve_selector document (json_pointer pointer _) quote_text provenance =
      resolve_json_pointer document pointer quote_text
  resolve_selector document (page_range start_page end_page _ start end) quote_text provenance =
      resolve_page_range document start_page end_page start end quote_text
  resolve_selector document (dom_text css_selector _ prefix suffix) quote_text provenance =
      resolve_dom_text document css_selector prefix suffix quote_text
  resolve_selector document (char_range start end _) quote_text provenance = do
    text ← require_text document
    guard (same (slice text start end) quote_text) unresolved
    ok (span "char_range" (start, end))
  resolve_selector document (line_range start_line end_line _ prefix suffix) quote_text provenance =
      resolve_lines "line_range" document start_line end_line prefix suffix quote_text
  resolve_selector document (git_line_range path commit blob start_line end_line _ prefix suffix)
        quote_text provenance =
      do
        text ← require_text document
        validate_git_provenance path commit blob provenance
        resolve_lines "git_line_range" document start_line end_line prefix suffix quote_text
  resolve_selector document (text_quote _ prefix suffix start end) quote_text provenance = do
    text ← require_text document
    expected ← both_offsets start end
    found ← unique_text_match text quote_text 0 (length text) prefix suffix expected
    ok (span "text_quote" found)

  -- `resolve_exact_evidence`
  pub resolve_exact_evidence :
      EvidenceDocument
      → Selector
      → Text
      → Option Text
      → Option SourceVersionProvenance
      → Result EvidenceError EvidenceResolution
  unfolding check_quote check_exact resolve_selector
  resolve_exact_evidence document selector quote_text quote_sha256 provenance = do
    check_quote quote_text quote_sha256
    closed ← validate_selector selector
    check_exact closed quote_text
    resolve_selector document closed quote_text provenance
