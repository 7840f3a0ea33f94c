-- ===== src/Domain/Evidence/Resolve/Sound.antt =====
-- What a resolution of domain/evidence.py shows of the document.
use codex_research_skill.Base.{
  ℕ, ◌≡◌, Option, String, none, some, length, arith, Result, ok, ◌>>=◌, >>=-eq-ok,
}
use codex_research_skill.Text.{Text, slice}
use codex_research_skill.Text.Find.{same_iff}
use codex_research_skill.Domain.Evidence.{EvidenceError, unique_text_match}
use codex_research_skill.Domain.Evidence.Soundness.{unique_text_match_sound}
use codex_research_skill.Domain.Evidence.Selectors.{
  Selector, text_quote, line_range, git_line_range, page_range, char_range, json_pointer, dom_text,
  validate_selector,
}
use codex_research_skill.Domain.Evidence.Pointers.{Json, point_to}
use codex_research_skill.Domain.Evidence.Resolve.{
  line_bounds, require_text, EvidenceDocument, SourceVersionProvenance, EvidenceResolution, Python,
  span, selected_pages, dom_target, json_of, render, resolve_lines, resolve_page_range,
  resolve_dom_text, resolve_json_pointer, resolve_selector, both_offsets, validate_git_provenance,
  check_quote, check_exact, resolve_exact_evidence,
}

-- The offsets of the resolution hold the quote in the text.
abbrev pub Holds : EvidenceResolution → Text → Text → Type 0
Holds r text quote =
    (start : ℕ) × (end : ℕ) × (r.start ≡ some start)
    × (r.end ≡ some end)
    × (slice text start end ≡ quote)

-- The text that a selector is about, and the quote in it.
abbrev pub Shows : Python → EvidenceDocument → Selector → EvidenceResolution → Text → Type 0
Shows python d (json_pointer pointer _) r quote =
    (root : Json) × (value : Json) × (json_of python d ≡ ok root)
    × (point_to python.digits root pointer ≡ ok value)
    × (render python value ≡ quote)
Shows python d (page_range first last _ _ _) r quote =
    (text : Text) × (selected_pages d first last ≡ ok text) × Holds r text quote
Shows python d (dom_text css_selector _ _ _) r quote =
    (text : Text) × (dom_target d css_selector ≡ ok text) × Holds r text quote
Shows python d (text_quote _ _ _ _ _) r quote =
    (text : Text) × (d.text ≡ some text) × Holds r text quote
Shows python d (line_range _ _ _ _ _) r quote =
    (text : Text) × (d.text ≡ some text) × Holds r text quote
Shows python d (git_line_range _ _ _ _ _ _ _ _) r quote =
    (text : Text) × (d.text ≡ some text) × Holds r text quote
Shows python d (char_range _ _ _) r quote =
    (text : Text) × (d.text ≡ some text) × Holds r text quote

module _ (d : EvidenceDocument) (quote : Text) (r : EvidenceResolution) where
  -- A match in a text, and the resolution made from it.
  match-Holds :
      (text : Text) (lower upper : ℕ) (prefix suffix : Option Text) (expected : Option (ℕ × ℕ))
      (found : ℕ × ℕ)
      → unique_text_match text quote lower upper prefix suffix expected ≡ ok found
      → r.start ≡ some found.0
      → r.end ≡ some found.1
      → Holds r text quote
  match-Holds text lower upper prefix suffix expected (start, end) h at to = (
    start,
    end,
    at,
    to,
    (unique_text_match_sound text quote lower upper prefix suffix expected start end h).0.2,
  )

  text-Shows :
      (f : Text → Result EvidenceError EvidenceResolution)
      → ((text : Text) → f text ≡ ok r → Holds r text quote)
      → (require_text d >>= f) ≡ ok r
      → (text : Text) × (d.text ≡ some text) × Holds r text quote
  text-Shows f holds h =
      let (text, has_text, rest) = >>=-eq-ok (require_text d) f h in
      (text, unfold require_text in ground (arith, has_text), holds text rest)

  lines-Shows :
      (kind : String) (first last : ℕ) (prefix suffix : Option Text)
      → resolve_lines kind d first last prefix suffix quote ≡ ok r
      → (text : Text) × (d.text ≡ some text) × Holds r text quote
  lines-Shows kind first last prefix suffix h =
      text-Shows _ (λ text g. in_text text g) (unfold resolve_lines in h)
    where
      in_text :
          (text : Text)
          → (line_bounds text first last >>= λ bounds.
              unique_text_match text quote bounds.0 bounds.1 prefix suffix none >>= λ found.
              ok (record (span kind found) { start_line = some first; end_line = some last }))
            ≡ ok r
          → Holds r text quote
      in_text text g =
          let (bounds, _, g₁) = >>=-eq-ok (line_bounds text first last) _ g in
          let (found, matched, made) =
            >>=-eq-ok (unique_text_match text quote bounds.0 bounds.1 prefix suffix none) _ g₁ in
          match-Holds text _ _ _ _ _ found matched (ground (arith, made)) (ground (arith, made))

  pages-Shows :
      (first last : ℕ) (start end : Option ℕ)
      → resolve_page_range d first last start end quote ≡ ok r
      → (text : Text) × (selected_pages d first last ≡ ok text) × Holds r text quote
  unfolding resolve_page_range
  pages-Shows first last start end h =
      let (text, selected, h₁) = >>=-eq-ok (selected_pages d first last) _ h in
      let (expected, _, h₂) = >>=-eq-ok (both_offsets start end) _ h₁ in
      let (found, matched, made) =
        >>=-eq-ok (unique_text_match text quote 0 (length text) none none expected) _ h₂ in
      (
        text,
        selected,
        match-Holds text _ _ _ _ _ found matched (ground (arith, made)) (ground (arith, made)),
      )

  dom-Shows :
      (css_selector prefix suffix : Option Text)
      → resolve_dom_text d css_selector prefix suffix quote ≡ ok r
      → (text : Text) × (dom_target d css_selector ≡ ok text) × Holds r text quote
  unfolding resolve_dom_text
  dom-Shows css_selector prefix suffix h =
      let (text, target, h₁) = >>=-eq-ok (dom_target d css_selector) _ h in
      let (found, matched, made) =
        >>=-eq-ok (unique_text_match text quote 0 (length text) prefix suffix none) _ h₁ in
      (
        text,
        target,
        match-Holds text _ _ _ _ _ found matched (ground (arith, made)) (ground (arith, made)),
      )

  quote-Shows :
      (exact : Text) (prefix suffix : Option Text) (start end : Option ℕ) (python : Python)
      (provenance : Option SourceVersionProvenance)
      → resolve_selector python d (text_quote exact prefix suffix start end) quote provenance ≡ ok r
      → (text : Text) × (d.text ≡ some text) × Holds r text quote
  quote-Shows exact prefix suffix start end python provenance h =
      text-Shows _ (λ text g. in_text text g) (unfold resolve_selector in h)
    where
      in_text :
          (text : Text)
          → (both_offsets start end >>= λ expected.
              unique_text_match text quote 0 (length text) prefix suffix expected >>= λ found.
              ok (span "text_quote" found))
            ≡ ok r
          → Holds r text quote
      in_text text g =
          let (expected, _, g₁) = >>=-eq-ok (both_offsets start end) _ g in
          let (found, matched, made) =
            >>=-eq-ok (unique_text_match text quote 0 (length text) prefix suffix expected) _ g₁ in
          match-Holds text _ _ _ _ _ found matched (ground (arith, made)) (ground (arith, made))

  chars-Shows :
      (start end : ℕ) (exact : Text) (python : Python) (provenance : Option SourceVersionProvenance)
      → resolve_selector python d (char_range start end exact) quote provenance ≡ ok r
      → (text : Text) × (d.text ≡ some text) × Holds r text quote
  unfolding resolve_selector
  chars-Shows start end exact python provenance h =
      let (text, has_text, g) = >>=-eq-ok (require_text d) _ h in
      (
        text,
        unfold require_text in ground (arith, has_text),
        (
          start,
          end,
          ground (arith, g),
          ground (arith, g),
          ground (arith, g, same_iff (slice text start end) quote),
        ),
      )

  git-Shows :
      (path commit blob : Text) (first last : ℕ) (exact : Text) (prefix suffix : Option Text)
      (python : Python) (provenance : Option SourceVersionProvenance)
      → resolve_selector python d
          (git_line_range path commit blob first last exact prefix suffix)
          quote
          provenance
        ≡ ok r
      → (text : Text) × (d.text ≡ some text) × Holds r text quote
  unfolding resolve_selector
  git-Shows path commit blob first last exact prefix suffix python provenance h =
      let (_, _, h₁) = >>=-eq-ok (require_text d) _ h in
      let (_, _, h₂) = >>=-eq-ok (validate_git_provenance path commit blob provenance) _ h₁ in
      lines-Shows "git_line_range" first last prefix suffix h₂

  pointer-Shows :
      (python : Python) (pointer : Text)
      → resolve_json_pointer python d pointer quote ≡ ok r
      → (root : Json) × (value : Json) × (json_of python d ≡ ok root)
        × (point_to python.digits root pointer ≡ ok value)
        × (render python value ≡ quote)
  unfolding resolve_json_pointer
  pointer-Shows python pointer h =
      let (root, is_root, h₁) = >>=-eq-ok (json_of python d) _ h in
      let (value, points, h₂) = >>=-eq-ok (point_to python.digits root pointer) _ h₁ in
      (root, value, is_root, points, ground (arith, h₂, same_iff (render python value) quote))

resolve_selector-Shows :
    (python : Python) (d : EvidenceDocument) (selector : Selector) (quote : Text)
    (provenance : Option SourceVersionProvenance) (r : EvidenceResolution)
    → resolve_selector python d selector quote provenance ≡ ok r
    → Shows python d selector r quote
resolve_selector-Shows python d (json_pointer pointer exact) quote p r h =
    pointer-Shows d quote r python pointer (unfold resolve_selector in h)
resolve_selector-Shows python d (page_range first last exact start end) quote p r h =
    pages-Shows d quote r first last start end (unfold resolve_selector in h)
resolve_selector-Shows python d (dom_text css_selector exact prefix suffix) quote p r h =
    dom-Shows d quote r css_selector prefix suffix (unfold resolve_selector in h)
resolve_selector-Shows python d (char_range start end exact) quote p r h =
    chars-Shows d quote r start end exact python p h
resolve_selector-Shows python d (line_range first last exact prefix suffix) quote p r h =
    lines-Shows d quote r "line_range" first last prefix suffix (unfold resolve_selector in h)
resolve_selector-Shows python d (git_line_range path commit blob first last exact prefix suffix)
      quote p r h =
    git-Shows d quote r path commit blob first last exact prefix suffix python p h
resolve_selector-Shows python d (text_quote exact prefix suffix start end) quote p r h =
    quote-Shows d quote r exact prefix suffix start end python p h

-- Evidence that resolves is there: the offsets returned hold the quote in the text that the selector
-- is about, and a JSON pointer names a value that is rendered as the quote.
pub resolve_exact_evidence-Shows :
    (python : Python) (d : EvidenceDocument) (selector : Selector) (quote : Text)
    (quote_sha256 : Option Text) (provenance : Option SourceVersionProvenance)
    (r : EvidenceResolution)
    → resolve_exact_evidence python d selector quote quote_sha256 provenance ≡ ok r
    → Shows python d selector r quote
unfolding resolve_exact_evidence
resolve_exact_evidence-Shows python d selector quote quote_sha256 provenance r h =
    let (_, _, h₁) = >>=-eq-ok (check_quote python quote quote_sha256) _ h in
    let (closed, valid, h₂) = >>=-eq-ok (validate_selector selector) _ h₁ in
    let (_, _, h₃) = >>=-eq-ok (check_exact python closed quote) _ h₂ in
    let e : selector ≡ closed = unfold validate_selector in ground (arith, valid) in
    rw e (resolve_selector-Shows python d closed quote provenance r h₃)
