-- ===== src/Retrieval/Lexical/Search.antt =====
-- retrieval/lexical.py: `LexicalSearchAdapter.search`, over the rows of the table search_documents.
use codex_research_skill.Base.{
  ℕ, ◌+◌, Bool, true, false, ◌&&◌, ◌||◌, Option, none, some, List, [], ◌∷◌, ◌++◌, length, take,
  drop, keep, any, all, leb, ◌==◌, if◌then◌else◌, distinct, String, str_eq,
}
use Prim.Native.Nat.{◌*◌}
use codex_research_skill.Text.{Text, codes, same, starts_with}
use codex_research_skill.Text.Spaces.{is_space, strip, join_with}
use codex_research_skill.Text.Sorted.{sort_by}
use codex_research_skill.Ingestion.Blobs.{cut_slash}
use codex_research_skill.Retrieval.Lexical.{
  SearchDocument, Access, MatchReason, exact_reason, full_text, LexicalMatch, SearchEngine,
  opt_same, access_clause, runs, strip_marks, drop_prefix, Comparison, comparisons, max, contains,
  count, search_text, sort_matches, put_match, prior_match,
}

module _ (engine : SearchEngine) where
  -- `_normalize`
  unfoldable pub normalize : Text → Text
  unfolding runs join_with
  normalize value =
      join_with (codes " ")
        (runs (λ c. if is_space c then false else true) [] (engine.casefold value))

  -- `_query_terms`
  unfoldable pub query_terms : Text → List Text
  unfolding runs distinct same
  query_terms query = take 32 (distinct same (runs engine.is_word [] query))

  abbrev is_doi_parts : Option (Text × Text) → Bool
  is_doi_parts none = false
  is_doi_parts (some (left, right)) =
      starts_with left (codes "10.")
      && all engine.is_digit (drop 3 left)
      && leb 7 (length left)
      && leb (length left) 12
      && leb 1 (length right)
      && all (λ c. if is_space c then false else true) right

  abbrev doi_if : Bool → Text → Option Text
  doi_if true doi = some doi
  doi_if false doi = none

  -- `normalize_doi` of retrieval/projection.py
  unfoldable pub normalize_doi : Text → Option Text
  unfolding strip drop_prefix strip_marks cut_slash starts_with
  normalize_doi value =
      let folded = engine.casefold (strip value) in
      let doi =
        strip_marks (drop_prefix ("doi:" ∷ "https://doi.org/" ∷ "http://doi.org/" ∷ []) folded) in
      doi_if (is_doi_parts (cut_slash doi)) doi

  abbrev same_doi : String → Option Text → Text → Bool
  same_doi reason doi value =
      (str_eq reason "exact source locator" || str_eq reason "exact DOI")
      && opt_same doi (normalize_doi value)

  -- one round of the loop of `_exact_score`
  unfoldable pub compare_field : Text → Comparison → ℕ × List MatchReason → ℕ × List MatchReason
  unfolding normalize normalize_doi same
  compare_field query (none, points, reason) (score, reasons) = (score, reasons)
  compare_field query (some value, points, reason) (score, reasons) =
      if same (normalize value) query || same_doi reason (normalize_doi query) value
      then (max score points, reasons ++ exact_reason reason ∷ [])
      else (score, reasons)

  compare_fields : Text → List Comparison → ℕ × List MatchReason → ℕ × List MatchReason
  unfolding compare_field
  compare_fields query [] so_far = so_far
  compare_fields query (c ∷ rest) so_far = compare_fields query rest (compare_field query c so_far)

  -- `_exact_score`
  unfoldable pub exact_score : SearchDocument → Text → ℕ × List MatchReason
  unfolding compare_fields comparisons
  exact_score document query = compare_fields query (comparisons document) (0, [])

  -- `_lexical_score`, in hundredths of one part in as many as there are terms
  unfoldable pub lexical_score : SearchDocument → Text → ℕ × List MatchReason
  unfolding query_terms normalize contains search_text
  lexical_score document query =
      let terms = query_terms query in
      let haystack = normalize (search_text document) in
      let title = normalize document.title in
      let matched = count (contains haystack) terms in
      let title_matched = count (contains title) terms in
      let phrase = if contains haystack query then 10 * length terms else 0 in
      if leb 1 (length terms)
      then (65 * matched + (25 * title_matched + phrase), full_text matched (length terms) ∷ [])
      else (0, [])

  abbrev lowered_is : Option Text → Text → Bool
  lowered_is none text = false
  lowered_is (some value) text = same (engine.lower value) text

  abbrev doi_locators : Option Text → List Text
  doi_locators none = []
  doi_locators (some doi) =
      doi
      ∷ (codes "doi:" ++ doi)
      ∷ (codes "https://doi.org/" ++ doi)
      ∷ (codes "http://doi.org/" ++ doi)
      ∷ []

  abbrev has_doi : Option Text → Option Text → Bool
  has_doi none column = false
  has_doi (some doi) column = lowered_is column doi

  -- the conditions of `_exact_rows`
  unfoldable pub is_exact_row : Text → SearchDocument → Bool
  unfolding normalize_doi same
  is_exact_row query d =
      let doi = normalize_doi query in
      any (λ column. lowered_is column query)
        (some d.id
          ∷ d.path
          ∷ d.canonical_key
          ∷ d.dedupe_key
          ∷ d.topic_slug
          ∷ d.repository
          ∷ some d.title
          ∷ [])
      || any (λ locator. lowered_is d.locator locator) (query ∷ doi_locators doi)
      || has_doi doi d.doi

  -- `_exact_rows`
  unfoldable pub exact_rows : Text → Access → ℕ → List SearchDocument → List SearchDocument
  unfolding is_exact_row access_clause sort_by
  exact_rows query access limit table =
      take limit
        (keep (λ d. is_exact_row query d && access_clause access d) (sort_by (λ d. d.id) table))

  -- `_fts_rows` of both adapters
  unfoldable pub fts_rows : Text → Access → ℕ → List SearchDocument → List SearchDocument
  unfolding query_terms access_clause
  fts_rows query access limit table =
      let terms = query_terms query in
      if leb 1 (length terms)
      then take limit
          (keep (λ d. engine.matches terms d && access_clause access d) (engine.ranked terms table))
      else []

  -- the loop over the exact rows
  unfoldable pub add_exact : Text → List SearchDocument → List LexicalMatch → List LexicalMatch
  unfolding exact_score put_match
  add_exact query [] matches = matches
  add_exact query (d ∷ rows) matches =
      let scored = exact_score d query in
      let new : LexicalMatch = record {
        document = d;
        exact = scored.0;
        lexical = 0;
        matched_by = scored.1;
      } in
      add_exact query rows (if leb 1 scored.0 then put_match new matches else matches)

  same_reason : MatchReason → MatchReason → Bool
  same_reason (exact_reason a) (exact_reason b) = str_eq a b
  same_reason (full_text a n) (full_text b m) = a == b && n == m
  same_reason _ _ = false

  -- the match of a full-text row with the one that there is of its id
  unfoldable pub merged : SearchDocument → ℕ × List MatchReason → Option LexicalMatch → LexicalMatch
  unfolding distinct same_reason
  merged d (lexical, reasons) none = record {
    document = d;
    exact = 0;
    lexical = lexical;
    matched_by = reasons;
  }
  merged d (lexical, reasons) (some prior) = record {
    document = d;
    exact = prior.exact;
    lexical = max lexical prior.lexical;
    matched_by = distinct same_reason (prior.matched_by ++ reasons);
  }

  -- the loop over the full-text rows
  unfoldable pub add_full_text : Text → List SearchDocument → List LexicalMatch → List LexicalMatch
  unfolding lexical_score merged put_match prior_match
  add_full_text query [] matches = matches
  add_full_text query (d ∷ rows) matches =
      let scored = lexical_score d query in
      let new = merged d scored (prior_match d.id matches) in
      add_full_text query rows (if leb 1 scored.0 then put_match new matches else matches)

  -- `search`
  unfoldable pub search : Text → Access → ℕ → List SearchDocument → List LexicalMatch
  unfolding normalize exact_rows fts_rows add_exact add_full_text sort_matches
  search text access limit table =
      let query = normalize text in
      let exact = add_exact query (exact_rows query access limit table) [] in
      if leb 1 (length query)
      then take limit (sort_matches (add_full_text query (fts_rows query access limit table) exact))
      else []

-- `fetch`
unfoldable pub fetch : List Text → Access → List SearchDocument → List SearchDocument
unfolding same access_clause
fetch ids access table = keep (λ d. any (λ id. same id d.id) ids && access_clause access d) table
