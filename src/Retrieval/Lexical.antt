-- ===== src/Retrieval/Lexical.antt =====
-- retrieval/lexical.py: the search for documents by their words, and who may see them.
pub mod Search
pub mod Visible
use codex_research_skill.Base.{
  ℕ, suc, ◌+◌, ◌-◌, Bool, true, false, not, ◌&&◌, ◌||◌, Option, none, some, List, [], ◌∷◌, ◌++◌,
  map, length, take, drop, keep, any, all, leb, ltb, ◌==◌, is_some, get_or, if◌then◌else◌, distinct,
  String,
}
use Prim.Native.Nat.{◌*◌}
use codex_research_skill.Text.{Text, codes, same, starts_with, stands_at, find_text}
use codex_research_skill.Text.Spaces.{is_space, strip, before, join_with}
use codex_research_skill.Text.Sorted.{sort_by}
use codex_research_skill.Ingestion.Blobs.{cut_slash}

-- `SearchDocument`: the columns that a search reads
pub record SearchDocument : Type 0 where
  pub id : Text
  pub kind : Text
  pub title : Text
  pub summary : Text
  pub body : Text
  pub locator : Option Text
  pub doi : Option Text
  pub repository : Option Text
  pub path : Option Text
  pub canonical_key : Option Text
  pub topic_slug : Option Text
  pub dedupe_key : Option Text
  pub updated_at : Option Text
  pub visibility : Text
  pub namespace_kind : Text
  pub namespace_id : Text
  pub public_index_state : Text

-- who asks
pub record Access : Type 0 where
  pub include_private : Bool
  pub local_trusted : Bool
  pub is_admin : Bool
  pub namespace_kind : Option Text
  pub namespace_id : Option Text

-- why a document matched: by a field, or by so many of the query's terms
pub data MatchReason : Type 0 where
  exact_reason : String → MatchReason
  full_text : ℕ → ℕ → MatchReason

-- `exact` is in hundredths, `lexical` in hundredths of one part in as many as the query has terms.
pub record LexicalMatch : Type 0 where
  pub document : SearchDocument
  pub exact : ℕ
  pub lexical : ℕ
  pub matched_by : List MatchReason

-- The Unicode functions, the database's `lower`, and its full-text engine: whether a document matches
-- some term, and the rows of the table in the order of their rank.
pub record SearchEngine : Type 0 where
  pub casefold : Text → Text
  pub lower : Text → Text
  pub is_word : ℕ → Bool
  pub is_digit : ℕ → Bool
  pub matches : List Text → SearchDocument → Bool
  pub ranked : List Text → List SearchDocument → List SearchDocument

abbrev pub opt_same : Option Text → Option Text → Bool
opt_same (some a) (some b) = same a b
opt_same _ _ = false

-- `_access_clause`, on a row
unfoldable pub access_clause : Access → SearchDocument → Bool
unfolding same
access_clause access d =
    let namespace = is_some access.namespace_kind && is_some access.namespace_id in
    let own =
      opt_same (some d.namespace_kind) access.namespace_kind
      && opt_same (some d.namespace_id) access.namespace_id in
    let public = same d.visibility (codes "public") in
    let included = same d.public_index_state (codes "included") in
    if access.include_private && (access.local_trusted || access.is_admin)
    then true
    else if access.include_private && namespace
    then own || (public && (included || own))
    else if namespace
    then public && (included || own)
    else public && included

-- the maximal runs that pass a test; `run` is the one that is open
unfoldable pub runs : (ℕ → Bool) → Text → Text → List Text
runs test run [] = if leb 1 (length run) then run ∷ [] else []
runs test run (c ∷ text) =
    let longer = runs test (run ++ c ∷ []) text in
    let closed = runs test [] text in
    if test c then longer else if leb 1 (length run) then run ∷ closed else closed

-- `text.rstrip(".,;")`
unfoldable pub strip_marks : Text → Text
strip_marks [] = []
strip_marks (c ∷ text) = elim (strip_marks text) [
  | [] ↦ if c == 46 || c == 44 || c == 59 then [] else c ∷ []
  | d ∷ rest ↦ c ∷ d ∷ rest
]

-- the text behind the first of the prefixes that it starts with
unfoldable pub drop_prefix : List String → Text → Text
unfolding starts_with
drop_prefix [] text = text
drop_prefix (prefix ∷ prefixes) text =
    let other = drop_prefix prefixes text in
    if starts_with text (codes prefix) then drop (length (codes prefix)) text else other

-- the score of a comparison, and the field that it compares
abbrev pub Comparison : Type 0
Comparison = Option Text × ℕ × String

abbrev only_if : Bool → Option Text → Option Text
only_if true value = value
only_if false value = none

-- the comparisons of `_exact_score`
unfoldable pub comparisons : SearchDocument → List Comparison
unfolding same
comparisons d =
    let is_source = same d.kind (codes "source") in
    let is_version = same d.kind (codes "source_version") in
    (some d.id, 100, "exact registry id")
    ∷ (only_if is_source d.locator, 100, "exact source locator")
    ∷ (only_if is_version d.locator, 99, "exact source-version locator")
    ∷ (only_if is_source d.doi, 100, "exact DOI")
    ∷ (only_if is_version d.path, 100, "exact repository path")
    ∷ (d.canonical_key, 98, "exact canonical key")
    ∷ (d.dedupe_key, 98, "exact dedupe key")
    ∷ (d.topic_slug, 95, "exact topic slug")
    ∷ (d.repository, 90, "exact repository scope")
    ∷ (some d.title, 95, "exact title phrase")
    ∷ []

-- `max(a, b)`
abbrev pub max : ℕ → ℕ → ℕ
max a b = if ltb a b then b else a

-- `part in text`
unfoldable pub contains : Text → Text → Bool
unfolding find_text
contains text part = is_some (find_text text part 0 (length text))

abbrev pub count : (Text → Bool) → List Text → ℕ
count test terms = length (keep test terms)

abbrev pub or_empty : Option Text → Text
or_empty none = []
or_empty (some text) = text

-- `SearchDocument.search_text`
unfoldable pub search_text : SearchDocument → Text
unfolding join_with
search_text d = join_with (codes " ") (
    keep (λ part. leb 1 (length part))
      (d.title
        ∷ d.summary
        ∷ d.body
        ∷ or_empty d.locator
        ∷ or_empty d.repository
        ∷ or_empty d.path
        ∷ or_empty d.canonical_key
        ∷ or_empty d.topic_slug
        ∷ or_empty d.dedupe_key
        ∷ []))

-- the order of two matches by exact score, lexical score, time and id
unfoldable pub goes_first : LexicalMatch → LexicalMatch → Bool
unfolding before
goes_first a b =
    let time = λ (m : LexicalMatch). or_empty m.document.updated_at in
    ltb b.exact a.exact
    || (a.exact == b.exact
        && (ltb b.lexical a.lexical
            || (a.lexical == b.lexical
                && (before (time b) (time a)
                    || (not (before (time a) (time b)) && before b.document.id a.document.id)))))

unfoldable pub insert_match : LexicalMatch → List LexicalMatch → List LexicalMatch
unfolding goes_first
insert_match m [] = m ∷ []
insert_match m (n ∷ rest) =
    let later = insert_match m rest in if goes_first n m then n ∷ later else m ∷ n ∷ rest

-- `sorted(matches.values(), key=…, reverse=True)`, of matches with different ids
unfoldable pub sort_matches : List LexicalMatch → List LexicalMatch
unfolding insert_match
sort_matches [] = []
sort_matches (m ∷ rest) = insert_match m (sort_matches rest)

-- `matches[document.id] = match`: an entry keeps its place
unfoldable pub put_match : LexicalMatch → List LexicalMatch → List LexicalMatch
unfolding same
put_match m [] = m ∷ []
put_match m (n ∷ rest) =
    let later = put_match m rest in if same n.document.id m.document.id then m ∷ rest else n ∷ later

-- `matches.get(id)`
unfoldable pub prior_match : Text → List LexicalMatch → Option LexicalMatch
unfolding same
prior_match id [] = none
prior_match id (n ∷ rest) =
    let later = prior_match id rest in
    elim (same n.document.id id) [ true ↦ some n | false ↦ later ]
