-- ===== src/Retrieval/Lexical/Visible.antt =====
-- What a search returns may be seen by the one who asks.
use codex_research_skill.Base.{
  All-keep, All-take, length-take_le, ℕ, ◌+◌, ◌≤◌, ◌≡◌, ◌↔◌, ◌⊎◌, inl, inr, Bool, true, ◌&&◌,
  Option, none, some, List, [], ◌∷◌, All, keep, length, leb, leb→le, Bool-cases, and-true,
  both_branches, if◌then◌else◌, arith,
}
use codex_research_skill.Text.{Text, codes, same}
use codex_research_skill.Text.Find.{same_iff}
use codex_research_skill.Text.Sorted.{sort_by}
use codex_research_skill.Retrieval.Lexical.{
  SearchDocument, Access, MatchReason, LexicalMatch, SearchEngine, opt_same, access_clause,
  insert_match, sort_matches, put_match, prior_match, goes_first,
}
use codex_research_skill.Retrieval.Lexical.Search.{
  normalize, query_terms, exact_score, lexical_score, is_exact_row, exact_rows, fts_rows, add_exact,
  merged, add_full_text, search,
}

-- The document is in the namespace of the one who asks.
abbrev pub InNamespace : Access → SearchDocument → Type 0
InNamespace access d =
    (access.namespace_kind ≡ some d.namespace_kind) × (access.namespace_id ≡ some d.namespace_id)

-- Who asks with private records sees all of them when trusted or an administrator, and those of the own
-- namespace otherwise; a public document is seen when it is in the public index, and in its namespace.
abbrev pub IsVisible : Access → SearchDocument → Type 0
IsVisible access d =
    ((access.include_private ≡ true)
      × ((access.local_trusted ≡ true) ⊎ (access.is_admin ≡ true) ⊎ InNamespace access d))
    ⊎ ((d.visibility ≡ codes "public")
        × ((d.public_index_state ≡ codes "included") ⊎ InNamespace access d))

opt_same_iff : (a : Text) (o : Option Text) → (opt_same (some a) o ≡ true) ↔ (o ≡ some a)
opt_same_iff a none = ground arith
opt_same_iff a (some b) = ground (arith, same_iff a b)

pub access_clause_iff :
    (access : Access) (d : SearchDocument) → (access_clause access d ≡ true) ↔ IsVisible access d
unfolding access_clause
access_clause_iff access d = ground (
  arith,
  opt_same_iff d.namespace_kind access.namespace_kind,
  opt_same_iff d.namespace_id access.namespace_id,
  same_iff d.visibility (codes "public"),
  same_iff d.public_index_state (codes "included"),
)

-- A match that is visible and has some score.
abbrev pub IsFound : Access → LexicalMatch → Type 0
IsFound access m = IsVisible access m.document × (1 ≤ m.exact + m.lexical)

keep-IsVisible :
    (access : Access) (test : SearchDocument → Bool) (rows : List SearchDocument)
    → All (IsVisible access) (keep (λ d. test d && access_clause access d) rows)
keep-IsVisible access test rows =
    All-keep (IsVisible access) (λ d. test d && access_clause access d) rows
      (λ d e. (access_clause_iff access d).0 (and-true (test d) (access_clause access d) e).1)

module _ (P : LexicalMatch → Type 0) where
  put_match-All :
      (m : LexicalMatch) (matches : List LexicalMatch)
      → P m
      → All P matches
      → All P (put_match m matches)
  unfolding put_match
  put_match-All m [] h hs = (h, tt)
  put_match-All m (n ∷ rest) h (hn, hs) =
      both_branches (All P) (same n.document.id m.document.id) (h, hs)
        (hn, put_match-All m rest h hs)

  insert_match-All :
      (m : LexicalMatch) (matches : List LexicalMatch)
      → P m
      → All P matches
      → All P (insert_match m matches)
  unfolding insert_match
  insert_match-All m [] h hs = (h, tt)
  insert_match-All m (n ∷ rest) h (hn, hs) =
      both_branches (All P) (goes_first n m) (hn, insert_match-All m rest h hs) (h, (hn, hs))

  sort_matches-All : (matches : List LexicalMatch) → All P matches → All P (sort_matches matches)
  unfolding sort_matches
  sort_matches-All [] h = tt
  sort_matches-All (m ∷ rest) (h, hs) =
      insert_match-All m (sort_matches rest) h (sort_matches-All rest hs)

  when_positive :
      (score : ℕ) (m : LexicalMatch) (matches : List LexicalMatch)
      → (1 ≤ score → P m)
      → All P matches
      → All P (if leb 1 score then put_match m matches else matches)
  when_positive score m matches h hs = elim (Bool-cases (leb 1 score)) [
    | inl e ↦ rw e (put_match-All m matches (h (leb→le 1 score e)) hs)
    | inr e ↦ rw e hs
  ]

module _ (engine : SearchEngine) (access : Access) where
  add_exact-All :
      (query : Text) (rows : List SearchDocument) (matches : List LexicalMatch)
      → All (IsVisible access) rows
      → All (IsFound access) matches
      → All (IsFound access) (add_exact engine query rows matches)
  unfolding add_exact
  add_exact-All query [] matches h hs = hs
  add_exact-All query (d ∷ rows) matches (h, rest) hs =
      let scored = exact_score engine d query in
      add_exact-All query rows _ rest (
        when_positive (IsFound access) scored.0
          (record { document = d; exact = scored.0; lexical = 0; matched_by = scored.1 }) matches
          (λ positive. (h, omega (arith, positive))) hs)

  merged-IsFound :
      (d : SearchDocument) (scored : ℕ × List MatchReason) (prior : Option LexicalMatch)
      → IsVisible access d
      → 1 ≤ scored.0
      → IsFound access (merged engine d scored prior)
  unfolding merged
  merged-IsFound d (score, reasons) none h positive = (h, omega (arith, positive))
  merged-IsFound d (score, reasons) (some prior) h positive = (h, ground (arith, positive))

  add_full_text-All :
      (query : Text) (rows : List SearchDocument) (matches : List LexicalMatch)
      → All (IsVisible access) rows
      → All (IsFound access) matches
      → All (IsFound access) (add_full_text engine query rows matches)
  unfolding add_full_text
  add_full_text-All query [] matches h hs = hs
  add_full_text-All query (d ∷ rows) matches (h, rest) hs =
      let scored = lexical_score engine d query in
      add_full_text-All query rows _ rest (
        when_positive (IsFound access) scored.0 (merged engine d scored (prior_match d.id matches))
          matches (λ positive. merged-IsFound d scored (prior_match d.id matches) h positive) hs)

  exact_rows-All :
      (query : Text) (limit : ℕ) (table : List SearchDocument)
      → All (IsVisible access) (exact_rows engine query access limit table)
  unfolding exact_rows
  exact_rows-All query limit table =
      All-take (IsVisible access) limit _
        (keep-IsVisible access (is_exact_row engine query) (sort_by (λ d. d.id) table))

  fts_rows-All :
      (query : Text) (limit : ℕ) (table : List SearchDocument)
      → All (IsVisible access) (fts_rows engine query access limit table)
  unfolding fts_rows
  fts_rows-All query limit table =
      let terms = query_terms engine query in
      both_branches (All (IsVisible access)) (leb 1 (length terms))
        (All-take (IsVisible access) limit _
          (keep-IsVisible access (engine.matches terms) (engine.ranked terms table)))
        tt

  -- A search returns at most as many matches as asked for; each has some score, and its document may be
  -- seen by the one who asks: it is public and indexed or in the asker's namespace, or private records
  -- are asked for and it is in that namespace or the asker is trusted or an administrator.
  pub search-IsFound :
      (text : Text) (limit : ℕ) (table : List SearchDocument)
      → All (IsFound access) (search engine text access limit table)
        × (length (search engine text access limit table) ≤ limit)
  unfolding search
  search-IsFound text limit table =
      let query = normalize engine text in
      let exact =
        add_exact-All query (exact_rows engine query access limit table) []
          (exact_rows-All query limit table) tt in
      let found = sort_matches-All (IsFound access) _ (
        add_full_text-All query (fts_rows engine query access limit table) _
          (fts_rows-All query limit table) exact) in
      both_branches (λ ms. All (IsFound access) ms × (length ms ≤ limit)) (leb 1 (length query))
        (All-take (IsFound access) limit _ found, length-take_le limit _) (tt, omega arith)
