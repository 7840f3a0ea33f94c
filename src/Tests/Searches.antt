-- ===== src/Tests/Searches.antt =====
-- The theorem on searches, for a public document and a private one of another namespace.
use codex_research_skill.Base.{
  ◌≤◌, ◌≡◌, refl, true, false, not, none, some, List, [], ◌∷◌, All, map, length,
}
use codex_research_skill.Text.{Text, codes, same, starts_with, stands_at, find_next, find_text}
use codex_research_skill.Text.Spaces.{is_space, before}
use codex_research_skill.Retrieval.Lexical.{SearchDocument, Access, SearchEngine, goes_first}
use codex_research_skill.Retrieval.Lexical.Search.{search}
use codex_research_skill.Retrieval.Lexical.Visible.{IsFound, search-IsFound}

abbrev engine : SearchEngine
engine = record {
  casefold = λ text. text;
  lower = λ text. text;
  is_word = λ c. not (is_space c);
  is_digit = λ c. false;
  matches = λ terms d. true;
  ranked = λ terms table. table;
}

abbrev guest : Access
guest = record {
  include_private = false;
  local_trusted = false;
  is_admin = false;
  namespace_kind = some (codes "user");
  namespace_id = some (codes "a");
}

abbrev document : Text → Text → Text → SearchDocument
document id owner visibility = record {
  id = id;
  kind = codes "claim";
  title = codes "heat pumps";
  summary = [];
  body = [];
  locator = none;
  doi = none;
  repository = none;
  path = none;
  canonical_key = none;
  topic_slug = none;
  dedupe_key = none;
  updated_at = none;
  visibility = visibility;
  namespace_kind = codes "user";
  namespace_id = owner;
  public_index_state = codes "included";
}

abbrev table : List SearchDocument
table =
    document (codes "d1") (codes "b") (codes "private")
    ∷ document (codes "d2") (codes "b") (codes "public")
    ∷ document (codes "d3") (codes "a") (codes "public")
    ∷ []

found_ids :
    map (λ m. m.document.id) (search engine (codes "heat  pumps") guest 5 table)
    ≡ codes "d3" ∷ codes "d2" ∷ []
unfolding search same starts_with stands_at find_next find_text is_space before goes_first
found_ids = refl

search-IsFound_example :
    All (IsFound guest) (search engine (codes "heat  pumps") guest 5 table)
    × (length (search engine (codes "heat  pumps") guest 5 table) ≤ 5)
search-IsFound_example = search-IsFound engine guest (codes "heat  pumps") 5 table
