-- ===== src/Retrieval/Relationships/Anchors.antt =====
-- The anchors are taken out of what is related, which stays bounded.
use codex_research_skill.Base.{
  Metrics, ℕ, ◌≤◌, ◌≡◌, refl, true, false, not, none, List, [], ◌∷◌, keep, length, All, String,
  str_eq, arith, keep-All,
}
use codex_research_skill.Retrieval.Relationships.{
  Related, found, LexicalMatch, without, strong_of, expand_relationships,
}
use codex_research_skill.Retrieval.Records.{Tables}
use codex_research_skill.Retrieval.Relationships.Bounds.{
  InRange, Once, IsRelated, expand_all-IsRelated,
}

module _ (most : ℕ) (m : Metrics) (db : Tables) where
  -- the removal of one record
  abbrev removed : String → Related → Related
  removed id related = keep (λ entry. not (str_eq entry.0 id)) related

  removed-length : (id : String) (related : Related) → length (removed id related) ≤ length related
  removed-length id [] = omega arith
  removed-length id (e ∷ related) = ground (arith, removed-length id related)

  removed-none :
      (id k : String) (related : Related)
      → found related k ≡ none
      → found (removed id related) k ≡ none
  unfolding found
  removed-none id k [] h = refl
  removed-none id k ((j, x) ∷ related) h = ground (arith, h, removed-none id k related)

  removed-itself : (id : String) (related : Related) → found (removed id related) id ≡ none
  unfolding found
  removed-itself id [] = refl
  removed-itself id ((j, x) ∷ related) = ground (arith, removed-itself id related)

  removed-Once : (id : String) (related : Related) → Once related → Once (removed id related)
  removed-Once id [] h = tt
  removed-Once id ((j, x) ∷ related) (p, h) =
      elim (not (str_eq j id))
        as (λ b.
          Once (elim b [ true ↦ (j, x) ∷ removed id related | false ↦ removed id related ])) [
            | true ↦ (removed-none id j related p, removed-Once id related h)
            | false ↦ removed-Once id related h
          ]

  removed-IsRelated :
      (id : String) (related : Related)
      → IsRelated most related
      → IsRelated most (removed id related)
  removed-IsRelated id related h = record {
    bounded = let within = h.bounded in omega (arith, within, removed-length id related);
    once = removed-Once id related h.once;
    in_range = keep-All (λ e. InRange e.1) (λ entry. not (str_eq entry.0 id)) related h.in_range;
  }

  without-none :
      (anchors : List (LexicalMatch m)) (k : String) (related : Related)
      → found related k ≡ none
      → found (without m anchors related) k ≡ none
  unfolding without
  without-none [] k related h = h
  without-none (a ∷ anchors) k related h =
      without-none anchors k (removed a.id related) (removed-none a.id k related h)

  without-IsRelated :
      (anchors : List (LexicalMatch m)) (related : Related)
      → IsRelated most related
      → IsRelated most (without m anchors related)
        × All (λ (a : LexicalMatch m). found (without m anchors related) a.id ≡ none) anchors
  unfolding without
  without-IsRelated [] related h = (h, tt)
  without-IsRelated (a ∷ anchors) related h =
      let (rest, absent) =
        without-IsRelated anchors (removed a.id related) (removed-IsRelated a.id related h) in
      (
        rest,
        (without-none anchors a.id (removed a.id related) (removed-itself a.id related), absent),
      )

  -- What is related to the best matches are at most so many records, each once and with a score between
  -- 0.55 and 0.80, and none of them is an anchor.
  pub expand_relationships-IsRelated :
      (max_anchors : ℕ) (anchors : List (LexicalMatch m))
      → IsRelated most (expand_relationships m db max_anchors most anchors)
        × All
            (λ (a : LexicalMatch m).
              found (expand_relationships m db max_anchors most anchors) a.id ≡ none)
            (strong_of m max_anchors anchors)
  unfolding expand_relationships
  expand_relationships-IsRelated max_anchors anchors =
      without-IsRelated (strong_of m max_anchors anchors) _ (
        expand_all-IsRelated most m db (strong_of m max_anchors anchors) []
          record { bounded = omega arith; once = tt; in_range = tt })
