-- ===== src/Retrieval/Relationships/Bounds.antt =====
-- What is related is bounded, stands once, has a score in range, and is none of the anchors.
use codex_research_skill.Base.{
  Metrics, ℕ, suc, ◌≤◌, ◌≡◌, refl, sym, ◌∙◌, true, false, not, ◌&&◌, Option, none, some, List, [],
  ◌∷◌, length, is_some, leb, All, String, str_eq, str_eq_iff, arith, Bool-cases, inl, inr,
  both_branches, subst, if◌then◌else◌,
}
use codex_research_skill.Retrieval.Relationships.{
  RelationshipMatch, Related, Reason, found, put, matched, add, add_rows, add_dual, Addition, rows,
  dual, add_all, additions, expand_one, expand_all, LexicalMatch,
}
use codex_research_skill.Retrieval.Records.{
  Tables, Kind, claim, report, evidence, source, source_version, question, other_kind,
}

abbrev pub InRange : RelationshipMatch → Type 0
InRange m = (55 ≤ m.score) × (m.score ≤ 80)

abbrev pub Once : Related → Type 0
Once [] = Unit
Once ((k, _) ∷ related) = (found related k ≡ none) × Once related

-- At most so many entries, one for each record, with scores between 0.55 and 0.80.
pub record IsRelated (most : ℕ) (related : Related) : Type 0 where
  pub bounded : length related ≤ most
  pub once : Once related
  pub in_range : All (λ e. InRange e.1) related

str_eq_join : (a b c : String) → str_eq a b ≡ true → str_eq a c ≡ true → str_eq b c ≡ true
str_eq_join a b c h k = (str_eq_iff b c).1 (sym ((str_eq_iff a b).0 h) ∙ (str_eq_iff a c).0 k)

str_eq_sym : (a b : String) → str_eq a b ≡ false → str_eq b a ≡ false
str_eq_sym a b h = elim (Bool-cases (str_eq b a)) [
  | inl equal ↦ ground (arith, h, (str_eq_iff a b).1 (sym ((str_eq_iff b a).0 equal)))
  | inr differ ↦ differ
]

put-length :
    (id : String) (m : RelationshipMatch) (related : Related)
    → length (put id m related)
      ≡ (elim (found related id) [ some _ ↦ length related | none ↦ suc (length related) ])
unfolding put found
put-length id m [] = refl
put-length id m ((k, old) ∷ related) = ground (arith, put-length id m related)

found-put :
    (id k : String) (m : RelationshipMatch) (related : Related)
    → str_eq id k ≡ false
    → found (put id m related) k ≡ found related k
unfolding put found
found-put id k m [] h = ground (arith, h)
found-put id k m ((j, old) ∷ related) h =
    ground (arith, h, found-put id k m related h, str_eq_join j id k)

put-Once :
    (id : String) (m : RelationshipMatch) (related : Related)
    → Once related
    → Once (put id m related)
unfolding put found
put-Once id m [] h = (refl, tt)
put-Once id m ((k, old) ∷ related) (p, h) = elim (Bool-cases (str_eq k id)) [
  | inl here ↦
      subst (λ b. Once (if b then (k, m) ∷ related else (k, old) ∷ put id m related)) (sym here)
        (p, h)
  | inr away ↦
      subst (λ b. Once (if b then (k, m) ∷ related else (k, old) ∷ put id m related)) (sym away)
        (found-put id k m related (str_eq_sym k id away) ∙ p, put-Once id m related h)
]

put-All :
    (id : String) (m : RelationshipMatch) (related : Related)
    → InRange m
    → All (λ e. InRange e.1) related
    → All (λ e. InRange e.1) (put id m related)
unfolding put
put-All id m [] p h = (p, tt)
put-All id m ((k, old) ∷ related) p (q, h) =
    both_branches (All (λ e. InRange e.1)) (str_eq k id) (p, h) (q, put-All id m related p h)

found-InRange :
    (related : Related) (id : String) (m : RelationshipMatch)
    → All (λ e. InRange e.1) related
    → found related id ≡ some m
    → InRange m
unfolding found
found-InRange [] id m h k = ground (arith, k)
found-InRange ((j, x) ∷ related) id m (p, h) k = elim (Bool-cases (str_eq j id)) [
  | inl here ↦ let same_match : x ≡ m = ground (arith, k, here) in subst InRange same_match p
  | inr away ↦ found-InRange related id m h (ground (arith, k, away))
]

larger-InRange :
    (a b : ℕ)
    → 55 ≤ a
    → a ≤ 80
    → b ≤ 80
    → (55 ≤ (if leb a b then b else a)) × ((if leb a b then b else a) ≤ 80)
larger-InRange a b low high other = ground (arith, low, high, other)

matched-InRange :
    (o : Option RelationshipMatch) (score : ℕ) (reason : Reason)
    → ((m : RelationshipMatch) → o ≡ some m → InRange m)
    → 55 ≤ score
    → score ≤ 80
    → InRange (matched o score reason)
unfolding matched
matched-InRange none score reason h low high = larger-InRange score 0 low high (omega arith)
matched-InRange (some m) score reason h low high =
    let (_, old) = h m refl in larger-InRange score m.score low high old

module _ (most : ℕ) where
  add-IsRelated :
      (related : Related) (id : String) (score : ℕ) (reason : Reason)
      → 55 ≤ score
      → score ≤ 80
      → IsRelated most related
      → IsRelated most (add most related id score reason)
  unfolding add
  add-IsRelated related id score reason low high h =
      let new = matched (found related id) score reason in
      let longer = put-length id new related in
      let within = h.bounded in
      let put-bounded : (not (is_some (found related id)) && leb most (length related)) ≡ false
          → length (put id new related) ≤ most =
        λ k. ground (arith, k, longer, within) in
      let put-IsRelated : (not (is_some (found related id)) && leb most (length related)) ≡ false
          → IsRelated most (put id new related) =
        λ k. record {
          bounded = put-bounded k;
          once = put-Once id new related h.once;
          in_range =
              put-All id new related
                (matched-InRange (found related id) score reason
                  (λ m. found-InRange related id m h.in_range) low high)
                h.in_range;
        } in
      elim (Bool-cases (not (is_some (found related id)) && leb most (length related))) [
        | inl full ↦
            subst (λ b. IsRelated most (if b then related else put id new related)) (sym full) h
        | inr room ↦
            subst (λ b. IsRelated most (if b then related else put id new related)) (sym room)
              (put-IsRelated room)
      ]

  add_rows-IsRelated :
      (related : Related) (ids : List String) (score : ℕ) (reason : Reason)
      → 55 ≤ score
      → score ≤ 80
      → IsRelated most related
      → IsRelated most (add_rows most related ids score reason)
  unfolding add_rows
  add_rows-IsRelated related [] score reason low high h = h
  add_rows-IsRelated related (id ∷ ids) score reason low high h =
      add_rows-IsRelated (add most related id score reason) ids score reason low high
        (add-IsRelated related id score reason low high h)

  add_dual-IsRelated :
      (related : Related) (pairs : List (String × String)) (score : ℕ) (reason : Reason)
      → 55 ≤ score
      → score ≤ 80
      → IsRelated most related
      → IsRelated most (add_dual most related pairs score reason)
  unfolding add_dual
  add_dual-IsRelated related [] score reason low high h = h
  add_dual-IsRelated related ((id, source_id) ∷ pairs) score reason low high h =
      let both = add most (add most related id score reason) source_id score reason in
      add_dual-IsRelated both pairs score reason low high (
        add-IsRelated _ source_id score reason low high
          (add-IsRelated related id score reason low high h))

  abbrev HasScore : Addition → Type 0
  HasScore (rows _ score _) = (leb 55 score && leb score 80) ≡ true
  HasScore (dual _ score _) = (leb 55 score && leb score 80) ≡ true

  add_all-IsRelated :
      (related : Related) (calls : List Addition)
      → All HasScore calls
      → IsRelated most related
      → IsRelated most (add_all most related calls)
  unfolding add_all
  add_all-IsRelated related [] r h = h
  add_all-IsRelated related (rows ids score reason ∷ calls) (r, rs) h =
      add_all-IsRelated (add_rows most related ids score reason) calls rs
        (add_rows-IsRelated related ids score reason (ground (arith, r)) (ground (arith, r)) h)
  add_all-IsRelated related (dual ids score reason ∷ calls) (r, rs) h =
      add_all-IsRelated (add_dual most related ids score reason) calls rs
        (add_dual-IsRelated related ids score reason (ground (arith, r)) (ground (arith, r)) h)

  additions-HasScore :
      (db : Tables) (id : String) (kind : Kind) → All HasScore (additions db id kind)
  unfolding additions
  additions-HasScore db id claim = (refl, (refl, (refl, tt)))
  additions-HasScore db id report = (refl, tt)
  additions-HasScore db id evidence = (refl, (refl, tt))
  additions-HasScore db id source = (refl, (refl, tt))
  additions-HasScore db id source_version = (refl, (refl, (refl, tt)))
  additions-HasScore db id question = (refl, (refl, (refl, tt)))
  additions-HasScore db id other_kind = tt

  module _ (m : Metrics) (db : Tables) where
    pub expand_all-IsRelated :
        (anchors : List (LexicalMatch m)) (related : Related)
        → IsRelated most related
        → IsRelated most (expand_all m db most anchors related)
    unfolding expand_all expand_one
    expand_all-IsRelated [] related h = h
    expand_all-IsRelated (anchor ∷ anchors) related h =
        both_branches (IsRelated most) (leb most (length related)) h (
          expand_all-IsRelated anchors (expand_one db anchor.id most anchor.kind related) (
            add_all-IsRelated related (additions db anchor.id anchor.kind)
              (additions-HasScore db anchor.id anchor.kind) h))
