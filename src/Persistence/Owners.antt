-- ===== src/Persistence/Owners.antt =====
-- The claim of a revision and the queue items that are found for a namespace belong to it.
use codex_research_skill.Base.{
  ◌≡◌, sym, ap, ◌∙◌, inl, inr, Bool, true, some, List, [], ◌∷◌, find, is_some, String, str_eq,
  str_eq_iff, Option-cases, Bool-cases, arith,
}
use codex_research_skill.Persistence.Schema.{Claim, ClaimRevision, RefreshItem, Database}
use codex_research_skill.Persistence.RefreshRepository.{
  Namespace, has_source, has_claim, find_report, version_source, find_evidence, refresh_root,
  get_refresh_item,
}
use codex_research_skill.Persistence.ReviewRepository.{
  ClaimRow, in_namespace, claim_join, get_claim_for_revision,
}
use codex_research_skill.Persistence.Namespaces.{
  Exists, Exists-imply, find-Exists, three_equal, Owns, owns_source, owns_version, owns_evidence,
  owns_claim, owns_report, has_source-OwnsSource, has_claim-OwnsClaim, find_report-OwnsReport,
  version_source-OwnsVersion, find_evidence-OwnsEvidence,
}

-- A row of the claims' table that is a claim of the namespace, and one of the revisions' table that is
-- the revision of it with the identifier.
pub record OwnsRow (db : Database) (ns : Namespace) (revision_id : String) (row : ClaimRow)
    : Type 0 where
  pub claim_stored : Exists (λ c. c ≡ row.claim) db.claims
  pub revision_stored : Exists (λ r. r ≡ row.revision) db.claim_revisions
  pub same_revision : row.revision.id ≡ revision_id
  pub same_claim : row.claim.id ≡ row.revision.claim_id
  pub same_kind : row.claim.namespace_kind ≡ ns.0
  pub same_namespace : row.claim.namespace_id ≡ ns.1

find_test : {A : Type 0} (p : A → Bool) (xs : List A) (y : A) → find p xs ≡ some y → p y ≡ true
find_test p [] y h = ground (arith, h)
find_test p (x ∷ xs) y h = elim (Bool-cases (p x)) [
  | inl here ↦ let same_item : x ≡ y = ground (arith, h, here) in ap p (sym same_item) ∙ here
  | inr away ↦ find_test p xs y (ground (arith, h, away))
]

module _ (db : Database) where
  refresh_root-Owns :
      (kind id : String) (ns : Namespace)
      → is_some (refresh_root kind id ns db) ≡ true
      → Owns db ns kind id
  unfolding refresh_root
  refresh_root-Owns kind id ns h = elim (Bool-cases (str_eq kind "source")) [
    | inl a ↦ elim (Bool-cases (has_source db ns id)) [
      | inl t ↦ owns_source ((str_eq_iff kind "source").0 a) (has_source-OwnsSource db ns id t)
      | inr f ↦ let bad : ⊥ = ground (arith, h, a, f) in elim bad [ ]
    ]
    | inr b ↦ elim (Bool-cases (str_eq kind "source_version")) [
      | inl c ↦ elim (Option-cases (version_source db ns id)) [
        | inl out ↦ let bad : ⊥ = ground (arith, h, b, c, out) in elim bad [ ]
        | inr (s, e) ↦
            owns_version ((str_eq_iff kind "source_version").0 c)
              (version_source-OwnsVersion db ns id s e)
      ]
      | inr d ↦ elim (Bool-cases (str_eq kind "evidence")) [
        | inl c ↦ elim (Option-cases (find_evidence db ns id)) [
          | inl out ↦ let bad : ⊥ = ground (arith, h, b, c, d, out) in elim bad [ ]
          | inr (s, e) ↦
              owns_evidence ((str_eq_iff kind "evidence").0 c)
                (find_evidence-OwnsEvidence db ns id s e)
        ]
        | inr f ↦ elim (Bool-cases (str_eq kind "claim")) [
          | inl c ↦ elim (Bool-cases (has_claim db ns id)) [
            | inl t ↦ owns_claim ((str_eq_iff kind "claim").0 c) (has_claim-OwnsClaim db ns id t)
            | inr g ↦ let bad : ⊥ = ground (arith, h, b, c, d, f, g) in elim bad [ ]
          ]
          | inr g ↦ elim (Bool-cases (str_eq kind "report")) [
            | inl c ↦ elim (Option-cases (find_report db ns id)) [
              | inl out ↦ let bad : ⊥ = ground (arith, h, b, c, d, f, g, out) in elim bad [ ]
              | inr (r, e) ↦
                  owns_report ((str_eq_iff kind "report").0 c) (find_report-OwnsReport db ns id r e)
            ]
            | inr j ↦ let bad : ⊥ = ground (arith, h, b, d, f, g, j) in elim bad [ ]
          ]
        ]
      ]
    ]
  ]

  -- The item that is found is a row of the queue, and its entity belongs to the namespace.
  pub get_refresh_item-Owns :
      (id : String) (ns : Namespace) (item : RefreshItem)
      → get_refresh_item id ns db ≡ some item
      → Exists (λ q. (q ≡ item) × (q.id ≡ id)) db.refresh_queue
        × Owns db ns item.entity_kind item.entity_id
  unfolding get_refresh_item
  get_refresh_item-Owns id ns item h =
      elim (Option-cases (find (λ (q : RefreshItem). str_eq q.id id) db.refresh_queue)) [
        | inl out ↦ let bad : ⊥ = ground (arith, h, out) in elim bad [ ]
        | inr (q, e) ↦ elim (Bool-cases (is_some (refresh_root q.entity_kind q.entity_id ns db))) [
          | inl owned ↦
              let same_item : q ≡ item = ground (arith, h, e, owned) in
              (
                Exists-imply db.refresh_queue
                    (λ (x : RefreshItem) p. (p.0 ∙ same_item, (str_eq_iff x.id id).0 p.1))
                    (find-Exists _ db.refresh_queue q e),
                refresh_root-Owns item.entity_kind item.entity_id ns (
                    ap (λ (x : RefreshItem). is_some (refresh_root x.entity_kind x.entity_id ns db))
                      (sym same_item)
                    ∙ owned),
              )
          | inr other ↦ let bad : ⊥ = ground (arith, h, e, other) in elim bad [ ]
        ]
      ]

  -- The claim that is found for a revision is one of the namespace.
  pub get_claim_for_revision-OwnsRow :
      (id : String) (ns : Namespace) (row : ClaimRow)
      → get_claim_for_revision id ns.0 ns.1 db ≡ some row
      → OwnsRow db ns id row
  unfolding get_claim_for_revision in_namespace claim_join
  get_claim_for_revision-OwnsRow id ns row h =
      elim (Option-cases (find (λ (r : ClaimRevision). str_eq r.id id) db.claim_revisions)) [
        | inl out ↦ let bad : ⊥ = ground (arith, h, out) in elim bad [ ]
        | inr (r, e) ↦ elim (Option-cases (find (in_namespace r.claim_id ns.0 ns.1) db.claims)) [
          | inl out ↦ let bad : ⊥ = ground (arith, h, e, out) in elim bad [ ]
          | inr (c, e') ↦
              let same_row : claim_join db c r ≡ row = ground (arith, h, e, e') in
              let (ids, kinds, names) =
                three_equal c.id c.namespace_kind c.namespace_id r.claim_id ns.0 ns.1
                  (find_test _ db.claims c e') in
              let same_c : c ≡ row.claim = ap (λ (x : ClaimRow). x.claim) same_row in
              let same_r : r ≡ row.revision = ap (λ (x : ClaimRow). x.revision) same_row in
              record {
                claim_stored =
                    Exists-imply db.claims (λ x p. p.0 ∙ same_c) (find-Exists _ db.claims c e');
                revision_stored =
                    Exists-imply db.claim_revisions (λ x p. p.0 ∙ same_r)
                      (find-Exists _ db.claim_revisions r e);
                same_revision =
                    ap (λ (x : ClaimRevision). x.id) (sym same_r)
                    ∙ (str_eq_iff r.id id).0 (find_test _ db.claim_revisions r e);
                same_claim =
                    ap (λ (x : ClaimRow). x.claim.id) (sym same_row)
                    ∙ ids
                    ∙ ap (λ (x : ClaimRevision). x.claim_id) same_r;
                same_kind = ap (λ (x : Claim). x.namespace_kind) (sym same_c) ∙ kinds;
                same_namespace = ap (λ (x : Claim). x.namespace_id) (sym same_c) ∙ names;
              }
        ]
      ]
