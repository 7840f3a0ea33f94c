-- ===== src/Persistence/Namespaces.antt =====
-- What belongs to a namespace, by the rows of the tables, and what the lookups within a namespace find.
use codex_research_skill.Base.{
  ◌≡◌, ◌⊎◌, ap, ◌∙◌, inl, inr, Bool, true, ◌&&◌, some, List, [], ◌∷◌, find, any, is_some, String,
  str_eq, str_eq_iff, Option-cases, Bool-cases, arith,
}
use codex_research_skill.Persistence.Schema.{
  Claim, Source, SourceVersion, EvidenceSpan, Report, Database,
}
use codex_research_skill.Persistence.RefreshRepository.{
  Namespace, source_of, has_source, has_claim, find_report, version_source, find_evidence,
}
use codex_research_skill.Persistence.Entities.{Reviewable, get_reviewable_entity}

-- Some item of the list is so.
abbrev pub Exists : {A : Type 0} → (A → Type 0) → List A → Type 0
Exists P [] = ⊥
Exists P (x ∷ xs) = P x ⊎ Exists P xs

pub Exists-imply :
    {A : Type 0} {P Q : A → Type 0} (xs : List A)
    → ((x : A) → P x → Q x)
    → Exists P xs
    → Exists Q xs
Exists-imply [] f h = h
Exists-imply (x ∷ xs) f (inl p) = inl (f x p)
Exists-imply (x ∷ xs) f (inr h) = inr (Exists-imply xs f h)

any-Exists :
    {A : Type 0} (p : A → Bool) (xs : List A) → any p xs ≡ true → Exists (λ x. p x ≡ true) xs
any-Exists p [] h = ground (arith, h)
any-Exists p (x ∷ xs) h = elim (Bool-cases (p x)) [
  | inl here ↦ inl here
  | inr away ↦ inr (any-Exists p xs (ground (arith, h, away)))
]

pub find-Exists :
    {A : Type 0} (p : A → Bool) (xs : List A) (y : A)
    → find p xs ≡ some y
    → Exists (λ x. (x ≡ y) × (p x ≡ true)) xs
find-Exists p [] y h = ground (arith, h)
find-Exists p (x ∷ xs) y h = elim (Bool-cases (p x)) [
  | inl here ↦ inl (ground (arith, h, here), here)
  | inr away ↦ inr (find-Exists p xs y (ground (arith, h, away)))
]

-- The namespace has the source.
abbrev pub OwnsSource : Database → Namespace → String → Type 0
OwnsSource db ns id =
    Exists (λ (s : Source). (s.id ≡ id) × (s.namespace_kind ≡ ns.0) × (s.namespace_id ≡ ns.1))
      db.sources

-- The version is one of a source of the namespace.
abbrev pub OwnsVersion : Database → Namespace → String → Type 0
OwnsVersion db ns id =
    Exists (λ (v : SourceVersion). (v.id ≡ id) × OwnsSource db ns v.source_id) db.source_versions

-- The evidence is of such a version.
abbrev pub OwnsEvidence : Database → Namespace → String → Type 0
OwnsEvidence db ns id =
    Exists (λ (e : EvidenceSpan). (e.id ≡ id) × OwnsVersion db ns e.source_version_id)
      db.evidence_spans

abbrev pub OwnsClaim : Database → Namespace → String → Type 0
OwnsClaim db ns id =
    Exists (λ (c : Claim). (c.id ≡ id) × (c.namespace_kind ≡ ns.0) × (c.namespace_id ≡ ns.1))
      db.claims

abbrev pub OwnsReport : Database → Namespace → String → Type 0
OwnsReport db ns id =
    Exists (λ (r : Report). (r.id ≡ id) × (r.namespace_kind ≡ ns.0) × (r.namespace_id ≡ ns.1))
      db.reports

-- The entity of one of the five kinds belongs to the namespace.
pub data Owns (db : Database) (ns : Namespace) (kind id : String) : Type 0 where
  owns_source : kind ≡ "source" → OwnsSource db ns id → Owns db ns kind id
  owns_version : kind ≡ "source_version" → OwnsVersion db ns id → Owns db ns kind id
  owns_evidence : kind ≡ "evidence" → OwnsEvidence db ns id → Owns db ns kind id
  owns_claim : kind ≡ "claim" → OwnsClaim db ns id → Owns db ns kind id
  owns_report : kind ≡ "report" → OwnsReport db ns id → Owns db ns kind id

-- Three columns that are equal to what is looked for.
pub three_equal :
    (a b c x y z : String)
    → str_eq a x && str_eq b y && str_eq c z ≡ true
    → (a ≡ x) × (b ≡ y) × (c ≡ z)
three_equal a b c x y z h = ground (arith, h, str_eq_iff a x, str_eq_iff b y, str_eq_iff c z)

module _ (db : Database) where
  pub has_source-OwnsSource :
      (ns : Namespace) (id : String) → has_source db ns id ≡ true → OwnsSource db ns id
  unfolding has_source
  has_source-OwnsSource (kind, ns) id h =
      Exists-imply db.sources
        (λ (s : Source) p. three_equal s.id s.namespace_kind s.namespace_id id kind ns p)
        (any-Exists _ db.sources h)

  pub has_claim-OwnsClaim :
      (ns : Namespace) (id : String) → has_claim db ns id ≡ true → OwnsClaim db ns id
  unfolding has_claim
  has_claim-OwnsClaim (kind, ns) id h =
      Exists-imply db.claims
        (λ (c : Claim) p. three_equal c.id c.namespace_kind c.namespace_id id kind ns p)
        (any-Exists _ db.claims h)

  pub find_report-OwnsReport :
      (ns : Namespace) (id : String) (r : Report)
      → find_report db ns id ≡ some r
      → OwnsReport db ns id
  unfolding find_report
  find_report-OwnsReport (kind, ns) id r h =
      Exists-imply db.reports
        (λ (x : Report) p. three_equal x.id x.namespace_kind x.namespace_id id kind ns p.1)
        (find-Exists _ db.reports r h)

  pub version_source-OwnsVersion :
      (ns : Namespace) (id s : String) → version_source db ns id ≡ some s → OwnsVersion db ns id
  unfolding version_source source_of
  version_source-OwnsVersion ns id s h = elim (Option-cases (source_of db id)) [
    | inl out ↦ let bad : ⊥ = ground (arith, h, out) in elim bad [ ]
    | inr (v, e) ↦
        let owned : has_source db ns v.source_id ≡ true = ground (arith, h, e) in
        Exists-imply db.source_versions
          (λ (x : SourceVersion) p. (
            (str_eq_iff x.id id).0 p.1,
            has_source-OwnsSource ns x.source_id
                (ap (λ (y : SourceVersion). has_source db ns y.source_id) p.0 ∙ owned),
          ))
          (find-Exists _ db.source_versions v e)
  ]

  some_version :
      (ns : Namespace) (id : String)
      → is_some (version_source db ns id) ≡ true
      → OwnsVersion db ns id
  some_version ns id h = elim (Option-cases (version_source db ns id)) [
    | inl out ↦ let bad : ⊥ = ground (arith, h, out) in elim bad [ ]
    | inr (s, e) ↦ version_source-OwnsVersion ns id s e
  ]

  pub find_evidence-OwnsEvidence :
      (ns : Namespace) (id : String) (e : EvidenceSpan)
      → find_evidence db ns id ≡ some e
      → OwnsEvidence db ns id
  unfolding find_evidence
  find_evidence-OwnsEvidence ns id e h =
      elim (Option-cases (find (λ (x : EvidenceSpan). str_eq x.id id) db.evidence_spans)) [
        | inl out ↦ let bad : ⊥ = ground (arith, h, out) in elim bad [ ]
        | inr (x, is_found) ↦
            let owned : is_some (version_source db ns x.source_version_id) ≡ true =
              ground (arith, h, is_found) in
            Exists-imply db.evidence_spans
              (λ (y : EvidenceSpan) p. (
                (str_eq_iff y.id id).0 p.1,
                some_version ns y.source_version_id (
                    ap (λ (z : EvidenceSpan). is_some (version_source db ns z.source_version_id))
                      p.0
                    ∙ owned),
              ))
              (find-Exists _ db.evidence_spans x is_found)
      ]

  -- What is found for review belongs to the namespace.
  pub get_reviewable_entity-Owns :
      (kind id : String) (ns : Namespace) (found : Reviewable)
      → get_reviewable_entity kind id ns db ≡ some found
      → Owns db ns kind id
  unfolding get_reviewable_entity
  get_reviewable_entity-Owns kind id ns found h = elim (Bool-cases (str_eq kind "evidence")) [
    | inl a ↦ elim (Option-cases (find_evidence db ns id)) [
      | inl out ↦ let bad : ⊥ = ground (arith, h, a, out) in elim bad [ ]
      | inr (e, is_found) ↦
          owns_evidence ((str_eq_iff kind "evidence").0 a)
            (find_evidence-OwnsEvidence ns id e is_found)
    ]
    | inr b ↦ elim (Bool-cases (str_eq kind "source_version")) [
      | inl c ↦ elim (Option-cases (version_source db ns id)) [
        | inl out ↦ let bad : ⊥ = ground (arith, h, b, c, out) in elim bad [ ]
        | inr (s, is_found) ↦
            owns_version ((str_eq_iff kind "source_version").0 c)
              (version_source-OwnsVersion ns id s is_found)
      ]
      | inr d ↦ elim (Bool-cases (str_eq kind "report")) [
        | inl f ↦ elim (Option-cases (find_report db ns id)) [
          | inl out ↦ let bad : ⊥ = ground (arith, h, b, d, f, out) in elim bad [ ]
          | inr (r, is_found) ↦
              owns_report ((str_eq_iff kind "report").0 f) (find_report-OwnsReport ns id r is_found)
        ]
        | inr g ↦ let bad : ⊥ = ground (arith, h, b, d, g) in elim bad [ ]
      ]
    ]
  ]
