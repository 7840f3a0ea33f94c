-- ===== src/Persistence/Numbers.antt =====
-- The numbers of a claim's revisions (`next_claim_revision_number` of persistence/repositories.py).
use mathlib.Core.List.{Memᴰ}
use mathlib.Core.List.Memᴰ
use codex_research_skill.Base.{
  subst, sym, ℕ, ◌≤◌, ◌<◌, ◌≡◌, inl, inr, true, List, [], ◌∷◌, keep, str_eq, String, str_eq_iff,
  arith,
}
use codex_research_skill.Persistence.Schema.{ClaimRevision, Database}
use codex_research_skill.Persistence.ReviewRepository.{max_number, next_claim_revision_number}

module _ (id : String) where
  abbrev most : List ClaimRevision → ℕ
  most rows = max_number (keep (λ (r : ClaimRevision). str_eq r.claim_id id) rows)

  most-cons : (r : ClaimRevision) (rows : List ClaimRevision) → most rows ≤ most (r ∷ rows)
  most-cons r rows = ground arith

  most-head :
      (r : ClaimRevision) (rows : List ClaimRevision)
      → str_eq r.claim_id id ≡ true
      → r.revision_number ≤ most (r ∷ rows)
  most-head r rows h = ground (arith, h)

  most-member :
      (r : ClaimRevision) (rows : List ClaimRevision)
      → Memᴰ r rows
      → str_eq r.claim_id id ≡ true
      → r.revision_number ≤ most rows
  most-member r [] m h = elim (Memᴰ.not-nil m) [ ]
  most-member r (x ∷ rows) m h = elim (Memᴰ.cases_cons m) [
    | inl e ↦
        subst (λ t. t.revision_number ≤ most (x ∷ rows)) (sym e)
          (most-head x rows (subst (λ t. str_eq t.claim_id id ≡ true) e h))
    | inr rest ↦ omega (arith, most-member r rows rest h, most-cons x rows)
  ]

  -- The number of a new revision is above that of every revision the claim has.
  pub next_claim_revision_number-above :
      (r : ClaimRevision) (d : Database)
      → Memᴰ r d.claim_revisions
      → r.claim_id ≡ id
      → r.revision_number < next_claim_revision_number id d
  unfolding next_claim_revision_number
  next_claim_revision_number-above r d m h =
      omega (arith, most-member r d.claim_revisions m ((str_eq_iff r.claim_id id).1 h))
