-- ===== src/Application/Review/Guards.antt =====
-- What a review that succeeds had to find in the store.
use codex_research_skill.Base.{
  ◌≡◌, ap, sym, ◌∙◌, true, false, ◌&&◌, Option, none, some, ok, String, str_eq, str_eq_iff, arith,
}
use codex_research_skill.Persistence.Schema.{Database, ReviewResult, RefreshItem}
use codex_research_skill.Persistence.Transaction.Runs.{
  bind-ok, then-ok, required, demanded, queried,
}
use codex_research_skill.Persistence.Mirrors.{is_id}
use codex_research_skill.Persistence.ReviewRepository.{ClaimRow, get_claim_for_revision}
use codex_research_skill.Persistence.RefreshRepository.{get_refresh_item}
use codex_research_skill.Persistence.Entities.{Reviewable, get_reviewable_entity}
use codex_research_skill.Persistence.Namespaces.{Exists, Owns, get_reviewable_entity-Owns}
use codex_research_skill.Persistence.Owners.{
  OwnsRow, get_claim_for_revision-OwnsRow, get_refresh_item-Owns,
}
use codex_research_skill.Application.Review.Revisions.{Stamp}
use codex_research_skill.Application.Review.Request.{
  ReviewRequest, Caller, kind_text, makes_revision,
}
use codex_research_skill.Application.Review.ClaimReview.{review_claim}
use codex_research_skill.Application.Review.EntityReview.{review_entity, dismiss_item}

-- The claim, at its current revision, that a decision was made for.
pub record Expected (r : ReviewRequest) (c : Caller) (d : Database) : Type 0 where
  pub row : ClaimRow
  pub found : get_claim_for_revision r.entity.id c.namespace.0 c.namespace.1 d ≡ some row
  pub owned : OwnsRow d c.namespace r.entity.id row
  pub is_current : row.claim.current_revision_id ≡ some r.entity.id
  pub same_revision : r.expected_revision_id ≡ some r.entity.id
  pub same_state : r.expected_state ≡ some row.review_state
  pub not_public : str_eq row.claim.visibility "public" && makes_revision r.action ≡ false

current_ids :
    (current : Option String) (entity expected : String)
    → is_id current expected && str_eq entity expected ≡ true
    → (current ≡ some entity) × (expected ≡ entity)
current_ids none entity expected h = ground (arith, h)
current_ids (some id) entity expected h =
    ground (arith, h, str_eq_iff id expected, str_eq_iff entity expected)

-- A review of a claim succeeds only if the reviewed revision is a stored one and the current one of its
-- claim, that claim is stored with the caller's namespace, the request expects this revision and the
-- review state that it has, and a public claim is given no new revision.
pub review_claim-Expected :
    (r : ReviewRequest) (c : Caller) (s : Stamp) (y : ReviewResult) (d e : Database)
    → review_claim r c s d ≡ ok (y, e)
    → Expected r c d
unfolding review_claim
review_claim-Expected r c s y d e k =
    let (expected_id, d₁, h₁, k₁) = bind-ok _ _ d e y k in
    let (is_expected_id, e₁) = demanded _ _ d d₁ expected_id h₁ in
    let (expected_state, d₂, h₂, k₂) = bind-ok _ _ d₁ e y k₁ in
    let (is_expected_state, e₂) = demanded _ _ d₁ d₂ expected_state h₂ in
    let (found, d₃, h₃, k₃) = bind-ok _ _ d₂ e y k₂ in
    let (is_found, e₃) = queried _ d₂ d₃ found h₃ in
    let (row, d₄, h₄, k₄) = bind-ok _ _ d₃ e y k₃ in
    let (is_row, e₄) = demanded _ _ d₃ d₄ row h₄ in
    let (d₅, h₅, k₅) = then-ok _ _ d₄ e y k₄ in
    let (ids, _) = required _ _ d₄ d₅ h₅ in
    let (d₆, h₆, k₆) = then-ok _ _ d₅ e y k₅ in
    let (states, _) = required _ _ d₅ d₆ h₆ in
    let (d₇, h₇, k₇) = then-ok _ _ d₆ e y k₆ in
    let (private, _) = required _ _ d₆ d₇ h₇ in
    let (current, same) = current_ids row.claim.current_revision_id r.entity.id expected_id ids in
    record {
      row = row;
      found =
          ap (get_claim_for_revision r.entity.id c.namespace.0 c.namespace.1) (sym (e₂ ∙ e₁))
          ∙ is_found
          ∙ is_row;
      owned = get_claim_for_revision-OwnsRow d r.entity.id c.namespace row (
          ap (get_claim_for_revision r.entity.id c.namespace.0 c.namespace.1) (sym (e₂ ∙ e₁))
          ∙ is_found
          ∙ is_row);
      is_current = current;
      same_revision = is_expected_id ∙ ap some same;
      same_state =
          is_expected_state ∙ ap some (sym ((str_eq_iff row.review_state expected_state).0 states));
      not_public = ground (arith, private);
    }

-- A review of evidence, of a source version or of a report succeeds only if the entity, or the stored
-- source that it comes from, is stored with the caller's namespace, and it has the review state that
-- the request expects.
pub review_entity-expected :
    (r : ReviewRequest) (c : Caller) (s : Stamp) (y : ReviewResult) (d e : Database)
    → review_entity r c s d ≡ ok (y, e)
    → (entity : Reviewable) × (get_reviewable_entity
          (kind_text r.entity.kind)
          r.entity.id
          c.namespace
          d
        ≡ some entity)
      × Owns d c.namespace (kind_text r.entity.kind) r.entity.id
      × (r.expected_state ≡ some entity.review_state)
unfolding review_entity
review_entity-expected r c s y d e k =
    let (expected_state, d₁, h₁, k₁) = bind-ok _ _ d e y k in
    let (is_expected_state, e₁) = demanded _ _ d d₁ expected_state h₁ in
    let (found, d₂, h₂, k₂) = bind-ok _ _ d₁ e y k₁ in
    let (is_found, e₂) = queried _ d₁ d₂ found h₂ in
    let (entity, d₃, h₃, k₃) = bind-ok _ _ d₂ e y k₂ in
    let (is_entity, e₃) = demanded _ _ d₂ d₃ entity h₃ in
    let (d₄, h₄, k₄) = then-ok _ _ d₃ e y k₃ in
    let (states, _) = required _ _ d₃ d₄ h₄ in
    let here =
      ap (get_reviewable_entity (kind_text r.entity.kind) r.entity.id c.namespace) (sym e₁)
      ∙ is_found
      ∙ is_entity in
    (
      entity,
      here,
      get_reviewable_entity-Owns d (kind_text r.entity.kind) r.entity.id c.namespace entity here,
      is_expected_state ∙ ap some (sym ((str_eq_iff entity.review_state expected_state).0 states)),
    )

-- A dismissal succeeds only if the item is in the queue, the entity that it is about, or the stored
-- source that this comes from, is stored with the caller's namespace, the item is pending, and the
-- request expects it to be.
pub dismiss_item-pending :
    (r : ReviewRequest) (c : Caller) (s : Stamp) (y : ReviewResult) (d e : Database)
    → dismiss_item r c s d ≡ ok (y, e)
    → (item : RefreshItem) × (get_refresh_item r.entity.id c.namespace d ≡ some item)
      × Exists (λ (q : RefreshItem). (q ≡ item) × (q.id ≡ r.entity.id)) d.refresh_queue
      × Owns d c.namespace item.entity_kind item.entity_id
      × (item.status ≡ "pending")
      × (r.expected_state ≡ some "pending")
unfolding dismiss_item
dismiss_item-pending r c s y d e k =
    let (expected_state, d₁, h₁, k₁) = bind-ok _ _ d e y k in
    let (is_expected_state, e₁) = demanded _ _ d d₁ expected_state h₁ in
    let (found, d₂, h₂, k₂) = bind-ok _ _ d₁ e y k₁ in
    let (is_found, e₂) = queried _ d₁ d₂ found h₂ in
    let (item, d₃, h₃, k₃) = bind-ok _ _ d₂ e y k₂ in
    let (is_item, e₃) = demanded _ _ d₂ d₃ item h₃ in
    let (d₄, h₄, k₄) = then-ok _ _ d₃ e y k₃ in
    let (states, _) = required _ _ d₃ d₄ h₄ in
    let (d₅, h₅, k₅) = then-ok _ _ d₄ e y k₄ in
    let (pending, _) = required _ _ d₄ d₅ h₅ in
    let is_pending : item.status ≡ "pending" = (str_eq_iff item.status "pending").0 pending in
    let here = ap (get_refresh_item r.entity.id c.namespace) (sym e₁) ∙ is_found ∙ is_item in
    let (queued, owned) = get_refresh_item-Owns d r.entity.id c.namespace item here in
    (
      item,
      here,
      queued,
      owned,
      is_pending,
      is_expected_state
          ∙ ap some (sym ((str_eq_iff item.status expected_state).0 states) ∙ is_pending),
    )
