-- ===== src/Persistence/Growth.antt =====
-- The history of the store only grows: revisions, cited evidence and events are never changed or
-- removed by the repository's operations.
use mathlib.Core.List.{append_assoc}
use codex_research_skill.Base.{◌≡◌, refl, ◌∙◌, ap, sym, List, [], ◌∷◌, ◌++◌, String, Extends, arith}
use codex_research_skill.Persistence.Schema.{Database, Response, IdempotencyKey}
use codex_research_skill.Persistence.Transaction.{write_keys}
use codex_research_skill.Persistence.Transaction.Keeps.{IsStable, Keeps, Keeps-change}
use codex_research_skill.Persistence.ReviewRepository.{
  KeyName, reserve_idempotency, complete_idempotency,
}
use codex_research_skill.Persistence.Frames.{Frame, frame_rules}

pub record Grows (d e : Database) : Type 0 where
  pub revisions : Extends e.claim_revisions d.claim_revisions
  pub evidence : Extends e.claim_evidence d.claim_evidence
  pub events : Extends e.review_events d.review_events

Extends-refl : {A : Type 0} (xs : List A) → Extends xs xs
Extends-refl xs = ([], refl)

Extends-trans : {A : Type 0} (xs ys zs : List A) → Extends ys xs → Extends zs ys → Extends zs xs
Extends-trans xs ys zs (a, p) (b, q) = (b ++ a, q ∙ ap (λ t. b ++ t) p ∙ sym (append_assoc b a xs))

pub Grows-IsStable : IsStable Grows
Grows-IsStable = record {
  same = λ d. record {
    revisions = Extends-refl _;
    evidence = Extends-refl _;
    events = Extends-refl _;
  };
  step = λ d e f g h. record {
    revisions = Extends-trans _ _ _ g.revisions h.revisions;
    evidence = Extends-trans _ _ _ g.evidence h.evidence;
    events = Extends-trans _ _ _ g.events h.events;
  };
}

-- A change of tables other than the three.
abbrev pub SameHistory : Database → Database → Type 0
SameHistory d e =
    (e.claim_revisions ≡ d.claim_revisions)
    × (e.claim_evidence ≡ d.claim_evidence)
    × (e.review_events ≡ d.review_events)

pub SameHistory-Grows : (d e : Database) → SameHistory d e → Grows d e
SameHistory-Grows d e (p, q, r) = record {
  revisions = ([], p);
  evidence = ([], q);
  events = ([], r);
}

-- The three tables are rewritten by no operation of a review.
pub Grows-Frame : Frame Grows
Grows-Frame = record {
  stable = Grows-IsStable;
  claims = λ d rows. SameHistory-Grows d _ (refl, refl, refl);
  queue = λ d rows. SameHistory-Grows d _ (refl, refl, refl);
  sources = λ d rows. SameHistory-Grows d _ (refl, refl, refl);
  excerpts = λ d rows. SameHistory-Grows d _ (refl, refl, refl);
  reports = λ d rows. SameHistory-Grows d _ (refl, refl, refl);
  revision =
      λ d r. record { revisions = (r ∷ [], refl); evidence = ([], refl); events = ([], refl) };
  evidence =
      λ d rows. record { revisions = ([], refl); evidence = (rows, refl); events = ([], refl) };
  event = λ d e. record { revisions = ([], refl); evidence = ([], refl); events = (e ∷ [], refl) };
}

pub write_keys-Grows : (f : List IdempotencyKey → List IdempotencyKey) → Keeps Grows (write_keys f)
unfolding write_keys
write_keys-Grows f = Keeps-change _ (λ d. SameHistory-Grows d _ (refl, refl, refl))

pub reserve_idempotency-Grows :
    (n : KeyName) (h r t : String) → Keeps Grows (reserve_idempotency n h r t)
unfolding reserve_idempotency
reserve_idempotency-Grows n h r t = Keeps-change _ (λ d. SameHistory-Grows d _ (ground arith))

pub complete_idempotency-Grows :
    (n : KeyName) (r : String) (a : Response) → Keeps Grows (complete_idempotency n r a)
unfolding complete_idempotency
complete_idempotency-Grows n r a = search (frame_rules, Grows-Frame, write_keys-Grows) depth 8
