-- ===== src/Application/Review/History.antt =====
-- Reviews never rewrite the history of the store: the whole operation.
use codex_research_skill.Base.{Option, some, none, Result, ok, err, String}
use codex_research_skill.Persistence.Schema.{Response, Database, IdempotencyKey, result, other}
use codex_research_skill.Persistence.ReviewRepository.{KeyName, get_idempotency}
use codex_research_skill.Persistence.Transaction.{Action, in_transaction, Failure}
use codex_research_skill.Persistence.Transaction.Keeps.{After, Keeps, Keeps-then, Keeps-bind}
use codex_research_skill.Persistence.Frames.{frame_rules}
use codex_research_skill.Persistence.Growth.{
  Grows, Grows-IsStable, reserve_idempotency-Grows, complete_idempotency-Grows, Grows-Frame,
}
use codex_research_skill.Application.Review.{
  stored_result, replay, perform, claimed, first_review, review_action, review,
}
use codex_research_skill.Application.Review.Frames.{dispatch-Keeps}
use codex_research_skill.Application.Review.Revisions.{Stamp}
use codex_research_skill.Application.Review.Request.{ReviewRequest, Caller, check_request}

ruleset growth_rules = (frame_rules, Grows-Frame)

check_request-Grows : (r : ReviewRequest) → Keeps Grows (check_request r)
unfolding check_request
check_request-Grows r = search growth_rules depth 12

stored_result-Grows : (r : Response) → Keeps Grows (stored_result r)
unfolding stored_result
stored_result-Grows (other text) = search growth_rules
stored_result-Grows (result r) = search growth_rules

replay-Grows : (row : IdempotencyKey) (h : String) → Keeps Grows (replay row h)
unfolding replay
replay-Grows row h = search (growth_rules, stored_result-Grows) depth 8

get_idempotency-Grows : (n : KeyName) → Keeps Grows (get_idempotency n)
unfolding get_idempotency
get_idempotency-Grows n = search growth_rules

module _ (digest : ReviewRequest → String) where
  perform-Grows : (r : ReviewRequest) (c : Caller) (s : Stamp) → Keeps Grows (perform digest r c s)
  unfolding perform
  perform-Grows r c s = search (growth_rules, dispatch-Keeps, complete_idempotency-Grows) depth 12

  claimed-Grows :
      (row : IdempotencyKey) (r : ReviewRequest) (c : Caller) (s : Stamp)
      → Keeps Grows (claimed digest row r c s)
  unfolding claimed
  claimed-Grows row r c s = search (growth_rules, perform-Grows, replay-Grows) depth 12

  first_review-Grows :
      (r : ReviewRequest) (c : Caller) (s : Stamp) → Keeps Grows (first_review digest r c s)
  unfolding first_review
  first_review-Grows r c s =
      search (growth_rules, claimed-Grows, reserve_idempotency-Grows, get_idempotency-Grows) depth
        14

  seen-Grows :
      (row : Option IdempotencyKey) (r : ReviewRequest) (c : Caller) (s : Stamp)
      → Keeps Grows
          (elim row [ some row ↦ replay row (digest r) | none ↦ first_review digest r c s ])
  seen-Grows (some row) r c s = replay-Grows row (digest r)
  seen-Grows none r c s = first_review-Grows r c s

  review_action-Grows :
      (r : ReviewRequest) (c : Caller) (s : Stamp) → Keeps Grows (review_action digest r c s)
  unfolding review_action
  review_action-Grows r c s =
      Keeps-then Grows-IsStable _ _ (check_request-Grows r)
        (Keeps-bind Grows-IsStable _ _ (get_idempotency-Grows _) (λ row. seen-Grows row r c s))

transaction-Grows :
    {A : Type 0} (m : Action A) (d : Database) → Keeps Grows m → Grows d (in_transaction m d).1
unfolding in_transaction
transaction-Grows m d k = last (m d) (k.at d)
  where
    last :
        {A : Type 0} (r : Result Failure (A × Database))
        → After Grows d r
        → Grows d
            (let out : Result Failure A × Database = elim r [
              | ok (a, d') ↦ (ok a, d')
              | err e ↦ (err e, d)
            ] in
              out).1
    last (ok (a, e)) h = h
    last (err e) h = Grows-IsStable.same d

-- A review, whatever its request and its outcome, only appends: every claim revision, every cited
-- piece of evidence and every review event of the store before it is in the store after it, unchanged
-- and in the same order.
pub review-Grows :
    (digest : ReviewRequest → String) (r : ReviewRequest) (c : Caller) (s : Stamp) (db : Database)
    → Grows db (review digest r c s db).1
unfolding review
review-Grows digest r c s db = transaction-Grows _ db (review_action-Grows digest r c s)
