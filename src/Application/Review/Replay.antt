-- ===== src/Application/Review/Replay.antt =====
-- A review with a key that was used: the stored answer.
use codex_research_skill.Base.{
  ◌≡◌, refl, ◌∙◌, sym, ap, Option, none, some, ok, err, String, str_eq_iff, arith, ◌≢◌,
}
use codex_research_skill.Persistence.Schema.{Database, IdempotencyKey, ReviewResult}
use codex_research_skill.Persistence.Transaction.{
  Action, ◌>>=◌, ◌>>◌, pure, raise, require, idempotency_conflict,
}
use codex_research_skill.Persistence.Transaction.Runs.{
  ended, bind-ok, then-ok, bind-run, then-run, in_transaction-ok, err-in_transaction,
}
use codex_research_skill.Persistence.ReviewRepository.{key_row}
use codex_research_skill.Application.Review.{key_name, replay, first_review, review_action, review}
use codex_research_skill.Application.Review.Revisions.{Stamp}
use codex_research_skill.Application.Review.Request.{ReviewRequest, Caller, check_request}
use codex_research_skill.Application.Review.Answers.{
  check_request-any, result-replay, replayed, Answers, looked, Answers-review, first-Answers,
}

refused-replay :
    (row : IdempotencyKey) (h : String) (d : Database)
    → row.request_sha256 ≢ h
    → replay row h d ≡ err idempotency_conflict
unfolding replay ◌>>=◌ ◌>>◌ require pure raise
refused-replay row h d differs = ground (arith, differs, str_eq_iff row.request_sha256 h)

module _ (digest : ReviewRequest → String) (r : ReviewRequest) (c : Caller) where
  -- A result whose replay is that of the answer `y` is held under the key.
  abbrev Remembers : ReviewResult → Database → Type 0
  Remembers y e = (x : ReviewResult) × Answers digest r c x e × (replayed x ≡ replayed y)

  seen-Answers :
      (existing : Option IdempotencyKey) (s : Stamp) (y : ReviewResult) (d e : Database)
      → key_row (key_name r c) d ≡ existing
      → (let act : Action ReviewResult = elim existing [
        | some row ↦ replay row (digest r)
        | none ↦ first_review digest r c s
      ] in
            act)
          d
        ≡ ok (y, e)
      → Remembers y e
  seen-Answers none s y d e at k = (y, first-Answers digest r c s y d e at k, refl)
  seen-Answers (some row) s y d e at k =
      let (x, same, is, from, end) = result-replay row (digest r) y d e k in
      let stored : key_row (key_name r c) e ≡ some row = ap (key_row (key_name r c)) end ∙ at in
      (
        x,
        record { row = row; stored = stored; same_request = same; answer = is },
        ap replayed (sym from),
      )

  review-Remembers :
      (s : Stamp) (y : ReviewResult) (d e : Database)
      → review digest r c s d ≡ (ok y, e)
      → Remembers y e × (check_request r e ≡ ok (tt, e))
  unfolding review review_action
  review-Remembers s y d e k =
      let (mid, checked, k₁) = then-ok _ _ d e y (in_transaction-ok _ d e y k) in
      let (existing, mid₂, got, k₂) = bind-ok _ _ mid e y k₁ in
      let (at, still) = ended _ existing mid mid₂ (sym (looked digest r c mid) ∙ got) in
      (
        seen-Answers existing s y mid₂ e (ap (key_row (key_name r c)) (sym still) ∙ at) k₂,
        (check_request-any r d mid e checked).1,
      )

  -- Once a review has succeeded, the same request with its key, asked next at any time and with any
  -- fresh identifiers, gets the same answer, marked as a replay, and leaves the store as it is.
  pub review-again :
      (s later : Stamp) (y : ReviewResult) (d e : Database)
      → review digest r c s d ≡ (ok y, e)
      → review digest r c later e ≡ (ok (replayed y), e)
  review-again s later y d e k =
      let ((x, held, same), passes) = review-Remembers s y d e k in
      Answers-review digest r c later x e passes held ∙ ap (λ a. (ok a, e)) same

  -- A request that passes the checks made before the store is opened, but whose key another request has
  -- used, is refused as a conflict, and the store is left as it is.
  pub review-conflict :
      (s : Stamp) (row : IdempotencyKey) (d : Database)
      → check_request r d ≡ ok (tt, d)
      → key_row (key_name r c) d ≡ some row
      → row.request_sha256 ≢ digest r
      → review digest r c s d ≡ (err idempotency_conflict, d)
  unfolding review review_action
  review-conflict s row d passes at other_request = err-in_transaction _ d idempotency_conflict (
      then-run _ _ d d passes
      ∙ bind-run _ _ d d (some row) (looked digest r c d ∙ ap (λ o. ok (o, d)) at)
      ∙ refused-replay row (digest r) d other_request)
