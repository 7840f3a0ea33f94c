-- ===== src/Application/Review/Answers.antt =====
-- What a review leaves under its idempotency key, and what a key gives back.
use codex_research_skill.Base.{
  ◌≡◌, refl, ◌∙◌, sym, ap, subst, true, none, some, List, ◌∷◌, find, update, ok, String, str_eq_iff,
  str_eq_refl, arith,
}
use codex_research_skill.Persistence.Schema.{
  Database, IdempotencyKey, ReviewResult, Response, result, other,
}
use codex_research_skill.Persistence.Transaction.{
  ◌>>=◌, ◌>>◌, pure, raise, query, change, write_keys, require, lift,
}
use codex_research_skill.Persistence.Transaction.Keeps.{After}
use codex_research_skill.Persistence.Transaction.Runs.{
  ended, required, chosen, demanded, bind-ok, then-ok, bind-run, then-run, ok-in_transaction,
}
use codex_research_skill.Persistence.ReviewRepository.{
  KeyName, has_name, key_row, get_idempotency, reserved_row, reserve_idempotency, is_reservation,
  reserved_as, complete_idempotency,
}
use codex_research_skill.Persistence.Frames.{Frame}
use codex_research_skill.Application.Review.{
  key_name, stored_result, replay, perform, claimed, first_review, review_action, review,
}
use codex_research_skill.Application.Review.Frames.{dispatch-Keeps}
use codex_research_skill.Application.Review.Revisions.{Stamp}
use codex_research_skill.Application.Review.Request.{ReviewRequest, Caller, check_request}

abbrev SameKeys : Database → Database → Type 0
SameKeys d e = e.idempotency_keys ≡ d.idempotency_keys

-- The work of a review touches no key.
SameKeys-Frame : Frame SameKeys
SameKeys-Frame = record {
  stable = record { same = λ d. refl; step = λ d e f h k. k ∙ h };
  claims = λ d rows. refl;
  queue = λ d rows. refl;
  sources = λ d rows. refl;
  excerpts = λ d rows. refl;
  reports = λ d rows. refl;
  revision = λ d r. refl;
  evidence = λ d rows. refl;
  event = λ d e. refl;
}

-- The checks read nothing of the store.
pub check_request-any :
    (r : ReviewRequest) (d e f : Database)
    → check_request r d ≡ ok (tt, e)
    → (e ≡ d) × (check_request r f ≡ ok (tt, f))
unfolding check_request ◌>>=◌ ◌>>◌ require pure raise lift
check_request-any r d e f h = ground arith

abbrev pub replayed : ReviewResult → ReviewResult
replayed x = record x { idempotent_replay = true }

-- A key holds the answer to a request.
pub record Answers (digest : ReviewRequest → String) (r : ReviewRequest) (c : Caller)
    (x : ReviewResult) (d : Database) : Type 0 where
  pub row : IdempotencyKey
  pub stored : key_row (key_name r c) d ≡ some row
  pub same_request : row.request_sha256 ≡ digest r
  pub answer : row.response ≡ result x

replay-result :
    (row : IdempotencyKey) (h : String) (x : ReviewResult) (d : Database)
    → row.request_sha256 ≡ h
    → row.response ≡ result x
    → replay row h d ≡ ok (replayed x, d)
unfolding replay ◌>>=◌ ◌>>◌ require pure raise
replay-result row h x d same is = ground (arith, same, is, str_eq_refl h)

result-stored :
    (response : Response) (y : ReviewResult) (d e : Database)
    → stored_result response d ≡ ok (y, e)
    → (x : ReviewResult) × (response ≡ result x) × (y ≡ replayed x) × (e ≡ d)
unfolding stored_result pure raise
result-stored (result x) y d e k = (x, refl, ground (arith, k), ground (arith, k))
result-stored (other text) y d e k = ground (arith, k)

pub result-replay :
    (row : IdempotencyKey) (h : String) (y : ReviewResult) (d e : Database)
    → replay row h d ≡ ok (y, e)
    → (x : ReviewResult) × (row.request_sha256 ≡ h)
      × (row.response ≡ result x)
      × (y ≡ replayed x)
      × (e ≡ d)
unfolding replay
result-replay row h y d e k =
    let (mid, passed, last) = then-ok _ _ d e y k in
    let (same, still) = required _ _ d mid passed in
    let (x, is, from, end) = result-stored row.response y mid e last in
    (x, (str_eq_iff row.request_sha256 h).0 same, is, from, end ∙ still)

module _ (digest : ReviewRequest → String) (r : ReviewRequest) (c : Caller) where
  pub looked : (d : Database) → get_idempotency (key_name r c) d ≡ ok (key_row (key_name r c) d, d)
  unfolding get_idempotency query
  looked d = refl

  pub Answers-review :
      (s : Stamp) (x : ReviewResult) (d : Database)
      → check_request r d ≡ ok (tt, d)
      → Answers digest r c x d
      → review digest r c s d ≡ (ok (replayed x), d)
  unfolding review review_action
  Answers-review s x d passes held = ok-in_transaction _ d d (replayed x) (
      then-run _ _ d d passes
      ∙ bind-run _ _ d d (some held.row) (looked d ∙ ap (λ o. ok (o, d)) held.stored)
      ∙ replay-result held.row (digest r) x d held.same_request held.answer)

  -- What the completion of a reservation leaves under its key.
  find-completed :
      (n : KeyName) (h res now : String) (a : Response) (rows : List IdempotencyKey)
      → find (has_name n) (
          update
            (reserved_as n res)
            (λ row. record row { response = a })
            (reserved_row n h res now ∷ rows))
        ≡ some (record (reserved_row n h res now) { response = a })
  unfolding has_name reserved_as is_reservation
  find-completed n h res now a rows = ground (
    arith,
    str_eq_refl n.namespace_kind,
    str_eq_refl n.namespace_id,
    str_eq_refl n.operation,
    str_eq_refl n.key,
    str_eq_refl res,
  )

  find-reserved :
      (n : KeyName) (h res now : String) (d e : Database)
      → key_row n d ≡ none
      → reserve_idempotency n h res now d ≡ ok (tt, e)
      → e.idempotency_keys ≡ reserved_row n h res now ∷ d.idempotency_keys
  unfolding reserve_idempotency change
  find-reserved n h res now d e absent k = ground (arith, absent, k)

  completed :
      (n : KeyName) (res : String) (a : Response) (d e : Database)
      → complete_idempotency n res a d ≡ ok (tt, e)
      → e.idempotency_keys
        ≡ update (reserved_as n res) (λ row. record row { response = a }) d.idempotency_keys
  unfolding complete_idempotency write_keys change query
  completed n res a d e k =
      let (rows, mid, counted, rest) = bind-ok _ _ d e tt k in
      let (mid₂, passed, last) = then-ok _ _ mid e tt rest in
      let (_, still) = required _ _ mid mid₂ passed in
      let (_, begun) = ended _ rows d mid counted in
      let (_, written) = ended tt tt _ e last in
      let kept : mid₂.idempotency_keys ≡ d.idempotency_keys =
        ap (λ db. db.idempotency_keys) (still ∙ sym begun) in
      sym (ap (λ db. db.idempotency_keys) written)
      ∙ ap (update (reserved_as n res) (λ row. record row { response = a })) kept

  -- A run of the work under a reservation leaves its answer under the key.
  performed :
      (s : Stamp) (y : ReviewResult) (d e : Database) (rows : List IdempotencyKey)
      → d.idempotency_keys ≡ reserved_row (key_name r c) (digest r) s.reservation s.now ∷ rows
      → perform digest r c s d ≡ ok (y, e)
      → Answers digest r c y e
  unfolding perform key_row
  performed s y d e rows at k =
      let (answer, mid, ran, rest) = bind-ok _ _ d e y k in
      let (mid₂, wrote, last) = then-ok _ _ mid e y rest in
      let kept : SameKeys d mid =
        subst (After SameKeys d) ran ((dispatch-Keeps SameKeys-Frame r.entity.kind r c s).at d) in
      let (is, end) = ended answer y mid₂ e (unfold pure in last) in
      let n = key_name r c in
      let complete =
        update (reserved_as n s.reservation) (λ row. record row { response = result answer }) in
      let keys : e.idempotency_keys
          ≡ complete (reserved_row n (digest r) s.reservation s.now ∷ rows) =
        sym (ap (λ db. db.idempotency_keys) end)
        ∙ completed n s.reservation (result answer) mid mid₂ wrote
        ∙ ap complete (kept ∙ at) in
      record {
        row = record (reserved_row n (digest r) s.reservation s.now) { response = result answer };
        stored =
            ap (find (has_name n)) keys
            ∙ find-completed n (digest r) s.reservation s.now (result answer) rows;
        same_request = refl;
        answer = ap result is;
      }

  claimed-performed :
      (s : Stamp) (y : ReviewResult) (d e : Database)
      → claimed digest (reserved_row (key_name r c) (digest r) s.reservation s.now) r c s d
        ≡ ok (y, e)
      → perform digest r c s d ≡ ok (y, e)
  unfolding claimed is_reservation
  claimed-performed s y d e k =
      let (mid, passed, last) = then-ok _ _ d e y k in
      let (_, still) = required _ _ d mid passed in
      subst (λ t. perform digest r c s t ≡ ok (y, e)) still
        (chosen _ _ _ mid (str_eq_refl s.reservation) last)

  reserved-found :
      (n : KeyName) (h res now : String) (d e : Database)
      → key_row n d ≡ none
      → reserve_idempotency n h res now d ≡ ok (tt, e)
      → key_row n e ≡ some (reserved_row n h res now)
  unfolding key_row has_name
  reserved-found n h res now d e absent k = ground (
    arith,
    find-reserved n h res now d e absent k,
    str_eq_refl n.namespace_kind,
    str_eq_refl n.namespace_id,
    str_eq_refl n.operation,
    str_eq_refl n.key,
  )

  pub first-Answers :
      (s : Stamp) (y : ReviewResult) (d e : Database)
      → key_row (key_name r c) d ≡ none
      → first_review digest r c s d ≡ ok (y, e)
      → Answers digest r c y e
  unfolding first_review
  first-Answers s y d e absent k =
      let n = key_name r c in
      let new = reserved_row n (digest r) s.reservation s.now in
      let (mid, reserved, k₁) = then-ok _ _ d e y k in
      let (found, mid₂, got, k₂) = bind-ok _ _ mid e y k₁ in
      let (row, mid₃, taken, k₃) = bind-ok _ _ mid₂ e y k₂ in
      let (is, still) = ended _ found mid mid₂ (sym (looked mid) ∙ got) in
      let (some_row, still₂) = demanded found _ mid₂ mid₃ row taken in
      let here : key_row n mid ≡ some new =
        reserved-found n (digest r) s.reservation s.now d mid absent reserved in
      let same_row : row ≡ new = ground (arith, here, is, some_row) in
      let same_store : mid₃ ≡ mid = still₂ ∙ sym still in
      let run : claimed digest new r c s mid ≡ ok (y, e) =
        subst (λ t. claimed digest new r c s t ≡ ok (y, e)) same_store
          (subst (λ t. claimed digest t r c s mid₃ ≡ ok (y, e)) same_row k₃) in
      performed s y mid e d.idempotency_keys
        (find-reserved n (digest r) s.reservation s.now d mid absent reserved)
        (claimed-performed s y mid e run)
