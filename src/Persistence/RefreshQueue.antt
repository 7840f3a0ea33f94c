-- ===== src/Persistence/RefreshQueue.antt =====
-- `ReviewRefreshRepository` of persistence/repositories.py: the refresh queue.
use codex_research_skill.Base.{
  Bool, ◌&&◌, ◌||◌, not, Option, none, some, [], ◌∷◌, ◌++◌, find, any, update, row_count, ◌==◌,
  if◌then◌else◌, String, str_eq,
}
use codex_research_skill.Persistence.Schema.{SourceVersion, RefreshItem, Database}
use codex_research_skill.Persistence.Mirrors.{claim_row}
use codex_research_skill.Persistence.Transaction.{
  Action, ◌>>=◌, ◌>>◌, pure, query, write_queue, require, demand, runtime_error,
}
use codex_research_skill.Persistence.RefreshRepository.{Target}

unfoldable pub is_unresolved : String → Bool
is_unresolved status = str_eq status "pending" || str_eq status "running"

-- an item of the partial unique index
unfoldable pub unresolved_for : String → String → String → RefreshItem → Bool
unfolding is_unresolved
unresolved_for kind id reason q =
    str_eq q.entity_kind kind
    && str_eq q.entity_id id
    && str_eq q.reason reason
    && is_unresolved q.status

-- what a new row violates: the primary key or the unique index
blocks : RefreshItem → RefreshItem → Bool
unfolding unresolved_for
blocks new q = str_eq q.id new.id || unresolved_for new.entity_kind new.entity_id new.reason q

-- `enqueue_refresh`, which answers with the unresolved item and whether it is new
unfoldable pub enqueue_refresh : RefreshItem → Action (RefreshItem × Bool)
unfolding blocks
enqueue_refresh new = do
  taken ← query (λ db. any (blocks new) db.refresh_queue)
  write_queue (λ queue. if taken then queue else queue ++ new ∷ [])
  found ←
      query (λ db. find (unresolved_for new.entity_kind new.entity_id new.reason) db.refresh_queue)
  row ← demand found runtime_error
  pure (row, not taken)

unfoldable pub in_state : String → String → RefreshItem → Bool
in_state id status q = str_eq q.id id && str_eq q.status status

-- `dismiss_refresh`
unfoldable pub dismiss_refresh : String → String → String → Action RefreshItem
unfolding in_state
dismiss_refresh id expected_state resolved_at = do
  rows ← query (λ db. row_count (in_state id expected_state) db.refresh_queue)
  require (rows == 1) runtime_error
  write_queue (
      update (in_state id expected_state)
        (λ q. record q { status = "dismissed"; resolved_at = some resolved_at }))
  found ← query (λ db. find (λ (q : RefreshItem). str_eq q.id id) db.refresh_queue)
  demand found runtime_error

-- `review_event_target_for_refresh`
unfoldable pub review_event_target : Target → Database → Option Target
unfolding claim_row
review_event_target (kind, id) db =
    if str_eq kind "evidence" || str_eq kind "report"
    then some (kind, id)
    else if str_eq kind "claim"
    then elim (claim_row db id) [
      | none ↦ none
      | some c ↦ elim c.current_revision_id [
        | none ↦ none
        | some r ↦ if str_eq r "" then none else some ("claim_revision", r)
      ]
    ]
    else if str_eq kind "source"
    then elim (find (λ (v : SourceVersion). str_eq v.source_id id) db.source_versions) [
      | none ↦ none
      | some v ↦ some ("source_version", v.id)
    ]
    else none
