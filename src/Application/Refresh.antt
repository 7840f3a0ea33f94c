-- ===== src/Application/Refresh.antt =====
-- application/refresh.py: the targets of a refresh, and their place in the queue.
pub mod Frames
pub mod Policy
use codex_research_skill.Base.{
  ℕ, suc, Bool, Option, none, some, List, [], ◌∷◌, ◌++◌, length, ltb, distinct, String,
}
use codex_research_skill.Persistence.Schema.{RefreshItem}
use codex_research_skill.Persistence.Transaction.{
  Action, ◌>>=◌, ◌>>◌, pure, query, require, demand, refresh_record_not_found, result_limit,
}
use codex_research_skill.Persistence.RefreshRepository.{
  Target, same_target, Namespace, resolve_refresh_root, expand_refresh_targets,
}
use codex_research_skill.Persistence.RefreshQueue.{enqueue_refresh}
use codex_research_skill.Base

-- `_MAX_RESULT_ITEMS`
abbrev pub max_result_items : ℕ
max_result_items = 500

add_targets : Namespace → List Target → List Target → Action (List Target)
add_targets ns [] targets = pure (distinct same_target targets)
add_targets ns ((kind, id) ∷ entities) targets = do
  root ← query (resolve_refresh_root kind id ns)
  found ← demand root refresh_record_not_found
  reached ← query (expand_refresh_targets found)
  require (Base.not (ltb max_result_items (length (distinct same_target (targets ++ reached)))))
      result_limit
  add_targets ns entities (targets ++ reached)

-- `resolve_refresh_targets`
unfoldable pub resolve_refresh_targets : List Target → Namespace → Action (List Target)
unfolding add_targets
resolve_refresh_targets entities ns = add_targets ns entities []

pub record RefreshPlanItem : Type 0 where
  pub entity : Target
  pub refresh_item_id : String
  pub queue_status : String
  pub created : Bool

-- what `enqueue_refresh_targets` asks to be queued
abbrev pub manual_item : String → Target → String → String → RefreshItem
manual_item refresh_id (kind, id) priority detected_at = record {
  id = refresh_id;
  entity_kind = kind;
  entity_id = id;
  reason = "manual";
  status = "pending";
  priority = priority;
  detected_at = detected_at;
  resolved_at = none;
}

enqueue_from : (ℕ → String) → ℕ → List Target → String → String → Action (List RefreshPlanItem)
enqueue_from new_id n [] priority detected_at = pure []
enqueue_from new_id n (target ∷ targets) priority detected_at = do
  answer ← enqueue_refresh (manual_item (new_id n) target priority detected_at)
  items ← enqueue_from new_id (suc n) targets priority detected_at
  pure (
      record {
        entity = target;
        refresh_item_id = answer.0.id;
        queue_status = answer.0.status;
        created = answer.1;
      }
      ∷ items)

-- `enqueue_refresh_targets`; `new_id n` is the n-th fresh identifier.
unfoldable pub enqueue_refresh_targets :
    (ℕ → String) → List Target → String → String → Action (List RefreshPlanItem)
unfolding enqueue_from
enqueue_refresh_targets new_id = enqueue_from new_id 0
