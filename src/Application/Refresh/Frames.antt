-- ===== src/Application/Refresh/Frames.antt =====
-- Queueing refresh targets keeps a frame.
use codex_research_skill.Base.{ℕ, suc, List, [], ◌∷◌, String}
use codex_research_skill.Persistence.Transaction.Keeps.{Keeps, Keeps-bind, Keeps-then}
use codex_research_skill.Persistence.Frames.{Frame, frame_rules, enqueue_refresh-Keeps}
use codex_research_skill.Persistence.Schema.{Database}
use codex_research_skill.Persistence.RefreshRepository.{Target, Namespace}
use codex_research_skill.Application.Refresh.{
  add_targets, resolve_refresh_targets, enqueue_from, enqueue_refresh_targets,
}

module _ {R : Database → Database → Type 0} where
  add_targets-Keeps :
      Frame R
      → (ns : Namespace) (entities targets : List Target)
      → Keeps R (add_targets ns entities targets)
  unfolding add_targets
  add_targets-Keeps frame ns [] targets = search frame_rules
  add_targets-Keeps frame ns ((kind, id) ∷ entities) targets =
      Keeps-bind frame.stable _ _ (search frame_rules) λ root.
        Keeps-bind frame.stable _ _ (search frame_rules) λ found.
          Keeps-bind frame.stable _ _ (search frame_rules) λ reached.
            Keeps-then frame.stable _ _ (search frame_rules) (add_targets-Keeps frame ns entities _)

  pub resolve_refresh_targets-Keeps :
      Frame R
      → (entities : List Target) (ns : Namespace) → Keeps R (resolve_refresh_targets entities ns)
  unfolding resolve_refresh_targets
  resolve_refresh_targets-Keeps frame entities ns = add_targets-Keeps frame ns entities []

  enqueue_from-Keeps :
      Frame R
      → (new_id : ℕ → String) (n : ℕ) (targets : List Target) (p t : String)
      → Keeps R (enqueue_from new_id n targets p t)
  unfolding enqueue_from
  enqueue_from-Keeps frame new_id n [] p t = search frame_rules
  enqueue_from-Keeps frame new_id n (target ∷ targets) p t =
      Keeps-bind frame.stable _ _ (enqueue_refresh-Keeps frame _) λ answer.
        Keeps-bind frame.stable _ _ (enqueue_from-Keeps frame new_id (suc n) targets p t)
          λ items. search frame_rules

  pub enqueue_refresh_targets-Keeps :
      Frame R
      → (new_id : ℕ → String) (targets : List Target) (p t : String)
      → Keeps R (enqueue_refresh_targets new_id targets p t)
  unfolding enqueue_refresh_targets
  enqueue_refresh_targets-Keeps frame new_id targets p t =
      enqueue_from-Keeps frame new_id 0 targets p t
