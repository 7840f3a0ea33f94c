-- ===== src/Application/Refresh/Policy.antt =====
-- `CapturePolicy` of application/refresh.py: the machine's authorization of a capture.
use codex_research_skill.Base.{
  ℕ, ◌≤◌, ◌≡◌, Bool, true, ◌||◌, not, Option, none, List, [], ◌∷◌, any, all, ltb, get_or, String,
  str_eq, Result, ok, ◌>>◌, guard, reject_if, arith,
}

pub data SnapshotPolicy : Type 0 where
  metadata_only evidence_only extracted_text full_content : SnapshotPolicy

-- `_POLICY_ORDER`
abbrev pub policy_order : SnapshotPolicy → ℕ
policy_order metadata_only = 0
policy_order evidence_only = 1
policy_order extracted_text = 2
policy_order full_content = 3

pub record CapturePolicy : Type 0 where
  pub enabled_modes : List String
  pub default_snapshot_policy : SnapshotPolicy
  pub max_snapshot_policy : SnapshotPolicy
  pub allowed_source_kinds : List String

-- `unsupported_mode`, `invalid_policy` and `invalid_kinds` are the `ValueError`s of a policy that is
-- not well formed, the other two refuse a capture.
pub data PolicyError : Type 0 where
  unsupported_mode invalid_policy invalid_kinds capture_denied snapshot_denied : PolicyError

-- `value in values`
abbrev pub is_in : String → List String → Bool
is_in value values = any (str_eq value) values

-- `__post_init__`
unfoldable pub post_init : CapturePolicy → Result PolicyError (Unit {0})
post_init policy = do
  guard (all (λ m. is_in m ("capture" ∷ [])) policy.enabled_modes) unsupported_mode
  reject_if
      (ltb (policy_order policy.max_snapshot_policy) (policy_order policy.default_snapshot_policy))
      invalid_policy
  guard (all (λ k. is_in k ("web" ∷ "doi" ∷ "git_blob" ∷ [])) policy.allowed_source_kinds)
      invalid_kinds

-- `authorize`
unfoldable pub authorize :
    CapturePolicy → String → Option SnapshotPolicy → String → Result PolicyError SnapshotPolicy
authorize policy mode requested source_kind = do
  reject_if
      (not (is_in mode policy.enabled_modes) || not (is_in source_kind policy.allowed_source_kinds))
      capture_denied
  reject_if
      (ltb (policy_order policy.max_snapshot_policy)
        (policy_order (get_or requested policy.default_snapshot_policy)))
      snapshot_denied
  ok (get_or requested policy.default_snapshot_policy)

-- A capture that is authorized has a mode and a kind of source that the policy allows, and keeps no
-- more than the most that the policy allows.
pub authorize-within :
    (policy : CapturePolicy) (mode source_kind : String) (requested : Option SnapshotPolicy)
    (selected : SnapshotPolicy)
    → authorize policy mode requested source_kind ≡ ok selected
    → (is_in mode policy.enabled_modes ≡ true)
      × (is_in source_kind policy.allowed_source_kinds ≡ true)
      × (policy_order selected ≤ policy_order policy.max_snapshot_policy)
unfolding authorize
authorize-within policy mode source_kind requested selected h = ground (arith, h)

-- A well-formed policy authorizes every capture of an allowed mode and kind that asks for no policy of
-- its own.
pub authorize-default :
    (policy : CapturePolicy) (mode source_kind : String)
    → post_init policy ≡ ok tt
    → is_in mode policy.enabled_modes ≡ true
    → is_in source_kind policy.allowed_source_kinds ≡ true
    → authorize policy mode none source_kind ≡ ok policy.default_snapshot_policy
unfolding authorize post_init
authorize-default policy mode source_kind valid h₁ h₂ = ground (arith, valid, h₁, h₂)
