-- ===== src/Domain/Sources/Accepted.antt =====
-- A source version that is accepted is well formed, and is accepted again as it is.
use codex_research_skill.Base.{
  ℕ, ◌≤◌, ◌≡◌, refl, subst, inl, inr, true, Option, none, some, length, leb, is_some, arith,
  Bool-cases, if◌then◌else◌, ok, err, then-ok, ok-injective, err_not_ok, guard-ok, leb→le, ok->>=,
}
use codex_research_skill.Text.{Text}
use codex_research_skill.Domain.Evidence.Resolve.{is_sha256}
use codex_research_skill.Ingestion.Blobs.{Bytes, validation, validate_sha256, validate_media_type}
use codex_research_skill.Ingestion.Blobs.Media.{validate_media_type_twice}
use codex_research_skill.Domain.Sources.{
  SourceVersionSpec, Library, from_blobs, policy_order, order_fits, count_of, check_policy,
  check_bytes,
}
use codex_research_skill.Domain.Sources.Validate.{validate_source_version_spec}
use codex_research_skill.Domain.Sources.Normal.{
  TimeLaws, check_source_id_twice, from_blobs-ok, count_of_twice, key_of_twice, normalize_twice,
  normalize_optional_twice,
}
use codex_research_skill.Domain.Sources.Facts.{normal_form, Found, validate-Found}

validate_sha256_same : (value digest : Text) → validate_sha256 value ≡ ok digest → value ≡ digest
unfolding validate_sha256
validate_sha256_same value digest h = elim (Bool-cases (is_sha256 value)) [
  | inl e ↦ ok-injective (subst (λ b. (if b then ok value else err validation) ≡ ok digest) e h)
  | inr e ↦
      elim (err_not_ok (subst (λ b. (if b then ok value else err validation) ≡ ok digest) e h)) [ ]
]

sha256_twice :
    (value digest : Text)
    → from_blobs (validate_sha256 value) ≡ ok digest
    → from_blobs (validate_sha256 digest) ≡ ok digest
sha256_twice value digest h =
    subst (λ v. from_blobs (validate_sha256 v) ≡ ok digest)
      (validate_sha256_same value digest (from_blobs-ok _ digest h)) h

media_twice :
    (value normal : Option Text)
    → from_blobs (validate_media_type value) ≡ ok normal
    → from_blobs (validate_media_type normal) ≡ ok normal
media_twice value normal h =
    rw (validate_media_type_twice value normal (from_blobs-ok _ normal h)) refl

module _ (lib : Library) (laws : TimeLaws lib) (max_policy : Text)
    (spec normal : SourceVersionSpec) where
  again :
      (f : Found lib max_policy spec normal)
      → let form =
          normal_form spec f.source_id f.version_key f.retrieved_at f.published_at f.sha256
            f.media_type f.byte_count in
        validate_source_version_spec lib max_policy form ≡ ok form
  unfolding validate_source_version_spec
  again f = ok->>= _ _ (check_source_id_twice spec.source_id f.source_id f.id_checked) (
      ok->>= _ _ f.kind_checked (
        ok->>= _ _ (sha256_twice spec.content_sha256 f.sha256 f.sha_checked) (
          ok->>= _ _ (media_twice spec.media_type f.media_type f.media_checked) (
            ok->>= _ _ f.retention_checked (
              ok->>= _ _
                (count_of_twice spec.snapshot_bytes spec.byte_count f.byte_count f.count_checked)
                (ok->>= _ _
                  (key_of_twice spec.version_key spec.version_kind f.sha256 f.version_key
                    f.key_checked)
                  (ok->>= _ _ f.locator_checked (
                    ok->>= _ _
                      (normalize_twice lib laws spec.retrieved_at f.retrieved_at
                        f.retrieved_checked)
                      (ok->>= _ _
                        (normalize_optional_twice lib laws spec.published_at f.published_at
                          f.published_checked)
                        (ok->>= _ _ f.rest_checked refl))))))))))

  -- A source version that was accepted is accepted again under the same policy, and is left as it is,
  -- where datetime reads the UTC times that it prints and prints no Z.
  pub validate_source_version_spec_twice :
      validate_source_version_spec lib max_policy spec ≡ ok normal
      → validate_source_version_spec lib max_policy normal ≡ ok normal
  validate_source_version_spec_twice h =
      let found = validate-Found lib max_policy spec normal h in
      subst (λ n. validate_source_version_spec lib max_policy n ≡ ok n) found.is_normal
        (again found)

-- What the retention policy asks of a source version: its policy is known and within the machine's, it
-- has bytes exactly when the policy is one of the two that keep text, and then their count.
pub record IsRetained (max_policy : Text) (spec : SourceVersionSpec) : Type 0 where
  pub order : ℕ
  pub max_order : ℕ
  pub is_order : policy_order spec.snapshot_policy ≡ some order
  pub is_max_order : policy_order max_policy ≡ some max_order
  pub within : order ≤ max_order
  pub keeps_bytes : is_some spec.snapshot_bytes ≡ leb 2 order
  pub counted :
      (bytes : Bytes)
      → spec.snapshot_bytes ≡ some bytes
      → (spec.byte_count ≡ some (length bytes)) × (length bytes ≤ 50_000_000)

order_fits-le :
    (a b : Option ℕ) → order_fits a b ≡ true → (m n : ℕ) × (a ≡ some m) × (b ≡ some n) × (m ≤ n)
order_fits-le none b h = absurd (ground (arith, h))
order_fits-le (some m) none h = absurd (ground (arith, h))
order_fits-le (some m) (some n) h = (m, n, refl, refl, leb→le m n h)

order_within :
    (policy max_policy : Text)
    → check_policy policy max_policy ≡ ok tt
    → (m n : ℕ) × (policy_order policy ≡ some m) × (policy_order max_policy ≡ some n) × (m ≤ n)
unfolding check_policy
order_within policy max_policy h = order_fits-le _ _ (guard-ok _ _ h)

keeps_bytes-order :
    (policy : Text) (bytes : Option Bytes) (m : ℕ)
    → policy_order policy ≡ some m
    → check_bytes policy bytes ≡ ok tt
    → is_some bytes ≡ leb 2 m
unfolding check_bytes policy_order
keeps_bytes-order policy bytes m order h = ground (arith, order, h)

count_of-some :
    (bytes : Bytes) (given count : Option ℕ)
    → count_of (some bytes) given ≡ ok count
    → (count ≡ some (length bytes)) × (length bytes ≤ 50_000_000)
unfolding count_of
count_of-some bytes given count h = ground (arith, h)

-- What is accepted is within the retention policy: its policy is known and not above the one of the
-- machine, it has bytes exactly when the policy is one of the two that keep text, and then their count,
-- which is at most fifty million.
pub validate_source_version_spec-IsRetained :
    (lib : Library) (max_policy : Text) (spec normal : SourceVersionSpec)
    → validate_source_version_spec lib max_policy spec ≡ ok normal
    → IsRetained max_policy normal
validate_source_version_spec-IsRetained lib max_policy spec normal h =
    let f = validate-Found lib max_policy spec normal h in
    let (policies, bytes) =
      then-ok (check_policy spec.snapshot_policy max_policy)
        (check_bytes spec.snapshot_policy spec.snapshot_bytes) f.retention_checked in
    let (m, n, is_m, is_n, m_le_n) = order_within spec.snapshot_policy max_policy policies in
    subst (IsRetained max_policy) f.is_normal record {
      order = m;
      max_order = n;
      is_order = is_m;
      is_max_order = is_n;
      within = m_le_n;
      keeps_bytes = keeps_bytes-order spec.snapshot_policy spec.snapshot_bytes m is_m bytes;
      counted = λ b e.
          count_of-some b spec.byte_count f.byte_count
            (subst (λ o. count_of o spec.byte_count ≡ ok f.byte_count) e f.count_checked);
    }
