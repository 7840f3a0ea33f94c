-- ===== src/Tests/Sources.antt =====
-- The theorems on source versions, for one page with its text.
use codex_research_skill.Base.{
  ℕ, zero, suc, ◌≡◌, refl, ap, true, false, none, some, Option, [], ◌∷◌, any, length, ◌==◌, ok, err,
  Result,
}
use Prim.Native.Nat.{◌*◌}
use codex_research_skill.Text.{Text, codes, same, starts_with}
use codex_research_skill.Domain.Sources.{
  SourceVersionSpec, SourceVersionError, Library, Moment, iso_text,
}
use codex_research_skill.Domain.Sources.Validate.{validate_source_version_spec}
use codex_research_skill.Domain.Sources.Normal.{TimeLaws}
use codex_research_skill.Domain.Sources.Accepted.{
  IsRetained, validate_source_version_spec-IsRetained, validate_source_version_spec_twice,
}
use codex_research_skill.Application.SourceVersions.{Service}
use codex_research_skill.Persistence.SourceVersionRepository.{blob_reference_error_count}
use codex_research_skill.Application.SourceVersions.Create.{Stores, create_or_reuse}
use codex_research_skill.Application.SourceVersions.Backed.{IsBacked}
use codex_research_skill.Application.SourceVersions.Records.{Outcome, create_or_reuse-Outcome}
use codex_research_skill.Application.SourceVersions.Outcomes.{create_or_reuse-IsBacked}

-- a time of n seconds is n zeros
abbrev zeros : ℕ → Text
zeros zero = []
zeros (suc n) = 48 ∷ zeros n

length-zeros : (n : ℕ) → length (zeros n) ≡ n
length-zeros zero = refl
length-zeros (suc n) = ap (λ k. suc k) (length-zeros n)

zeros-no_z : (n : ℕ) → any (λ c. c == 90) (zeros n) ≡ false
zeros-no_z zero = refl
zeros-no_z (suc n) = zeros-no_z n

abbrev seconds : ℕ → Option Moment
seconds n = some (record { has_offset = true; microseconds = n * 1_000_000 })

abbrev library : Library
library = record {
  fromisoformat = λ t. seconds (length t);
  isoformat = zeros;
  posix_parts = λ path. path ∷ [];
  posix_str = λ path. path;
  is_json = λ metadata. true;
}

library-TimeLaws : TimeLaws library
library-TimeLaws = record { no_z = zeros-no_z; read_back = λ n. ap seconds (length-zeros n) }

abbrev digest_text : Text
digest_text = codes "aaaaaaaaaaaaaaaaaaaaaaaaaaaaaaaaaaaaaaaaaaaaaaaaaaaaaaaaaaaaaaaa"

abbrev a_page : SourceVersionSpec
a_page = record {
  source_id = codes " s1 ";
  version_key = none;
  version_kind = codes "web";
  retrieved_at = iso_text (codes "000");
  content_sha256 = digest_text;
  canonical_locator = codes "https://a.org";
  snapshot_policy = codes "extracted_text";
  snapshot_bytes = some (1 ∷ 2 ∷ []);
  published_at = none;
  media_type = some (codes "Text/HTML");
  byte_count = none;
  parser_name = none;
  parser_version = none;
  repository_locator = none;
  commit_sha = none;
  blob_sha = none;
  path = none;
  metadata = [];
}

abbrev spec_from : Result SourceVersionError SourceVersionSpec → SourceVersionSpec
spec_from (ok spec) = spec
spec_from (err e) = a_page

abbrev full : Text
full = codes "full_content"

abbrev normal_page : SourceVersionSpec
normal_page = spec_from (validate_source_version_spec library full a_page)

normal_page-ok : validate_source_version_spec library full a_page ≡ ok normal_page
unfolding validate_source_version_spec same starts_with
normal_page-ok = refl

validate_source_version_spec-IsRetained_example : IsRetained full normal_page
validate_source_version_spec-IsRetained_example =
    validate_source_version_spec-IsRetained library full a_page normal_page normal_page-ok

validate_source_version_spec_twice_example :
    validate_source_version_spec library full normal_page ≡ ok normal_page
validate_source_version_spec_twice_example =
    validate_source_version_spec_twice library library-TimeLaws full a_page normal_page
      normal_page-ok

abbrev service : Service
service = record {
  max_snapshot_policy = full;
  lib = library;
  hexdigest = λ bytes. digest_text;
  token = codes "t1";
  content_id = codes "c1";
  version_id = codes "v1";
  now = codes "0";
  projects = λ catalog. true;
  commits = λ catalog. true;
}

abbrev stores : Stores
stores = (
  record {
    sources = record { id = codes "s1"; visibility = codes "private" } ∷ [];
    content_objects = [];
    source_versions = [];
  },
  record { object_files = []; stage_files = []; staged = [] },
)

abbrev counts : Stores → ℕ × ℕ × ℕ
counts (catalog, blobs) =
    (length catalog.source_versions, length blobs.object_files, length blobs.stage_files)

created : counts (create_or_reuse service a_page stores).1 ≡ (1, 1, 0)
unfolding create_or_reuse same starts_with
created = refl

stores-IsBacked : IsBacked (λ bytes. digest_text) stores
stores-IsBacked = record { consistent = record { found_by_id = tt; referring = tt }; backed = tt }

create_or_reuse-IsBacked_example :
    IsBacked (λ bytes. digest_text) (create_or_reuse service a_page stores).1
    × (blob_reference_error_count (create_or_reuse service a_page stores).1.0 ≡ 0)
create_or_reuse-IsBacked_example =
    create_or_reuse-IsBacked service library-TimeLaws a_page stores stores-IsBacked

create_or_reuse-Outcome_example : Outcome stores.0 (create_or_reuse service a_page stores)
create_or_reuse-Outcome_example = create_or_reuse-Outcome service a_page stores
