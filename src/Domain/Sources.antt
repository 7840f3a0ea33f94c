-- ===== src/Domain/Sources.antt =====
-- domain/sources.py: the observations of a source that are accepted, and their normal form.
pub mod Normal
pub mod Facts
pub mod Accepted
pub mod Validate
use codex_research_skill.Base.{
  ℕ, Bool, true, false, not, ◌&&◌, ◌||◌, Option, none, some, List, [], ◌∷◌, ◌++◌, length, any, leb,
  ltb, ◌==◌, is_some, get_or, if◌then◌else◌, Result, ok, err, guard, reject_if, ◌>>=◌, ◌>>◌,
}
use Prim.Native.Nat.{◌/◌}
use codex_research_skill.Text.{Text, codes, same, starts_with, one_of}
use codex_research_skill.Text.Spaces.{strip}
use codex_research_skill.Domain.Evidence.Selectors.{is_git_object_id}
use codex_research_skill.Ingestion.Blobs.{Bytes, BlobError, validate_sha256, validate_media_type}

-- `SourceVersionError`, and its subclass for what the retention policy refuses
pub data SourceVersionError : Type 0 where
  source_version_error snapshot_policy_denied : SourceVersionError

-- a `datetime`: whether it has a UTC offset, and its microseconds in UTC
pub record Moment : Type 0 where
  pub has_offset : Bool
  pub microseconds : ℕ

pub data Timestamp : Type 0 where
  iso_text : Text → Timestamp
  date_time : Moment → Timestamp

-- a value of the metadata: a string, or another value by its JSON
pub data MetadataValue : Type 0 where
  text_value json_value : Text → MetadataValue

abbrev pub Metadata : Type 0
Metadata = List (Text × MetadataValue)

-- A kind and a policy are the texts that the source tests; a count is not negative.
pub record SourceVersionSpec : Type 0 where
  pub source_id : Text
  pub version_key : Option Text
  pub version_kind : Text
  pub retrieved_at : Timestamp
  pub content_sha256 : Text
  pub canonical_locator : Text
  pub snapshot_policy : Text
  pub snapshot_bytes : Option Bytes
  pub published_at : Option Timestamp
  pub media_type : Option Text
  pub byte_count : Option ℕ
  pub parser_name : Option Text
  pub parser_version : Option Text
  pub repository_locator : Option Text
  pub commit_sha : Option Text
  pub blob_sha : Option Text
  pub path : Option Text
  pub metadata : Metadata

-- datetime, pathlib and json: `none` is a ValueError, and `isoformat` prints whole seconds in UTC.
pub record Library : Type 0 where
  pub fromisoformat : Text → Option Moment
  pub isoformat : ℕ → Text
  pub posix_parts : Text → List Text
  pub posix_str : Text → Text
  pub is_json : Metadata → Bool

-- `_VERSION_KINDS`
unfoldable pub is_version_kind : Text → Bool
unfolding same
is_version_kind kind =
    one_of kind ("web" ∷ "doi" ∷ "file" ∷ "git_blob" ∷ "pdf" ∷ "api" ∷ "note" ∷ "migration" ∷ [])

-- `_POLICY_ORDER`
unfoldable pub policy_order : Text → Option ℕ
unfolding same
policy_order policy =
    if same policy (codes "metadata_only")
    then some 0
    else if same policy (codes "evidence_only")
    then some 1
    else if same policy (codes "extracted_text")
    then some 2
    else if same policy (codes "full_content")
    then some 3
    else none

-- the test on the source id, and its normal form
unfoldable pub check_source_id : Text → Result SourceVersionError Text
unfolding strip
check_source_id source_id =
    guard (leb 1 (length (strip source_id)) && leb (length source_id) 200) source_version_error
    >> ok (strip source_id)

-- `raise SourceVersionError(str(exc)) from exc`
abbrev pub from_blobs : {A : Type 0} → Result BlobError A → Result SourceVersionError A
from_blobs (ok a) = ok a
from_blobs (err _) = err source_version_error

abbrev pub order_fits : Option ℕ → Option ℕ → Bool
order_fits (some wanted) (some allowed) = leb wanted allowed
order_fits _ _ = false

-- both policies are known and the first is within the second
unfoldable pub check_policy : Text → Text → Result SourceVersionError (Unit {0})
unfolding policy_order
check_policy policy max_policy =
    guard (order_fits (policy_order policy) (policy_order max_policy)) snapshot_policy_denied

-- Bytes are given exactly under the policies that retain them.
unfoldable pub check_bytes : Text → Option Bytes → Result SourceVersionError (Unit {0})
unfolding same
check_bytes policy snapshot_bytes =
    let is_light = one_of policy ("metadata_only" ∷ "evidence_only" ∷ []) in
    if is_light
    then reject_if (is_some snapshot_bytes) snapshot_policy_denied
    else guard (is_some snapshot_bytes) snapshot_policy_denied

-- the byte count that is stored
unfoldable pub count_of : Option Bytes → Option ℕ → Result SourceVersionError (Option ℕ)
count_of none byte_count = ok byte_count
count_of (some bytes) byte_count =
    reject_if (ltb 50_000_000 (length bytes)) snapshot_policy_denied
    >> guard (get_or byte_count (length bytes) == length bytes) source_version_error
    >> ok (some (length bytes))

-- `spec.version_key or f"{spec.version_kind}:{content_sha256}"`
abbrev pub key_or : Option Text → Text → Text → Text
key_or none kind digest = kind ++ (58 ∷ digest)
key_or (some []) kind digest = kind ++ (58 ∷ digest)
key_or (some (c ∷ key)) kind digest = c ∷ key

unfoldable pub key_of : Option Text → Text → Text → Result SourceVersionError Text
key_of version_key kind digest =
    let key = key_or version_key kind digest in
    guard (leb 1 (length key) && leb (length key) 500) source_version_error >> ok key

unfoldable pub check_locator : Text → Result SourceVersionError (Unit {0})
check_locator locator =
    guard (leb 1 (length locator) && leb (length locator) 8192) source_version_error

-- `value.replace("Z", "+00:00")`
unfoldable pub replace_z : Text → Text
replace_z [] = []
replace_z (c ∷ text) =
    let rest = replace_z text in if c == 90 then codes "+00:00" ++ rest else c ∷ rest

-- `_bounded_optional`
unfoldable pub bounded_optional : ℕ → Option Text → Result SourceVersionError (Unit {0})
bounded_optional maximum none = ok tt
bounded_optional maximum (some value) = guard (leb (length value) maximum) source_version_error

abbrev pub is_object_id : Option Text → Bool
is_object_id none = false
is_object_id (some sha) = is_git_object_id sha

abbrev pub is_absent_or_object_id : Option Text → Bool
is_absent_or_object_id none = true
is_absent_or_object_id (some sha) = is_git_object_id sha
