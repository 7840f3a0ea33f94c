-- ===== src/Ingestion/Blobs/Files.antt =====
-- ingestion/blobs.py: the file store of content. Links, permissions and directories are left out: a file
-- is a key with its bytes, and every file is a regular one.
pub mod Finalize
use codex_research_skill.Base.{
  ℕ, Bool, true, false, ◌&&◌, Option, none, some, List, [], ◌∷◌, length, ◌==◌, if◌then◌else◌,
  Result, ok, err, guard, ◌>>=◌, ◌>>◌,
}
use codex_research_skill.Text.{Text, same}
use codex_research_skill.Domain.Evidence.Resolve.{is_sha256}
use codex_research_skill.Ingestion.Blobs.{
  Bytes, BlobError, validation, containment, integrity, not_found, exists, validate_media_type,
  storage_key_for_sha256,
}

pub record BlobReference : Type 0 where
  pub sha256 : Text
  pub storage_key : Text
  pub byte_count : ℕ
  pub media_type : Option Text

pub record StagedBlob : Type 0 where
  pub token : Text
  pub sha256 : Text
  pub storage_key : Text
  pub byte_count : ℕ
  pub media_type : Option Text

-- `path` is the storage key below the root.
pub record FinalizedBlob : Type 0 where
  pub sha256 : Text
  pub storage_key : Text
  pub byte_count : ℕ
  pub media_type : Option Text
  pub reused : Bool

-- The files below the root and in `.staging`, and the blobs that the store has staged.
pub record BlobStore : Type 0 where
  pub object_files : List (Text × Bytes)
  pub stage_files : List (Text × Bytes)
  pub staged : List (Text × StagedBlob)

-- the entry of a key
unfoldable pub lookup : {A : Type 0} → Text → List (Text × A) → Option A
unfolding same
lookup key [] = none
lookup key ((k, a) ∷ rest) =
    let later = lookup key rest in elim (same k key) [ true ↦ some a | false ↦ later ]

-- the entries but those of a key
unfoldable pub remove : {A : Type 0} → Text → List (Text × A) → List (Text × A)
unfolding same
remove key [] = []
remove key ((k, a) ∷ rest) =
    let others = remove key rest in elim (same k key) [ true ↦ others | false ↦ (k, a) ∷ others ]

unfoldable pub same_option : Option Text → Option Text → Bool
unfolding same
same_option none none = true
same_option (some a) (some b) = same a b
same_option _ _ = false

unfoldable pub same_staged : StagedBlob → StagedBlob → Bool
unfolding same same_option
same_staged a b =
    same a.token b.token
    && same a.sha256 b.sha256
    && same a.storage_key b.storage_key
    && a.byte_count == b.byte_count
    && same_option a.media_type b.media_type

-- `self._staged.get(staged.token) == staged`
unfoldable pub owns : BlobStore → StagedBlob → Bool
unfolding lookup same_staged
owns store blob = elim (lookup blob.token store.staged) [
  | none ↦ false
  | some other ↦ same_staged other blob
]

abbrev pub has_entry : {A : Type 0} → Option A → Bool
has_entry none = false
has_entry (some _) = true

abbrev pub matches_count : Option ℕ → ℕ → Bool
matches_count none n = true
matches_count (some m) n = m == n

abbrev pub matches_digest : Option Text → Text → Bool
matches_digest none digest = true
matches_digest (some expected) digest = is_sha256 expected && same digest expected

-- `hexdigest` is SHA-256 as a lowercase hexadecimal text.
module _ (hexdigest : Bytes → Text) where
  -- what `stage_bytes` stages once its checks have passed
  unfoldable pub blob_of :
      Text → Bytes → Option Text → Option ℕ → Option Text → Result BlobError StagedBlob
  unfolding storage_key_for_sha256 validate_media_type same
  blob_of token content expected_sha256 expected_byte_count media_type =
      let digest = hexdigest content in
      guard (matches_digest expected_sha256 digest) validation
      >> guard (matches_count expected_byte_count (length content)) validation
      >> (validate_media_type media_type >>= λ normalized. storage_key_for_sha256 digest >>= λ key.
          ok record {
            token = token;
            sha256 = digest;
            storage_key = key;
            byte_count = length content;
            media_type = normalized;
          })

  -- the write of a staged file, which is removed again where one of the token is there
  unfoldable pub write_stage :
      StagedBlob → Bytes → BlobStore → Option Bytes → Result BlobError StagedBlob × BlobStore
  unfolding remove
  write_stage blob content store (some present) =
      (err exists, record store { stage_files = remove blob.token store.stage_files })
  write_stage blob content store none = (
    ok blob,
    record store {
      stage_files = (blob.token, content) ∷ store.stage_files;
      staged = (blob.token, blob) ∷ remove blob.token store.staged;
    },
  )

  abbrev pub staged_as :
      Result BlobError StagedBlob → Bytes → BlobStore → Result BlobError StagedBlob × BlobStore
  staged_as (err e) content store = (err e, store)
  staged_as (ok blob) content store =
      write_stage blob content store (lookup blob.token store.stage_files)

  -- `stage_bytes`, with the token that `uuid4` gives
  unfoldable pub stage_bytes :
      Text
      → Bytes
      → Option Text
      → Option ℕ
      → Option Text
      → BlobStore
      → Result BlobError StagedBlob × BlobStore
  unfolding blob_of write_stage
  stage_bytes token content expected_sha256 expected_byte_count media_type store =
      staged_as (blob_of token content expected_sha256 expected_byte_count media_type) content store

  -- `_path_for_reference`, without the test that the file is there
  unfoldable pub check_reference : BlobReference → Result BlobError (Unit {0})
  unfolding storage_key_for_sha256 validate_media_type same
  check_reference reference = storage_key_for_sha256 reference.sha256 >>= λ expected_key.
      validate_media_type reference.media_type >>= λ _.
      guard (same reference.storage_key expected_key) containment

  unfoldable pub is_content : Text → ℕ → Bytes → Bool
  unfolding same
  is_content sha256 byte_count content =
      same (hexdigest content) sha256 && length content == byte_count

  -- what `read` makes of the file
  unfoldable pub verified : BlobReference → Option Bytes → Result BlobError Bytes
  unfolding is_content
  verified reference none = err not_found
  verified reference (some content) =
      if is_content reference.sha256 reference.byte_count content then ok content else err integrity

  -- `read` with `verify=True`
  unfoldable pub read : BlobReference → BlobStore → Result BlobError Bytes
  unfolding check_reference lookup verified
  read reference store =
      check_reference reference
      >> verified reference (lookup reference.storage_key store.object_files)

  -- the store once the staged file is gone
  abbrev pub unstaged : StagedBlob → BlobStore → BlobStore
  unstaged blob store = record store {
    stage_files = remove blob.token store.stage_files;
    staged = remove blob.token store.staged;
  }

  abbrev pub reference_of : StagedBlob → BlobReference
  reference_of blob = record {
    sha256 = blob.sha256;
    storage_key = blob.storage_key;
    byte_count = blob.byte_count;
    media_type = blob.media_type;
  }

  abbrev pub finalized_as : StagedBlob → Bool → FinalizedBlob
  finalized_as blob reused = record {
    sha256 = blob.sha256;
    storage_key = blob.storage_key;
    byte_count = blob.byte_count;
    media_type = blob.media_type;
    reused = reused;
  }
