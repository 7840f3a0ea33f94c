-- ===== src/Ingestion/Blobs.antt =====
-- ingestion/blobs.py: digests and media types.
pub mod Files
pub mod Objects
pub mod Media
use codex_research_skill.Base.{
  ℕ, ◌+◌, Bool, true, false, ◌&&◌, ◌||◌, Option, none, some, List, [], ◌∷◌, ◌++◌, map, length, take,
  drop, all, leb, ◌==◌, if◌then◌else◌, Result, ok, err, ◌>>=◌,
}
use codex_research_skill.Text.{Text, codes}
use codex_research_skill.Domain.Evidence.Resolve.{is_sha256}

abbrev pub Bytes : Type 0
Bytes = List ℕ

pub data BlobError : Type 0 where
  validation containment integrity not_found exists : BlobError

-- `[A-Za-z0-9]`
abbrev is_alphanumeric : ℕ → Bool
is_alphanumeric c = (leb 48 c && leb c 57) || (leb 65 c && leb c 90) || (leb 97 c && leb c 122)

-- `[A-Za-z0-9!#$&^_.+-]`
abbrev is_media_code : ℕ → Bool
is_media_code c =
    is_alphanumeric c
    || c == 33
    || c == 35
    || c == 36
    || c == 38
    || c == 94
    || c == 95
    || c == 46
    || c == 43
    || c == 45

-- one side of `_MEDIA_TYPE`
unfoldable pub is_media_name : Text → Bool
is_media_name [] = false
is_media_name (c ∷ name) = is_alphanumeric c && all is_media_code name && leb (length name) 126

abbrev pub in_left : ℕ → Option (Text × Text) → Option (Text × Text)
in_left c none = none
in_left c (some (left, right)) = some (c ∷ left, right)

-- the text before the first slash, and the text after it
unfoldable pub cut_slash : Text → Option (Text × Text)
cut_slash [] = none
cut_slash (c ∷ text) =
    let rest = cut_slash text in if c == 47 then some ([], text) else in_left c rest

abbrev pub both_names : Option (Text × Text) → Bool
both_names none = false
both_names (some (left, right)) = is_media_name left && is_media_name right

-- `_MEDIA_TYPE.fullmatch(value)`
unfoldable pub is_media_type : Text → Bool
unfolding cut_slash is_media_name
is_media_type value = both_names (cut_slash value)

-- `str.lower` of an ASCII text
abbrev pub lower_ascii : Text → Text
lower_ascii text = map (λ c. if leb 65 c && leb c 90 then c + 32 else c) text

-- `validate_sha256`
unfoldable pub validate_sha256 : Text → Result BlobError Text
unfolding is_sha256
validate_sha256 value = if is_sha256 value then ok value else err validation

-- `validate_media_type`
unfoldable pub validate_media_type : Option Text → Result BlobError (Option Text)
unfolding is_media_type
validate_media_type none = ok none
validate_media_type (some value) =
    if is_media_type value then ok (some (lower_ascii value)) else err validation

-- `storage_key_for_sha256`, for a digest that is valid
unfoldable pub storage_key_of : Text → Text
storage_key_of digest =
    codes "sha256/" ++ (take 2 digest ++ (47 ∷ (take 2 (drop 2 digest) ++ (47 ∷ digest))))

-- `storage_key_for_sha256`
unfoldable pub storage_key_for_sha256 : Text → Result BlobError Text
unfolding validate_sha256 storage_key_of
storage_key_for_sha256 value = validate_sha256 value >>= λ digest. ok (storage_key_of digest)
