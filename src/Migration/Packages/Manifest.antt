-- ===== src/Migration/Packages/Manifest.antt =====
-- migration_runner.py: the manifest of a bundle.
use codex_research_skill.Base.{
  Bool, true, false, ◌&&◌, ◌||◌, Option, none, some, [], ◌∷◌, length, leb, any, Result, ok, err,
  guard, ◌>>=◌, ◌>>◌,
}
use codex_research_skill.Text.{Text, codes, same}
use codex_research_skill.Domain.Evidence.Pointers.{
  Json, boolean, text, object, null, Fields, end, field, field_at,
}
use codex_research_skill.Migration.Packages.{
  Dialect, postgres, sqlite, MigrationError, invalid_manifest, id_mismatch, invalid_description,
  invalid_transactional, Bytes, Codecs, or_raise,
}

abbrev has_key : Fields → Text → Bool
has_key end key = false
has_key (field k v fields) key = same k key || has_key fields key

abbrev all_keys : (Text → Bool) → Fields → Bool
all_keys p end = true
all_keys p (field k v fields) = p k && all_keys p fields

abbrev is_manifest_field : Text → Bool
is_manifest_field key =
    any (same key) (codes "description" ∷ codes "migration_id" ∷ codes "transactional" ∷ [])

abbrev has_text : Option Json → Text → Bool
has_text (some (text value)) expected = same value expected
has_text _ expected = false

abbrev is_description : Option Json → Bool
is_description none = true
is_description (some null) = true
is_description (some (text value)) = leb (length value) 512
is_description (some _) = false

check_manifest : Text → Fields → Result MigrationError Fields
unfolding field_at
check_manifest migration_id fields =
    guard (all_keys is_manifest_field fields) (invalid_manifest migration_id)
    >> guard (has_key fields (codes "migration_id") && has_key fields (codes "transactional"))
        (invalid_manifest migration_id)
    >> guard (has_text (field_at fields (codes "migration_id")) migration_id)
        (id_mismatch migration_id)
    >> guard (is_description (field_at fields (codes "description")))
        (invalid_description migration_id)
    >> ok fields

by_dialect : Bool → Bool → Dialect → Bool
by_dialect p s postgres = p
by_dialect p s sqlite = s

abbrev is_dialect : Text → Bool
is_dialect key = any (same key) (codes "postgres" ∷ codes "sqlite" ∷ [])

dialect_flags : Bool → Option Json → Option Json → Option (Dialect → Bool)
unfolding by_dialect
dialect_flags true (some (boolean p)) (some (boolean s)) = some (by_dialect p s)
dialect_flags _ _ _ = none

transactional_of : Option Json → Option (Dialect → Bool)
unfolding dialect_flags field_at
transactional_of none = some (λ _. true)
transactional_of (some (boolean b)) = some (λ _. b)
transactional_of (some (object fields)) =
    dialect_flags (all_keys is_dialect fields) (field_at fields (codes "postgres"))
      (field_at fields (codes "sqlite"))
transactional_of (some _) = none

-- `_transactional_dialects`
unfoldable pub transactional_dialects : Text → Fields → Result MigrationError (Dialect → Bool)
unfolding transactional_of field_at
transactional_dialects migration_id manifest =
    or_raise (transactional_of (field_at manifest (codes "transactional")))
      (invalid_transactional migration_id)

-- `_parse_manifest`
unfoldable pub parse_manifest : Codecs → Text → Bytes → Result MigrationError Fields
unfolding check_manifest
parse_manifest io migration_id raw =
    or_raise (io.decode raw) (invalid_manifest migration_id) >>= λ decoded.
    or_raise (io.parse_json decoded) (invalid_manifest migration_id) >>= λ value. elim value [
      | object fields ↦ check_manifest migration_id fields
      | _ ↦ err (invalid_manifest migration_id)
    ]
