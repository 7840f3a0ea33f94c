-- ===== src/Ingestion/Locators.antt =====
-- locator_security.py: which HTTP locators may be stored.
pub mod Nesting
pub mod Sound
pub mod Parameters
use codex_research_skill.Base.{
  ℕ, zero, suc, Bool, true, false, not, ◌&&◌, ◌||◌, Option, none, some, List, [], ◌∷◌, ◌++◌, map,
  any, keep, is_some, ◌==◌, if◌then◌else◌, String, Result, ok, err, guard, reject_if, ◌>>=◌, ◌>>◌,
}
use codex_research_skill.Text.{Text, codes, same, starts_with, ends_with, one_of}
use codex_research_skill.Text.Spaces.{is_space, strip}
use codex_research_skill.Ingestion.Locators.Parameters.{
  prepend, split_at, in_pair, partition_field, is_nonempty, fields_of, all_but_first, matrix_fields,
  parameter_fields, secret_query_keys, secret_query_suffixes, secret_compact_query_keys,
  underscored, strip_underscores_left, strip_underscores_right, candidates, any_suffix,
  is_secret_candidate,
}

-- The messages of `UnsafeLocatorError`. A locator is a string here.
pub data UnsafeLocatorError : Type 0 where
  malformed not_absolute has_userinfo has_fragment credential_parameter : UnsafeLocatorError
  deeply_nested : UnsafeLocatorError

-- `urlsplit(value)`, with the attributes that may raise: `none` is a ValueError.
pub record LocatorParts : Type 0 where
  pub scheme : Text
  pub netloc : Text
  pub username : Option Text
  pub password : Option Text
  pub hostname : Option (Option Text)
  pub port : Option (Option ℕ)
  pub path : Text
  pub query : Text
  pub fragment : Text

-- urllib and the Unicode database. `none` is a ValueError.
pub record Urls : Type 0 where
  pub urlsplit : Text → Option LocatorParts
  pub unquote_plus : Text → Text
  pub nfkc : Text → Text
  pub lower : Text → Text
  -- `unicodedata.category(character) in {"Cc", "Cf", "Cs"}`
  pub is_control : ℕ → Bool

module _ (urls : Urls) where
  -- `_decode_component`, with the rounds that are left
  unfoldable pub decode_rounds : ℕ → Text → Text
  unfolding same
  decode_rounds zero decoded = decoded
  decode_rounds (suc rounds) decoded =
      let next_value = urls.unquote_plus decoded in
      let rest = decode_rounds rounds next_value in
      if same next_value decoded then decoded else rest

  -- `_decode_component`
  unfoldable pub decode_component : Text → Text
  unfolding decode_rounds
  decode_component value = decode_rounds 4 value

  -- `_is_secret_parameter_key`
  unfoldable pub is_secret_parameter_key : Text → Bool
  unfolding decode_component underscored strip candidates is_secret_candidate
  is_secret_parameter_key raw_key =
      let key = urls.nfkc (decode_component raw_key) in
      any is_secret_candidate (candidates (underscored false (urls.lower (strip key))))

  -- `_nested_http_locator`
  unfoldable pub nested_http_locator : Text → Option Text
  unfolding decode_component strip starts_with
  nested_http_locator raw_value =
      let value = strip (urls.nfkc (decode_component raw_value)) in
      let lowered = urls.lower value in
      if starts_with lowered (codes "http://") || starts_with lowered (codes "https://")
      then some value
      else if starts_with value (codes "//")
      then some (codes "https:" ++ value)
      else none

  -- `_has_unsafe_url_character`
  unfoldable pub has_unsafe_url_character : Text → Bool
  unfolding is_space
  has_unsafe_url_character value = any (λ c. c == 92 || is_space c || urls.is_control c) value

  -- `parsed.scheme.lower() in _HTTP_SCHEMES`
  unfoldable pub is_http : LocatorParts → Bool
  unfolding same
  is_http parsed = one_of (urls.lower parsed.scheme) ("http" ∷ "https" ∷ [])

  abbrev pub check_nested :
      (Text → Result UnsafeLocatorError (Unit {0}))
      → Option Text
      → Result UnsafeLocatorError (Unit {0})
  check_nested check none = ok tt
  check_nested check (some nested) = check nested

  -- the loop over the parameter fields; `check` is what is done with a nested locator
  unfoldable pub check_fields :
      (Text → Result UnsafeLocatorError (Unit {0}))
      → List (Text × Text)
      → Result UnsafeLocatorError (Unit {0})
  unfolding is_secret_parameter_key nested_http_locator
  check_fields check [] = ok tt
  check_fields check ((raw_key, raw_value) ∷ fields) =
      let rest = check_fields check fields in
      reject_if (is_secret_parameter_key raw_key) credential_parameter
      >> check_nested check (nested_http_locator raw_value)
      >> rest

  abbrev or_malformed : {A : Type 0} → Option A → Result UnsafeLocatorError A
  or_malformed none = err malformed
  or_malformed (some a) = ok a

  -- the tests on the parts of an HTTP locator, before its parameters
  unfoldable pub check_parts : Text → LocatorParts → Result UnsafeLocatorError (Unit {0})
  unfolding has_unsafe_url_character
  check_parts value parsed =
      reject_if (has_unsafe_url_character value) malformed
      >> (or_malformed parsed.hostname >>= λ hostname. or_malformed parsed.port >>= λ port.
          guard (is_nonempty parsed.netloc && is_some hostname) not_absolute)
      >> reject_if (is_some parsed.username || is_some parsed.password) has_userinfo
      >> reject_if (is_nonempty parsed.fragment) has_fragment

  -- one call of `_validate_safe_locator`; `check` is what is done with a nested locator
  unfoldable pub validate_with :
      (Text → Result UnsafeLocatorError (Unit {0})) → Text → Result UnsafeLocatorError (Unit {0})
  unfolding is_http check_parts parameter_fields check_fields
  validate_with check value = or_malformed (urls.urlsplit value) >>= λ parsed.
      if is_http parsed
      then check_parts value parsed
        >> check_fields check (parameter_fields parsed.query parsed.path)
      else ok tt

  -- `_validate_safe_locator`, with the levels of nesting that are left
  unfoldable pub validate_level : ℕ → Text → Result UnsafeLocatorError (Unit {0})
  unfolding validate_with
  validate_level zero value = validate_with (λ _. err deeply_nested) value
  validate_level (suc levels) value = validate_with (validate_level levels) value

  -- `validate_safe_locator`
  unfoldable pub validate_safe_locator : Text → Result UnsafeLocatorError Text
  unfolding validate_level
  validate_safe_locator value = validate_level 3 value >> ok value
