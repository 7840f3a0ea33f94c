-- ===== src/Ingestion/Locators/Nesting.antt =====
-- The locators that stand inside a locator, and what is asked of each.
use codex_research_skill.Base.{
  ℕ, zero, suc, ◌≡◌, ◌⊎◌, true, false, Option, none, some, List, [], ◌∷◌, All,
}
use codex_research_skill.Text.{Text}
use codex_research_skill.Ingestion.Locators.{
  LocatorParts, Urls, is_http, has_unsafe_url_character, is_secret_parameter_key,
  nested_http_locator,
}
use codex_research_skill.Ingestion.Locators.Parameters.{is_nonempty, parameter_fields}

module _ (urls : Urls) where
  -- Some value of the fields names the locator.
  abbrev pub Names : List (Text × Text) → Text → Type 0
  Names [] nested = ⊥
  Names ((key, value) ∷ fields) nested =
      (nested_http_locator urls value ≡ some nested) ⊎ Names fields nested

  -- `nested` stands in a parameter of the HTTP locator `value`.
  abbrev pub StandsIn : Text → Text → Type 0
  StandsIn nested value =
      (parsed : LocatorParts) × (urls.urlsplit value ≡ some parsed)
      × (is_http urls parsed ≡ true)
      × Names (parameter_fields parsed.query parsed.path) nested

  -- `inner` stands in `value`, `n` parameters deep.
  abbrev pub Inside : ℕ → Text → Text → Type 0
  Inside zero value inner = value ≡ inner
  Inside (suc n) value inner = (nested : Text) × StandsIn nested value × Inside n nested inner

  -- An absolute URL with no control character or space, no userinfo, no fragment, and no parameter
  -- whose key names a secret.
  pub record IsSafeHttp (value : Text) (parsed : LocatorParts) : Type 0 where
    pub characters : has_unsafe_url_character urls value ≡ false
    pub host : (name : Text) × (parsed.hostname ≡ some (some name))
    pub port : (number : Option ℕ) × (parsed.port ≡ some number)
    pub netloc : is_nonempty parsed.netloc ≡ true
    pub username : parsed.username ≡ none
    pub password : parsed.password ≡ none
    pub fragment : parsed.fragment ≡ []
    pub keys :
        All
          (λ field. is_secret_parameter_key urls field.0 ≡ false)
          (parameter_fields parsed.query parsed.path)

  -- The locator can be split and, when it is HTTP, it is safe.
  abbrev pub IsSafe : Text → Type 0
  IsSafe value =
      (parsed : LocatorParts) × (urls.urlsplit value ≡ some parsed)
      × (is_http urls parsed ≡ true → IsSafeHttp value parsed)
