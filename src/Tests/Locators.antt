-- ===== src/Tests/Locators.antt =====
-- The theorem on accepted locators, for a locator with another one in a parameter.
use codex_research_skill.Base.{
  ◌≡◌, ◌≤◌, refl, inl, inr, false, none, some, [], if◌then◌else◌, ok, err,
}
use codex_research_skill.Text.{Text, codes, same, starts_with, ends_with}
use codex_research_skill.Ingestion.Locators.{UnsafeLocatorError, Urls, validate_safe_locator}
use codex_research_skill.Ingestion.Locators.Nesting.{IsSafe}
use codex_research_skill.Ingestion.Locators.Sound.{validate_safe_locator_iff}

abbrev query_of : Text → Text
query_of url =
    if starts_with url (codes "https://a")
    then codes "page=1&u=//b.org"
    else if starts_with url (codes "https://c")
    then codes "x[id-token]=7"
    else codes ""

abbrev urls : Urls
urls = record {
  urlsplit = λ url. some record {
    scheme = codes "https";
    netloc = codes "host";
    username = none;
    password = none;
    hostname = some (some (codes "host"));
    port = some none;
    path = codes "/p;v=1/q";
    query = query_of url;
    fragment = [];
  };
  unquote_plus = λ text. text;
  nfkc = λ text. text;
  lower = λ text. text;
  is_control = λ c. false;
}

a_locator-ok : validate_safe_locator urls (codes "https://a.org") ≡ ok (codes "https://a.org")
unfolding validate_safe_locator same starts_with ends_with
a_locator-ok = refl

a_secret-denied :
    validate_safe_locator urls (codes "https://c.org") ≡ err UnsafeLocatorError.credential_parameter
unfolding validate_safe_locator same starts_with ends_with
a_secret-denied = refl

validate_safe_locator_iff_example : IsSafe urls (codes "https://b.org") × (1 ≤ 3)
unfolding validate_safe_locator same starts_with ends_with
validate_safe_locator_iff_example =
    (validate_safe_locator_iff urls (codes "https://a.org")).0 a_locator-ok 1
      (codes "https://b.org") (codes "https://b.org", (_, refl, refl, inr (inl refl)), refl)
