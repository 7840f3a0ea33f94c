-- ===== src/Ingestion/Locators/Parameters.antt =====
-- locator_security.py: the parameters of a URL, and the keys that name a secret.
use codex_research_skill.Base.{
  ℕ, Bool, true, false, not, ◌||◌, List, [], ◌∷◌, ◌++◌, map, keep, ◌==◌, if◌then◌else◌, String,
}
use codex_research_skill.Text.{Text, codes, same, ends_with, one_of}
use codex_research_skill.Text.Spaces.{is_space}

abbrev pub prepend : ℕ → List Text → List Text
prepend c [] = (c ∷ []) ∷ []
prepend c (part ∷ parts) = (c ∷ part) ∷ parts

-- `text.split(separator)` at each code point that is a separator
unfoldable pub split_at : (ℕ → Bool) → Text → List Text
split_at separates [] = [] ∷ []
split_at separates (c ∷ text) =
    let rest = split_at separates text in if separates c then [] ∷ rest else prepend c rest

abbrev pub in_pair : ℕ → Text × Text → Text × Text
in_pair c (key, value) = (c ∷ key, value)

-- `field.partition("=")`
unfoldable pub partition_field : Text → Text × Text
partition_field [] = ([], [])
partition_field (c ∷ field) =
    let rest = partition_field field in if c == 61 then ([], field) else in_pair c rest

abbrev pub is_nonempty : Text → Bool
is_nonempty [] = false
is_nonempty (_ ∷ _) = true

abbrev pub fields_of : List Text → List (Text × Text)
fields_of fields = map partition_field (keep is_nonempty fields)

abbrev pub all_but_first : List Text → List Text
all_but_first [] = []
all_but_first (_ ∷ parts) = parts

-- the matrix fields of the segments of a path
unfoldable pub matrix_fields : List Text → List (Text × Text)
unfolding split_at partition_field
matrix_fields [] = []
matrix_fields (segment ∷ segments) =
    fields_of (all_but_first (split_at (λ c. c == 59) segment)) ++ matrix_fields segments

-- `_parameter_fields`
unfoldable pub parameter_fields : Text → Text → List (Text × Text)
unfolding split_at partition_field matrix_fields
parameter_fields query path =
    fields_of (split_at (λ c. c == 38 || c == 59) query)
    ++ matrix_fields (split_at (λ c. c == 47) path)

-- `_SECRET_QUERY_KEYS`
abbrev pub secret_query_keys : List String
secret_query_keys =
    "token" ∷ "access_token" ∷ "api_key" ∷ "apikey" ∷ "key" ∷ "secret" ∷ "signature" ∷ "sig"
    ∷ "credential" ∷ "credentials" ∷ "session" ∷ "session_id" ∷ "sessionid" ∷ "password" ∷ "passwd"
    ∷ "authorization" ∷ "auth" ∷ "bearer" ∷ "jwt" ∷ "jsessionid" ∷ "private_key" ∷ "saml_response"
    ∷ "assertion" ∷ "oauth_verifier" ∷ []

-- `_SECRET_QUERY_SUFFIXES`
abbrev pub secret_query_suffixes : List String
secret_query_suffixes =
    "_token" ∷ "_secret" ∷ "_signature" ∷ "_credential" ∷ "_password" ∷ "_passwd" ∷ "_authorization"
    ∷ "_api_key" ∷ "_private_key" ∷ "_access_key" ∷ "_assertion" ∷ "_saml_response"
    ∷ "_oauth_verifier" ∷ []

-- `_SECRET_COMPACT_QUERY_KEYS`
abbrev pub secret_compact_query_keys : List String
secret_compact_query_keys =
    "accesstoken" ∷ "apikey" ∷ "authorization" ∷ "authtoken" ∷ "awsaccesskeyid" ∷ "bearertoken"
    ∷ "clientassertion" ∷ "clientsecret" ∷ "idtoken" ∷ "jsessionid" ∷ "oauthverifier" ∷ "password"
    ∷ "passwd" ∷ "privatekey" ∷ "refreshtoken" ∷ "samlresponse" ∷ "secretaccesskey"
    ∷ "securitytoken" ∷ "sessionid" ∷ "sharedaccesssignature" ∷ "xapikey" ∷ []

-- a run of spaces, dots and dashes is one underscore; `in_run` tells of a run that is open
unfoldable pub underscored : Bool → Text → Text
unfolding is_space
underscored in_run [] = []
underscored in_run (c ∷ key) =
    let after_run = underscored true key in
    let after_other = underscored false key in
    if is_space c || c == 46 || c == 45
    then (if in_run then after_run else 95 ∷ after_run)
    else c ∷ after_other

-- `text.lstrip("_")`
pub strip_underscores_left : Text → Text
strip_underscores_left [] = []
strip_underscores_left (c ∷ text) =
    let rest = strip_underscores_left text in if c == 95 then rest else c ∷ text

-- `text.rstrip("_")`
pub strip_underscores_right : Text → Text
strip_underscores_right [] = []
strip_underscores_right (c ∷ text) = elim (strip_underscores_right text) [
  | [] ↦ if c == 95 then [] else c ∷ []
  | d ∷ rest ↦ c ∷ d ∷ rest
]

-- the candidates of a key: the key, and its parts between brackets
unfoldable pub candidates : Text → List Text
unfolding split_at strip_underscores_left strip_underscores_right
candidates key =
    key
    ∷ keep is_nonempty (
        map (λ part. strip_underscores_right (strip_underscores_left part))
          (keep is_nonempty (split_at (λ c. c == 91 || c == 93) key)))

abbrev pub any_suffix : Text → List String → Bool
any_suffix text [] = false
any_suffix text (s ∷ rest) = ends_with text (codes s) || any_suffix text rest

unfoldable pub is_secret_candidate : Text → Bool
unfolding same ends_with
is_secret_candidate candidate =
    one_of candidate secret_query_keys
    || any_suffix candidate secret_query_suffixes
    || one_of (keep (λ c. not (c == 95)) candidate) secret_compact_query_keys
