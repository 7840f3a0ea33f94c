-- ===== src/Ingestion/FetchPolicy.antt =====
-- ingestion/fetch_policy.py: which URLs may be fetched, and from which addresses.
pub mod Open
pub mod Sound
use codex_research_skill.Base.{
  ℕ, zero, suc, ◌+◌, Bool, true, false, not, ◌&&◌, ◌||◌, Option, none, some, List, [], ◌∷◌, ◌++◌,
  map, length, any, all, leb, ltb, ◌==◌, is_some, get_or, if◌then◌else◌, distinct, String, Result,
  ok, err, guard, reject_if, ◌>>=◌, ◌>>◌,
}
use Prim.Native.Nat.{◌/◌, ◌%◌}
use codex_research_skill.Text.{Text, codes, same, ends_with, one_of}
use codex_research_skill.Text.Sorted.{sort_by}

pub data FetchPolicyError : Type 0 where
  url_scheme_denied url_address_denied url_port_denied : FetchPolicyError

-- The limits that `validate_url` reads, and the others that are counted. Times are left out.
pub record FetchPolicy : Type 0 where
  pub allow_http : Bool
  pub allowed_nonstandard_ports : List ℕ
  pub max_url_length : ℕ
  pub max_redirects : ℕ
  pub max_response_bytes : ℕ
  pub max_extracted_text_bytes : ℕ
  pub max_header_bytes : ℕ
  pub max_json_depth : ℕ
  pub max_json_nodes : ℕ

-- `FetchPolicy.__post_init__`, for numbers that are not negative
unfoldable pub is_policy : FetchPolicy → Bool
is_policy policy =
    all (leb 1) (
      policy.max_url_length ∷ policy.max_response_bytes ∷ policy.max_extracted_text_bytes
      ∷ policy.max_header_bytes ∷ policy.max_json_depth ∷ policy.max_json_nodes ∷ [])
    && all (λ port. leb 1 port && leb port 65535) policy.allowed_nonstandard_ports

-- `SplitResult`, with its `port`
pub record SplitUrl : Type 0 where
  pub scheme : Text
  pub username : Option Text
  pub password : Option Text
  pub hostname : Option Text
  pub port : Option ℕ
  pub path : Text
  pub query : Text

-- The tests of an `ipaddress` object.
pub record AddressTests : Type 0 where
  pub is_global : Bool
  pub is_multicast : Bool
  pub is_unspecified : Bool
  pub is_loopback : Bool
  pub is_link_local : Bool
  pub is_private : Bool
  pub is_reserved : Bool

-- an address and, for IPv6, the IPv4 address mapped into it
pub record IpAddress : Type 0 where
  pub tests : AddressTests
  pub ipv4_mapped : Option AddressTests

-- What a resolver may list: a family with an address, the result of getaddrinfo, an address, or
-- something else.
pub data ResolverItem : Type 0 where
  family_item info_item address_item : Text → ResolverItem
  other_item : ResolverItem

-- urllib, the IDNA codec, ipaddress and the resolver. `none` is an exception.
pub record Network : Type 0 where
  pub urlsplit : Text → Option SplitUrl
  pub urlunsplit : Text → Text → Text → Text → Text
  pub lower : Text → Text
  pub idna : Text → Option Text
  pub ip_address : Text → Option IpAddress
  pub resolver : Text → ℕ → Option (List ResolverItem)

pub record ValidatedTarget : Type 0 where
  pub url : Text
  pub scheme : Text
  pub host : Text
  pub port : ℕ
  pub address : Text
  pub addresses : List Text
  pub request_target : Text
  pub host_header : Text

abbrev or_denied : {A : Type 0} → Option A → Result FetchPolicyError A
or_denied none = err url_address_denied
or_denied (some a) = ok a

-- `str(n)`, whose digits are at most n
digits : ℕ → ℕ → Text
digits zero n = []
digits (suc fuel) n =
    let more = digits fuel (n / 10) in
    if ltb n 10 then (48 + n) ∷ [] else more ++ (48 + n % 10) ∷ []

abbrev pub has_code : ℕ → Text → Bool
has_code c text = any (λ d. d == c) text

unfoldable pub is_malformed : FetchPolicy → Text → Bool
is_malformed policy url =
    leb (length url) 0
    || ltb policy.max_url_length (length url)
    || any (λ c. ltb c 32 || c == 127) url
    || has_code 92 url

-- `host.rstrip(".")`
strip_dots : Text → Text
strip_dots [] = []
strip_dots (c ∷ host) = elim (strip_dots host) [
  | [] ↦ if c == 46 then [] else c ∷ []
  | d ∷ rest ↦ c ∷ d ∷ rest
]

-- `_normalize_host`
unfoldable pub normalize_host : Network → Text → Result FetchPolicyError Text
unfolding strip_dots
normalize_host net host =
    let lowered = net.lower (strip_dots host) in
    reject_if (leb (length lowered) 0 || ltb 253 (length lowered)) url_address_denied
    >> or_denied (net.idna lowered)

-- `_LOCAL_HOSTS`, `_LOCAL_SUFFIXES` and the tests beside them
unfoldable pub is_local : Text → Bool
unfolding same ends_with
is_local host =
    one_of host (
      "localhost" ∷ "localhost.localdomain" ∷ "metadata" ∷ "metadata.google.internal"
      ∷ "instance-data" ∷ [])
    || ends_with host (codes ".localhost")
    || ends_with host (codes ".local")
    || ends_with host (codes ".internal")
    || ends_with host (codes ".arpa")
    || has_code 37 host

-- `_resolved_address`
resolved_address : ResolverItem → Option Text
resolved_address (family_item a) = some a
resolved_address (info_item a) = some a
resolved_address (address_item a) = some a
resolved_address other_item = none

unfoldable pub resolve_all : List ResolverItem → Option (List Text)
unfolding resolved_address
resolve_all [] = some []
resolve_all (item ∷ items) =
    let rest = resolve_all items in
    elim (resolved_address item) [
      | none ↦ none
      | some a ↦ elim rest [ none ↦ none | some others ↦ some (a ∷ others) ]
    ]

abbrev pub is_public : AddressTests → Bool
is_public t =
    t.is_global
    && not (
        t.is_multicast || t.is_unspecified || t.is_loopback || t.is_link_local || t.is_private
        || t.is_reserved)

-- `_validate_address`, as a test: the mapped address is judged in place of the address
unfoldable pub is_public_address : Network → Text → Bool
is_public_address net raw = elim (net.ip_address raw) [
  | none ↦ false
  | some address ↦ is_public (get_or address.ipv4_mapped address.tests)
]

unfoldable pub validate_addresses : Network → List Text → Result FetchPolicyError (Unit {0})
unfolding is_public_address
validate_addresses net [] = ok tt
validate_addresses net (address ∷ addresses) =
    let rest = validate_addresses net addresses in
    guard (is_public_address net address) url_address_denied >> rest

abbrev pub default_port : Text → ℕ
default_port scheme = elim (same scheme (codes "https")) [ true ↦ 443 | false ↦ 80 ]

-- `port or default_port`
abbrev or_port : Option ℕ → ℕ → ℕ
or_port none default = default
or_port (some zero) default = default
or_port (some (suc port)) default = suc port

unfoldable pub is_allowed_scheme : FetchPolicy → Text → Bool
unfolding same
is_allowed_scheme policy scheme =
    same scheme (codes "https") || (same scheme (codes "http") && policy.allow_http)

unfoldable pub is_allowed_port : FetchPolicy → Text → ℕ → Bool
unfolding same
is_allowed_port policy scheme port =
    port == default_port scheme || any (λ p. p == port) policy.allowed_nonstandard_ports

with_port : Text → Text → ℕ → Text
unfolding digits same
with_port host scheme port =
    let bracketed = if has_code 58 host then 91 ∷ (host ++ 93 ∷ []) else host in
    if port == default_port scheme then bracketed else bracketed ++ (58 ∷ digits (suc port) port)

-- `parsed.path or "/"`
abbrev or_slash : Text → Text
or_slash [] = codes "/"
or_slash (c ∷ path) = c ∷ path

abbrev with_query : Text → Text → Text
with_query path [] = path
with_query path (c ∷ query) = path ++ (63 ∷ c ∷ query)

-- the target of a URL whose addresses are valid
unfoldable pub target_of :
    Network → SplitUrl → Text → Text → ℕ → List Text → Result FetchPolicyError ValidatedTarget
unfolding with_port
target_of net parsed scheme host port [] = err url_address_denied
target_of net parsed scheme host port (address ∷ addresses) = ok record {
  url = net.urlunsplit scheme (with_port host scheme port) (or_slash parsed.path) parsed.query;
  scheme = scheme;
  host = host;
  port = port;
  address = address;
  addresses = address ∷ addresses;
  request_target = with_query (or_slash parsed.path) parsed.query;
  host_header = with_port host scheme port;
}

-- `validate_url` from the host on
unfoldable pub validate_host :
    Network → FetchPolicy → SplitUrl → Text → Text → Result FetchPolicyError ValidatedTarget
unfolding normalize_host is_local is_allowed_port resolve_all distinct sort_by validate_addresses
    target_of
validate_host net policy parsed scheme hostname = normalize_host net hostname >>= λ host.
    let port = or_port parsed.port (default_port scheme) in
    reject_if (is_local host) url_address_denied
    >> guard (is_allowed_port policy scheme port) url_port_denied
    >> (or_denied (net.resolver host port) >>= λ items. or_denied (resolve_all items) >>= λ found.
        let addresses = sort_by (λ a. a) (distinct same found) in
        validate_addresses net addresses >> target_of net parsed scheme host port addresses)

-- `validate_url`
unfoldable pub validate_url : Network → FetchPolicy → Text → Result FetchPolicyError ValidatedTarget
unfolding is_malformed is_allowed_scheme validate_host
validate_url net policy url =
    reject_if (is_malformed policy url) url_address_denied
    >> (or_denied (net.urlsplit url) >>= λ parsed.
        let scheme = net.lower parsed.scheme in
        guard (is_allowed_scheme policy scheme) url_scheme_denied
        >> reject_if (is_some parsed.username || is_some parsed.password) url_address_denied
        >> (or_denied parsed.hostname >>= λ hostname.
            validate_host net policy parsed scheme hostname))
