-- ===== src/Ingestion/FetchPolicy/Open.antt =====
-- What the tests on schemes, ports, hosts and addresses say, in terms of texts, numbers and the tests of
-- an address.
use codex_research_skill.Base.{
  ℕ, ◌-◌, ◌≡◌, ◌≢◌, ◌⊎◌, refl, sym, ap, ◌∙◌, inl, inr, Bool, true, false, ◌||◌, none, some, List,
  [], ◌∷◌, ◌++◌, length, drop, any, leb, ◌==◌, All, String, length-append, arith, Option-cases,
  Bool-cases,
}
use codex_research_skill.Text.{Text, codes, same, ends_with, one_of}
use codex_research_skill.Text.Find.{same_iff, same_refl}
use codex_research_skill.Ingestion.FetchPolicy.{
  FetchPolicy, AddressTests, IpAddress, Network, has_code, is_local, is_public, is_public_address,
  default_port, is_allowed_scheme, is_allowed_port,
}

abbrev pub OneOf : ℕ → List ℕ → Type 0
OneOf n [] = ⊥
OneOf n (x ∷ xs) = (n ≡ x) ⊎ OneOf n xs

-- The tests by which an address is judged: those of the IPv4 address mapped into it, if there is one.
abbrev pub JudgedBy : IpAddress → AddressTests → Type 0
JudgedBy address tests =
    (address.ipv4_mapped ≡ some tests) ⊎ ((address.ipv4_mapped ≡ none) × (address.tests ≡ tests))

-- An address that is read, and judged to be in the public network only.
pub record IsPublicAddress (net : Network) (raw : Text) : Type 0 where
  pub address : IpAddress
  pub tests : AddressTests
  pub is_read : net.ip_address raw ≡ some address
  pub judged_by : JudgedBy address tests
  pub global : tests.is_global ≡ true
  pub not_multicast : tests.is_multicast ≡ false
  pub not_unspecified : tests.is_unspecified ≡ false
  pub not_loopback : tests.is_loopback ≡ false
  pub not_link_local : tests.is_link_local ≡ false
  pub not_private : tests.is_private ≡ false
  pub not_reserved : tests.is_reserved ≡ false

either_false : (a b : Bool) → a || b ≡ false → (a ≡ false) × (b ≡ false)
either_false a b h = ground (arith, h)

same-false : (s t : Text) → same s t ≡ false → s ≢ t
same-false s t h e = let h' = same_iff s t in ground (arith, h, h', e)

pub one_of-false :
    (text : Text) (names : List String)
    → one_of text names ≡ false
    → All (λ n. text ≢ codes n) names
one_of-false text [] h = tt
one_of-false text (n ∷ names) h =
    let (here, rest) = either_false (same text (codes n)) (one_of text names) h in
    (same-false text (codes n) here, one_of-false text names rest)

drop-append : (front part : Text) → drop (length front) (front ++ part) ≡ part
drop-append [] part = refl
drop-append (c ∷ front) part = drop-append front part

append-ends_with : (front part : Text) → ends_with (front ++ part) part ≡ true
unfolding ends_with
append-ends_with front part =
    let sum = length-append front part in
    let enough : leb (length part) (length (front ++ part)) ≡ true = ground (arith, sum) in
    let start : length (front ++ part) - length part ≡ length front = omega (arith, sum) in
    let rest : same (drop (length (front ++ part) - length part) (front ++ part)) part ≡ true =
      ap (λ n. same (drop n (front ++ part)) part) start
      ∙ ap (λ t. same t part) (drop-append front part)
      ∙ same_refl part in
    ground (arith, enough, rest)

pub ends_with-false :
    (text part : Text) → ends_with text part ≡ false → (front : Text) → text ≢ front ++ part
ends_with-false text part h front e =
    let ends = append-ends_with front part in
    let bad = sym h ∙ ap (λ t. ends_with t part) e ∙ ends in ground (arith, bad)

pub has_code-false : (c : ℕ) (text : Text) → has_code c text ≡ false → All (λ d. d ≢ c) text
has_code-false c [] h = tt
has_code-false c (d ∷ text) h =
    let (here, rest) = either_false (d == c) (has_code c text) h in
    ((λ e. ground (arith, here, e)), has_code-false c text rest)

pub any-OneOf : (n : ℕ) (xs : List ℕ) → any (λ x. x == n) xs ≡ true → OneOf n xs
any-OneOf n [] h = ground (arith, h)
any-OneOf n (x ∷ xs) h = elim (Bool-cases (x == n)) [
  | inl here ↦ inl (ground (arith, here))
  | inr away ↦ inr (any-OneOf n xs (ground (arith, h, away)))
]

-- The schemes that a policy allows.
abbrev pub IsScheme : FetchPolicy → Text → Type 0
IsScheme policy scheme =
    (scheme ≡ codes "https") ⊎ ((scheme ≡ codes "http") × (policy.allow_http ≡ true))

-- The ports that a policy allows for a scheme.
abbrev pub IsPort : FetchPolicy → Text → ℕ → Type 0
IsPort policy scheme port =
    ((scheme ≡ codes "https") × (port ≡ 443))
    ⊎ (((scheme ≡ codes "http") × (port ≡ 80)) ⊎ OneOf port policy.allowed_nonstandard_ports)

-- A host that is no local name, has no ending of a local domain and has no percent sign.
pub record IsNotLocal (host : Text) : Type 0 where
  pub not_named :
      All
        (λ name. host ≢ codes name)
        ("localhost" ∷ "localhost.localdomain" ∷ "metadata" ∷ "metadata.google.internal"
          ∷ "instance-data" ∷ [])
  pub not_under :
      All
        (λ part. (front : Text) → host ≢ front ++ codes part)
        (".localhost" ∷ ".local" ∷ ".internal" ∷ ".arpa" ∷ [])
  pub no_percent : All (λ c. c ≢ 37) host

pub is_allowed_scheme-IsScheme :
    (policy : FetchPolicy) (scheme : Text)
    → is_allowed_scheme policy scheme ≡ true
    → IsScheme policy scheme
unfolding is_allowed_scheme
is_allowed_scheme-IsScheme policy scheme h =
    let secure = same_iff scheme (codes "https") in
    let plain = same_iff scheme (codes "http") in
    elim (Bool-cases (same scheme (codes "https"))) [
      | inl is_https ↦ inl (secure.0 is_https)
      | inr other ↦ elim (Bool-cases (same scheme (codes "http"))) [
        | inl p ↦ inr (plain.0 p, ground (arith, h, other, p))
        | inr q ↦ let bad : ⊥ = ground (arith, h, other, q) in elim bad [ ]
      ]
    ]

default_port-IsPort :
    (policy : FetchPolicy) (scheme : Text) (port : ℕ) (secure : Bool)
    → same scheme (codes "https") ≡ secure
    → IsScheme policy scheme
    → port ≡ default_port scheme
    → IsPort policy scheme port
default_port-IsPort policy scheme port true s i e =
    inl ((same_iff scheme (codes "https")).0 s, ground (arith, s, e))
default_port-IsPort policy scheme port false s (inl https) e =
    elim (same-false scheme (codes "https") s https) [ ]
default_port-IsPort policy scheme port false s (inr (http, _)) e =
    inr (inl (http, ground (arith, s, e)))

pub is_allowed_port-IsPort :
    (policy : FetchPolicy) (scheme : Text) (port : ℕ)
    → IsScheme policy scheme
    → is_allowed_port policy scheme port ≡ true
    → IsPort policy scheme port
unfolding is_allowed_port
is_allowed_port-IsPort policy scheme port i h = elim (Bool-cases (port == default_port scheme)) [
  | inl here ↦
      let same_port : port ≡ default_port scheme = ground (arith, here) in
      default_port-IsPort policy scheme port (same scheme (codes "https")) refl i same_port
  | inr away ↦
      let listed : any (λ p. p == port) policy.allowed_nonstandard_ports ≡ true =
        ground (arith, h, away) in
      inr (inr (any-OneOf port policy.allowed_nonstandard_ports listed))
]

pub is_local-IsNotLocal : (host : Text) → is_local host ≡ false → IsNotLocal host
unfolding is_local
is_local-IsNotLocal host h =
    let (h₁, p) = either_false _ (has_code 37 host) h in
    let (h₂, e₄) = either_false _ (ends_with host (codes ".arpa")) h₁ in
    let (h₃, e₃) = either_false _ (ends_with host (codes ".internal")) h₂ in
    let (h₄, e₂) = either_false _ (ends_with host (codes ".local")) h₃ in
    let (n, e₁) = either_false _ (ends_with host (codes ".localhost")) h₄ in
    record {
      not_named =
          one_of-false host
            ("localhost" ∷ "localhost.localdomain" ∷ "metadata" ∷ "metadata.google.internal"
              ∷ "instance-data" ∷ [])
            n;
      not_under = (
        ends_with-false host _ e₁,
        (ends_with-false host _ e₂, (ends_with-false host _ e₃, (ends_with-false host _ e₄, tt))),
      );
      no_percent = has_code-false 37 host p;
    }

public_tests :
    (net : Network) (raw : Text) (address : IpAddress) (tests : AddressTests)
    → net.ip_address raw ≡ some address
    → JudgedBy address tests
    → is_public tests ≡ true
    → IsPublicAddress net raw
public_tests net raw address tests e j h = record {
  address = address;
  tests = tests;
  is_read = e;
  judged_by = j;
  global = ground (arith, h);
  not_multicast = ground (arith, h);
  not_unspecified = ground (arith, h);
  not_loopback = ground (arith, h);
  not_link_local = ground (arith, h);
  not_private = ground (arith, h);
  not_reserved = ground (arith, h);
}

pub is_public_address-IsPublicAddress :
    (net : Network) (raw : Text) → is_public_address net raw ≡ true → IsPublicAddress net raw
unfolding is_public_address
is_public_address-IsPublicAddress net raw h = elim (Option-cases (net.ip_address raw)) [
  | inl out ↦ let bad : ⊥ = ground (arith, h, out) in elim bad [ ]
  | inr (address, e) ↦ elim (Option-cases address.ipv4_mapped) [
    | inl own ↦
        public_tests net raw address address.tests e (inr (own, refl)) (ground (arith, h, e, own))
    | inr (m, mapped) ↦ public_tests net raw address m e (inl mapped) (ground (arith, h, e, mapped))
  ]
]
