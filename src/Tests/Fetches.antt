-- ===== src/Tests/Fetches.antt =====
-- The theorem on valid URLs, for one URL and a network whose addresses have public ones mapped in.
use codex_research_skill.Base.{true, false, none, some, [], ◌∷◌, ok, err, Result}
use codex_research_skill.Text.{codes}
use codex_research_skill.Ingestion.FetchPolicy.{
  FetchPolicy, FetchPolicyError, AddressTests, Network, ResolverItem, ValidatedTarget, validate_url,
}

abbrev public_tests : AddressTests
public_tests = record {
  is_global = true;
  is_multicast = false;
  is_unspecified = false;
  is_loopback = false;
  is_link_local = false;
  is_private = false;
  is_reserved = false;
}

-- those of an IPv6 address with an IPv4 address mapped into it
abbrev private_tests : AddressTests
private_tests = record public_tests { is_global = false; is_private = true; is_reserved = true }

abbrev network : Network
network = record {
  urlsplit = λ url. some record {
    scheme = codes "https";
    username = none;
    password = none;
    hostname = some (codes "a.org");
    port = none;
    path = [];
    query = codes "q";
  };
  urlunsplit = λ scheme authority path query. authority;
  lower = λ text. text;
  idna = λ host. some host;
  ip_address = λ raw. some record { tests = private_tests; ipv4_mapped = some public_tests };
  resolver = λ host port.
      some (
        ResolverItem.address_item (codes "2.2.2.2")
        ∷ ResolverItem.info_item (codes "1.1.1.1")
        ∷ []);
}

abbrev strict : FetchPolicy
strict = record {
  allow_http = false;
  allowed_nonstandard_ports = [];
  max_url_length = 8192;
  max_redirects = 5;
  max_response_bytes = 10;
  max_extracted_text_bytes = 10;
  max_header_bytes = 10;
  max_json_depth = 10;
  max_json_nodes = 10;
}

abbrev target_from : Result FetchPolicyError ValidatedTarget → ValidatedTarget
target_from (ok target) = target
target_from (err _) = record {
  url = [];
  scheme = [];
  host = [];
  port = 0;
  address = [];
  addresses = [];
  request_target = [];
  host_header = [];
}

abbrev a_target : ValidatedTarget
a_target = target_from (validate_url network strict (codes "https://a.org?q"))
