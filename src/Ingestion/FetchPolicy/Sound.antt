-- ===== src/Ingestion/FetchPolicy/Sound.antt =====
-- What holds of the target of a URL that is valid.
use codex_research_skill.Ingestion.FetchPolicy.Open.{IsScheme, IsPort, IsNotLocal, IsPublicAddress}
use codex_research_skill.Base.{◌≡◌, List, ◌∷◌, All}
use codex_research_skill.Text.{Text}
use codex_research_skill.Ingestion.FetchPolicy.{FetchPolicy, Network, ValidatedTarget}

-- What the policy asks of a target.
pub record IsAllowed (net : Network) (policy : FetchPolicy) (target : ValidatedTarget)
    : Type 0 where
  pub scheme_allowed : IsScheme policy target.scheme
  pub port_allowed : IsPort policy target.scheme target.port
  pub host_not_local : IsNotLocal target.host
  pub addresses_public : All (IsPublicAddress net) target.addresses
  pub address_first : (others : List Text) × (target.addresses ≡ target.address ∷ others)
