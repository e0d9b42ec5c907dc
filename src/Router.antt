-- ===== src/Router.antt =====
-- borsa/src/core.rs: the orchestrator and the tagging of errors. A connector is
-- what the router asks of one: its name and the asset kinds that it supports. The answers of
-- providers are arguments of the calls that use them.
pub mod Config
pub mod Ordering
pub mod Fetch
pub mod Assemble
use borsa.Prelude.{String, List}
use borsa.Errors.{
  BorsaError, not_found, provider_timeout, connector, request_timeout, all_providers_timed_out,
  all_providers_failed,
}
use borsa.Router.Config.{BorsaConfig}

pub record Connector : Type 0 where
  pub name : String

pub record Borsa (Symbol AssetKind Exchange : Type 0) : Type 0 where
  pub connectors : List Connector
  pub cfg : BorsaConfig Symbol AssetKind Exchange

-- Errors that say themselves where they come from are not tagged.
unfoldable pub tag_err : {Symbol : Type 0} → String → BorsaError Symbol → BorsaError Symbol
tag_err name (not_found what) = not_found what
tag_err name (provider_timeout n c) = provider_timeout n c
tag_err name (connector n e) = connector n e
tag_err name (request_timeout c) = request_timeout c
tag_err name (all_providers_timed_out c) = all_providers_timed_out c
tag_err name (all_providers_failed es) = all_providers_failed es
tag_err name e = connector name e
