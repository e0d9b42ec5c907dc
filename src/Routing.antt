-- ===== src/Routing.antt =====
-- borsa-types/src/routing_policy.rs: ranked lists, exchange preferences, provider rules and the
-- policy that a router asks. `Symbol`, `AssetKind` and `Exchange` are types of another crate, with an
-- equality; a connector's key is its name.
pub mod Ranked
pub mod Preference
pub mod Policy
pub mod Builder
