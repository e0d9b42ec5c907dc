-- ===== src/Lib.antt =====
-- A model of borsa, a router of market data over several providers, and of the layers around the
-- providers. Each part is a module of functions over explicit state; what the asynchronous code does
-- in one call or one event is one step, and a run is a list of steps.
--
-- Errors (borsa-types/src/error.rs, borsa/src/router/streaming/error.rs, borsa/src/router/util.rs):
-- `BorsaError` with its nested aggregate, `flatten`, `is_actionable`, `retry_class`,
-- `collapse_stream_errors` and `collapse_errors`. Texts are strings where the code compares them and
-- otherwise carried along.
--
-- Capability (borsa-types/src/capability.rs): the capabilities and their labels, `as_str`.
--
-- Middleware (borsa-core/src/middleware.rs, and the delegating macro of borsa-core/src/connector.rs): a
-- `Layer` is the pair of hooks `pre_call` and `map_error` over a state; `delegate` makes a provider
-- call through it. The provider is a function of the model's caller.
--
-- Quota (borsa-middleware/src/quota.rs, the quota part of borsa-types/src/config.rs): `QuotaRuntime` is
-- the state behind the mutex, `should_allow_call` one check at a given time. Instants and durations are
-- nanoseconds as natural numbers; `duration_since`, which stops at zero, is the difference of
-- natural numbers. The panic of a call on a mutex that an earlier panic has poisoned is not modelled.
--
-- Blacklist (borsa-middleware/src/blacklist.rs): the gate with its optional end of the ban, its expiry and
-- the errors that shut it. The quota's and the blacklist's hooks are layers, so they stack.
--
-- Supervisor (borsa/src/router/streaming/supervisor_sm.rs): Supervisor/State has the data and what is
-- read from it, Supervisor/Starts the round-robin scan for providers to start, Supervisor/Machine the
-- handlers of the events. Indexing out of range is `none`, which stands for the panic. The loop of
-- the scan runs on the fuel of one more than the number of providers, which is enough: each
-- iteration advances an index below that number.
--
-- Routing (borsa-types/src/routing_policy.rs): Routing/Ranked, Routing/Preference, Routing/Policy and
-- Routing/Builder are ranked lists, preferences by scope, provider rules with the ranks they give and
-- the check against known connectors (Routing/Policy/Normalize), and the builder. Symbols, asset
-- kinds and exchanges are types of another crate, with a decidable equality as an instance.
-- Hash maps are association lists, whose order is never read.
--
-- Series (borsa-core/src/timeseries/merge.rs and util.rs): candles, the checks of currencies and the
-- merge of series by priority. The ordered map is a list of candles in the order of their instants;
-- the currency of a price is a function of the model's caller.
--
-- Series/History is the merge of whole responses; the order and the hash of actions are arguments.
-- Series/Resample (borsa-core/src/timeseries/resample.rs) gathers candles into buckets by any function
-- from instants to buckets; instants before the epoch have none in the model.
--
-- Router (borsa/src/core.rs, with the configuration of borsa-types/src/config.rs): Router/Assemble is the
-- builder of the orchestrator with its check of the policy, Router/Ordering the order of the
-- connectors for a request, Router/Fetch the two strategies of `fetch_single`. A connector is its name,
-- with the answers it gives as a function; the latency race takes the order in which the calls
-- complete as a list.
--
-- History (borsa/src/router/history.rs): History/Interval chooses the interval to ask a provider for,
-- History/Requests asks the providers, History/Results collects, orders and filters what they answer,
-- History/Final merges it and History/Attribution says which provider the candles are from. The
-- resampling of candles for a plan, the test for candles within a day and the blame for mixed
-- currencies are arguments.
--
-- Middleware/Builder (borsa-middleware/src/builder.rs, borsa-types/src/middleware.rs): the builder that
-- stacks layers round a connector, its stack and back. JSON values are another crate's: the interface
-- Middleware/Json has the operations that the code uses, with what their documentation says of
-- writing and reading: an object is a map in the order of its keys. A hash map of the cache's
-- configuration is the list of its entries.
--
-- Monotonic (borsa/src/router/streaming/filters.rs): the gate that drops late updates, its reset and the
-- rounds of the task that forgets the symbols not seen for a day, at whatever times they come.
--
-- Examples holds tests on small inputs and each theorem at an input that meets its hypotheses.
--
-- Not modelled: the tasks, channels and timers that drive the state machine and the gate, the other router
-- endpoints, the buckets of minutes, days, weeks and time zones, the inference of a step, the cache but for its
-- configuration, serialization, and the connectors themselves, which call services over the network.
pub mod Prelude
pub mod Errors
pub mod Middleware
pub mod Quota
pub mod Capability
pub mod Blacklist
pub mod Supervisor
pub mod Examples
pub mod History
pub mod Routing
pub mod Series
pub mod Monotonic
pub mod Router
