-- ===== src/Lib.antt =====
-- A model of the exporter, which polls a Cisco management API, keeps a snapshot of the devices in a
-- cache and renders it as Prometheus metrics, and the theorems about it.
--
-- The parts, and how they interact: at the start the environment is validated into a configuration
-- (src/config), from which one adapter is created. The poller (src/poller) runs one cycle after
-- another. A cycle asks a backend adapter (src/backends) for a snapshot; the adapter fetches it
-- through the HTTP client and its guards (src/http), the FMC adapter with a token of its token
-- manager and for the devices that discovery found. The metrics endpoint reads the cache that the
-- poller fills.
--
-- Prelude: shared names, and the operations of JavaScript that the code uses on texts, numbers and
--   JSON values (Text, Int, Json); a double of a JSON value is its exact dyadic value.
-- Http, for src/http:
--   Errors is errors.ts, RetryAfter and Retry are retry.ts, Client is client.ts, Spacing, Budget and
--   Limiter are spacing.ts, budget.ts and limiter.ts.
-- Backends, for src/backends:
--   Fields is shared/numbers.ts, RefreshCache is shared/refresh-cache.ts, Groups is shared/groups.ts,
--   Interfaces is shared/interfaces.ts, Certificates is shared/certificate-map.ts, Licenses is
--   shared/license-map.ts, and Timestamps is fmc/time.ts with the other two parsers of times.
--   Fmc.TokenManager is fmc/token-manager.ts; Fmc.Discovery and Fmc.DeviceCache are the two halves of
--   fmc/discovery.ts; Fmc.Map and Fmc.Merge are fmc/map.ts; Fmc.Filter, Fmc.Sizing and Fmc.Domain are
--   the files of their names; Fmc.Adapter is fmc/adapter.ts: a request with one new login, the fan-out
--   of a snapshot (Snapshot, Coverage), init and close (Lifetime), the license and the certificates (Wire).
--   Scc.Map is scc/map.ts, Scc.Inventory is scc/inventory-map.ts, Scc.Adapter, Scc.Lifetime and
--   Scc.Wire are scc/adapter.ts.
-- Config, for src/config: the types are types.ts; Values, Families, Backend and Validate are
--   validate.ts, EnvFile is load.ts and Summary is redact-summary.ts.
-- Poller is src/poller: poller.ts and the entry of cache.ts.
-- Metrics: Enums is src/domain/enums.ts, EnumRender is src/metrics/enum-render.ts with the state sets
--   of src/metrics/collector.ts.
-- Server.Routes is src/server/routes.ts, and Lifecycle is src/lifecycle.ts, which stops the parts.
-- The names of functions are those of the source, in another spelling: `withRetry` is `with_retry`.
--
-- A stateful closure is a record of its variables and one function per method, which gives the state
-- afterwards. Where calls overlap, each uninterrupted stretch of a call is one step, and a data type
-- `Reach` says which states the steps lead to. What the code reads from its surroundings is an
-- argument: the clock, `Math.random()`, the transport, the environment and the file system, and the
-- platform's `Date.parse`, `new Date`, `new URL`, `process.loadEnvFile`, `JSON.parse` and
-- `encodeURIComponent`. Diagnostics and errors that only a log shows are values that name their
-- text. Times and durations are whole milliseconds. Texts are texts of code points.
--
-- Bounds: `withRetry` has its own bound of three attempts. Discovery has its own bound on the pages.
-- A call of the budget guard is given two rounds.
--
-- Not modelled: the metrics collectors and the definitions of their metrics, the logger with its
-- redaction, the entry points, the device inventory's own cache of the SCC adapter, the wiring of
-- callbacks between the parts; and the wrappers around sockets, processes and timers, which only call
-- the platform.
pub mod Backends
pub mod Config
pub mod Http
pub mod Lifecycle
pub mod Metrics
pub mod Poller
pub mod Prelude
pub mod Server
