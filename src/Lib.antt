-- ===== src/Lib.antt =====
-- The routing core of keel-llm-router, a proxy that spreads LLM requests over inference backends.
--
-- A request that arrives is measured (`RequestFeatures`), a strategy picks a backend of the current
-- `Snapshot` for it, and a `CostLease` charges the backend's live counters until the answer has been
-- relayed. The counters are what the next picks and the admission gate read, so that everything rests
-- on the leases. The files, by the part of the program that they model:
--
--   * Base, Base/*: tests into Bool, lists over the native numbers, 32- and 64-bit words.
--   * Float, Float/Milli: `f64` as an interface. The laws are those of IEEE 754 with rounding that is
--     monotone; Milli is a concrete type that meets them, so that the theorems apply to something.
--   * Backend: crates/router-core/src/backend.rs. `Snapshot`, `Backend`, the counters and the health.
--   * Cost, Cost/Score: crates/router-core/src/cost.rs. `KvModel::project` (project), `occupancy`,
--     `pressure_score`.
--   * Features, Trace: crates/router-core/src/features.rs and trace.rs.
--   * Lease, Lease/*: crates/router-core/src/lease.rs. `CostLease::open` (open_lease),
--     `observe_tokens`, `release`, `Drop` (drop_lease). Lease/Ledger runs them on a fleet, in any
--     interleaving: an `Arc<Backend>` is a position in the list of backends.
--   * Gate, Gate/*: crates/router-core/src/gate.rs. `admits`, `eligible`.
--   * Strategy, Strategy/*: crates/router-core/src/strategy. Strategy/Dispatch is the trait
--     `RoutingStrategy`, as the sum of its implementations. Each strategy has a module with its `pick`;
--     the loops that collect the ties for the best key are one function, Strategy/Scan, with the test of
--     each strategy (`judge`). Strategy/Rng is the crate `rand` as an interface.
--   * Health, Health/*: crates/router-proxy/src/health.rs.
--   * Config, Config/*: crates/router-core/src/config.rs. Config/Validate is `RawConfig::validate`.
--   * Tokens, Tokens/Words: crates/router-core/src/tokens.rs, over the code points of a text.
--   * LengthEstimator, LengthEstimator/*: crates/router-proxy/src/length_estimator.rs. `DecayingQuantile`,
--     `RouteHistograms`, `prompt_bucket`.
--   * Json: the values of serde_json, with reading and writing as an interface.
--   * Sse, Sse/Utf8: crates/router-proxy/src/sse.rs, and the decoding of a chunk.
--   * Inbound, Inbound/*: crates/router-proxy/src/inbound.rs. `build_features`, `count_prompt_tokens`,
--     `ensure_usage_requested`.
--   * Upstream, Upstream/*: crates/router-proxy/src/upstream.rs. `CountingSseBody`: `poll_frame` hands
--     data to on_data, whose branches are on_content and on_usage, `drop` is drop_body. Upstream/Request is
--     `rebuild_request`.
--   * Router, Router/*: crates/router-proxy/src/router.rs. `handle_inner` is begin, up to the await of the
--     connection, and connected, after it; begin calls choose, and choose calls reserve, which opens the
--     lease. finish puts the parts together for a request that nothing else comes between.
--   * Proxy, Proxy/*: crates/router-proxy as a whole. A task that listener.rs spawns is a request that
--     waits for its connection or the body of an answer, and a list of events is one interleaving of the
--     tasks at their awaits. Within a step the counters are changed at once; Lease/Ledger has them change
--     one call at a time. Proxy/Total puts the start of Boot/Run before the events.
--   * Observe, Observe/*: crates/router-proxy/src/observe.rs. The other modules log `Call`s of its
--     routines; perform is what the routines do. Observe/Once has the statics of the warnings under
--     threads, one atomic operation a turn.
--   * Sampler, Sampler/Ceiling: crates/router-proxy/src/sampler.rs.
--   * Signal, Signal/*: crates/router-proxy/src/signal. Signal/Scrape reads the metrics (scrape.rs);
--     `projection_drift` is drift.rs; `collect_loop` is a list of ticks, each of which says what a request
--     for the metrics would bring and when, and collect_turn what a round makes of what was fetched.
--   * Boot, Boot/*: crates/router-bin/src/main.rs. Boot has the snapshot and the strategy of the start,
--     Boot/Capacities `validate_backend_capacities` on what was fetched, and Boot/Run `main`, from the
--     configuration that was read to the call that serves.
--   * Tests, Tests/*: concrete backends, runs of the definitions, and applications of the theorems.
--
-- Conventions. A `u32` is a number below 2 ^ 32 and an `i64` is its two's complement pattern below
-- 2 ^ 64; sums wrap, as in a release build (the counters are atomics, which wrap in every build). An
-- index out of bounds, which panics, is `none`; a pick is `some` of its result. Atomic operations with
-- `Relaxed` are steps of one list of events. No definition
-- uses fuel: a loop runs over a list or over the bits of a word.
--
-- What is not modelled: the HTTP server and client, the reading of bodies, of the file of the
-- configuration and of its TOML (I/O, and libraries), and the set-up of the libraries that log and export.
-- Sending a warning or a log line is a value in a list. The crates `rand`, `serde_json` and `http` are
-- interfaces.
pub mod Backend
pub mod Base
pub mod Boot
pub mod Config
pub mod Cost
pub mod Features
pub mod Float
pub mod Gate
pub mod Health
pub mod Inbound
pub mod Json
pub mod Lease
pub mod LengthEstimator
pub mod Observe
pub mod Proxy
pub mod Router
pub mod Sampler
pub mod Signal
pub mod Sse
pub mod Strategy
pub mod Tests
pub mod Tokens
pub mod Trace
pub mod Upstream
