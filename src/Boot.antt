-- ===== src/Boot.antt =====
-- crates/router-bin/src/main.rs: the snapshot and the strategy with which the router starts.
pub mod Started
pub mod Capacities
pub mod Run
pub mod Serves
use keel_llm_router.Base.{
  ℕ, suc, ◌%◌, ◌^◌, Option, none, some, List, [], ◌∷◌, map, ◌=s=◌, if◌then◌else◌, ◌||◌,
}
use keel_llm_router.Backend.{Backend, BackendId, Snapshot, default_counters, default_health}
use keel_llm_router.Config.{RawBackend, Config}
use keel_llm_router.Strategy.RoundRobin
use keel_llm_router.Strategy.Dispatch.{
  RoutingStrategy, round_robin, p2c, least_requests, least_kvts, pressure,
}

module _ {S : Type 0} where
  -- The backend at position `i`, whose id is `i as u16`.
  unfoldable pub backend_from : ℕ → RawBackend S → Backend S
  backend_from i b = record {
    id = i % 2 ^ 16;
    key = b.url;
    uri = b.url;
    model = b.model;
    weight = b.weight;
    caps = record { kv_capacity_tokens = b.kv_tokens; max_num_seqs = b.max_num_seqs };
    live = default_counters;
    reported = none;
    health = default_health;
  }

  -- `iter().enumerate().map(..).collect()`, counted from `i`.
  unfoldable pub backends_from : ℕ → List (RawBackend S) → List (Backend S)
  backends_from i [] = []
  backends_from i (b ∷ bs) = backend_from i b ∷ backends_from (suc i) bs

  unfoldable pub start_snapshot : {D : Type 0} → Config D S → Snapshot S
  start_snapshot config =
      let backends = backends_from 0 config.backends in
      record { epoch = 0; backends = backends; healthy = map (λ b. b.id) backends; ring = [] }

  -- `none` is the error for an unknown strategy.
  unfoldable pub strategy_for : {D : Type 0} → Config D S → Option (RoutingStrategy D)
  strategy_for config =
      let name = config.strategy in
      if name =s= "round_robin"
      then some (round_robin RoundRobin.new)
      else if name =s= "p2c"
      then some p2c
      else if name =s= "least_requests" || name =s= "least_conn"
      then some least_requests
      else if name =s= "least_kvts"
      then some least_kvts
      else if name =s= "pressure"
      then some (
          pressure (record {
            theta = config.theta;
            penalty = config.penalty;
            sigma = config.sigma;
            kv_model = config.kv_model;
          }))
      else none
