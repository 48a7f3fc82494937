-- ===== src/Strategy/Dispatch.antt =====
-- crates/router-core/src/strategy/mod.rs: the trait, as the sum of the strategies that implement it.
-- A strategy is handed back as it leaves it, since round robin counts its picks.
mod Drawn
mod Empty
mod Traced
mod Reported
mod Unscored
pub mod Contract
pub mod Reports
pub mod Returns
use keel_llm_router.Base.{ℕ, Option, some, String, ◌>>=◌}
use keel_llm_router.Float.{Float}
use keel_llm_router.Backend.{Snapshot}
use keel_llm_router.Features.{RequestFeatures}
use keel_llm_router.Trace.{DecisionTrace}
use keel_llm_router.Strategy.Rng.{Rng, Picked}
use keel_llm_router.Strategy.RoundRobin.{RoundRobin}
use keel_llm_router.Strategy.Pressure.{Pressure}
use keel_llm_router.Strategy.RoundRobin
use keel_llm_router.Strategy.P2c
use keel_llm_router.Strategy.LeastRequests
use keel_llm_router.Strategy.LeastKvts
use keel_llm_router.Strategy.Pressure

pub data RoutingStrategy (D : Type 0) : Type 0 where
  round_robin : RoundRobin → RoutingStrategy D
  p2c : RoutingStrategy D
  least_requests : RoutingStrategy D
  least_kvts : RoutingStrategy D
  pressure : Pressure D → RoutingStrategy D

unfoldable pub strategy_name : {D : Type 0} → RoutingStrategy D → String
strategy_name (round_robin s) = RoundRobin.name
strategy_name p2c = P2c.name
strategy_name least_requests = LeastRequests.name
strategy_name least_kvts = LeastKvts.name
strategy_name (pressure s) = Pressure.name

module _ {D : Type 0} ⦃f : Float D⦄ {S R : Type 0} ⦃g : Rng R⦄ where
  unfoldable pub route :
      RoutingStrategy D
      → Snapshot S
      → RequestFeatures
      → R
      → Option (DecisionTrace D S)
      → Option (RoutingStrategy D × Picked D S R)
  route (round_robin s) snap req rng trace = do
    out ← RoundRobin.pick s snap req rng trace
    some (round_robin out.0, out.1)
  route p2c snap req rng trace = do out ← P2c.pick snap req rng trace; some (p2c, out)
  route least_requests snap req rng trace = do
    out ← LeastRequests.pick snap req rng trace
    some (least_requests, out)
  route least_kvts snap req rng trace = do
    out ← LeastKvts.pick snap req rng trace
    some (least_kvts, out)
  route (pressure s) snap req rng trace = do
    out ← Pressure.pick s snap req rng trace
    some (pressure s, out)
