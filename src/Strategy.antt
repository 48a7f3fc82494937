-- ===== src/Strategy.antt =====
-- crates/router-core/src/strategy: the routing strategies. What they draw from `SmallRng` is an
-- interface, since the crate `rand` is not part of the repository.
pub mod Scan
pub mod Rng
pub mod RoundRobin
pub mod P2c
pub mod LeastRequests
pub mod LeastKvts
pub mod Pressure
pub mod Dispatch
