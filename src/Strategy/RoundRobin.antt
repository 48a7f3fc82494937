-- ===== src/Strategy/RoundRobin.antt =====
-- crates/router-core/src/strategy/round_robin.rs. `next` is an `AtomicUsize` of 64 bits.
pub mod Turns
use keel_llm_router.Base.{
  ℕ, zero, suc, ◌+◌, ◌-◌, ◌*◌, ◌%◌, ◌^◌, ◌≤◌, ◌<◌, ◌≡◌, ◌≢◌, refl, inl, inr, Bool, true, false, not,
  ◌&&◌, Option, none, some, List, [], ◌∷◌, ◌++◌, String, arith, length, get_elem?, is_empty,
  collect, ◌>>=◌, ltb, leb, ◌==◌, if◌then◌else◌,
}
use keel_llm_router.Backend.{BackendId, Snapshot}
use keel_llm_router.Float.{Float}
use keel_llm_router.Features.{RequestFeatures}
use keel_llm_router.Trace.{DecisionTrace, record_pick}
use keel_llm_router.Strategy.Rng.{Picked}

pub record RoundRobin : Type 0 where
  pub next : ℕ

unfoldable pub new : RoundRobin
new = record { next = 0 }

abbrev pub name : String
name = "round_robin"

module _ {D S R : Type 0} ⦃f : Float D⦄ where
  -- The strategy is handed back too, with its counter moved on.
  unfoldable pub pick :
      RoundRobin
      → Snapshot S
      → RequestFeatures
      → R
      → Option (DecisionTrace D S)
      → Option (RoundRobin × Picked D S R)
  pick s snap req rng trace =
      if is_empty snap.healthy
      then (do
        trace' ← record_pick trace name snap req none
        some (s, record { chosen = none; rng = rng; trace = trace' }))
      else do
        id ← get_elem? snap.healthy (s.next % length snap.healthy)
        trace' ← record_pick trace name snap req (some id)
        some (
          record { next = (s.next + 1) % 2 ^ 64 },
          record { chosen = some id; rng = rng; trace = trace' },
        )
