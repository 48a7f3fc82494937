-- ===== src/Strategy/Dispatch/Empty.antt =====
-- With no healthy backend every strategy picks none.
use keel_llm_router.Base.{◌≡◌, refl, ap, true, Option, none, some, List, [], length, is_empty, ◌==◌}
use keel_llm_router.Float.{Float}
use keel_llm_router.Backend.{BackendId, Snapshot, IsWired}
use keel_llm_router.Features.{RequestFeatures}
use keel_llm_router.Trace.{DecisionTrace, record_pick_total}
use keel_llm_router.Strategy.Rng.{Rng, Picked}
use keel_llm_router.Strategy.RoundRobin
use keel_llm_router.Strategy.P2c
use keel_llm_router.Strategy.LeastRequests
use keel_llm_router.Strategy.LeastKvts
use keel_llm_router.Strategy.Pressure
use keel_llm_router.Strategy.Dispatch.{
  RoutingStrategy, round_robin, p2c, least_requests, least_kvts, pressure, route,
}

module _ {S : Type 0} where
  empty : (snap : Snapshot S) → snap.healthy ≡ [] → is_empty snap.healthy ≡ true
  empty snap e = ap is_empty e

  none_there : (snap : Snapshot S) → snap.healthy ≡ [] → (length snap.healthy == 0) ≡ true
  none_there snap e = ap (λ (ids : List BackendId). length ids == 0) e

module _ {D : Type 0} ⦃f : Float D⦄ {S R : Type 0} ⦃g : Rng R⦄ where
  -- The pick returns, and what it chooses is as the predicate says.
  abbrev pub Returned :
      RoutingStrategy D
      → Snapshot S
      → RequestFeatures
      → R
      → Option (DecisionTrace D S)
      → (Option BackendId → Type 0)
      → Type 0
  Returned s snap req rng trace P =
      (out : RoutingStrategy D × Picked D S R) × (route s snap req rng trace ≡ some out)
      × P out.1.chosen

  pub route_none :
      (s : RoutingStrategy D) (snap : Snapshot S) (req : RequestFeatures) (rng : R)
      (trace : Option (DecisionTrace D S))
      → IsWired snap
      → snap.healthy ≡ []
      → Returned s snap req rng trace (λ o. o ≡ none)
  unfolding route RoundRobin.pick P2c.pick LeastRequests.pick LeastKvts.pick Pressure.pick
  route_none (round_robin s) snap req rng trace wired e =
      let (t, et) = record_pick_total trace RoundRobin.name snap req none wired in
      (
        (round_robin s, record { chosen = none; rng = rng; trace = t }),
        rw (empty snap e, et) refl,
        refl,
      )
  route_none p2c snap req rng trace wired e =
      let (t, et) = record_pick_total trace P2c.name snap req none wired in
      ((p2c, record { chosen = none; rng = rng; trace = t }), rw (none_there snap e, et) refl, refl)
  route_none least_requests snap req rng trace wired e =
      let (t, et) = record_pick_total trace LeastRequests.name snap req none wired in
      (
        (least_requests, record { chosen = none; rng = rng; trace = t }),
        rw (empty snap e, et) refl,
        refl,
      )
  route_none least_kvts snap req rng trace wired e =
      let (t, et) = record_pick_total trace LeastKvts.name snap req none wired in
      (
        (least_kvts, record { chosen = none; rng = rng; trace = t }),
        rw (empty snap e, et) refl,
        refl,
      )
  route_none (pressure s) snap req rng trace wired e = (
    (pressure s, record { chosen = none; rng = rng; trace = Pressure.record_empty req trace }),
    rw (empty snap e) refl,
    refl,
  )
