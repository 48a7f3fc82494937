-- ===== src/Strategy/LeastRequests.antt =====
-- crates/router-core/src/strategy/least_requests.rs: the fewest requests in flight, ties at random.
pub mod Optimal
use Prim.Native.Nat.{compare, Ordering}
use keel_llm_router.Base.{
  ℕ, zero, suc, ◌+◌, ◌-◌, ◌*◌, ◌%◌, ◌^◌, ◌≤◌, ◌<◌, ◌≡◌, ◌≢◌, refl, inl, inr, Bool, true, false, not,
  ◌&&◌, Option, none, some, List, [], ◌∷◌, ◌++◌, String, arith, length, get_elem?, is_empty,
  collect, ◌>>=◌, ltb, leb, ◌==◌, if◌then◌else◌,
}
use keel_llm_router.Base.Word.{u32_max}
use keel_llm_router.Backend.{Backend, BackendId, Snapshot}
use keel_llm_router.Float.{Float}
use keel_llm_router.Features.{RequestFeatures}
use keel_llm_router.Trace.{DecisionTrace, record_pick}
use keel_llm_router.Strategy.Rng.{Rng, Picked}
use keel_llm_router.Strategy.Scan.{Verdict, replace, tie, skip, scan}

abbrev pub name : String
name = "least_requests"

-- `match n.cmp(&min)`
abbrev pub judge : ℕ → ℕ → Verdict
judge n min = elim (compare n min) [
  | Ordering.lt ↦ replace
  | Ordering.eq ↦ tie
  | Ordering.gt ↦ skip
]

abbrev pub load : {S : Type 0} → Backend S → ℕ
load b = b.live.inflight

module _ {D S R : Type 0} ⦃f : Float D⦄ ⦃g : Rng R⦄ where
  unfoldable pub pick :
      Snapshot S → RequestFeatures → R → Option (DecisionTrace D S) → Option (Picked D S R)
  pick snap req rng trace =
      if is_empty snap.healthy
      then (do
        trace' ← record_pick trace name snap req none
        some (record { chosen = none; rng = rng; trace = trace' }))
      else do
        s ← scan judge load snap.backends snap.healthy (record { best = u32_max; ties = [] })
        let picked = g.choose rng s.ties
        trace' ← record_pick trace name snap req picked.0
        some (record { chosen = picked.0; rng = picked.1; trace = trace' })
