-- ===== src/Strategy/P2c.antt =====
-- crates/router-core/src/strategy/p2c.rs: the less loaded of two backends drawn at random.
pub mod Lighter
use keel_llm_router.Base.{
  ℕ, zero, suc, ◌+◌, ◌-◌, ◌*◌, ◌%◌, ◌^◌, ◌≤◌, ◌<◌, ◌≡◌, ◌≢◌, refl, inl, inr, Bool, true, false, not,
  ◌&&◌, Option, none, some, List, [], ◌∷◌, ◌++◌, String, arith, length, get_elem?, collect, ◌>>=◌,
  ltb, leb, ◌==◌, if◌then◌else◌,
}
use keel_llm_router.Backend.{Backend, BackendId, Snapshot}
use keel_llm_router.Float.{Float}
use keel_llm_router.Features.{RequestFeatures}
use keel_llm_router.Trace.{DecisionTrace, record_pick}
use keel_llm_router.Strategy.Rng.{Rng, Picked}

abbrev pub name : String
name = "p2c"

-- Of the two first ids of the sample, the one with no more requests in flight; the first on a tie.
unfoldable pub lighter : {S : Type 0} → List (Backend S) → List BackendId → Option BackendId
lighter backends sample = do
  a ← get_elem? sample 0
  b ← get_elem? sample 1
  load_a ← get_elem? backends a
  load_b ← get_elem? backends b
  some (if leb load_a.live.inflight load_b.live.inflight then a else b)

-- The choice and the generator, before the trace is written.
unfoldable pub choice : {S R : Type 0} ⦃g : Rng R⦄ → Snapshot S → R → Option (Option BackendId × R)
unfolding lighter
choice ⦃g⦄ snap rng =
    if length snap.healthy == 0
    then some (none, rng)
    else if length snap.healthy == 1
    then (do id ← get_elem? snap.healthy 0; some (some id, rng))
    else do
      let drawn = g.choose_multiple rng snap.healthy 2
      id ← lighter snap.backends drawn.0
      some (some id, drawn.1)

module _ {D S R : Type 0} ⦃f : Float D⦄ ⦃g : Rng R⦄ where
  unfoldable pub pick :
      Snapshot S → RequestFeatures → R → Option (DecisionTrace D S) → Option (Picked D S R)
  unfolding choice
  pick snap req rng trace = do
    picked ← choice snap rng
    trace' ← record_pick trace name snap req picked.0
    some (record { chosen = picked.0; rng = picked.1; trace = trace' })
