-- ===== src/Sampler.antt =====
-- crates/router-proxy/src/sampler.rs: the samples that each tick takes of every backend, added to a log of
-- calls whose last one stands first. The timer is outside: a run has one snapshot for each tick.
pub mod Ceiling
use keel_llm_router.Base.{List, [], ◌∷◌}
use keel_llm_router.Backend.{Backend, Snapshot}
use keel_llm_router.Cost
use keel_llm_router.Float.{Float}
use keel_llm_router.Observe.{Call, inflight, occupancy, occupancy_tick, kv_projected}

module _ {D S : Type 0} ⦃f : Float D⦄ where
  -- The loop over the backends.
  unfoldable pub sample_backends : D → List (Backend S) → List (Call D S) → List (Call D S)
  sample_backends sigma [] log = log
  sample_backends sigma (b ∷ bs) log =
      let u : D = Cost.occupancy b in
      sample_backends sigma bs (
        occupancy_tick b.key (f.le sigma u)
        ∷ inflight b.key b.live.inflight
        ∷ kv_projected b.key b.live.kv_projected_tokens
        ∷ occupancy b.key u
        ∷ log)

  -- The loop over the ticks, with the snapshot that each tick loads.
  unfoldable pub sample_occupancy_loop : D → List (Snapshot S) → List (Call D S) → List (Call D S)
  unfolding sample_backends
  sample_occupancy_loop sigma [] log = log
  sample_occupancy_loop sigma (snap ∷ snaps) log =
      sample_occupancy_loop sigma snaps (sample_backends sigma snap.backends log)
