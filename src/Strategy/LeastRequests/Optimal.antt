-- ===== src/Strategy/LeastRequests/Optimal.antt =====
-- The strategy picks a healthy backend with the fewest requests in flight.
use keel_llm_router.Base.{
  ◌≤◌, ◌<◌, ◌≡◌, ◌≢◌, Option, some, [], arith, leb, All, All-get, is_empty_ne,
}
use keel_llm_router.Base.Word.{u32_mod, u32_max}
use keel_llm_router.Float.{Float}
use keel_llm_router.Backend.{BackendId, Snapshot, IsWired}
use keel_llm_router.Features.{RequestFeatures}
use keel_llm_router.Trace.{DecisionTrace, record_pick_total}
use keel_llm_router.Strategy.Rng.{Rng, IsFair, Picked}
use keel_llm_router.Strategy.Scan.Best.{IsRanking}
use keel_llm_router.Strategy.Scan.Select.{IsBest, select_best}
use keel_llm_router.Strategy.LeastRequests.{judge, load, name, pick}

ranking : IsRanking judge (λ n. n ≤ u32_max) leb
ranking = record {
  judge-eq = λ k b hk hb. ground arith;
  leq_trans = λ x y z h k. ground arith;
  leq_total = λ x y hx hy. ground arith;
}

-- The count of requests in flight is a word, on every backend.
abbrev pub IsCounted : {S : Type 0} → Snapshot S → Type 0
IsCounted snap = All (λ b. b.live.inflight < u32_mod) snap.backends

module _ {D S R : Type 0} ⦃f : Float D⦄ ⦃g : Rng R⦄ (fair : IsFair R) where
  -- With a generator that draws what it is given: on a snapshot that is wired, with a healthy backend and
  -- counts that are `u32`, the pick does not panic and returns a healthy backend that has no more
  -- requests in flight than any other.
  pub pick_fewest :
      (snap : Snapshot S) (req : RequestFeatures) (rng : R) (trace : Option (DecisionTrace D S))
      → IsWired snap
      → IsCounted snap
      → snap.healthy ≢ []
      → (out : Picked D S R) × (pick snap req rng trace ≡ some out)
        × (id : BackendId) × (out.chosen ≡ some id)
        × IsBest load leb snap.backends snap.healthy id
  unfolding pick
  pick_fewest snap req rng trace wired counted some_id =
      let (s, es, id, chosen, best) =
        select_best fair load ranking snap.backends snap.healthy u32_max rng wired
          (λ j c m e.
            omega (arith, All-get (λ b. b.live.inflight < u32_mod) snap.backends j counted e))
          (omega arith) (λ k h. ground arith) some_id in
      let (t, et) = record_pick_total trace name snap req (g.choose rng s.ties).0 wired in
      (
        record { chosen = (g.choose rng s.ties).0; rng = (g.choose rng s.ties).1; trace = t },
        rw (is_empty_ne snap.healthy some_id, es, et),
        id,
        chosen,
        best,
      )
