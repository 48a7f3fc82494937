-- ===== src/Strategy/Pressure/Optimal.antt =====
-- The strategy picks, among the backends that pass the gate, one with the least pressure score.
use keel_llm_router.Base.{
  ℕ, ◌<◌, ◌≡◌, ◌≢◌, Option, some, List, [], ◌∷◌, arith, length, is_empty, is_empty_ne, All, All-get,
  keep,
}
use keel_llm_router.Float.{Float, IsRounded, IsNumber, le_refl}
use keel_llm_router.Backend.{Backend, BackendId, Snapshot, IsWired}
use keel_llm_router.Cost.{project, occupancy}
use keel_llm_router.Cost.Score.{IsSized, IsTuned, IsBounded, occupancy_nonneg, pressure_score_mono}
use keel_llm_router.Features.{RequestFeatures}
use keel_llm_router.Gate.Eligible.{admitted, eligible-eq}
use keel_llm_router.Trace.{DecisionTrace}
use keel_llm_router.Strategy.Rng.{Rng, IsFair, Picked}
use keel_llm_router.Strategy.Scan.Best.{IsRanking}
use keel_llm_router.Strategy.Scan.Select.{IsBest, select_best}
use keel_llm_router.Strategy.Pressure.Total.{record_decision_total, pool, pool_inside}
use keel_llm_router.Strategy.Pressure.{Pressure, judge, score_of, decide, pick}

module _ {D : Type 0} ⦃f : Float D⦄ (laws : IsRounded D) where
  open laws use {
    ordered, number_of_le, le_trans, le_total, number_of_finite, of_ℕ_finite, infinity_top,
  }

  ranking : IsRanking judge (λ (x : D). IsNumber x) f.le
  ranking = record {
    judge-eq = λ k b hk hb. ground (arith, le_total k b hk hb);
    leq_trans = le_trans;
    leq_total = le_total;
  }

  -- The backend is configured, and the overshoot and the product in its score stay below infinity.
  pub record IsReady {S : Type 0} (s : Pressure D) (b : Backend S) : Type 0 where
    pub sized : IsSized b
    pub bounded : IsBounded (occupancy b) s.theta s.penalty

  score_number :
      {S : Type 0} (s : Pressure D) (b : Backend S)
      → IsTuned s.theta s.penalty
      → IsReady s b
      → IsNumber (score_of s b)
  score_number s b tuned h =
      let nonneg = occupancy_nonneg laws b h.sized in
      (number_of_le _ _ (
        pressure_score_mono laws tuned (occupancy b) (occupancy b) nonneg
          (le_refl ordered _ (number_of_le _ _ nonneg).1) h.bounded)).0

  module _ {S R : Type 0} ⦃g : Rng R⦄ (fair : IsFair R) where
    decide-IsBest :
        (s : Pressure D) (snap : Snapshot S) (req : RequestFeatures) (need_kv : ℕ)
        (passed : List BackendId) (rng : R) (trace : Option (DecisionTrace D S))
        → IsWired snap
        → IsTuned s.theta s.penalty
        → All (IsReady s) snap.backends
        → All (λ id. id < length snap.backends) (pool snap passed)
        → pool snap passed ≢ []
        → (out : Picked D S R) × (decide s snap req need_kv passed rng trace ≡ some out)
          × (id : BackendId) × (out.chosen ≡ some id)
          × IsBest (score_of s) f.le snap.backends (pool snap passed) id
    unfolding decide
    decide-IsBest s snap req need_kv passed rng trace wired tuned ready inside some_id =
        let (r, er, id, chosen, best) =
          select_best fair (score_of s) ranking snap.backends (pool snap passed) f.infinity rng
            inside (λ j c m e. score_number s c tuned (All-get (IsReady s) snap.backends j ready e))
            (number_of_le _ _
              (infinity_top (f.of_ℕ 0) (number_of_finite _ (of_ℕ_finite 0 (omega arith))))).1
            infinity_top some_id in
        let (t, et) =
          record_decision_total s snap req need_kv (is_empty passed) passed (g.choose rng r.ties).0
            trace wired in
        (
          record { chosen = (g.choose rng r.ties).0; rng = (g.choose rng r.ties).1; trace = t },
          rw (er, et),
          id,
          chosen,
          best,
        )

    pool_ne :
        (snap : Snapshot S) (passed : List BackendId) → snap.healthy ≢ [] → pool snap passed ≢ []
    pool_ne snap [] h = h
    pool_ne snap (x ∷ xs) h = λ e. cc

    -- With numbers that round as IEEE 754 says and a generator that draws what it is given: on a snapshot
    -- that is wired, with a healthy backend, with backends that each have capacities which are not 0 and,
    -- like the requests in flight, are `u32`, a finite overshoot and a finite product of it with the
    -- penalty, with `theta` and 1 - `theta` positive and finite, and with a penalty that is finite and not
    -- negative, the pick does not panic. It returns one of the backends that the gate admits for the
    -- projected charge of the request, or of all the healthy ones if the gate admits none; and no other of
    -- them has a lower pressure score.
    pub pick_lowest_score :
        (s : Pressure D) (snap : Snapshot S) (req : RequestFeatures) (rng : R)
        (trace : Option (DecisionTrace D S))
        → IsWired snap
        → IsTuned s.theta s.penalty
        → All (IsReady s) snap.backends
        → snap.healthy ≢ []
        → let need_kv = project s.kv_model req.prompt_tokens req.expected_output_tokens in
          let passed = keep (admitted snap.backends need_kv s.sigma) snap.healthy in
          (out : Picked D S R) × (pick s snap req rng trace ≡ some out)
          × (id : BackendId) × (out.chosen ≡ some id)
          × IsBest (score_of s) f.le snap.backends (pool snap passed) id
    unfolding pick
    pick_lowest_score s snap req rng trace wired tuned ready some_id =
        let need_kv = project s.kv_model req.prompt_tokens req.expected_output_tokens in
        let passed = keep (admitted snap.backends need_kv s.sigma) snap.healthy in
        let (out, e, id, chosen, best) =
          decide-IsBest s snap req need_kv passed rng trace wired tuned ready
            (pool_inside _ snap (admitted snap.backends need_kv s.sigma) wired)
            (pool_ne snap passed some_id) in
        (
          out,
          rw (is_empty_ne snap.healthy some_id, eligible-eq snap need_kv s.sigma wired) e,
          id,
          chosen,
          best,
        )
