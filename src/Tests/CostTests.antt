-- ===== src/Tests/CostTests.antt =====
-- The score at concrete numbers: crates/router-core/src/cost.rs.
use keel_llm_router.Base.{◌≡◌, refl}
use keel_llm_router.Float.Milli.{fin, milli_float}
use keel_llm_router.Cost.{pressure_score}
use keel_llm_router.Cost.Score.{IsTuned}

pub tuned : IsTuned (fin 550) (fin 10_000)
tuned = record {
  theta_pos = refl;
  theta_finite = refl;
  room_pos = refl;
  room_finite = refl;
  penalty_nonneg = refl;
  penalty_finite = refl;
}

-- The knee: 0.5 is below it and scores as it is, 0.9 scores far above itself.
below_knee : pressure_score (fin 500) (fin 550) (fin 10_000) ≡ fin 500
unfolding pressure_score
below_knee = refl

above_knee : pressure_score (fin 900) (fin 550) (fin 10_000) ≡ fin 6937
unfolding pressure_score
above_knee = refl
