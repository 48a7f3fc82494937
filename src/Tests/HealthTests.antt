-- ===== src/Tests/HealthTests.antt =====
-- Outcomes and snapshots: crates/router-core/src/health.rs.
use keel_llm_router.Base.{◌≡◌, ◌↔◌, refl, List, [], ◌∷◌, arith, leb, Elem}
use keel_llm_router.Backend.{BackendId, IsWired, default_health}
use keel_llm_router.Health.{next_snapshot}
use keel_llm_router.Health.Ejection.{
  Outcome, success, failure, record_outcomes, trailing, ejected-iff_trailing,
}
use keel_llm_router.Health.Rebuild.{IsUp, next_snapshot_healthy}
use keel_llm_router.Tests.{backend_at, snapshot}

abbrev outcomes : List Outcome
outcomes = failure ∷ failure ∷ success ∷ failure ∷ failure ∷ failure ∷ failure ∷ failure ∷ []

trailing_five : trailing 0 outcomes ≡ 5
unfolding trailing
trailing_five = refl

fresh : (backend_at 0 0 0).health ≡ default_health
unfolding default_health
fresh = refl

ejected-iff_trailing_example :
    (record_outcomes (backend_at 0 0 0) outcomes).health.ejected ≡ leb 5 (trailing 0 outcomes)
ejected-iff_trailing_example = ejected-iff_trailing (backend_at 0 0 0) outcomes fresh (omega arith)

next_snapshot_healthy_example :
    let next = next_snapshot snapshot in
    (next.backends ≡ snapshot.backends)
    × IsWired next
    × ((id : BackendId) → Elem id next.healthy ↔ IsUp snapshot.backends id)
next_snapshot_healthy_example = next_snapshot_healthy snapshot (refl, (refl, (refl, tt)))
