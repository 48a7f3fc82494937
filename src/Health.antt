-- ===== src/Health.antt =====
-- crates/router-proxy/src/health.rs: ejection after consecutive failures, and the snapshot that follows.
pub mod Ejection
pub mod Rebuild
use keel_llm_router.Base.{
  ℕ, ◌+◌, ◌%◌, ◌^◌, Bool, true, false, not, List, [], ◌∷◌, map, leb, keep, if◌then◌else◌,
}
use keel_llm_router.Base.Word.{add_u32}
use keel_llm_router.Backend.{Backend, BackendId, Snapshot, HealthState}

abbrev pub consecutive_failures_to_eject : ℕ
consecutive_failures_to_eject = 5

module _ {S : Type 0} where
  abbrev with_health : Backend S → HealthState → Backend S
  with_health b h = record b { health = h }

  unfoldable pub record_failure : Backend S → Backend S
  record_failure b =
      let n = add_u32 b.health.consecutive_failures 1 in
      with_health b (record {
        consecutive_failures = n;
        ejected = if leb consecutive_failures_to_eject n then true else b.health.ejected;
      })

  unfoldable pub record_success : Backend S → Backend S
  record_success b = with_health b (record { consecutive_failures = 0; ejected = false })

  unfoldable pub rebuild_healthy : List (Backend S) → List BackendId
  rebuild_healthy backends = map (λ b. b.id) (keep (λ b. not b.health.ejected) backends)

  unfoldable pub next_snapshot : Snapshot S → Snapshot S
  unfolding rebuild_healthy
  next_snapshot prev = record {
    epoch = (prev.epoch + 1) % 2 ^ 64;
    backends = prev.backends;
    healthy = rebuild_healthy prev.backends;
    ring = prev.ring;
  }
