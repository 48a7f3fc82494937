-- ===== src/Backend.antt =====
-- crates/router-core/src/backend.rs: the backends with their shared counters, and the snapshot that a
-- routing decision reads. `S` is the type of `f32`. An atomic counter is a field; an `Arc<Backend>` is
-- the position of the backend in the fleet. An `Instant` or a `Duration` is a number of nanoseconds.
use keel_llm_router.Base.{ℕ, ◌-◌, Bool, false, Option, List, String, ltb, ◌<◌, All, length}

abbrev pub BackendId : Type 0
BackendId = ℕ

pub record CapsEstimate : Type 0 where
  pub kv_capacity_tokens : ℕ
  pub max_num_seqs : ℕ

-- `kv_projected_tokens` is an `i64`, kept as its pattern.
pub record LiveCounters : Type 0 where
  pub inflight : ℕ
  pub kv_projected_tokens : ℕ
  pub total_dispatched : ℕ
  pub ewma_ttft_us : ℕ
  pub ewma_itl_us : ℕ

unfoldable pub default_counters : LiveCounters
default_counters = record {
  inflight = 0;
  kv_projected_tokens = 0;
  total_dispatched = 0;
  ewma_ttft_us = 0;
  ewma_itl_us = 0;
}

pub record ReportedLoad (S : Type 0) : Type 0 where
  pub observed_at : ℕ
  pub kv_usage_perc : Option S
  pub num_running : Option ℕ
  pub num_waiting : Option ℕ
  pub preemptions : Option ℕ
  pub prefix_hit_rate : Option S

-- `saturating_duration_since` is the subtraction that stops at zero.
unfoldable pub is_stale : {S : Type 0} → ReportedLoad S → ℕ → ℕ → Bool
is_stale r now max_age = ltb max_age (now - r.observed_at)

pub record HealthState : Type 0 where
  pub consecutive_failures : ℕ
  pub ejected : Bool

unfoldable pub default_health : HealthState
default_health = record { consecutive_failures = 0; ejected = false }

pub record Backend (S : Type 0) : Type 0 where
  pub id : BackendId
  pub key : String
  pub uri : String
  pub model : String
  pub weight : S
  pub caps : CapsEstimate
  pub live : LiveCounters
  pub reported : Option (ReportedLoad S)
  pub health : HealthState

pub record Snapshot (S : Type 0) : Type 0 where
  pub epoch : ℕ
  pub backends : List (Backend S)
  pub healthy : List BackendId
  pub ring : List (ℕ × BackendId)

-- The ids of the snapshot point into its vector of backends.
abbrev pub IsWired : {S : Type 0} → Snapshot S → Type 0
IsWired snap = All (λ id. id < length snap.backends) snap.healthy
