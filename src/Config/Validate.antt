-- ===== src/Config/Validate.antt =====
-- crates/router-core/src/config.rs: `RawConfig::validate`, its tests in their order.
use keel_llm_router.Base.{
  ℕ, ◌*◌, not, ◌&&◌, ◌||◌, Option, none, some, List, [], ◌∷◌, String, ltb, leb, ◌==◌, is_empty,
  if◌then◌else◌, contains_text, Result, ok, err,
}
use keel_llm_router.Float.{Float}
use keel_llm_router.Cost.{prompt_only}
use keel_llm_router.Tokens.{new}
use keel_llm_router.Config.{
  RawConfig, RawBackend, Config, ConfigError, zero_kv_capacity, zero_max_num_seqs,
  theta_out_of_range, sigma_out_of_range, no_backends, zero_sample_interval, bad_chars_per_token,
  unknown_strategy, duplicate_backend, signal_timeout_not_less_than_interval,
  signal_timeouts_not_positive, signal_age_before_interval, signal_drift_ratio_too_low,
}

abbrev pub known_strategies : List String
known_strategies =
    "pressure" ∷ "p2c" ∷ "least_requests" ∷ "least_conn" ∷ "round_robin" ∷ "least_kvts" ∷ []

abbrev pub from_millis : ℕ → ℕ
from_millis ms = ms * 1_000_000

-- The loop over the backends, with the urls that were seen.
unfoldable pub check_backends :
    {D S : Type 0} → List String → List (RawBackend S) → Option (ConfigError D)
check_backends seen [] = none
check_backends seen (b ∷ bs) =
    let rest = check_backends (b.url ∷ seen) bs in
    if b.kv_tokens == 0
    then some (zero_kv_capacity b.url)
    else if b.max_num_seqs == 0
    then some (zero_max_num_seqs b.url)
    else if contains_text seen b.url
    then some (duplicate_backend b.url)
    else rest

module _ {D : Type 0} ⦃f : Float D⦄ {S : Type 0} where
  -- The configuration that a raw one without errors becomes.
  unfoldable pub settled : RawConfig D S → Config D S
  unfolding new
  settled raw = record {
    listener_bind = raw.listener.bind;
    admin_bind = raw.listener.admin_bind;
    max_request_body_bytes = raw.listener.max_request_body_bytes;
    strategy = raw.routing.strategy;
    theta = raw.routing.theta;
    penalty = raw.routing.penalty;
    sigma = raw.admission.sigma;
    kv_model = elim raw.routing.kv_model [ none ↦ prompt_only | some m ↦ m ];
    decision_trace_sample_rate = raw.routing.decision_trace_sample_rate;
    route_p50_halflife_s = raw.routing.route_p50_halflife_s;
    token_counter = new raw.routing.token_counter raw.routing.chars_per_token;
    occupancy_sample_interval_ms = raw.observability.occupancy_sample_interval_ms;
    signal = record {
      enabled = raw.signal.enabled;
      scrape_interval = from_millis raw.signal.scrape_interval_ms;
      scrape_timeout = from_millis raw.signal.scrape_timeout_ms;
      max_signal_age = from_millis raw.signal.max_signal_age_ms;
      drift_warn_ratio = raw.signal.drift_warn_ratio;
      validate_capacity_at_startup = raw.signal.validate_capacity_at_startup;
    };
    backends = raw.backends;
  }

  -- The tests of the routing, in order.
  unfoldable pub check_routing : RawConfig D S → Option (ConfigError D)
  check_routing raw =
      if is_empty raw.backends
      then some no_backends
      else if not (f.lt f.nought raw.routing.theta && f.lt raw.routing.theta f.unit)
      then some (theta_out_of_range raw.routing.theta)
      else if not (f.lt f.nought raw.admission.sigma && f.le raw.admission.sigma f.unit)
      then some (sigma_out_of_range raw.admission.sigma)
      else if raw.observability.occupancy_sample_interval_ms == 0
      then some zero_sample_interval
      else if not
          (f.is_finite raw.routing.chars_per_token && f.lt f.nought raw.routing.chars_per_token)
      then some (bad_chars_per_token raw.routing.chars_per_token)
      else if not (contains_text known_strategies raw.routing.strategy)
      then some (unknown_strategy raw.routing.strategy)
      else none

  -- The tests of the signal plane, in order.
  unfoldable pub check_signal : RawConfig D S → Option (ConfigError D)
  check_signal raw =
      let timeout = raw.signal.scrape_timeout_ms in
      let interval = raw.signal.scrape_interval_ms in
      if timeout == 0 || interval == 0
      then some (signal_timeouts_not_positive timeout interval)
      else if leb interval timeout
      then some (signal_timeout_not_less_than_interval timeout interval)
      else if ltb raw.signal.max_signal_age_ms interval
      then some (signal_age_before_interval raw.signal.max_signal_age_ms interval)
      else if f.le raw.signal.drift_warn_ratio f.unit
      then some (signal_drift_ratio_too_low raw.signal.drift_warn_ratio)
      else none

  unfoldable pub validate : RawConfig D S → Result (ConfigError D) (Config D S)
  unfolding check_routing check_signal check_backends settled
  validate raw = elim (check_routing raw) [
    | some e ↦ err e
    | none ↦ elim (check_signal raw) [
      | some e ↦ err e
      | none ↦ elim (check_backends [] raw.backends) [ some e ↦ err e | none ↦ ok (settled raw) ]
    ]
  ]
