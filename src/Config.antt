-- ===== src/Config.antt =====
-- crates/router-core/src/config.rs: the configuration as it is read, its defaults, and as it is used.
-- Deserialization, which reads the file into a `RawConfig`, is the crates `toml` and `serde`.
pub mod Validate
pub mod Sound
use keel_llm_router.Base.{ℕ, ◌*◌, ◌^◌, Bool, true, Option, none, List, String}
use keel_llm_router.Float.{Float}
use keel_llm_router.Cost.{KvModel, default_theta, default_penalty, default_sigma}
use keel_llm_router.Tokens.{TokenCounterKind, TokenCounter, whitespace}

pub record RawListener : Type 0 where
  pub bind : String
  pub admin_bind : String
  pub max_request_body_bytes : ℕ

abbrev pub default_max_body : ℕ
default_max_body = 4 * 1024 * 1024

pub record RawRouting (D : Type 0) : Type 0 where
  pub strategy : String
  pub theta : D
  pub penalty : D
  pub kv_model : Option KvModel
  pub decision_trace_sample_rate : D
  pub route_p50_halflife_s : D
  pub token_counter : TokenCounterKind
  pub chars_per_token : D

pub record RawAdmission (D : Type 0) : Type 0 where
  pub sigma : D

pub record RawObservability : Type 0 where
  pub occupancy_sample_interval_ms : ℕ

pub record RawSignal (D : Type 0) : Type 0 where
  pub enabled : Bool
  pub scrape_interval_ms : ℕ
  pub scrape_timeout_ms : ℕ
  pub max_signal_age_ms : ℕ
  pub drift_warn_ratio : D
  pub validate_capacity_at_startup : Bool

pub record RawBackend (S : Type 0) : Type 0 where
  pub url : String
  pub model : String
  pub kv_tokens : ℕ
  pub max_num_seqs : ℕ
  pub weight : S

pub record RawConfig (D S : Type 0) : Type 0 where
  pub listener : RawListener
  pub routing : RawRouting D
  pub admission : RawAdmission D
  pub observability : RawObservability
  pub signal : RawSignal D
  pub backends : List (RawBackend S)

-- What stands in the file's place where it says nothing.
module _ {D : Type 0} ⦃f : Float D⦄ where
  unfoldable pub default_routing : RawRouting D
  default_routing = record {
    strategy = "pressure";
    theta = default_theta;
    penalty = default_penalty;
    kv_model = none;
    decision_trace_sample_rate = f.thousandths 10;
    route_p50_halflife_s = f.thousandths 300_000;
    token_counter = whitespace;
    chars_per_token = f.thousandths 4000;
  }

  unfoldable pub default_admission : RawAdmission D
  default_admission = record { sigma = default_sigma }

  unfoldable pub default_signal : RawSignal D
  default_signal = record {
    enabled = true;
    scrape_interval_ms = 1000;
    scrape_timeout_ms = 500;
    max_signal_age_ms = 5000;
    drift_warn_ratio = f.thousandths 2000;
    validate_capacity_at_startup = true;
  }

unfoldable pub default_observability : RawObservability
default_observability = record { occupancy_sample_interval_ms = 100 }

-- A `Duration` is a number of nanoseconds.
pub record SignalConfig (D : Type 0) : Type 0 where
  pub enabled : Bool
  pub scrape_interval : ℕ
  pub scrape_timeout : ℕ
  pub max_signal_age : ℕ
  pub drift_warn_ratio : D
  pub validate_capacity_at_startup : Bool

pub record Config (D S : Type 0) : Type 0 where
  pub listener_bind : String
  pub admin_bind : String
  pub max_request_body_bytes : ℕ
  pub strategy : String
  pub theta : D
  pub penalty : D
  pub sigma : D
  pub kv_model : KvModel
  pub decision_trace_sample_rate : D
  pub route_p50_halflife_s : D
  pub token_counter : TokenCounter D
  pub occupancy_sample_interval_ms : ℕ
  pub signal : SignalConfig D
  pub backends : List (RawBackend S)

pub data ConfigError (D : Type 0) : Type 0 where
  zero_kv_capacity : String → ConfigError D
  zero_max_num_seqs : String → ConfigError D
  theta_out_of_range : D → ConfigError D
  sigma_out_of_range : D → ConfigError D
  no_backends : ConfigError D
  zero_sample_interval : ConfigError D
  bad_chars_per_token : D → ConfigError D
  unknown_strategy : String → ConfigError D
  duplicate_backend : String → ConfigError D
  signal_timeout_not_less_than_interval : ℕ → ℕ → ConfigError D
  signal_timeouts_not_positive : ℕ → ℕ → ConfigError D
  signal_age_before_interval : ℕ → ℕ → ConfigError D
  signal_drift_ratio_too_low : D → ConfigError D
