-- ===== src/Tests/ConfigTests.antt =====
-- A configuration: crates/router-core/src/config.rs.
use keel_llm_router.Base.{◌≡◌, ◌↔◌, refl, List, [], ◌∷◌, ok, err, contains_text}
use keel_llm_router.Float.Milli.{Milli, fin, milli_float}
use keel_llm_router.Config.{
  RawBackend, RawConfig, default_routing, default_admission, default_signal, default_observability,
  default_max_body, duplicate_backend,
}
use keel_llm_router.Config.Validate.{settled, validate, check_backends, check_routing, check_signal}
use keel_llm_router.Config.Sound.{IsValid, validate_iff}

abbrev backend : RawBackend Milli
backend = record {
  url = "http://a";
  model = "m";
  kv_tokens = 8192;
  max_num_seqs = 32;
  weight = fin 1000;
}

abbrev raw_with : List (RawBackend Milli) → RawConfig Milli Milli
raw_with backends = record {
  listener = record { bind = "0"; admin_bind = "1"; max_request_body_bytes = default_max_body };
  routing = default_routing;
  admission = default_admission;
  observability = default_observability;
  signal = default_signal;
  backends = backends;
}

abbrev pub raw : RawConfig Milli Milli
raw = raw_with (backend ∷ record backend { url = "http://b" } ∷ [])

validate_iff_example :
    (validate raw ≡ ok (settled raw)) ↔ (IsValid raw × (settled raw ≡ settled raw))
validate_iff_example = validate_iff raw (settled raw)

-- The defaults are accepted with two backends, and refused with one backend twice.
pub accepts_defaults : validate raw ≡ ok (settled raw)
unfolding validate check_routing check_signal check_backends contains_text default_routing
    default_admission default_signal default_observability
accepts_defaults = refl

refuses_duplicate :
    validate (raw_with (backend ∷ backend ∷ [])) ≡ err (duplicate_backend "http://a")
unfolding validate check_routing check_signal check_backends contains_text default_routing
    default_admission default_signal default_observability
refuses_duplicate = refl
