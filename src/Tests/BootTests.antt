-- ===== src/Tests/BootTests.antt =====
-- The router that a configuration starts: crates/router-bin/src/main.rs.
use keel_llm_router.Base.{ℕ, ◌≡◌, refl, true, List, err, contains_text}
use keel_llm_router.Float.Milli.{Milli, milli_float}
use keel_llm_router.Boot.{backend_from, backends_from, start_snapshot, strategy_for}
use keel_llm_router.Boot.Capacities.{mismatches, any_mismatch, validate_backend_capacities}
use keel_llm_router.Boot.Run.{
  Host, Booted, capacity_mismatch, asked, capacities_pass, launch, boot, booted,
}
use keel_llm_router.Config.{
  default_routing, default_admission, default_signal, default_observability,
}
use keel_llm_router.Config.Validate.{settled, validate, check_backends, check_routing, check_signal}
use keel_llm_router.Json.{code_points}
use keel_llm_router.Signal.{page, fetch_metrics, metrics_url}
use keel_llm_router.Signal.Scrape.{
  parse_capacity, info_label, lines, line_label, split_at, after_text, digits,
}
use keel_llm_router.Strategy.Dispatch.{pressure}
use keel_llm_router.Strategy.Pressure.{Pressure}
use keel_llm_router.Upstream.Request.{trim_slashes}
use keel_llm_router.Tests.{front_rng}
use keel_llm_router.Tests.ConfigTests.{raw}
use keel_llm_router.Tests.SignalTests.{metrics}
use keel_llm_router.Tests.StreamTests.{milli_decay}

-- Every backend answers in a millisecond with the text.
abbrev pub host_with : List ℕ → Host
host_with text = record {
  is_socket_addr = λ t. true;
  binds = λ t. true;
  is_uri = λ t. true;
  get = λ url. (1_000_000, page text);
}

abbrev pub host : Host
host = host_with metrics

abbrev knobs : Pressure Milli
knobs = record {
  theta = raw.routing.theta;
  penalty = raw.routing.penalty;
  sigma = raw.admission.sigma;
  kv_model = (settled raw).kv_model;
}

abbrev up : Booted Milli Milli
up = booted (settled raw) (pressure knobs)

-- A backend that reports another capacity is refused.
abbrev small : List ℕ
small = code_points "vllm:cache_config_info{block_size=\"16\",num_gpu_blocks=\"256\"} 1"

refuses_mismatch : boot (host_with small) raw ≡ err capacity_mismatch
unfolding boot validate check_routing check_signal check_backends contains_text default_routing
    default_admission default_signal default_observability launch strategy_for settled
    capacities_pass asked fetch_metrics metrics_url trim_slashes validate_backend_capacities
    any_mismatch mismatches parse_capacity code_points info_label lines line_label split_at
    after_text digits start_snapshot backends_from backend_from
refuses_mismatch = refl
