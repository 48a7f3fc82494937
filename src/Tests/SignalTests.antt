-- ===== src/Tests/SignalTests.antt =====
-- The text of a backend's metrics: crates/router-proxy/src/signal, and crates/router-bin/src/main.rs.
use keel_llm_router.Base.{
  ℕ, ◌*◌, ◌-◌, ◌≡◌, ◌↔◌, refl, true, false, none, some, List, [], ◌∷◌, Result, ok, err, set, All,
}
use keel_llm_router.Backend.{Backend, default_counters}
use keel_llm_router.Boot.Capacities.{
  mismatches, any_mismatch, validate_backend_capacities, Agrees, capacities_iff,
}
use keel_llm_router.Config.{SignalConfig}
use keel_llm_router.Float.Milli.{Milli, fin, milli_float}
use keel_llm_router.Json.{code_points}
use keel_llm_router.Signal.{
  ScrapeError, timeout, page, Tick, Collector, fetch_metrics, metrics_url, collect_turn,
}
use keel_llm_router.Signal.Latest.{loop, collect_loop-latest}
use keel_llm_router.Signal.Scrape.{
  Casts, metric_value, lines, line_value, split_at, after_text, info_label, line_label, digits,
  parse_capacity, parse_reported,
}
use keel_llm_router.Signal.Ignored.{collect_ignored, collect_any_age}
use keel_llm_router.Strategy.Dispatch.{RoutingStrategy, least_kvts, route}
use keel_llm_router.Strategy.Dispatch.Reports.{outcome}
use keel_llm_router.Router.{default_trace}
use keel_llm_router.Tests.StreamTests.{milli_decay}
use keel_llm_router.Tests.{backend_at, three, snapshot, request, front_rng}

-- Values of one digit.
abbrev casts : Casts Milli Milli
casts = record {
  parse_f64 = elim [ [] ↦ none | c ∷ cs ↦ some (fin ((c - 48) * 1000)) ];
  narrow = λ x. x;
  widen = λ x. x;
  to_u32 = λ x. 0;
  to_u64 = λ x. 0;
}

abbrev pub metrics : List ℕ
metrics =
    code_points
      "# HELP vllm:hits x\nvllm:external_hits 9\nvllm:hits_created 8\nvllm:hits{m=\"x\"} 7\nvllm:cache_config_info{block_size=\"16\",num_gpu_blocks=\"512\"} 1\n"

-- The comment and the metrics with longer names are passed over.
finds_value : metric_value casts metrics (code_points "vllm:hits") ≡ some (fin 7000)
unfolding metric_value code_points lines line_value split_at
finds_value = refl

absent_value : metric_value casts metrics (code_points "vllm:misses") ≡ none
unfolding metric_value code_points lines line_value split_at
absent_value = refl

finds_capacity : parse_capacity metrics ≡ some (record { block_size = 16; num_gpu_blocks = 512 })
unfolding parse_capacity code_points info_label lines line_label split_at after_text digits
finds_capacity = refl

abbrev strategy : RoutingStrategy Milli
strategy = least_kvts

abbrev rng_state : ℕ
rng_state = 0

abbrev signal : SignalConfig Milli
signal = record {
  enabled = true;
  scrape_interval = 1000;
  scrape_timeout = 500;
  max_signal_age = 5000;
  drift_warn_ratio = fin 1500;
  validate_capacity_at_startup = false;
}

collect_ignored_example :
    let b' = (collect_turn casts signal (ok metrics) 5 (fin 3) (backend_at 0 5 4000) none).0 in
    (outcome (
        route strategy
          (record snapshot { backends = set three 0 b' })
          request
          rng_state
          (some default_trace))
      ≡ outcome (route strategy snapshot request rng_state (some default_trace)))
    × ((x : ScrapeError)
        → Path (Result ScrapeError (List ℕ)) (ok metrics) (err x)
        → b'.reported ≡ none)
collect_ignored_example =
    collect_ignored casts strategy snapshot request rng_state 0 (backend_at 0 5 4000) signal
      (ok metrics) 5 (fin 3) none (some default_trace) refl

collect_any_age_example :
    collect_turn casts
      (record signal { max_signal_age = 0 })
      (ok metrics)
      5
      (fin 3)
      (backend_at 0 5 4000)
      none
    ≡ collect_turn casts signal (ok metrics) 5 (fin 3) (backend_at 0 5 4000) none
collect_any_age_example =
    collect_any_age casts (backend_at 0 5 4000) signal (ok metrics) 5 (fin 3) none 0

-- Three rounds: the metrics, another text, and one that takes too long.
abbrev tick : ℕ → ℕ → List ℕ → Tick Milli
tick now took text = record {
  live = default_counters;
  get = λ url. (took, page text);
  now = now;
  seconds = fin 1;
}

abbrev fresh : Collector Milli Milli
fresh = record { backend = backend_at 0 5 4000; prev_sample = none; observed = [] }

abbrev later : List ℕ
later = code_points "vllm:kv_cache_usage_perc 1\n"

collect_loop-latest_example :
    let after =
      loop casts signal
        (λ u. true)
        (tick 5 3 metrics ∷ tick 6 3 later ∷ tick 7 501 metrics ∷ [])
        fresh in
    let before = loop casts signal (λ u. true) (tick 5 3 metrics ∷ []) fresh in
    let (load, sample) = parse_reported casts later 6 before.prev_sample in
    (after.backend.reported ≡ some load)
    × (after.prev_sample ≡ some sample)
    × (load.observed_at ≡ 6)
unfolding fetch_metrics metrics_url
collect_loop-latest_example =
    collect_loop-latest casts signal (λ u. true) (tick 5 3 metrics ∷ []) (tick 7 501 metrics ∷ [])
      (tick 6 3 later) fresh later refl ((timeout, refl), tt)

abbrev reports : List (Backend Milli × Result ScrapeError (List ℕ))
reports = (backend_at 0 0 0, ok metrics) ∷ (backend_at 1 0 0, err timeout) ∷ []

capacities_iff_example : (validate_backend_capacities reports ≡ true) ↔ All Agrees reports
capacities_iff_example = capacities_iff reports

-- 65536 blocks of 65537 tokens pass for 65536 tokens: the product wraps.
abbrev wrapping : List ℕ
wrapping = code_points "vllm:cache_config_info{block_size=\"65537\",num_gpu_blocks=\"65536\"} 1"

product_wraps :
    validate_backend_capacities (
      (
        record (backend_at 0 0 0) {
          caps = record { kv_capacity_tokens = 65536; max_num_seqs = 32 };
        },
        ok wrapping,
      )
      ∷ [])
    ≡ true
unfolding validate_backend_capacities any_mismatch mismatches parse_capacity code_points info_label
    lines line_label split_at after_text digits
product_wraps = refl
