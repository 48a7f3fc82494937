-- ===== src/Observe.antt =====
-- crates/router-proxy/src/observe.rs: what the router tells of itself. A `Call` is a call of one of the
-- `record_..` routines, which the other modules log; `perform` is what the routines do. A metric keeps
-- the operations that it was given; the texts of the descriptions and of the warnings are left out.
pub mod Once
pub mod Mean
pub mod Log
pub mod Described
use keel_llm_router.Base.{
  ℕ, ◌+◌, ◌-◌, ◌%◌, ◌^◌, Bool, true, false, ◌||◌, Option, none, some, List, [], ◌∷◌, ◌++◌, String,
  ltb, ◌==◌, if◌then◌else◌,
}
use keel_llm_router.Backend.{ReportedLoad}
use keel_llm_router.Float.{Float}
use keel_llm_router.Trace.{DecisionTrace}

-- The calls. `saturated_dispatch` and `decision_trace` stand in the handler itself.
pub data Call (D S : Type 0) : Type 0 where
  request_result : Bool → Call D S
  backend_error : String → String → Call D S
  inflight : String → ℕ → Call D S
  occupancy : String → D → Call D S
  occupancy_tick : String → Bool → Call D S
  kv_projected : String → ℕ → Call D S
  decision_duration : String → D → Call D S
  router_overhead : D → Call D S
  prompt_token_ratio : ℕ → ℕ → Call D S
  output_length_ratio : ℕ → ℕ → Call D S
  scrape_result : String → String → D → Call D S
  scraped_metrics : String → ReportedLoad S → ℕ → Call D S
  projection_drift : String → D → D → Call D S
  saturated_dispatch : Call D S
  decision_trace : DecisionTrace D S → Call D S

pub data Kind : Type 0 where
  counter gauge histogram : Kind

-- An operation on a metric, by its name and its labels: `increment(1)`, `set` and `record`.
pub data Metric (D : Type 0) : Type 0 where
  increment : String → List (String × String) → Metric D
  set_gauge : String → List (String × String) → D → Metric D
  record_value : String → List (String × String) → D → Metric D

pub data Warning (D : Type 0) : Type 0 where
  token_count_mismatch : D → ℕ → Warning D
  drift : D → ℕ → D → String → Warning D

-- The statics of a warning that is given once: `SAMPLES`, `SUM_MILLI` and `WARNED`.
pub record Statics : Type 0 where
  pub samples : ℕ
  pub sum_milli : ℕ
  pub warned : Bool

unfoldable pub fresh : Statics
fresh = record { samples = 0; sum_milli = 0; warned = false }

abbrev pub min_samples : ℕ
min_samples = 50

-- `fetch_add` on an `AtomicU64`.
abbrev pub add_u64 : ℕ → ℕ → ℕ
add_u64 a b = (a + b) % 2 ^ 64

pub record Monitor (D : Type 0) : Type 0 where
  pub tokens : Statics
  pub drifts : Statics
  pub metrics : List (Metric D)
  pub warnings : List (Warning D)

abbrev by_backend : String → List (String × String)
by_backend key = ("backend", key) ∷ []

-- `describe_metrics`, without the texts.
unfoldable pub described : List (Kind × String)
described =
    (counter, "router_requests_total")
    ∷ (counter, "router_backend_errors_total")
    ∷ (counter, "router_saturated_dispatches_total")
    ∷ (gauge, "router_backend_occupancy")
    ∷ (gauge, "router_backend_kv_projected")
    ∷ (gauge, "router_backend_inflight")
    ∷ (counter, "router_backend_occupancy_ticks_total")
    ∷ (counter, "router_backend_ticks_at_ceiling_total")
    ∷ (histogram, "router_decision_duration_seconds")
    ∷ (histogram, "router_overhead_seconds")
    ∷ (histogram, "router_prompt_token_ratio")
    ∷ (histogram, "router_output_length_ratio")
    ∷ (gauge, "router_projection_drift")
    ∷ (counter, "router_signal_scrape_total")
    ∷ (histogram, "router_signal_scrape_duration_seconds")
    ∷ (gauge, "router_signal_age_seconds")
    ∷ (gauge, "router_backend_reported_kv_usage")
    ∷ (gauge, "router_backend_num_running")
    ∷ (gauge, "router_backend_num_waiting")
    ∷ (gauge, "router_backend_prefix_hit_rate")
    ∷ (gauge, "router_backend_preemptions_total")
    ∷ []

module _ {D : Type 0} ⦃f : Float D⦄ where
  -- `(ratio * 1000.0).round() as u64`
  abbrev pub milli_of : D → ℕ
  milli_of ratio = f.round_u64 (f.mul ratio (f.of_ℕ 1000))

  -- `sum as f64 / 1000.0 / n as f64`
  abbrev pub mean_of : ℕ → ℕ → D
  mean_of sum n = f.div (f.div (f.of_ℕ sum) (f.of_ℕ 1000)) (f.of_ℕ n)

  -- The statics after one more ratio, with the mean and the number of samples to warn of.
  unfoldable pub sample : (D → Bool) → D → Statics → Statics × Option (D × ℕ)
  sample is_off ratio s =
      let n = add_u64 s.samples 1 in
      let sum = add_u64 s.sum_milli (milli_of ratio) in
      let s' = record s { samples = n; sum_milli = sum } in
      if ltb n min_samples || s.warned
      then (s', none)
      else (if is_off (mean_of sum n)
          then (record s' { warned = true }, some (mean_of sum n, n))
          else (s', none))

  -- `(mean - 1.0).abs() > TOLERANCE`
  unfoldable pub is_mismatch : D → Bool
  is_mismatch mean = f.lt (f.thousandths 100) (f.abs (f.sub mean f.unit))

  -- `mean < lo || mean > hi`
  unfoldable pub is_drift : D → D → Bool
  is_drift warn_ratio mean = f.lt mean (f.div f.unit warn_ratio) || f.lt warn_ratio mean

  unfoldable pub record_prompt_token_ratio : ℕ → ℕ → Monitor D → Monitor D
  unfolding sample is_mismatch
  record_prompt_token_ratio estimated reported m =
      if reported == 0
      then m
      else let ratio = f.div (f.of_ℕ estimated) (f.of_ℕ reported) in
        let sampled = sample is_mismatch ratio m.tokens in
        record m {
          tokens = sampled.0;
          metrics = record_value "router_prompt_token_ratio" [] ratio ∷ m.metrics;
          warnings = elim sampled.1 [
            | none ↦ m.warnings
            | some (mean, n) ↦ token_count_mismatch mean n ∷ m.warnings
          ];
        }

  unfoldable pub record_projection_drift : String → D → D → Monitor D → Monitor D
  unfolding sample is_drift
  record_projection_drift key ratio warn_ratio m =
      let sampled = sample (is_drift warn_ratio) ratio m.drifts in
      record m {
        drifts = sampled.0;
        metrics = set_gauge "router_projection_drift" (by_backend key) ratio ∷ m.metrics;
        warnings = elim sampled.1 [
          | none ↦ m.warnings
          | some (mean, n) ↦ drift mean n warn_ratio key ∷ m.warnings
        ];
      }

  -- The gauge of a field that is there.
  abbrev pub gauge_of : {A : Type 0} → String → String → (A → D) → Option A → List (Metric D)
  gauge_of name key to_f64 none = []
  gauge_of name key to_f64 (some a) = set_gauge name (by_backend key) (to_f64 a) ∷ []

  -- An age is a number of nanoseconds, `as_secs_f64` a number of seconds.
  unfoldable pub record_scraped_metrics :
      {S : Type 0} → (S → D) → String → ReportedLoad S → ℕ → List (Metric D)
  record_scraped_metrics widen key reported now =
      set_gauge "router_signal_age_seconds" (by_backend key)
        (f.div (f.of_ℕ (now - reported.observed_at)) (f.of_ℕ (10 ^ 9)))
      ∷ (gauge_of "router_backend_reported_kv_usage" key widen reported.kv_usage_perc
          ++ (gauge_of "router_backend_num_running" key f.of_ℕ reported.num_running
              ++ (gauge_of "router_backend_num_waiting" key f.of_ℕ reported.num_waiting
                  ++ (gauge_of "router_backend_prefix_hit_rate" key widen reported.prefix_hit_rate
                      ++ gauge_of "router_backend_preemptions_total" key f.of_ℕ
                          reported.preemptions))))

  -- What the other routines do to their metrics.
  unfoldable pub updates : {S : Type 0} → (S → D) → Call D S → List (Metric D)
  unfolding record_scraped_metrics
  updates widen (request_result ok) =
      increment "router_requests_total" (("result", if ok then "ok" else "error") ∷ []) ∷ []
  updates widen (backend_error key kind) =
      increment "router_backend_errors_total" (("backend", key) ∷ ("kind", kind) ∷ []) ∷ []
  updates widen (inflight key n) =
      set_gauge "router_backend_inflight" (by_backend key) (f.of_ℕ n) ∷ []
  updates widen (occupancy key u) = set_gauge "router_backend_occupancy" (by_backend key) u ∷ []
  updates widen (occupancy_tick key at_ceiling) =
      increment "router_backend_occupancy_ticks_total" (by_backend key)
      ∷ (if at_ceiling
          then increment "router_backend_ticks_at_ceiling_total" (by_backend key) ∷ []
          else [])
  updates widen (kv_projected key tokens) =
      set_gauge "router_backend_kv_projected" (by_backend key) (f.of_i64 tokens) ∷ []
  updates widen (decision_duration strategy seconds) =
      record_value "router_decision_duration_seconds" (("strategy", strategy) ∷ []) seconds ∷ []
  updates widen (router_overhead seconds) = record_value "router_overhead_seconds" [] seconds ∷ []
  updates widen (output_length_ratio estimated actual) =
      if ltb 0 actual
      then record_value "router_output_length_ratio" [] (f.div (f.of_ℕ estimated) (f.of_ℕ actual))
        ∷ []
      else []
  updates widen (scrape_result key result seconds) =
      increment "router_signal_scrape_total" (("backend", key) ∷ ("result", result) ∷ [])
      ∷ record_value "router_signal_scrape_duration_seconds" (by_backend key) seconds
      ∷ []
  updates widen (scraped_metrics key reported now) = record_scraped_metrics widen key reported now
  updates widen saturated_dispatch = increment "router_saturated_dispatches_total" [] ∷ []
  updates widen (decision_trace trace) = []
  updates widen (prompt_token_ratio estimated reported) = []
  updates widen (projection_drift key ratio warn_ratio) = []

  -- One call, and the calls of a log, whose last one stands first.
  unfoldable pub perform : {S : Type 0} → (S → D) → Call D S → Monitor D → Monitor D
  unfolding updates record_prompt_token_ratio record_projection_drift
  perform widen (prompt_token_ratio estimated reported) m =
      record_prompt_token_ratio estimated reported m
  perform widen (projection_drift key ratio warn_ratio) m =
      record_projection_drift key ratio warn_ratio m
  perform widen call m = record m { metrics = updates widen call ++ m.metrics }

  unfoldable pub perform_all : {S : Type 0} → (S → D) → List (Call D S) → Monitor D → Monitor D
  unfolding perform
  perform_all widen [] m = m
  perform_all widen (c ∷ log) m = perform widen c (perform_all widen log m)
