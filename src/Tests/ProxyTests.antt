-- ===== src/Tests/ProxyTests.antt =====
-- Requests that interleave: crates/router-proxy as a whole.
use keel_llm_router.Base.{
  All, arith, ok, contains_text, refl, collect, ℕ, ◌+◌, ◌%◌, ◌≡◌, Option, none, some, List, [], ◌∷◌,
  get_elem?, length, map,
}
use keel_llm_router.Base.Word.{u32_mod, i64_mod}
use keel_llm_router.Backend.{Backend, Snapshot, default_counters, default_health}
use keel_llm_router.Boot.{backend_from, backends_from, start_snapshot, strategy_for}
use keel_llm_router.Boot.Capacities.{mismatches, any_mismatch, validate_backend_capacities}
use keel_llm_router.Boot.Run.{Booted, asked, capacities_pass, launch, boot, booted, router_state}
use keel_llm_router.Config.{
  RawConfig, default_routing, default_admission, default_signal, default_observability,
}
use keel_llm_router.Config.Validate.{settled, validate, check_backends, check_routing, check_signal}
use keel_llm_router.Cost.{occupancy, project}
use keel_llm_router.Float.Milli.{Milli, fin, milli_float}
use keel_llm_router.Inbound.{
  count_messages, build_features, count_prompt_tokens, features_of, ask_usage,
  ensure_usage_requested,
}
use keel_llm_router.Json.{Value, object, code_points}
use keel_llm_router.Lease.{observe_tokens, release, open_lease, drop_lease}
use keel_llm_router.Lease.Ledger.{count, charges}
use keel_llm_router.Lease.Ledger.Balance.{IsIdle}
use keel_llm_router.LengthEstimator.{
  new_histograms, estimate, lookup, prompt_bucket, route_key, route_key_for,
}
use keel_llm_router.Observe.Log.{results}
use keel_llm_router.Proxy.{
  streaming, World, Event, arrives, connects, chunk, drops, samples, task_lease, run, step,
  on_begun, on_connection, on_chunk, on_drop, on_answer,
}
use keel_llm_router.Proxy.Accounts.{start, proxy_accounts}
use keel_llm_router.Proxy.Drains.{drop_all, fleet_drains}
use keel_llm_router.Proxy.Refines.{Refines}
use keel_llm_router.Proxy.Results.{cancelled, counts_each_request}
use keel_llm_router.Proxy.Total.{booted_goes_on}
use keel_llm_router.Router.{
  RouterState, begin, choose, reserve, decision_log, connected, respond, set_backend,
}
use keel_llm_router.Sampler.{sample_backends}
use keel_llm_router.Sse.{parse_line, classify, classify_choice}
use keel_llm_router.Sse.Utf8.{from_utf8, decode}
use keel_llm_router.Signal.{fetch_metrics, metrics_url}
use keel_llm_router.Signal.Scrape.{
  parse_capacity, info_label, lines, line_label, split_at, after_text, digits,
}
use keel_llm_router.Strategy.Dispatch.{least_requests, route, strategy_name}
use keel_llm_router.Strategy.LeastRequests
use keel_llm_router.Strategy.Scan.{scan, visit}
use keel_llm_router.Tokens.{is_blank, words, is_exact}
use keel_llm_router.Tokens
use keel_llm_router.Trace.{record_pick}
use keel_llm_router.Upstream.{
  CountingSseBody, new, on_data, on_text, drain_lines, on_line, on_frame, on_content, line_frame,
  drop_body,
}
use keel_llm_router.Upstream.Request.{trim_slashes, rebuild_request}
use keel_llm_router.Tests.{backend_at, front_rng, front_fair}
use keel_llm_router.Tests.BootTests.{host}
use keel_llm_router.Tests.ConfigTests.{raw}
use keel_llm_router.Tests.RequestTests.{members, parts}
use keel_llm_router.Tests.RouterTests.{nowhere, state, rng_state}
use keel_llm_router.Tests.StreamTests
use keel_llm_router.Tests.StreamTests.{milli_decay, milli-IsRounding, reader, clock}

abbrev idle : List (Backend Milli)
idle = backend_at 0 0 0 ∷ backend_at 1 0 0 ∷ []

abbrev fresh_snapshot : Snapshot Milli
fresh_snapshot = record { epoch = 0; backends = idle; healthy = 0 ∷ 1 ∷ []; ring = [] }

abbrev fresh_state : RouterState Milli Milli
fresh_state = record state { snapshot = fresh_snapshot }

-- Two requests, a body that is too long, a stream for the first, a tick, and the second one cancelled.
abbrev events : List (Event Milli ℕ (Value Milli))
events =
    arrives nowhere rng_state parts (some (object members)) 9
    ∷ arrives nowhere rng_state parts none 9
    ∷ arrives nowhere rng_state parts (some (object members)) 10
    ∷ connects 1 (some 200)
    ∷ chunk 1 clock StreamTests.chunk
    ∷ samples (fin 950)
    ∷ drops 0
    ∷ []

abbrev world_or : Option (World Milli Milli (Value Milli)) → World Milli Milli (Value Milli)
world_or none = start fresh_state
world_or (some u) = u

abbrev ended : World Milli Milli (Value Milli)
ended = world_or (run reader (start fresh_state) events)

runs : run reader (start fresh_state) events ≡ some ended
unfolding run step on_begun on_connection on_chunk on_drop on_answer begin choose reserve
    decision_log connected respond set_backend sample_backends build_features features_of
    count_prompt_tokens count_messages code_points Tokens.count is_blank words estimate lookup
    route_key prompt_bucket is_exact ensure_usage_requested ask_usage route strategy_name
    LeastRequests.pick scan visit record_pick rebuild_request trim_slashes open_lease drop_lease
    release observe_tokens project occupancy route_key_for new on_data from_utf8 decode on_text
    drain_lines on_line line_frame parse_line classify classify_choice on_frame on_content drop_body
    collect
runs = refl

first_backend : get_elem? ended.state.snapshot.backends 0 ≡ some (backend_at 0 1 3)
unfolding run step on_begun on_connection on_chunk on_drop on_answer begin choose reserve
    decision_log connected respond set_backend sample_backends build_features features_of
    count_prompt_tokens count_messages code_points Tokens.count is_blank words estimate lookup
    route_key prompt_bucket is_exact ensure_usage_requested ask_usage route strategy_name
    LeastRequests.pick scan visit record_pick rebuild_request trim_slashes open_lease drop_lease
    release observe_tokens project occupancy route_key_for new on_data from_utf8 decode on_text
    drain_lines on_line line_frame parse_line classify classify_choice on_frame on_content drop_body
    collect
first_backend = refl

-- The first stream is still open.
proxy_accounts_example :
    (1 ≡ count 0 (map task_lease ended.tasks) % u32_mod)
    × (3 ≡ charges 0 (map task_lease ended.tasks) % i64_mod)
    × (ended.tasks ≡ [] → IsIdle (backend_at 0 1 3))
proxy_accounts_example =
    proxy_accounts milli-IsRounding reader events fresh_state ended 0 (backend_at 0 1 3)
      ((refl, refl), ((refl, refl), tt)) runs first_backend

-- The stream that is still open ends.
fleet_drains_example :
    (v : World Milli Milli (Value Milli)) × (run {R = ℕ} reader ended (drop_all ended.tasks)
      ≡ some v)
    × (v.tasks ≡ [])
    × All IsIdle v.state.snapshot.backends
fleet_drains_example =
    fleet_drains milli-IsRounding reader events fresh_state ended ((refl, refl), ((refl, refl), tt))
      runs

-- One result, one request under way and one cancelled, of three.
counts_each_request_example :
    results ended.log + length ended.tasks + cancelled reader (start fresh_state) events ≡ 3
counts_each_request_example = counts_each_request reader events fresh_state ended runs

one_cancelled : cancelled reader (start fresh_state) events ≡ 1
unfolding cancelled run step on_begun on_connection on_chunk on_drop on_answer begin choose reserve
    decision_log connected respond set_backend sample_backends build_features features_of
    count_prompt_tokens count_messages code_points Tokens.count is_blank words estimate lookup
    route_key prompt_bucket is_exact ensure_usage_requested ask_usage route strategy_name
    LeastRequests.pick scan visit record_pick rebuild_request trim_slashes open_lease drop_lease
    release observe_tokens project occupancy route_key_for new on_data from_utf8 decode on_text
    drain_lines on_line line_frame parse_line classify classify_choice on_frame on_content drop_body
    collect
one_cancelled = refl

-- A router that picks the backend with the fewest requests, from its configuration on.
abbrev quiet : RawConfig Milli Milli
quiet = record raw { routing = record raw.routing { strategy = "least_requests" } }

abbrev up : Booted Milli Milli
up = booted (settled quiet) least_requests

boots : boot host quiet ≡ ok up
unfolding boot validate check_routing check_signal check_backends contains_text default_routing
    default_admission default_signal default_observability launch strategy_for settled
    capacities_pass asked fetch_metrics metrics_url trim_slashes validate_backend_capacities
    any_mismatch mismatches parse_capacity code_points info_label lines line_label split_at
    after_text digits start_snapshot backends_from backend_from
boots = refl

-- A request that is answered, and one that was too long.
abbrev before : List (Event Milli ℕ (Value Milli))
before =
    arrives nowhere rng_state parts (some (object members)) 9
    ∷ connects 0 (some 200)
    ∷ arrives nowhere rng_state parts none 9
    ∷ []

abbrev answered : World Milli Milli (Value Milli)
answered = world_or (run reader (start up.state) before)

answers : run reader (start up.state) before ≡ some answered
unfolding booted router_state new_histograms start_snapshot backends_from backend_from settled
    default_routing default_counters default_health run step on_begun on_connection on_answer begin
    choose reserve decision_log connected respond set_backend build_features features_of
    count_prompt_tokens count_messages code_points Tokens.count is_blank words estimate lookup
    route_key prompt_bucket is_exact ensure_usage_requested ask_usage route strategy_name
    LeastRequests.pick scan visit record_pick rebuild_request trim_slashes open_lease project
    occupancy route_key_for new collect
answers = refl

one_stream :
    (length answered.tasks ≡ 1)
    × (answered.state.strategy ≡ least_requests)
    × (body : CountingSseBody) × (get_elem? answered.tasks 0 ≡ some (streaming body))
unfolding booted router_state new_histograms start_snapshot backends_from backend_from settled
    default_routing default_counters default_health run step on_begun on_connection on_answer begin
    choose reserve decision_log connected respond set_backend build_features features_of
    count_prompt_tokens count_messages code_points Tokens.count is_blank words estimate lookup
    route_key prompt_bucket is_exact ensure_usage_requested ask_usage route strategy_name
    LeastRequests.pick scan visit record_pick rebuild_request trim_slashes open_lease project
    occupancy route_key_for new collect
one_stream = (refl, refl, _, refl)

booted_goes_on_example :
    (v : World Milli Milli (Value Milli)) × (step {R = ℕ} reader answered
        (chunk 0 clock StreamTests.chunk)
      ≡ some v)
booted_goes_on_example =
    let (one, strategy, body, is_stream) = one_stream in
    booted_goes_on front_fair milli-IsRounding reader host quiet up before answered
      (chunk 0 clock StreamTests.chunk) boots
      ((omega arith, omega arith), ((omega arith, omega arith), tt)) (omega arith) answers
      (body, is_stream)
