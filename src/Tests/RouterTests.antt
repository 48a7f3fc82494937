-- ===== src/Tests/RouterTests.antt =====
-- Requests, from their body to the answer: crates/router-proxy/src/router.rs.
use keel_llm_router.Base.{ℕ, ◌≡◌, ◌↔◌, refl, none, some, [], ◌∷◌, arith, collect, Elem}
use keel_llm_router.Backend.{BackendId}
use keel_llm_router.Cost.{prompt_only, occupancy}
use keel_llm_router.Float.Milli.{Milli, fin, milli_float, Milli-IsRounded}
use keel_llm_router.Inbound.{
  count_messages, build_features, count_prompt_tokens, features_of, ask_usage,
  ensure_usage_requested,
}
use keel_llm_router.Json.{Value, null, object, code_points}
use keel_llm_router.Lease.{release, open_lease, drop_lease}
use keel_llm_router.LengthEstimator.{estimate, lookup, prompt_bucket, route_key}
use keel_llm_router.Observe
use keel_llm_router.Router.{
  RouterState, Outside, Handled, refused, reserve, choose, begin, decision_log, connected, finish,
  set_backend, handle_inner, handle,
}
use keel_llm_router.Router.Books.{SameLoads, handle_refused_books}
use keel_llm_router.Router.Panics.{HasOddOptions, handle_panics_iff}
use keel_llm_router.Strategy.Dispatch.{RoutingStrategy, least_requests, route, strategy_name}
use keel_llm_router.Strategy.Dispatch.Contract.{IsServing, route_contract}
use keel_llm_router.Strategy.LeastRequests
use keel_llm_router.Strategy.Rng.{Picked}
use keel_llm_router.Strategy.Scan.{scan, visit}
use keel_llm_router.Tokens.{is_blank, words, count, is_exact}
use keel_llm_router.Trace.{record_pick}
use keel_llm_router.Upstream.Request.{trim_slashes, rebuild_request}
use keel_llm_router.Tests.{three, snapshot, request, front_rng, front_fair}
use keel_llm_router.Tests.RequestTests.{
  counter, members, plain, odd, parts, any_uri, odd_features, features,
}
use keel_llm_router.Tests.StreamTests.{milli_decay, milli-IsRounding, hists}

serving : IsServing Milli-IsRounded front_fair least_requests snapshot
serving = record {
  wired = (omega arith, (omega arith, (omega arith, tt)));
  counted = (omega arith, (omega arith, (omega arith, tt)));
  charged =
      ((omega arith, omega arith), ((omega arith, omega arith), ((omega arith, omega arith), tt)));
  scored = λ p e. cc;
}

route_contract_example :
    (out : RoutingStrategy Milli × Picked Milli Milli ℕ) × (route least_requests snapshot request 0
        none
      ≡ some out)
    × ((out.1.chosen ≡ none) ↔ (snapshot.healthy ≡ []))
    × ((id : BackendId) → out.1.chosen ≡ some id → Elem id snapshot.healthy)
route_contract_example =
    route_contract Milli-IsRounded front_fair least_requests snapshot request 0 none serving

-- No backend answers.
abbrev pub nowhere : Outside Milli (Value Milli)
nowhere = record {
  json = plain;
  is_uri = any_uri;
  dispatch = λ r. none;
  decision_seconds = fin 1;
  overhead_seconds = fin 2;
  drawn = fin 500;
}

abbrev pub state : RouterState Milli Milli
state = record {
  snapshot = snapshot;
  strategy = least_requests;
  max_request_body_bytes = 4096;
  decision_trace_sample_rate = fin 10;
  kv_model = prompt_only;
  route_hists = hists;
  token_counter = counter;
}

abbrev pub rng_state : ℕ
rng_state = 0

abbrev handled : Handled Milli Milli
handled = record {
  state = state;
  answer = refused 502;
  observed =
      Observe.backend_error "b" "connect"
      ∷ Observe.kv_projected "b" 603
      ∷ Observe.occupancy "b" (fin 73)
      ∷ Observe.inflight "b" 2
      ∷ Observe.router_overhead (fin 2)
      ∷ Observe.decision_duration "least_requests" (fin 1)
      ∷ [];
}

bad_gateway : handle_inner nowhere state rng_state parts (some (object members)) 9 ≡ some handled
unfolding handle_inner build_features features_of count_prompt_tokens count_messages code_points
    count is_blank words estimate lookup route_key prompt_bucket is_exact ensure_usage_requested
    ask_usage begin choose reserve decision_log strategy_name connected finish occupancy route
    LeastRequests.pick scan visit record_pick collect set_backend rebuild_request trim_slashes
    open_lease drop_lease release
bad_gateway = refl

handle_refused_books_example : SameLoads three three
handle_refused_books_example =
    handle_refused_books nowhere state rng_state parts milli-IsRounding (some (object members)) 9
      handled
      ((omega arith, omega arith), ((omega arith, omega arith), ((omega arith, omega arith), tt)))
      bad_gateway (502, refl)

handle_panics_iff_example :
    (handle nowhere state rng_state parts (some (object odd)) 9 ≡ none)
    ↔ HasOddOptions nowhere state rng_state parts (some (object odd)) 9
handle_panics_iff_example =
    handle_panics_iff nowhere state rng_state parts front_fair serving.wired milli-IsRounding
      (some (object odd)) 9

null_body_panics : handle nowhere state rng_state parts (some (object odd)) 9 ≡ none
null_body_panics =
    handle_panics_iff_example.1
      (object odd, odd, features, refl, refl, odd_features, refl, (null, refl, refl))
