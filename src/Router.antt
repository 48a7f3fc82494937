-- ===== src/Router.antt =====
-- crates/router-proxy/src/router.rs: one request, from its body to the body of the answer. What the
-- handler awaits is given: the bytes that were read, and what the backend's connection brings.
pub mod Rule
pub mod Begin
pub mod Quiet
pub mod Fixed
pub mod Panics
pub mod Books
use keel_llm_router.Base.{
  ℕ, Bool, true, false, Option, none, some, List, [], ◌∷◌, ◌++◌, String, get_elem?, set, is_empty,
  if◌then◌else◌, ◌>>=◌, Result, ok, err,
}
use keel_llm_router.Backend.{Backend, BackendId, Snapshot}
use keel_llm_router.Cost
use keel_llm_router.Cost.{KvModel}
use keel_llm_router.Features.{RequestFeatures}
use keel_llm_router.Float.{Float}
use keel_llm_router.Inbound.{build_features, ensure_usage_requested}
use keel_llm_router.Json.{Json, unwrap_or}
use keel_llm_router.Lease.{CostLease, open_lease, drop_lease}
use keel_llm_router.LengthEstimator.{Decay, RouteHistograms, route_key_for}
use keel_llm_router.Observe.{
  Call, request_result, backend_error, inflight, occupancy, kv_projected, decision_duration,
  router_overhead, saturated_dispatch, decision_trace,
}
use keel_llm_router.Strategy.Dispatch.{RoutingStrategy, strategy_name, route}
use keel_llm_router.Strategy.Rng.{Rng}
use keel_llm_router.Tokens.{TokenCounter}
use keel_llm_router.Trace.{DecisionTrace}
use keel_llm_router.Upstream.{Relay, new}
use keel_llm_router.Upstream.Request.{Parts, Outgoing, rebuild_request}

pub record RouterState (D S : Type 0) : Type 0 where
  pub snapshot : Snapshot S
  pub strategy : RoutingStrategy D
  pub max_request_body_bytes : ℕ
  pub decision_trace_sample_rate : D
  pub kv_model : KvModel
  pub route_hists : RouteHistograms D
  pub token_counter : TokenCounter D

-- What is outside: JSON, URIs, the connection, which brings the status of an answer or an error, the two
-- durations that are measured, and the number that the generator drew for the sampled trace.
pub record Outside (D B : Type 0) : Type 0 where
  pub json : Json D B
  pub is_uri : String → Bool
  pub dispatch : Outgoing B → Option ℕ
  pub decision_seconds : D
  pub overhead_seconds : D
  pub drawn : D

-- A status code of the router's own, or the status of the backend with the body that is relayed.
pub data Answer (D S : Type 0) : Type 0 where
  refused : ℕ → Answer D S
  relayed : ℕ → Relay D S → Answer D S

pub record Handled (D S : Type 0) : Type 0 where
  pub state : RouterState D S
  pub answer : Answer D S
  pub observed : List (Call D S)

-- A request that waits for its connection, and what the handler does up to there.
pub record Pending (B : Type 0) : Type 0 where
  pub lease : CostLease
  pub backend_key : String
  pub features : RequestFeatures
  pub now : ℕ
  pub request : Outgoing B

pub data Begun (B : Type 0) : Type 0 where
  rejected : ℕ → Begun B
  dispatching : Pending B → Begun B

module _ {D S : Type 0} ⦃f : Float D⦄ ⦃d : Decay D⦄ where
  unfoldable pub set_backend : RouterState D S → BackendId → Backend S → RouterState D S
  set_backend state id b = record state {
    snapshot = record state.snapshot { backends = set state.snapshot.backends id b };
  }

  abbrev pub refuse : RouterState D S → ℕ → List (Call D S) → Handled D S
  refuse state status log = record { state = state; answer = refused status; observed = log }

  -- From the choice of a backend to the connection: the lease is opened, and dropped where the request
  -- cannot be built.
  unfoldable pub reserve :
      {B : Type 0}
      → Outside D B
      → RouterState D S
      → Parts
      → B
      → RequestFeatures
      → ℕ
      → BackendId
      → Backend S
      → List (Call D S)
      → RouterState D S × Begun B × List (Call D S)
  reserve out state parts bytes features now id backend log =
      let opened =
        open_lease id backend features.prompt_tokens features.expected_output_tokens state.kv_model
          now in
      let live = opened.1.live in
      let log' =
        kv_projected backend.key live.kv_projected_tokens
        ∷ occupancy backend.key (Cost.occupancy opened.1)
        ∷ inflight backend.key live.inflight
        ∷ log in
      elim (rebuild_request out.is_uri parts bytes backend.uri) [
        | err e ↦ (set_backend state id (drop_lease opened.0 opened.1), rejected 502, log')
        | ok request ↦ (
          set_backend state id opened.1,
          dispatching (record {
            lease = opened.0;
            backend_key = backend.key;
            features = features;
            now = now;
            request = request;
          }),
          log',
        )
      ]

  -- What follows the connection, with the backend of the lease as it is by then.
  unfoldable pub connected :
      {B : Type 0} → RouterState D S → Pending B → Backend S → Option ℕ → Handled D S
  connected state p backend none = record {
    state = set_backend state p.lease.backend (drop_lease p.lease backend);
    answer = refused 502;
    observed = backend_error p.backend_key "connect" ∷ [];
  }
  connected state p backend (some status) = record {
    state = state;
    answer = relayed status (record {
      body = new (record {
        lease = p.lease;
        backend_key = p.backend_key;
        estimated_output_tokens = p.features.expected_output_tokens;
        dispatched_at = p.now;
        upstream_status = status;
        route = route_key_for p.features;
        estimated_prompt_tokens = p.features.prompt_tokens;
      });
      backend = backend;
      route_hists = state.route_hists;
      observed = [];
    });
    observed = [];
  }

  -- What is left of a request that nothing else comes between.
  unfoldable pub finish :
      {B : Type 0}
      → Outside D B
      → RouterState D S
      → Begun B
      → List (Call D S)
      → Option (Handled D S)
  unfolding connected
  finish out state (rejected status) log = some (refuse state status log)
  finish out state (dispatching p) log = do
    backend ← get_elem? state.snapshot.backends p.lease.backend
    let h = connected state p backend (out.dispatch p.request)
    some (record h { observed = h.observed ++ log })

  -- A refusal becomes an error response, which counts as a failed request.
  unfoldable pub respond : Handled D S → Handled D S
  respond h = elim h.answer [
    | refused status ↦ record h { observed = request_result false ∷ h.observed }
    | relayed status r ↦ h
  ]

  -- `DecisionTrace::default`
  abbrev pub default_trace : DecisionTrace D S
  default_trace = record {
    strategy = "";
    chosen = none;
    candidates = [];
    prompt_tokens = 0;
    expected_output_tokens = 0;
    fell_through = false;
  }

  -- What is told of a decision, with the trace that the strategy wrote.
  unfoldable pub decision_log :
      {B : Type 0} → Outside D B → RouterState D S → DecisionTrace D S → List (Call D S)
  decision_log out state trace =
      router_overhead out.overhead_seconds
      ∷ ((if f.lt out.drawn state.decision_trace_sample_rate then decision_trace trace ∷ [] else [])
          ++ ((if trace.fell_through then saturated_dispatch ∷ [] else [])
              ++ decision_duration (strategy_name state.strategy) out.decision_seconds ∷ []))

  module _ {R B : Type 0} ⦃g : Rng R⦄ where
    -- The choice of a backend, for a request that was read; `none` is a panic.
    unfoldable pub choose :
        Outside D B
        → RouterState D S
        → R
        → Parts
        → B
        → RequestFeatures
        → ℕ
        → Option (RouterState D S × Begun B × List (Call D S))
    unfolding reserve decision_log
    choose out state rng parts bytes features now =
        if is_empty state.snapshot.healthy then some (state, rejected 503, []) else do
          picked ← route state.strategy state.snapshot features rng (some default_trace)
          let state' = record state { strategy = picked.0 }
          elim picked.1.chosen [
            | none ↦ some (state', rejected 503, [])
            | some id ↦ do
              backend ← get_elem? state.snapshot.backends id
              some (
                  reserve out state' parts bytes features now id backend
                    (decision_log out state (unwrap_or picked.1.trace default_trace)))
          ]

    -- From the body that was read to the connection. `body` is none where it is longer than
    -- `max_request_body_bytes`.
    unfoldable pub begin :
        Outside D B
        → RouterState D S
        → R
        → Parts
        → Option B
        → ℕ
        → Option (RouterState D S × Begun B × List (Call D S))
    unfolding choose
    begin out state rng parts none now = some (state, rejected 413, [])
    begin out state rng parts (some bytes) now =
        elim (build_features out.json bytes now state.route_hists state.token_counter) [
          | err e ↦ some (state, rejected 400, [])
          | ok features ↦ do
            asked ← ensure_usage_requested out.json bytes features.streaming
            choose out state rng parts asked features now
        ]

    unfoldable pub handle_inner :
        Outside D B → RouterState D S → R → Parts → Option B → ℕ → Option (Handled D S)
    unfolding begin finish
    handle_inner out state rng parts body now = do
      begun ← begin out state rng parts body now
      finish out begun.0 begun.1 begun.2

    unfoldable pub handle :
        Outside D B → RouterState D S → R → Parts → Option B → ℕ → Option (Handled D S)
    unfolding handle_inner respond
    handle out state rng parts body now = do
      h ← handle_inner out state rng parts body now
      some (respond h)
