-- ===== src/Boot/Run.antt =====
-- crates/router-bin/src/main.rs: the start of the router, from the configuration that was read. What is
-- outside is given: which texts are addresses, whether the listener of the metrics binds, and what the
-- backends answer.
use mathlib.Core.Path.{subst}
use keel_llm_router.Base.{
  ℕ, ◌+◌, ◌≡◌, ◌↔◌, refl, inl, inr, Bool, true, not, Option, none, some, List, map, String,
  if◌then◌else◌, Result, ok, err, arith, All, Option-cases, err-ne-ok,
}
use keel_llm_router.Backend.{Backend}
use keel_llm_router.Boot.{start_snapshot, strategy_for}
use keel_llm_router.Boot.Capacities.{validate_backend_capacities, Agrees, capacities_iff}
use keel_llm_router.Config.{RawConfig, Config, ConfigError, SignalConfig}
use keel_llm_router.Config.Sound.{IsValid, validate_iff}
use keel_llm_router.Config.Validate.{from_millis, settled, validate}
use keel_llm_router.Float.{Float}
use keel_llm_router.LengthEstimator.{Decay, new_histograms}
use keel_llm_router.Router.{RouterState}
use keel_llm_router.Router.Rule.{Result-cases}
use keel_llm_router.Signal.{Reply, ScrapeError, fetch_metrics, metrics_url, spawn_collectors}
use keel_llm_router.Signal.Scrape.{CounterSample}
use keel_llm_router.Strategy.Dispatch.{RoutingStrategy}

pub record Host : Type 0 where
  pub is_socket_addr : String → Bool
  pub binds : String → Bool
  pub is_uri : String → Bool
  pub get : String → ℕ × Reply

pub data BootError (D : Type 0) : Type 0 where
  invalid : ConfigError D → BootError D
  bad_admin_bind : BootError D
  no_recorder : BootError D
  unknown_strategy : BootError D
  capacity_mismatch : BootError D

-- The state that the tasks share, what the sampler is given (sigma and the interval), the configuration of
-- the collectors, and the collectors themselves.
pub record Booted (D S : Type 0) : Type 0 where
  pub state : RouterState D S
  pub sampler : D × ℕ
  pub signal : SignalConfig D
  pub collectors : List (ℕ × Option (CounterSample D))

-- What each backend is asked for, and answers, before any traffic.
unfoldable pub asked :
    {S : Type 0} → Host → ℕ → List (Backend S) → List (Backend S × Result ScrapeError (List ℕ))
asked host limit bs = map (λ b. (b, fetch_metrics host.is_uri host.get (metrics_url b) limit)) bs

module _ {D S : Type 0} ⦃f : Float D⦄ ⦃d : Decay D⦄ where
  unfoldable pub router_state : Config D S → RoutingStrategy D → RouterState D S
  router_state config strategy = record {
    snapshot = start_snapshot config;
    strategy = strategy;
    max_request_body_bytes = config.max_request_body_bytes;
    decision_trace_sample_rate = config.decision_trace_sample_rate;
    kv_model = config.kv_model;
    route_hists = new_histograms config.route_p50_halflife_s;
    token_counter = config.token_counter;
  }

  unfoldable pub booted : Config D S → RoutingStrategy D → Booted D S
  unfolding router_state
  booted config strategy =
      let state = router_state config strategy in
      record {
        state = state;
        sampler = (config.sigma, from_millis config.occupancy_sample_interval_ms);
        signal = config.signal;
        collectors = spawn_collectors config.signal state.snapshot;
      }

  -- The assertion on the capacities, which runs where it is asked for, with half a second more.
  unfoldable pub capacities_pass : Host → Config D S → Bool
  capacities_pass host config =
      if config.signal.validate_capacity_at_startup
      then validate_backend_capacities (
          asked host (config.signal.scrape_timeout + from_millis 500)
            (start_snapshot config).backends)
      else true

  -- `main`, from the configuration that passed validation to the call that serves.
  unfoldable pub launch : Host → Config D S → Result (BootError D) (Booted D S)
  unfolding capacities_pass
  launch host config =
      if not (host.is_socket_addr config.admin_bind)
      then err bad_admin_bind
      else if not (host.binds config.admin_bind)
      then err no_recorder
      else elim (strategy_for config) [
        | none ↦ err unknown_strategy
        | some strategy ↦
            if capacities_pass host config
            then ok (booted config strategy)
            else err capacity_mismatch
      ]

  unfoldable pub boot : Host → RawConfig D S → Result (BootError D) (Booted D S)
  unfolding launch
  boot host raw = elim (validate raw) [ err e ↦ err (invalid e) | ok config ↦ launch host config ]

  -- Where the assertion is asked for, every backend that answers with its capacity in time, half a second
  -- more than a scrape has, has that capacity configured.
  abbrev pub CapacitiesAgree : Host → Config D S → Type 0
  CapacitiesAgree host config =
      config.signal.validate_capacity_at_startup ≡ true
      → All Agrees (
          asked host (config.signal.scrape_timeout + from_millis 500)
            (start_snapshot config).backends)

  capacities_pass_iff :
      (host : Host) (config : Config D S)
      → (capacities_pass host config ≡ true) ↔ CapacitiesAgree host config
  unfolding capacities_pass
  capacities_pass_iff host config = ground (
    arith,
    capacities_iff (
        asked host (config.signal.scrape_timeout + from_millis 500)
          (start_snapshot config).backends),
  )

  -- The start reached the call that serves, with this state.
  pub record Launches (host : Host) (config : Config D S) (b : Booted D S) : Type 0 where
    pub address : host.is_socket_addr config.admin_bind ≡ true
    pub bound : host.binds config.admin_bind ≡ true
    pub agreed : CapacitiesAgree host config
    pub strategy : RoutingStrategy D
    pub known : strategy_for config ≡ some strategy
    pub same : b ≡ booted config strategy

  launch_known :
      (host : Host) (config : Config D S) (b : Booted D S) (s : RoutingStrategy D)
      → strategy_for config ≡ some s
      → (launch host config ≡ ok b) ↔ (
          (host.is_socket_addr config.admin_bind ≡ true)
          × (host.binds config.admin_bind ≡ true)
          × (capacities_pass host config ≡ true)
          × (b ≡ booted config s))
  unfolding launch
  launch_known host config b s e = rw e (ground arith)

  launch_unknown :
      (host : Host) (config : Config D S) (b : Booted D S)
      → strategy_for config ≡ none
      → ¬ (launch host config ≡ ok b)
  unfolding launch
  launch_unknown host config b e h = ground arith

  launch_iff :
      (host : Host) (config : Config D S) (b : Booted D S)
      → (launch host config ≡ ok b) ↔ Launches host config b
  launch_iff host config b = (
    λ h. elim (Option-cases (strategy_for config)) [
      | inl e ↦ absurd (launch_unknown host config b e h)
      | inr (s, e) ↦
          let (address, bound, pass, same) = (launch_known host config b s e).0 h in
          record {
            address = address;
            bound = bound;
            agreed = (capacities_pass_iff host config).0 pass;
            strategy = s;
            known = e;
            same = same;
          }
    ],
    λ l.
        (launch_known host config b l.strategy l.known).1
          (l.address, l.bound, (capacities_pass_iff host config).1 l.agreed, l.same),
  )

  pub boot_iff :
      (host : Host) (raw : RawConfig D S) (b : Booted D S)
      → (boot host raw ≡ ok b) ↔ (IsValid raw × Launches host (settled raw) b)
  unfolding boot
  boot_iff host raw b = (
    λ h. elim (Result-cases (validate raw)) [
      | inl (x, e) ↦ absurd (err-ne-ok (rw (e, boot) at h))
      | inr (config, e) ↦
          let (valid, settled_to) = (validate_iff raw config).0 e in
          (
            valid,
            subst (λ c. Launches host c b) settled_to
                ((launch_iff host config b).0 (rw (e, boot) at h)),
          )
    ],
    λ (valid, launches).
        rw ((validate_iff raw (settled raw)).1 (valid, refl), boot)
          ((launch_iff host (settled raw) b).1 launches),
  )
