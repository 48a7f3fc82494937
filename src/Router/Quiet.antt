-- ===== src/Router/Quiet.antt =====
-- Up to the connection no request is counted as done.
use keel_llm_router.Base.{ℕ, ◌≡◌, refl, inl, inr, Option, some, List, arith, Bool-cases}
use keel_llm_router.Backend.{Backend, BackendId}
use keel_llm_router.Features.{RequestFeatures}
use keel_llm_router.Float.{Float}
use keel_llm_router.LengthEstimator.{Decay}
use keel_llm_router.Observe.{Call}
use keel_llm_router.Observe.Log.{results}
use keel_llm_router.Strategy.Rng.{Rng}
use keel_llm_router.Trace.{DecisionTrace}
use keel_llm_router.Upstream.Request.{Parts, rebuild_request}
use keel_llm_router.Router.{RouterState, Outside, Begun, reserve, begin, decision_log}
use keel_llm_router.Router.Rule.{Result-cases, begin_rule}

module _ {D S : Type 0} ⦃f : Float D⦄ ⦃d : Decay D⦄ {B : Type 0} (out : Outside D B) where
  decision_log-results :
      (state : RouterState D S) (trace : DecisionTrace D S)
      → results (decision_log out state trace) ≡ 0
  unfolding decision_log
  decision_log-results state trace =
      elim (Bool-cases (f.lt out.drawn state.decision_trace_sample_rate)) [
        | inl t ↦ elim (Bool-cases trace.fell_through) [
          | inl h ↦ rw (t, h) refl
          | inr h ↦ rw (t, h) refl
        ]
        | inr t ↦ elim (Bool-cases trace.fell_through) [
          | inl h ↦ rw (t, h) refl
          | inr h ↦ rw (t, h) refl
        ]
      ]

  reserve-results :
      (state : RouterState D S) (parts : Parts) (bytes : B) (features : RequestFeatures) (now : ℕ)
      (id : BackendId) (b : Backend S) (log : List (Call D S))
      → results log ≡ 0
      → results (reserve out state parts bytes features now id b log).2 ≡ 0
  unfolding reserve
  reserve-results state parts bytes features now id b log h =
      elim (Result-cases (rebuild_request out.is_uri parts bytes b.uri)) [
        | inl (x, ex) ↦ rw (ex, reserve) (omega (arith, h))
        | inr (request, er) ↦ rw (er, reserve) (omega (arith, h))
      ]

  pub begin-results :
      {R : Type 0} ⦃g : Rng R⦄ (state : RouterState D S) (rng : R) (parts : Parts) (body : Option B)
      (now : ℕ) (begun : RouterState D S × Begun B × List (Call D S))
      → begin out state rng parts body now ≡ some begun
      → results begun.2 ≡ 0
  begin-results state rng parts body now begun e =
      begin_rule out state rng parts (λ begun. results begun.2 ≡ 0) body now begun
        (λ strategy status. refl)
        (λ strategy bytes asked features id b trace ef eb.
          reserve-results (record state { strategy = strategy }) parts asked features now id b
            (decision_log out state trace) (decision_log-results state trace))
        e
