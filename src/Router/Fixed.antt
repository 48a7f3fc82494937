-- ===== src/Router/Fixed.antt =====
-- Up to the connection the handler leaves the list of healthy backends alone.
use keel_llm_router.Base.{ℕ, ◌≡◌, refl, inl, inr, Option, some, List}
use keel_llm_router.Backend.{Backend, BackendId}
use keel_llm_router.Features.{RequestFeatures}
use keel_llm_router.Float.{Float}
use keel_llm_router.LengthEstimator.{Decay}
use keel_llm_router.Observe.{Call}
use keel_llm_router.Strategy.Rng.{Rng}
use keel_llm_router.Upstream.Request.{Parts, rebuild_request}
use keel_llm_router.Router.{RouterState, Outside, Begun, set_backend, reserve, begin, decision_log}
use keel_llm_router.Router.Rule.{Result-cases, begin_rule}

module _ {D S : Type 0} ⦃f : Float D⦄ ⦃d : Decay D⦄ {B : Type 0} (out : Outside D B) where
  reserve-healthy :
      (state : RouterState D S) (parts : Parts) (bytes : B) (features : RequestFeatures) (now : ℕ)
      (id : BackendId) (b : Backend S) (log : List (Call D S))
      → (reserve out state parts bytes features now id b log).0.snapshot.healthy
        ≡ state.snapshot.healthy
  unfolding reserve set_backend
  reserve-healthy state parts bytes features now id b log =
      elim (Result-cases (rebuild_request out.is_uri parts bytes b.uri)) [
        | inl (x, ex) ↦ rw (ex, reserve) refl
        | inr (request, er) ↦ rw (er, reserve) refl
      ]

  pub begin-healthy :
      {R : Type 0} ⦃g : Rng R⦄ (state : RouterState D S) (rng : R) (parts : Parts) (body : Option B)
      (now : ℕ) (begun : RouterState D S × Begun B × List (Call D S))
      → begin out state rng parts body now ≡ some begun
      → begun.0.snapshot.healthy ≡ state.snapshot.healthy
  begin-healthy state rng parts body now begun e =
      begin_rule out state rng parts (λ begun. begun.0.snapshot.healthy ≡ state.snapshot.healthy)
        body now begun (λ strategy status. refl)
        (λ strategy bytes asked features id b trace ef eb.
          reserve-healthy (record state { strategy = strategy }) parts asked features now id b
            (decision_log out state trace))
        e
