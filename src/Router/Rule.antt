-- ===== src/Router/Rule.antt =====
-- What holds of every way in which a request begins: it is enough that it holds of a refusal and of a
-- reservation.
use mathlib.Core.Path.{subst}
use mathlib.Core.Option.{some-injective}
use keel_llm_router.Base.{
  ℕ, ◌≡◌, ◌⊎◌, refl, inl, inr, Option, none, some, List, [], get_elem?, is_empty, >>=-eq-some,
  Result, ok, err, Bool-cases, Option-cases,
}
use keel_llm_router.Backend.{Backend, BackendId}
use keel_llm_router.Features.{RequestFeatures}
use keel_llm_router.Float.{Float}
use keel_llm_router.Inbound.{build_features, ensure_usage_requested}
use keel_llm_router.Json.{unwrap_or}
use keel_llm_router.LengthEstimator.{Decay}
use keel_llm_router.Observe.{Call}
use keel_llm_router.Strategy.Dispatch.{RoutingStrategy, route}
use keel_llm_router.Strategy.Rng.{Rng}
use keel_llm_router.Trace.{DecisionTrace}
use keel_llm_router.Upstream.Request.{Parts}
use keel_llm_router.Router.{
  RouterState, Outside, Begun, rejected, reserve, choose, begin, decision_log, default_trace,
}

pub Result-cases :
    {E A : Type 0} (r : Result E A) → ((e : E) × (r ≡ err e)) ⊎ ((a : A) × (r ≡ ok a))
Result-cases (ok a) = inr (a, refl)
Result-cases (err e) = inl (e, refl)

module _ {D S : Type 0} ⦃f : Float D⦄ ⦃d : Decay D⦄ {R B : Type 0} ⦃g : Rng R⦄ (out : Outside D B)
    (state : RouterState D S) (rng : R) (parts : Parts)
    (P : RouterState D S × Begun B × List (Call D S) → Type 0) where
  -- Of a reservation for features that were read, with whatever strategy the pick leaves behind.
  abbrev pub OfReservations : ℕ → Type 0
  OfReservations now =
      (strategy : RoutingStrategy D) (bytes asked : B) (features : RequestFeatures) (id : BackendId)
      (b : Backend S) (trace : DecisionTrace D S)
      → build_features out.json bytes now state.route_hists state.token_counter ≡ ok features
      → get_elem? state.snapshot.backends id ≡ some b
      → P (
          reserve out (record state { strategy = strategy }) parts asked features now id b
            (decision_log out state trace))

  abbrev pub OfRefusals : Type 0
  OfRefusals =
      (strategy : RoutingStrategy D) (status : ℕ)
      → P (record state { strategy = strategy }, rejected status, [])

  choose_rule :
      (bytes asked : B) (features : RequestFeatures) (now : ℕ)
      (begun : RouterState D S × Begun B × List (Call D S))
      → OfRefusals
      → OfReservations now
      → build_features out.json bytes now state.route_hists state.token_counter ≡ ok features
      → choose out state rng parts asked features now ≡ some begun
      → P begun
  unfolding choose
  choose_rule bytes asked features now begun refusals reservations ef e =
      elim (Bool-cases (is_empty state.snapshot.healthy)) [
        | inl t ↦ subst P (some-injective _ _ (rw (t, choose) at e)) (refusals state.strategy 503)
        | inr n ↦
            let (picked, ep, rest) =
              >>=-eq-some (route state.strategy state.snapshot features rng (some default_trace)) _
                (rw (n, choose) at e) in
            elim (Option-cases picked.1.chosen) [
              | inl none_there ↦
                  subst P (some-injective _ _ (rw none_there at rest)) (refusals picked.0 503)
              | inr (id, ei) ↦
                  let (b, eb, last) =
                    >>=-eq-some (get_elem? state.snapshot.backends id) _ (rw ei at rest) in
                  subst P (some-injective _ _ last) (
                    reservations picked.0 bytes asked features id b
                      (unwrap_or picked.1.trace default_trace) ef eb)
            ]
      ]

  pub begin_rule :
      (body : Option B) (now : ℕ) (begun : RouterState D S × Begun B × List (Call D S))
      → OfRefusals
      → OfReservations now
      → begin out state rng parts body now ≡ some begun
      → P begun
  unfolding begin
  begin_rule none now begun refusals reservations e =
      subst P (some-injective _ _ e) (refusals state.strategy 413)
  begin_rule (some bytes) now begun refusals reservations e =
      elim (Result-cases
        (build_features out.json bytes now state.route_hists state.token_counter)) [
          | inl (x, ex) ↦
              subst P (some-injective _ _ (rw (ex, begin) at e)) (refusals state.strategy 400)
          | inr (features, ef) ↦
              let (asked, ea, rest) =
                >>=-eq-some (ensure_usage_requested out.json bytes features.streaming) _
                  (rw (ef, begin) at e) in
              choose_rule bytes asked features now begun refusals reservations ef rest
        ]
