-- ===== src/Strategy/Dispatch/Contract.antt =====
-- The contract of the trait: a pick is none only when no healthy backend exists.
use mathlib.Core.Option.{some-injective}
use keel_llm_router.Base.{
  ◌≡◌, ◌≢◌, ◌↔◌, refl, inl, inr, sym, ◌∙◌, Option, none, some, [], All, Elem,
}
use keel_llm_router.Float.{Float, IsRounded}
use keel_llm_router.Backend.{BackendId, Snapshot, IsWired}
use keel_llm_router.Cost.{project}
use keel_llm_router.Cost.Score.{IsTuned}
use keel_llm_router.Features.{RequestFeatures}
use keel_llm_router.Gate.Eligible.{admitted}
use keel_llm_router.Trace.{DecisionTrace}
use keel_llm_router.Strategy.Rng.{Rng, IsFair, Picked}
use keel_llm_router.Strategy.LeastRequests.Optimal.{IsCounted, pick_fewest}
use keel_llm_router.Strategy.LeastKvts.Optimal.{IsCharged, pick_most_left}
use keel_llm_router.Strategy.Pressure
use keel_llm_router.Strategy.Pressure.Optimal.{IsReady, pick_lowest_score}
use keel_llm_router.Strategy.Pressure.Total.{pool-Elem}
use keel_llm_router.Strategy.Dispatch.Empty.{Returned, route_none}
use keel_llm_router.Strategy.Dispatch.Unscored.{
  list_cases, none-ne-some, Chosen, turn-Chosen, drawn-Chosen,
}
use keel_llm_router.Strategy.Dispatch.{
  RoutingStrategy, round_robin, p2c, least_requests, least_kvts, pressure, route,
}

module _ {D : Type 0} ⦃f : Float D⦄ (laws : IsRounded D) {S R : Type 0} ⦃g : Rng R⦄
    (fair : IsFair R) where
  -- The backends are in the state that a strategy needs to tell them apart: counters that are words,
  -- charges that are not negative, and for the pressure strategy knobs and occupancies whose scores are
  -- shown to be numbers: `theta` and 1 - `theta` positive and finite, a penalty that is finite and not
  -- negative, and for each backend a finite overshoot and a finite product of it with the penalty.
  pub record IsServing (s : RoutingStrategy D) (snap : Snapshot S) : Type 0 where
    pub wired : IsWired snap
    pub counted : IsCounted snap
    pub charged : All IsCharged snap.backends
    pub scored :
        (p : Pressure.Pressure D)
        → s ≡ pressure p
        → IsTuned p.theta p.penalty × All (IsReady laws p) snap.backends

  route_some :
      (s : RoutingStrategy D) (snap : Snapshot S) (req : RequestFeatures) (rng : R)
      (trace : Option (DecisionTrace D S))
      → IsServing s snap
      → snap.healthy ≢ []
      → Returned s snap req rng trace (Chosen snap)
  unfolding route
  route_some (round_robin s) snap req rng trace h some_id =
      turn-Chosen s snap req rng trace h.wired some_id
  route_some p2c snap req rng trace h some_id = drawn-Chosen fair snap req rng trace h.wired some_id
  route_some least_requests snap req rng trace h some_id =
      let (out, e, id, chosen, (m, best)) =
        pick_fewest fair snap req rng trace h.wired h.counted some_id in
      ((least_requests, out), rw e refl, (id, chosen, m))
  route_some least_kvts snap req rng trace h some_id =
      let (out, e, id, chosen, (m, best)) =
        pick_most_left laws.ordered fair snap req rng trace h.wired h.charged some_id in
      ((least_kvts, out), rw e refl, (id, chosen, m))
  route_some (pressure s) snap req rng trace h some_id =
      let (tuned, ready) = h.scored s refl in
      let (out, e, id, chosen, (m, best)) =
        pick_lowest_score laws fair s snap req rng trace h.wired tuned ready some_id in
      (
        (pressure s, out),
        rw e refl,
        (
          id,
          chosen,
          pool-Elem snap
              (admitted snap.backends
                (project s.kv_model req.prompt_tokens req.expected_output_tokens) s.sigma)
              id m,
        ),
      )

  -- The contract of the trait, of every strategy, with numbers that round as IEEE 754 says and a generator
  -- that draws what it is given: on a snapshot that it can serve the pick does not
  -- panic; it returns none exactly when no healthy backend exists, and else the id of a healthy backend.
  pub route_contract :
      (s : RoutingStrategy D) (snap : Snapshot S) (req : RequestFeatures) (rng : R)
      (trace : Option (DecisionTrace D S))
      → IsServing s snap
      → (out : RoutingStrategy D × Picked D S R) × (route s snap req rng trace ≡ some out)
        × ((out.1.chosen ≡ none) ↔ (snap.healthy ≡ []))
        × ((id : BackendId) → out.1.chosen ≡ some id → Elem id snap.healthy)
  route_contract s snap req rng trace h = elim (list_cases snap.healthy) [
    | inl e ↦
        let (out, eo, gone) = route_none s snap req rng trace h.wired e in
        (out, eo, (λ _. e, λ _. gone), λ id ei. absurd (none-ne-some (sym gone ∙ ei)))
    | inr some_id ↦
        let (out, eo, (id, chosen, m)) = route_some s snap req rng trace h some_id in
        (
          out,
          eo,
          (λ e. absurd (none-ne-some (sym e ∙ chosen)), λ e. absurd (some_id e)),
          λ j ej. rw (some-injective _ _ (sym ej ∙ chosen)) m,
        )
  ]
