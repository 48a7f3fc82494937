-- ===== src/Strategy/Dispatch/Returns.antt =====
-- Every pick returns, whatever numbers its scores are: crates/router-core/src/strategy.
use mathlib.Core.Option.{some-injective}
use mathlib.Core.Path.{subst}
use keel_llm_router.Base.{
  ◌<◌, ◌≡◌, ◌≢◌, ◌⊎◌, refl, inl, inr, sym, ◌∙◌, Option, some, List, [], ◌∷◌, length, get_elem?, All,
  Elem, Elem-append, is_empty, is_empty_ne, keep, >>=-eq-some,
}
use keel_llm_router.Base.Word.{u32_max}
use keel_llm_router.Float.{Float}
use keel_llm_router.Backend.{Backend, BackendId, Snapshot, IsWired}
use keel_llm_router.Cost.{project}
use keel_llm_router.Features.{RequestFeatures}
use keel_llm_router.Gate.Eligible.{admitted, eligible-eq}
use keel_llm_router.Trace.{DecisionTrace, record_pick_total}
use keel_llm_router.Strategy.Rng.{Rng, IsFair}
use keel_llm_router.Strategy.Scan.{Verdict, replace, tie, skip, Scan, visit, scan}
use keel_llm_router.Strategy.Scan.Select.{scan_total}
use keel_llm_router.Strategy.LeastRequests
use keel_llm_router.Strategy.LeastKvts
use keel_llm_router.Strategy.Pressure
use keel_llm_router.Strategy.Pressure.Total.{record_decision_total, pool, pool_inside, pool-Elem}
use keel_llm_router.Strategy.Dispatch.Empty.{Returned, route_none}
use keel_llm_router.Strategy.Dispatch.Unscored.{
  list_cases, none-ne-some, Chosen, turn-Chosen, drawn-Chosen,
}
use keel_llm_router.Strategy.Dispatch.{
  RoutingStrategy, round_robin, p2c, least_requests, least_kvts, pressure, route,
}

visit_ties :
    {K : Type 0} (v : Verdict) (k : K) (x : BackendId) (xs : List BackendId) (s : Scan K)
    (id : BackendId)
    → Elem id (visit v k x s).ties
    → Elem id s.ties ⊎ Elem id (x ∷ xs)
unfolding visit
visit_ties replace k x xs s id (inl e) = inr (inl e)
visit_ties replace k x xs s id (inr gone) = absurd gone
visit_ties tie k x xs s id m = elim ((Elem-append id s.ties (x ∷ [])).0 m) [
  | inl old ↦ inl old
  | inr new ↦ elim new [ inl e ↦ inr (inl e) | inr gone ↦ absurd gone ]
]
visit_ties skip k x xs s id m = inl m

-- The ties that a scan adds are among the ids that it visits, whatever the keys are.
scan_ties :
    {S K : Type 0} (judge : K → K → Verdict) (key : Backend S → K) (backends : List (Backend S))
    (ids : List BackendId) (s r : Scan K) (id : BackendId)
    → scan judge key backends ids s ≡ some r
    → Elem id r.ties
    → Elem id s.ties ⊎ Elem id ids
unfolding scan
scan_ties judge key backends [] s r id e m =
    inl (subst (λ k. Elem id k.ties) (sym (some-injective _ _ e)) m)
scan_ties judge key backends (x ∷ xs) s r id e m =
    let (b, eb, rest) = >>=-eq-some (get_elem? backends x) _ e in
    elim (scan_ties judge key backends xs (visit (judge (key b) s.best) (key b) x s) r id rest m) [
      | inl old ↦ visit_ties (judge (key b) s.best) (key b) x xs s id old
      | inr later ↦ inr (inr later)
    ]

module _ {R : Type 0} ⦃g : Rng R⦄ (fair : IsFair R) where
  choose_member :
      (r : R) (ids : List BackendId) (id : BackendId) → (g.choose r ids).0 ≡ some id → Elem id ids
  choose_member r [] id e = absurd (none-ne-some (sym (fair.choose_none r) ∙ e))
  choose_member r (x ∷ xs) id e =
      let (y, ey, m) = fair.choose_some r (x ∷ xs) (λ n. cc) in
      subst (λ k. Elem k (x ∷ xs)) (some-injective _ _ (sym ey ∙ e)) m

module _ {S R : Type 0} ⦃g : Rng R⦄ (fair : IsFair R) where
  -- A scan and a choice among its ties: it returns, and what is chosen was visited.
  scan_choice :
      {K : Type 0} (judge : K → K → Verdict) (key : Backend S → K) (backends : List (Backend S))
      (ids : List BackendId) (top : K) (r : R)
      → All (λ id. id < length backends) ids
      → (s : Scan K) × (scan judge key backends ids (record { best = top; ties = [] }) ≡ some s)
        × ((id : BackendId) → (g.choose r s.ties).0 ≡ some id → Elem id ids)
  scan_choice judge key backends ids top r wired =
      let (s, e) = scan_total judge key backends ids (record { best = top; ties = [] }) wired in
      (
        s,
        e,
        λ id chosen.
            elim (scan_ties judge key backends ids (record { best = top; ties = [] }) s id e
              (choose_member fair r s.ties id chosen)) [ inl gone ↦ absurd gone | inr m ↦ m ],
      )

-- What is chosen, if anything is, is healthy.
abbrev pub Within : {S : Type 0} → Snapshot S → Option BackendId → Type 0
Within snap o = (id : BackendId) → o ≡ some id → Elem id snap.healthy

Within-of_Chosen :
    {S : Type 0} (snap : Snapshot S) (o : Option BackendId) → Chosen snap o → Within snap o
Within-of_Chosen snap o (id, chosen, m) j ej =
    subst (λ k. Elem k snap.healthy) (some-injective _ _ (sym chosen ∙ ej)) m

module _ {D : Type 0} ⦃f : Float D⦄ {S R : Type 0} ⦃g : Rng R⦄ (fair : IsFair R) where
  requests-Within :
      (snap : Snapshot S) (req : RequestFeatures) (rng : R) (trace : Option (DecisionTrace D S))
      → IsWired snap
      → snap.healthy ≢ []
      → Returned least_requests snap req rng trace (Within snap)
  unfolding route LeastRequests.pick
  requests-Within snap req rng trace wired some_id =
      let (s, es, inside) =
        scan_choice fair LeastRequests.judge LeastRequests.load snap.backends snap.healthy u32_max
          rng wired in
      let picked = g.choose rng s.ties in
      let (t, et) = record_pick_total trace LeastRequests.name snap req picked.0 wired in
      (
        (least_requests, record { chosen = picked.0; rng = picked.1; trace = t }),
        rw (is_empty_ne snap.healthy some_id, es, et) refl,
        inside,
      )

  kvts-Within :
      (snap : Snapshot S) (req : RequestFeatures) (rng : R) (trace : Option (DecisionTrace D S))
      → IsWired snap
      → snap.healthy ≢ []
      → Returned least_kvts snap req rng trace (Within snap)
  unfolding route LeastKvts.pick
  kvts-Within snap req rng trace wired some_id =
      let (s, es, inside) =
        scan_choice fair LeastKvts.judge LeastKvts.remaining snap.backends snap.healthy
          f.neg_infinity rng wired in
      let picked = g.choose rng s.ties in
      let (t, et) = record_pick_total trace LeastKvts.name snap req picked.0 wired in
      (
        (least_kvts, record { chosen = picked.0; rng = picked.1; trace = t }),
        rw (is_empty_ne snap.healthy some_id, es, et) refl,
        inside,
      )

  pressure-Within :
      (s : Pressure.Pressure D) (snap : Snapshot S) (req : RequestFeatures) (rng : R)
      (trace : Option (DecisionTrace D S))
      → IsWired snap
      → snap.healthy ≢ []
      → Returned (pressure s) snap req rng trace (Within snap)
  unfolding route Pressure.pick Pressure.decide
  pressure-Within s snap req rng trace wired some_id =
      let need_kv = project s.kv_model req.prompt_tokens req.expected_output_tokens in
      let test = admitted snap.backends need_kv s.sigma in
      let passed = keep test snap.healthy in
      let (r, er, inside) =
        scan_choice fair Pressure.judge (Pressure.score_of s) snap.backends (pool snap passed)
          f.infinity rng (pool_inside _ snap test wired) in
      let picked = g.choose rng r.ties in
      let (t, et) =
        record_decision_total s snap req need_kv (is_empty passed) passed picked.0 trace wired in
      (
        (pressure s, record { chosen = picked.0; rng = picked.1; trace = t }),
        rw (is_empty_ne snap.healthy some_id, eligible-eq snap need_kv s.sigma wired, er, et) refl,
        λ id chosen. pool-Elem snap test id (inside id chosen),
      )

  some-Within :
      (s : RoutingStrategy D) (snap : Snapshot S) (req : RequestFeatures) (rng : R)
      (trace : Option (DecisionTrace D S))
      → IsWired snap
      → snap.healthy ≢ []
      → Returned s snap req rng trace (Within snap)
  some-Within (round_robin s) snap req rng trace wired some_id =
      let (out, e, chosen) = turn-Chosen s snap req rng trace wired some_id in
      (out, e, Within-of_Chosen snap out.1.chosen chosen)
  some-Within p2c snap req rng trace wired some_id =
      let (out, e, chosen) = drawn-Chosen fair snap req rng trace wired some_id in
      (out, e, Within-of_Chosen snap out.1.chosen chosen)
  some-Within least_requests snap req rng trace wired some_id =
      requests-Within snap req rng trace wired some_id
  some-Within least_kvts snap req rng trace wired some_id =
      kvts-Within snap req rng trace wired some_id
  some-Within (pressure s) snap req rng trace wired some_id =
      pressure-Within s snap req rng trace wired some_id

  -- Every pick returns on a snapshot that is wired, and what it chooses, if anything, is healthy.
  pub route_returns :
      (s : RoutingStrategy D) (snap : Snapshot S) (req : RequestFeatures) (rng : R)
      (trace : Option (DecisionTrace D S))
      → IsWired snap
      → Returned s snap req rng trace (Within snap)
  route_returns s snap req rng trace wired = elim (list_cases snap.healthy) [
    | inl e ↦
        let (out, eo, gone) = route_none s snap req rng trace wired e in
        (out, eo, λ id chosen. absurd (none-ne-some (sym gone ∙ chosen)))
    | inr some_id ↦ some-Within s snap req rng trace wired some_id
  ]
