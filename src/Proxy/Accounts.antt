-- ===== src/Proxy/Accounts.antt =====
-- The proxy refines the ledger of leases, and so the counters of the backends account for its tasks.
use mathlib.Core.Path.{subst}
use mathlib.Core.Option.{some-injective}
use keel_llm_router.Base.{ℕ, ◌%◌, ◌≡◌, ap, some, List, [], ◌∷◌, map, get_elem?, >>=-eq-some, All}
use keel_llm_router.Base.Word.{u32_mod, i64_mod}
use keel_llm_router.Backend.{Backend}
use keel_llm_router.Float.{Float}
use keel_llm_router.Json.{Json}
use keel_llm_router.Lease.Ledger.{count, charges}
use keel_llm_router.Lease.Ledger.Balance.{IsIdle, run_accounts}
use keel_llm_router.LengthEstimator.{Decay}
use keel_llm_router.LengthEstimator.Histograms.{IsRounding}
use keel_llm_router.Proxy.{
  task_lease, World, Event, arrives, connects, chunk, drops, samples, step, run,
}
use keel_llm_router.Proxy.Refines.{
  fleet_of, Refines, unmoved, Refines-trans, on_begun-Refines, on_connection-Refines,
  on_drop-Refines, on_chunk-Refines,
}
use keel_llm_router.Router.{RouterState, begin}
use keel_llm_router.Router.Begin.{begin-Begins}
use keel_llm_router.Strategy.Rng.{Rng}

-- Before any request.
abbrev pub start : {D S B : Type 0} → RouterState D S → World D S B
start state = record { state = state; tasks = []; log = [] }

module _ {D S B R : Type 0} ⦃f : Float D⦄ ⦃d : Decay D⦄ ⦃g : Rng R⦄ (laws : IsRounding D)
    (j : Json D (List ℕ)) where
  step-Refines :
      (w u : World D S B) (e : Event D R B)
      → step j w e ≡ some u
      → Refines (fleet_of w) (fleet_of u)
  unfolding step
  step-Refines w u (arrives out rng parts body now) h =
      let (begun, eb, last) = >>=-eq-some (begin out w.state rng parts body now) _ h in
      subst (λ v. Refines (fleet_of w) (fleet_of v)) (some-injective _ _ last)
        (on_begun-Refines w begun.0 begun.1 begun.2
          (begin-Begins out w.state rng parts laws body now begun eb))
  step-Refines w u (connects i outcome) h =
      let (t, et, last) = >>=-eq-some (get_elem? w.tasks i) _ h in
      on_connection-Refines w u i outcome t et last
  step-Refines w u (chunk i clock bytes) h =
      let (t, et, last) = >>=-eq-some (get_elem? w.tasks i) _ h in
      on_chunk-Refines w u i j clock bytes t et last
  step-Refines w u (drops i) h =
      let (t, et, last) = >>=-eq-some (get_elem? w.tasks i) _ h in on_drop-Refines w u i t et last
  step-Refines w u (samples sigma) h =
      unmoved (fleet_of w) (fleet_of u) (ap fleet_of (some-injective _ _ h))

  pub run-Refines :
      (es : List (Event D R B)) (w u : World D S B)
      → run j w es ≡ some u
      → Refines (fleet_of w) (fleet_of u)
  unfolding run
  run-Refines [] w u h = unmoved (fleet_of w) (fleet_of u) (ap fleet_of (some-injective _ _ h))
  run-Refines (e ∷ es) w u h =
      let (v, ev, rest) = >>=-eq-some (step j w e) _ h in
      Refines-trans (fleet_of w) (fleet_of v) (fleet_of u) (step-Refines w v e ev)
        (run-Refines es v u rest)

  -- If `as u32` gives words: from a start with no request and every counter zero, whatever requests come,
  -- however they interleave and end, the requests in flight of each backend are the tasks that hold a
  -- lease on it, and its projected tokens are the sum of what those leases charge, modulo the words. So
  -- when all requests have ended, no backend has a request in flight or a token charged.
  pub proxy_accounts :
      (es : List (Event D R B)) (state : RouterState D S) (u : World D S B) (p : ℕ) (b : Backend S)
      → All IsIdle state.snapshot.backends
      → run j (start state) es ≡ some u
      → get_elem? u.state.snapshot.backends p ≡ some b
      → (b.live.inflight ≡ count p (map task_lease u.tasks) % u32_mod)
        × (b.live.kv_projected_tokens ≡ charges p (map task_lease u.tasks) % i64_mod)
        × (u.tasks ≡ [] → IsIdle b)
  unfolding count charges
  proxy_accounts es state u p b idle h eb =
      let (evs, fits, e) = run-Refines es (start state) u h in
      let (counted, charged) = run_accounts state.snapshot.backends evs p b idle fits e eb in
      (counted, charged, λ ended. (rw ended at counted, rw ended at charged))
