-- ===== src/Proxy/Healthy.antt =====
-- The proxy never changes which backends are healthy.
use mathlib.Core.Option.{some-injective}
use keel_llm_router.Base.{
  ℕ, ◌≡◌, refl, sym, ap, ◌∙◌, Option, none, some, List, [], ◌∷◌, get_elem?, >>=-eq-some,
}
use keel_llm_router.Backend.{BackendId}
use keel_llm_router.Float.{Float}
use keel_llm_router.Json.{Json}
use keel_llm_router.LengthEstimator.{Decay}
use keel_llm_router.Proxy.{
  Task, waiting, streaming, World, Event, arrives, connects, chunk, drops, samples, on_begun,
  on_connection, on_chunk, on_drop, step, run,
}
use keel_llm_router.Router.{
  RouterState, Begun, rejected, dispatching, connected, respond, begin, set_backend,
}
use keel_llm_router.Router.Fixed.{begin-healthy}
use keel_llm_router.Observe.{Call}
use keel_llm_router.Strategy.Rng.{Rng}
use keel_llm_router.Upstream.{Clock}

abbrev pub healthy_of : {D S B : Type 0} → World D S B → List BackendId
healthy_of w = w.state.snapshot.healthy

module _ {D S B : Type 0} ⦃f : Float D⦄ ⦃d : Decay D⦄ where
  on_begun-healthy :
      (w : World D S B) (state : RouterState D S) (begun : Begun B) (log : List (Call D S))
      → healthy_of (on_begun w (state, begun, log)) ≡ state.snapshot.healthy
  unfolding on_begun respond
  on_begun-healthy w state (rejected status) log = refl
  on_begun-healthy w state (dispatching p) log = refl

  on_connection-healthy :
      (w u : World D S B) (i : ℕ) (outcome : Option ℕ) (t : Task B)
      → on_connection w i outcome t ≡ some u
      → healthy_of u ≡ healthy_of w
  unfolding on_connection connected respond set_backend
  on_connection-healthy w u i outcome (streaming body) e = cc
  on_connection-healthy w u i none (waiting p) e =
      let (b, eb, last) = >>=-eq-some (get_elem? w.state.snapshot.backends p.lease.backend) _ e in
      rw (sym (some-injective _ _ last)) refl
  on_connection-healthy w u i (some status) (waiting p) e =
      let (b, eb, last) = >>=-eq-some (get_elem? w.state.snapshot.backends p.lease.backend) _ e in
      rw (sym (some-injective _ _ last)) refl

  on_chunk-healthy :
      (j : Json D (List ℕ)) (w u : World D S B) (i : ℕ) (clock : Clock D) (bytes : List ℕ)
      (t : Task B)
      → on_chunk j w i clock bytes t ≡ some u
      → healthy_of u ≡ healthy_of w
  unfolding on_chunk set_backend
  on_chunk-healthy j w u i clock bytes (waiting p) e = cc
  on_chunk-healthy j w u i clock bytes (streaming body) e =
      let (b, eb, last) =
        >>=-eq-some (get_elem? w.state.snapshot.backends body.lease.backend) _ e in
      rw (sym (some-injective _ _ last)) refl

  on_drop-healthy :
      (w u : World D S B) (i : ℕ) (t : Task B)
      → on_drop w i t ≡ some u
      → healthy_of u ≡ healthy_of w
  unfolding on_drop set_backend
  on_drop-healthy w u i (waiting p) e =
      let (b, eb, last) = >>=-eq-some (get_elem? w.state.snapshot.backends p.lease.backend) _ e in
      rw (sym (some-injective _ _ last)) refl
  on_drop-healthy w u i (streaming body) e =
      let (b, eb, last) =
        >>=-eq-some (get_elem? w.state.snapshot.backends body.lease.backend) _ e in
      rw (sym (some-injective _ _ last)) refl

module _ {D S B : Type 0} ⦃f : Float D⦄ ⦃d : Decay D⦄ {R : Type 0} ⦃g : Rng R⦄
    (j : Json D (List ℕ)) where
  step-healthy :
      (w u : World D S B) (e : Event D R B) → step j w e ≡ some u → healthy_of u ≡ healthy_of w
  unfolding step
  step-healthy w u (arrives out rng parts body now) h =
      let (begun, eb, last) = >>=-eq-some (begin out w.state rng parts body now) _ h in
      rw (sym (some-injective _ _ last)) (
        on_begun-healthy w begun.0 begun.1 begun.2
        ∙ begin-healthy out w.state rng parts body now begun eb)
  step-healthy w u (connects i outcome) h =
      let (t, et, last) = >>=-eq-some (get_elem? w.tasks i) _ h in
      on_connection-healthy w u i outcome t last
  step-healthy w u (chunk i clock bytes) h =
      let (t, et, last) = >>=-eq-some (get_elem? w.tasks i) _ h in
      on_chunk-healthy j w u i clock bytes t last
  step-healthy w u (drops i) h =
      let (t, et, last) = >>=-eq-some (get_elem? w.tasks i) _ h in on_drop-healthy w u i t last
  step-healthy w u (samples sigma) h = rw (sym (some-injective _ _ h)) refl

  pub run-healthy :
      (es : List (Event D R B)) (w u : World D S B)
      → run j w es ≡ some u
      → healthy_of u ≡ healthy_of w
  unfolding run
  run-healthy [] w u h = ap healthy_of (sym (some-injective _ _ h))
  run-healthy (e ∷ es) w u h =
      let (v, ev, rest) = >>=-eq-some (step j w e) _ h in
      run-healthy es v u rest ∙ step-healthy w v e ev
