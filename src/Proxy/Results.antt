-- ===== src/Proxy/Results.antt =====
-- Every request is counted once in `router_requests_total`, but for those that are cancelled while they
-- wait for the connection.
use mathlib.Core.Option.{some-injective}
use keel_llm_router.Base.{
  ℕ, zero, suc, ◌+◌, ◌≡◌, refl, sym, ◌∙◌, Bool, true, false, not, ◌||◌, Option, none, some, List,
  [], ◌∷◌, arith, length, get_elem?, erase_idx, >>=-eq-some, if◌then◌else◌, length-set,
}
use keel_llm_router.Backend.{Backend}
use keel_llm_router.Float.{Float}
use keel_llm_router.Json.{Json}
use keel_llm_router.LengthEstimator.{Decay}
use keel_llm_router.Observe.{Call, backend_error}
use keel_llm_router.Proxy.{
  Task, waiting, streaming, World, Event, arrives, connects, chunk, drops, samples, on_begun,
  on_connection, on_chunk, on_drop, step, run,
}
use keel_llm_router.Proxy.Accounts.{start}
use keel_llm_router.Router.{RouterState, Begun, rejected, dispatching, begin, connected, respond}
use keel_llm_router.Observe.Log.{is_result, results, results-append}
use keel_llm_router.Router.Quiet.{begin-results}
use keel_llm_router.Upstream.Quiet.{on_data-results}
use keel_llm_router.Sampler.{sample_backends}
use keel_llm_router.Strategy.Rng.{Rng}
use keel_llm_router.Upstream.{Relay, Clock, drop_body, is_success}

length-erase_idx :
    {A : Type 0} (xs : List A) (i : ℕ) (a : A)
    → get_elem? xs i ≡ some a
    → length (erase_idx xs i) + 1 ≡ length xs
length-erase_idx [] i a e = cc
length-erase_idx (x ∷ xs) zero a e = omega arith
length-erase_idx (x ∷ xs) (suc i) a e = omega (arith, length-erase_idx xs i a e)

-- Whether the task is a request that waits for its connection.
abbrev is_waiting : {B : Type 0} → Option (Task B) → ℕ
is_waiting (some (waiting p)) = 1
is_waiting t = 0

-- How many requests arrive.
abbrev pub arrivals : {D R B : Type 0} → List (Event D R B) → ℕ
arrivals [] = 0
arrivals (arrives out rng parts body now ∷ es) = 1 + arrivals es
arrivals (e ∷ es) = arrivals es

module _ {D S : Type 0} ⦃f : Float D⦄ where
  sample-results :
      (sigma : D) (bs : List (Backend S)) (log : List (Call D S))
      → results (sample_backends sigma bs log) ≡ results log
  unfolding sample_backends
  sample-results sigma [] log = refl
  sample-results sigma (b ∷ bs) log = sample-results sigma bs _ ∙ omega arith

module _ {D R B : Type 0} where
  abbrev arrival : Event D R B → ℕ
  arrival e = arrivals (e ∷ [])

  arrivals-cons :
      (e : Event D R B) (es : List (Event D R B)) → arrivals (e ∷ es) ≡ arrival e + arrivals es
  arrivals-cons (arrives out rng parts body now) es = omega arith
  arrivals-cons (connects i outcome) es = omega arith
  arrivals-cons (chunk i clock bytes) es = omega arith
  arrivals-cons (drops i) es = omega arith
  arrivals-cons (samples sigma) es = omega arith

module _ {D S : Type 0} where
  failed_or_not :
      (c : Call D S) (log : List (Call D S))
      → (b : Bool) → is_result c ≡ 0
      → results (if b then c ∷ log else log) ≡ results log
  failed_or_not c log true h = omega (arith, h)
  failed_or_not c log false h = refl

module _ {D S B : Type 0} ⦃f : Float D⦄ ⦃d : Decay D⦄ where
  -- The requests that are counted, and those that are not counted yet.
  abbrev known : World D S B → ℕ
  known w = results w.log + length w.tasks

  on_begun-known :
      (w : World D S B) (begun : RouterState D S × Begun B × List (Call D S))
      → results begun.2 ≡ 0
      → known (on_begun w begun) ≡ known w + 1
  unfolding on_begun respond
  on_begun-known w (state, rejected status, log) h = omega (arith, h, results-append log w.log)
  on_begun-known w (state, dispatching p, log) h = omega (arith, h, results-append log w.log)

  on_connection-known :
      (w u : World D S B) (i : ℕ) (outcome : Option ℕ) (t : Task B)
      → get_elem? w.tasks i ≡ some t
      → on_connection w i outcome t ≡ some u
      → known u ≡ known w
  unfolding on_connection connected respond
  on_connection-known w u i outcome (streaming body) et e = cc
  on_connection-known w u i none (waiting p) et e =
      let (b, eb, last) = >>=-eq-some (get_elem? w.state.snapshot.backends p.lease.backend) _ e in
      rw (sym (some-injective _ _ last)) (omega (arith, length-erase_idx w.tasks i _ et))
  on_connection-known w u i (some status) (waiting p) et e =
      let (b, eb, last) = >>=-eq-some (get_elem? w.state.snapshot.backends p.lease.backend) _ e in
      rw (sym (some-injective _ _ last)) (omega (arith, length-set w.tasks i _))

  on_chunk-known :
      (j : Json D (List ℕ)) (w u : World D S B) (i : ℕ) (clock : Clock D) (bytes : List ℕ)
      (t : Task B)
      → on_chunk j w i clock bytes t ≡ some u
      → known u ≡ known w
  unfolding on_chunk
  on_chunk-known j w u i clock bytes (waiting p) e = cc
  on_chunk-known j w u i clock bytes (streaming body) e =
      let (b, eb, last) =
        >>=-eq-some (get_elem? w.state.snapshot.backends body.lease.backend) _ e in
      let r : Relay D S = record {
        body = body;
        backend = b;
        route_hists = w.state.route_hists;
        observed = w.log;
      } in
      rw (sym (some-injective _ _ last))
        (omega (arith, on_data-results j clock bytes r, length-set w.tasks i _))

  on_drop-known :
      (w u : World D S B) (i : ℕ) (t : Task B)
      → get_elem? w.tasks i ≡ some t
      → on_drop w i t ≡ some u
      → known u + is_waiting (some t) ≡ known w
  unfolding on_drop drop_body
  on_drop-known w u i (waiting p) et e =
      let (b, eb, last) = >>=-eq-some (get_elem? w.state.snapshot.backends p.lease.backend) _ e in
      rw (sym (some-injective _ _ last)) (omega (arith, length-erase_idx w.tasks i _ et))
  on_drop-known w u i (streaming body) et e =
      let (b, eb, last) =
        >>=-eq-some (get_elem? w.state.snapshot.backends body.lease.backend) _ e in
      rw (sym (some-injective _ _ last)) (
        omega (
          arith,
          length-erase_idx w.tasks i _ et,
          failed_or_not
              (backend_error body.backend_key
                (if body.saw_error_frame then "in_band_error" else "http_status"))
              w.log (body.saw_error_frame || not (is_success body.upstream_status)) refl,
        ))

  module _ {R : Type 0} ⦃g : Rng R⦄ (j : Json D (List ℕ)) where
    -- Whether an event cancels a request that waits for its connection.
    abbrev cancel : World D S B → Event D R B → ℕ
    cancel w (drops i) = is_waiting (get_elem? w.tasks i)
    cancel w e = 0

    unfoldable pub cancelled : World D S B → List (Event D R B) → ℕ
    cancelled w [] = 0
    cancelled w (e ∷ es) = cancel w e + elim (step j w e) [ none ↦ 0 | some u ↦ cancelled u es ]

    step-known :
        (w u : World D S B) (e : Event D R B)
        → step j w e ≡ some u
        → known u + cancel w e ≡ known w + arrival e
    unfolding step
    step-known w u (arrives out rng parts body now) h =
        let (begun, eb, last) = >>=-eq-some (begin out w.state rng parts body now) _ h in
        rw (sym (some-injective _ _ last)) (
          omega
            (arith, on_begun-known w begun (begin-results out w.state rng parts body now begun eb)))
    step-known w u (connects i outcome) h =
        let (t, et, last) = >>=-eq-some (get_elem? w.tasks i) _ h in
        omega (arith, on_connection-known w u i outcome t et last)
    step-known w u (chunk i clock bytes) h =
        let (t, et, last) = >>=-eq-some (get_elem? w.tasks i) _ h in
        omega (arith, on_chunk-known j w u i clock bytes t last)
    step-known w u (drops i) h =
        let (t, et, last) = >>=-eq-some (get_elem? w.tasks i) _ h in
        rw et (omega (arith, on_drop-known w u i t et last))
    step-known w u (samples sigma) h =
        rw (sym (some-injective _ _ h))
          (omega (arith, sample-results sigma w.state.snapshot.backends w.log))

    run-known :
        (es : List (Event D R B)) (w u : World D S B)
        → run j w es ≡ some u
        → known u + cancelled w es ≡ known w + arrivals es
    unfolding run cancelled
    run-known [] w u h = rw (some-injective _ _ h) refl
    run-known (e ∷ es) w u h =
        let (v, ev, rest) = >>=-eq-some (step j w e) _ h in
        rw ev (omega (arith, step-known w v e ev, run-known es v u rest, arrivals-cons e es))

    -- From a start with no request, over any interleaving of requests: each request that arrived is
    -- counted once in `router_requests_total`, by its refusal or by the end of its stream; or it is still
    -- under way; or it was cancelled while it waited for its connection, and then it is not counted.
    pub counts_each_request :
        (es : List (Event D R B)) (state : RouterState D S) (u : World D S B)
        → run j (start state) es ≡ some u
        → results u.log + length u.tasks + cancelled (start state) es ≡ arrivals es
    counts_each_request es state u h = omega (arith, run-known es (start state) u h)
