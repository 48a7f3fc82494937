-- ===== src/Proxy.antt =====
-- The proxy while it runs: crates/router-proxy/src/listener.rs spawns a task for each connection, and the
-- tasks share the state of the router. A task is a request that waits for its connection or the body of
-- an answer; what comes between two of its `await`s is one step. An event says which task goes on, and
-- what it is given: the bytes of a request, the outcome of a connection, a chunk, or the end of the body.
pub mod Refines
pub mod Accounts
pub mod Results
pub mod Drains
pub mod Healthy
pub mod Total
use keel_llm_router.Base.{
  ℕ, Option, none, some, List, [], ◌∷◌, ◌++◌, get_elem?, set, erase_idx, ◌>>=◌,
}
use keel_llm_router.Float.{Float}
use keel_llm_router.Json.{Json}
use keel_llm_router.Lease.{CostLease, drop_lease}
use keel_llm_router.LengthEstimator.{Decay}
use keel_llm_router.Observe.{Call}
use keel_llm_router.Router.{
  RouterState, Outside, Pending, Begun, rejected, dispatching, Answer, refused, relayed, Handled,
  set_backend, refuse, connected, respond, begin,
}
use keel_llm_router.Sampler.{sample_backends}
use keel_llm_router.Strategy.Rng.{Rng}
use keel_llm_router.Upstream.{CountingSseBody, Relay, Clock, on_data, drop_body}
use keel_llm_router.Upstream.Request.{Parts}

pub data Task (B : Type 0) : Type 0 where
  waiting : Pending B → Task B
  streaming : CountingSseBody → Task B

abbrev pub task_lease : {B : Type 0} → Task B → CostLease
task_lease (waiting p) = p.lease
task_lease (streaming body) = body.lease

-- The log of calls has its last one first.
pub record World (D S B : Type 0) : Type 0 where
  pub state : RouterState D S
  pub tasks : List (Task B)
  pub log : List (Call D S)

-- `arrives` a request, of which `none` is too long; `connects i` with the status of the answer or an
-- error; a `chunk` for the i-th task; `drops i`, the task with all that it holds: the body has ended, or
-- the client has gone; and a tick of the sampler.
pub data Event (D R B : Type 0) : Type 0 where
  arrives : Outside D B → R → Parts → Option B → ℕ → Event D R B
  connects : ℕ → Option ℕ → Event D R B
  chunk : ℕ → Clock D → List ℕ → Event D R B
  drops : ℕ → Event D R B
  samples : D → Event D R B

module _ {D S B : Type 0} ⦃f : Float D⦄ ⦃d : Decay D⦄ where
  -- The task after its request has begun, if there is one.
  unfoldable pub on_begun : World D S B → RouterState D S × Begun B × List (Call D S) → World D S B
  on_begun w (state, rejected status, log) =
      let h = respond (refuse state status log) in
      record w { state = h.state; log = h.observed ++ w.log }
  on_begun w (state, dispatching p, log) = record w {
    state = state;
    tasks = waiting p ∷ w.tasks;
    log = log ++ w.log;
  }

  -- The i-th task after its connection: it ends with a refusal, or goes on with the body.
  unfoldable pub on_answer : World D S B → ℕ → Handled D S → World D S B
  on_answer w i h = elim h.answer [
    | refused status ↦ record w {
      state = h.state;
      tasks = erase_idx w.tasks i;
      log = h.observed ++ w.log;
    }
    | relayed status r ↦ record w {
      state = h.state;
      tasks = set w.tasks i (streaming r.body);
      log = h.observed ++ w.log;
    }
  ]

  unfoldable pub on_connection : World D S B → ℕ → Option ℕ → Task B → Option (World D S B)
  unfolding on_answer
  on_connection w i outcome (waiting p) = do
    backend ← get_elem? w.state.snapshot.backends p.lease.backend
    some (on_answer w i (respond (connected w.state p backend outcome)))
  on_connection w i outcome (streaming body) = none

  unfoldable pub on_chunk :
      Json D (List ℕ) → World D S B → ℕ → Clock D → List ℕ → Task B → Option (World D S B)
  on_chunk j w i clock bytes (waiting p) = none
  on_chunk j w i clock bytes (streaming body) = do
    backend ← get_elem? w.state.snapshot.backends body.lease.backend
    let r : Relay D S = on_data j clock bytes (record {
      body = body;
      backend = backend;
      route_hists = w.state.route_hists;
      observed = w.log;
    })
    some (record w {
      state = record (set_backend w.state body.lease.backend r.backend) {
        route_hists = r.route_hists;
      };
      tasks = set w.tasks i (streaming r.body);
      log = r.observed;
    })

  unfoldable pub on_drop : World D S B → ℕ → Task B → Option (World D S B)
  on_drop w i (waiting p) = do
    backend ← get_elem? w.state.snapshot.backends p.lease.backend
    some (record w {
      state = set_backend w.state p.lease.backend (drop_lease p.lease backend);
      tasks = erase_idx w.tasks i;
    })
  on_drop w i (streaming body) = do
    backend ← get_elem? w.state.snapshot.backends body.lease.backend
    let r : Relay D S = record {
      body = body;
      backend = backend;
      route_hists = w.state.route_hists;
      observed = w.log;
    }
    let ended = drop_body r
    some (record w {
      state = set_backend w.state body.lease.backend ended.0;
      tasks = erase_idx w.tasks i;
      log = ended.1;
    })

  -- `none` is a panic, or an event for a task that is not there or does not wait for it.
  unfoldable pub step :
      {R : Type 0} ⦃g : Rng R⦄ → Json D (List ℕ) → World D S B → Event D R B → Option (World D S B)
  unfolding on_begun on_connection on_chunk on_drop
  step j w (arrives out rng parts body now) = do
    begun ← begin out w.state rng parts body now
    some (on_begun w begun)
  step j w (connects i outcome) = do t ← get_elem? w.tasks i; on_connection w i outcome t
  step j w (chunk i clock bytes) = do t ← get_elem? w.tasks i; on_chunk j w i clock bytes t
  step j w (drops i) = do t ← get_elem? w.tasks i; on_drop w i t
  step j w (samples sigma) =
      some (record w { log = sample_backends sigma w.state.snapshot.backends w.log })

  unfoldable pub run :
      {R : Type 0} ⦃g : Rng R⦄
      → Json D (List ℕ)
      → World D S B
      → List (Event D R B)
      → Option (World D S B)
  run j w [] = some w
  run j w (e ∷ es) = step j w e >>= λ u. run j u es
