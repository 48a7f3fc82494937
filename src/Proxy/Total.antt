-- ===== src/Proxy/Total.antt =====
-- A router that has started goes on: no event that can happen makes it panic, but for one kind of request.
use mathlib.Core.Path.{subst}
use keel_llm_router.Base.{
  length-map, ℕ, ◌^◌, ◌≤◌, ◌<◌, ◌≡◌, refl, sym, ap, ◌∙◌, inl, inr, some, List, [], ◌∷◌, length,
  get_elem?, get_elem?-lt, bind_total, All, ok,
}
use keel_llm_router.Backend.{Backend, Snapshot, IsWired}
use keel_llm_router.Boot.Run.{Host, Booted, boot}
use keel_llm_router.Boot.Started.{AreWords, IsFresh}
use keel_llm_router.Boot.Serves.{boot-IsReadyFor}
use keel_llm_router.Config.{RawConfig}
use keel_llm_router.Float.{Float}
use keel_llm_router.Json.{Json}
use keel_llm_router.Lease.Ledger.Balance.{IsIdle, run-IsBalanced, start-IsBalanced}
use keel_llm_router.Lease.Ledger.Calls.{IsBalanced}
use keel_llm_router.Lease.Ledger.Caps.{caps_of, run-caps}
use keel_llm_router.LengthEstimator.{Decay}
use keel_llm_router.LengthEstimator.Histograms.{IsRounding}
use keel_llm_router.Proxy.{
  waiting, streaming, World, Event, arrives, connects, chunk, drops, samples, on_connection,
  on_chunk, step, run,
}
use keel_llm_router.Proxy.Accounts.{start, run-Refines}
use keel_llm_router.Proxy.Drains.{backend_of, drop_total}
use keel_llm_router.Proxy.Healthy.{run-healthy}
use keel_llm_router.Proxy.Refines.{fleet_of}
use keel_llm_router.Router.{Pending, begin}
use keel_llm_router.Router.Panics.{HasOddOptions, begin_cases}
use keel_llm_router.Strategy.Rng.{Rng, IsFair}
use keel_llm_router.Upstream.{CountingSseBody}

All-IsIdle : {S : Type 0} (bs : List (Backend S)) → All IsFresh bs → All IsIdle bs
All-IsIdle [] h = tt
All-IsIdle (b ∷ bs) h = (h.0.1, All-IsIdle bs h.1)

-- What an event can be: a request whose body is not the odd one, and for a task what it waits for.
module _ {D S B R : Type 0} ⦃f : Float D⦄ ⦃d : Decay D⦄ ⦃g : Rng R⦄ where
  abbrev pub Applies : World D S B → Event D R B → Type 0
  Applies w (arrives out rng parts body now) = ¬ HasOddOptions out w.state rng parts body now
  Applies w (connects i outcome) = (p : Pending B) × (get_elem? w.tasks i ≡ some (waiting p))
  Applies w (chunk i clock bytes) =
      (body : CountingSseBody) × (get_elem? w.tasks i ≡ some (streaming body))
  Applies w (drops i) = i < length w.tasks
  Applies w (samples sigma) = Unit

-- A snapshot with the healthy ids and the capacities of another one is wired if that is.
still-IsWired :
    {S : Type 0} (snap first : Snapshot S)
    → snap.healthy ≡ first.healthy
    → caps_of snap.backends ≡ caps_of first.backends
    → IsWired first
    → IsWired snap
still-IsWired snap first same_healthy same_caps wired =
    let same_length : length snap.backends ≡ length first.backends =
      sym (length-map (λ b. b.caps) snap.backends)
      ∙ ap length same_caps
      ∙ length-map (λ b. b.caps) first.backends in
    subst (λ n. All (λ id. id < n) snap.healthy) (sym same_length)
      (subst (λ ids. All (λ id. id < length first.backends) ids) (sym same_healthy) wired)

module _ {D S B : Type 0} ⦃f : Float D⦄ ⦃d : Decay D⦄ where
  module _ {R : Type 0} ⦃g : Rng R⦄ (fair : IsFair R) (rounds : IsRounding D)
      (j : Json D (List ℕ)) where
    step_goes_on :
        (w : World D S B) (e : Event D R B)
        → IsBalanced (fleet_of w)
        → IsWired w.state.snapshot
        → Applies w e
        → (v : World D S B) × (step j w e ≡ some v)
    unfolding step on_connection on_chunk
    step_goes_on w (arrives out rng parts body now) balanced wired usual =
        elim (begin_cases out w.state rng parts fair wired body now) [
          | inr odd ↦ absurd (usual odd)
          | inl (begun, eb) ↦ bind_total (begin out w.state rng parts body now) _ eb (_, refl)
        ]
    step_goes_on w (connects i outcome) balanced wired (p, ep) =
        let (b, eb) = backend_of w i (waiting p) balanced ep in
        bind_total (get_elem? w.tasks i) _ ep
          (bind_total (get_elem? w.state.snapshot.backends p.lease.backend) _ eb (_, refl))
    step_goes_on w (chunk i clock bytes) balanced wired (body, ebody) =
        let (b, eb) = backend_of w i (streaming body) balanced ebody in
        bind_total (get_elem? w.tasks i) _ ebody
          (bind_total (get_elem? w.state.snapshot.backends body.lease.backend) _ eb (_, refl))
    step_goes_on w (drops i) balanced wired there =
        let (t, et) = get_elem?-lt w.tasks i there in
        bind_total (get_elem? w.tasks i) _ et (drop_total w i t balanced et)
    step_goes_on w (samples sigma) balanced wired h = (_, refl)

    -- With `as u32` that gives words, and a generator that draws what it is given: the router that a
    -- configuration of at most 2 ^ 16 backends with `u32` capacities starts, with whatever strategy and
    -- knobs it has, after any requests and however they have interleaved, does not panic on what comes next:
    -- a connection or a chunk for a task that waits for it, the end of a task, a tick of the sampler, or any
    -- request but the streaming one whose `stream_options` is there and is no object.
    pub booted_goes_on :
        (host : Host) (raw : RawConfig D S) (b : Booted D S) (es : List (Event D R B))
        (u : World D S B) (e : Event D R B)
        → boot host raw ≡ ok b
        → All AreWords raw.backends
        → length raw.backends ≤ 2 ^ 16
        → run j (start b.state) es ≡ some u
        → Applies u e
        → (v : World D S B) × (step j u e ≡ some v)
    booted_goes_on host raw b es u e boots words fits runs applies =
        let (wired, _, fresh) = boot-IsReadyFor host raw b boots words fits in
        let first = fleet_of {B = B} (start b.state) in
        let (evs, evs_fit, ledger) = run-Refines rounds j es (start b.state) u runs in
        let balanced =
          run-IsBalanced first evs evs_fit
            (start-IsBalanced b.state.snapshot.backends
              (All-IsIdle b.state.snapshot.backends fresh))
            ledger in
        step_goes_on u e balanced
          (still-IsWired u.state.snapshot b.state.snapshot (run-healthy j es (start b.state) u runs)
            (run-caps first (fleet_of u) evs ledger) wired)
          applies
