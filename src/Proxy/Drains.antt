-- ===== src/Proxy/Drains.antt =====
-- When all requests end the fleet comes to rest: the drop of a task never panics, and it gives back what
-- the task held.
use mathlib.Core.Option.{some-injective}
use keel_llm_router.Base.{
  >>=-eq-some, erase_idx, All-of_get, ℕ, ◌≡◌, refl, sym, ap, ◌∙◌, some, List, [], ◌∷◌, map,
  get_elem?, get_elem?-lt, get-map, bind_total, All, All-get,
}
use keel_llm_router.Backend.{Backend}
use keel_llm_router.Float.{Float}
use keel_llm_router.Json.{Json}
use keel_llm_router.Lease.Ledger.{count, charges}
use keel_llm_router.Lease.Ledger.Balance.{IsIdle, run-IsBalanced, start-IsBalanced}
use keel_llm_router.Lease.Ledger.Calls.{IsBalanced, IsPlaced}
use keel_llm_router.LengthEstimator.{Decay}
use keel_llm_router.LengthEstimator.Histograms.{IsRounding}
use keel_llm_router.Proxy.{
  Task, waiting, streaming, task_lease, World, Event, drops, on_drop, step, run,
}
use keel_llm_router.Proxy.Accounts.{start, run-Refines}
use keel_llm_router.Proxy.Refines.{fleet_of, on_drop-Refines}
use keel_llm_router.Router.{RouterState}
use keel_llm_router.Strategy.Rng.{Rng}

module _ {D S B : Type 0} ⦃f : Float D⦄ ⦃d : Decay D⦄ where
  -- The backend of a task is found.
  pub backend_of :
      (w : World D S B) (i : ℕ) (t : Task B)
      → IsBalanced (fleet_of w)
      → get_elem? w.tasks i ≡ some t
      → (b : Backend S) × (get_elem? w.state.snapshot.backends (task_lease t).backend ≡ some b)
  backend_of w i t balanced e = get_elem?-lt w.state.snapshot.backends (task_lease t).backend (
      All-get (IsPlaced w.state.snapshot.backends) (map task_lease w.tasks) i balanced.placed
        (get-map task_lease w.tasks i t e))

  pub drop_total :
      (w : World D S B) (i : ℕ) (t : Task B)
      → IsBalanced (fleet_of w)
      → get_elem? w.tasks i ≡ some t
      → (v : World D S B) × (on_drop w i t ≡ some v)
  unfolding on_drop
  drop_total w i (waiting p) balanced e =
      let (b, eb) = backend_of w i (waiting p) balanced e in
      bind_total (get_elem? w.state.snapshot.backends p.lease.backend) _ eb (_, refl)
  drop_total w i (streaming body) balanced e =
      let (b, eb) = backend_of w i (streaming body) balanced e in
      bind_total (get_elem? w.state.snapshot.backends body.lease.backend) _ eb (_, refl)

  drop-tasks :
      (w v : World D S B) (i : ℕ) (t : Task B)
      → on_drop w i t ≡ some v
      → v.tasks ≡ erase_idx w.tasks i
  unfolding on_drop
  drop-tasks w v i (waiting p) e =
      let (b, eb, last) = >>=-eq-some (get_elem? w.state.snapshot.backends p.lease.backend) _ e in
      rw (sym (some-injective _ _ last)) refl
  drop-tasks w v i (streaming body) e =
      let (b, eb, last) =
        >>=-eq-some (get_elem? w.state.snapshot.backends body.lease.backend) _ e in
      rw (sym (some-injective _ _ last)) refl

  -- Books that are kept, with no task left.
  rest-IsIdle :
      (v : World D S B)
      → IsBalanced (fleet_of v)
      → v.tasks ≡ []
      → All IsIdle v.state.snapshot.backends
  unfolding count charges
  rest-IsIdle v balanced ended = All-of_get IsIdle v.state.snapshot.backends λ p b e.
      let (counted, charged) = balanced.counts p b e in (rw ended at counted, rw ended at charged)

-- The ends of all the tasks, one after another.
abbrev pub drop_all : {D R B : Type 0} → List (Task B) → List (Event D R B)
drop_all [] = []
drop_all (t ∷ ts) = drops 0 ∷ drop_all ts

module _ {D S B : Type 0} ⦃f : Float D⦄ ⦃d : Decay D⦄ (R : Type 0) ⦃g : Rng R⦄
    (j : Json D (List ℕ)) where
  tasks_end :
      (ts : List (Task B)) (w : World D S B)
      → w.tasks ≡ ts
      → IsBalanced (fleet_of w)
      → (v : World D S B) × (run {R = R} j w (drop_all ts) ≡ some v)
        × (v.tasks ≡ [])
        × IsBalanced (fleet_of v)
  unfolding run step
  tasks_end [] w e balanced = (w, refl, e, balanced)
  tasks_end (t ∷ ts) w e balanced =
      let at : get_elem? w.tasks 0 ≡ some t = ap (λ us. get_elem? us 0) e in
      let (u, eu) = drop_total w 0 t balanced at in
      let (evs, fits, ledger) = on_drop-Refines w u 0 t at eu in
      let (v, ev, ended, kept) =
        tasks_end ts u (drop-tasks w u 0 t eu ∙ ap (λ us. erase_idx us 0) e)
          (run-IsBalanced (fleet_of w) evs fits balanced ledger) in
      (v, rw at (rw eu ev), ended, kept)

module _ {D S B : Type 0} ⦃f : Float D⦄ ⦃d : Decay D⦄ {R : Type 0} ⦃g : Rng R⦄
    (rounds : IsRounding D) (j : Json D (List ℕ)) where
  -- If `as u32` gives words: from a start with no request and every counter zero, after any requests and
  -- however they interleave, all that are under way can end, with the stream or by their clients going, and
  -- no drop panics; then no backend has a request in flight or a token charged.
  pub fleet_drains :
      (es : List (Event D R B)) (state : RouterState D S) (u : World D S B)
      → All IsIdle state.snapshot.backends
      → run j (start state) es ≡ some u
      → (v : World D S B) × (run {R = R} j u (drop_all u.tasks) ≡ some v)
        × (v.tasks ≡ [])
        × All IsIdle v.state.snapshot.backends
  fleet_drains es state u idle runs =
      let first = fleet_of {B = B} (start state) in
      let (evs, fits, ledger) = run-Refines rounds j es (start state) u runs in
      let (v, ev, ended, kept) =
        tasks_end R j u.tasks u refl
          (run-IsBalanced first evs fits (start-IsBalanced state.snapshot.backends idle) ledger) in
      (v, ev, ended, rest-IsIdle v kept ended)
