-- ===== src/Proxy/Refines.antt =====
-- What each step of the proxy is to the ledger of leases: a run of openings, tokens and drops.
use mathlib.Core.Path.{subst}
use mathlib.Core.Option.{some-injective}
use keel_llm_router.Base.{
  ℕ, ◌≡◌, refl, sym, ap, ◌∙◌, inl, inr, Option, none, some, List, [], ◌∷◌, ◌++◌, map, get_elem?,
  set, erase_idx, >>=-eq-some, get-map, map-set, map-erase_idx, set_self, All, All-append,
}
use keel_llm_router.Backend.{Backend}
use keel_llm_router.Float.{Float}
use keel_llm_router.Json.{Json}
use keel_llm_router.Lease.{CostLease, drop_lease}
use keel_llm_router.Lease.Ledger
use keel_llm_router.Lease.Ledger.{Fleet, opens, observes}
use keel_llm_router.Lease.Ledger.Balance.{Fits}
use keel_llm_router.Lease.Ledger.Runs.{
  observe_events, observe_events-Fits, run-append, with_pair, run-observes, open_then_drop,
}
use keel_llm_router.LengthEstimator.{Decay}
use keel_llm_router.Observe.{Call}
use keel_llm_router.Proxy.{
  Task, waiting, streaming, task_lease, World, on_begun, on_connection, on_chunk, on_drop,
}
use keel_llm_router.Router.{
  RouterState, Begun, rejected, dispatching, respond, connected, set_backend,
}
use keel_llm_router.Router.Begin.{Begins}
use keel_llm_router.Upstream.{new, Relay, Clock, on_data, drop_body}
use keel_llm_router.Upstream.Seen.{on_data-HasSeen}

module _ {S : Type 0} where
  -- A run of ledger events, with token counts that are `u32`, leads from the one fleet to the other.
  abbrev pub Refines : Fleet S → Fleet S → Type 0
  Refines s t = (es : List Ledger.Event) × All Fits es × (Ledger.run s es ≡ some t)

  pub unmoved : (s t : Fleet S) → s ≡ t → Refines s t
  unfolding Ledger.run
  unmoved s t e = ([], tt, ap some e)

  pub Refines-trans : (s t u : Fleet S) → Refines s t → Refines t u → Refines s u
  Refines-trans s t u (es, fits, e) (fs, fits', e') =
      (es ++ fs, All-append Fits es fs fits fits', run-append s es fs e ∙ e')

  one_drop :
      (s : Fleet S) (i : ℕ) (l : CostLease) (b : Backend S)
      → get_elem? s.leases i ≡ some l
      → get_elem? s.backends l.backend ≡ some b
      → Refines s (record s {
        backends = set s.backends l.backend (drop_lease l b);
        leases = erase_idx s.leases i;
      })
  unfolding Ledger.run Ledger.step
  one_drop s i l b el eb = (Ledger.drops i ∷ [], (tt, tt), rw (el, eb) refl)

module _ {D S B : Type 0} where
  -- What the ledger sees of the proxy.
  abbrev pub fleet_of : World D S B → Fleet S
  fleet_of w = record { backends = w.state.snapshot.backends; leases = map task_lease w.tasks }

  pub on_begun-Refines :
      ⦃f : Float D⦄ ⦃d : Decay D⦄ (w : World D S B) (state : RouterState D S) (b : Begun B)
      (log : List (Call D S))
      → Begins w.state.snapshot.backends state b
      → Refines (fleet_of w) (fleet_of (on_begun w (state, b, log)))
  unfolding on_begun respond Ledger.run Ledger.step
  on_begun-Refines w state (rejected status) log (inl same) =
      ([], tt, ap (λ bs. some (record (fleet_of w) { backends = bs })) (sym same))
  on_begun-Refines w state (rejected status) log (inr (o, same)) = (
    opens o.id o.prompt o.o_hat o.kv_model o.now ∷ Ledger.drops 0 ∷ [],
    ((o.prompt_fits, o.o_hat_fits), (tt, tt)),
    open_then_drop (fleet_of w) o.id o.prompt o.o_hat o.kv_model o.now o.backend o.found
        ∙ ap (λ bs. some (record (fleet_of w) { backends = bs })) (sym same),
  )
  on_begun-Refines w state (dispatching p) log (o, leased, stored) = (
    opens o.id o.prompt o.o_hat o.kv_model o.now ∷ [],
    ((o.prompt_fits, o.o_hat_fits), tt),
    rw (o.found, ← leased, ← stored) refl,
  )

  module _ ⦃f : Float D⦄ ⦃d : Decay D⦄ (w u : World D S B) (i : ℕ) where
    ends-Refines :
        (t : Task B) (b : Backend S)
        → get_elem? w.tasks i ≡ some t
        → get_elem? w.state.snapshot.backends (task_lease t).backend ≡ some b
        → Refines (fleet_of w) (record {
          backends =
              set w.state.snapshot.backends (task_lease t).backend (drop_lease (task_lease t) b);
          leases = map task_lease (erase_idx w.tasks i);
        })
    ends-Refines t b et eb =
        subst
          (λ ls. Refines (fleet_of w) (record {
            backends =
                set w.state.snapshot.backends (task_lease t).backend (drop_lease (task_lease t) b);
            leases = ls;
          }))
          (sym (map-erase_idx task_lease w.tasks i))
          (one_drop (fleet_of w) i (task_lease t) b (get-map task_lease w.tasks i t et) eb)

    pub on_connection-Refines :
        (outcome : Option ℕ) (t : Task B)
        → get_elem? w.tasks i ≡ some t
        → on_connection w i outcome t ≡ some u
        → Refines (fleet_of w) (fleet_of u)
    unfolding on_connection connected respond set_backend new
    on_connection-Refines outcome (streaming body) et e = cc
    on_connection-Refines none (waiting p) et e =
        let (b, eb, last) = >>=-eq-some (get_elem? w.state.snapshot.backends p.lease.backend) _ e in
        subst (λ v. Refines (fleet_of w) (fleet_of v)) (some-injective _ _ last)
          (ends-Refines (waiting p) b et eb)
    on_connection-Refines (some status) (waiting p) et e =
        let (b, eb, last) = >>=-eq-some (get_elem? w.state.snapshot.backends p.lease.backend) _ e in
        subst (λ v. Refines (fleet_of w) (fleet_of v)) (some-injective _ _ last)
          (unmoved _ _ (
            ap (λ ls. record (fleet_of w) { leases = ls })
              (sym (
                  set_self (map task_lease w.tasks) i p.lease
                    (get-map task_lease w.tasks i (waiting p) et))
                ∙ sym (map-set task_lease w.tasks i _))))

    pub on_drop-Refines :
        (t : Task B)
        → get_elem? w.tasks i ≡ some t
        → on_drop w i t ≡ some u
        → Refines (fleet_of w) (fleet_of u)
    unfolding on_drop set_backend drop_body
    on_drop-Refines (waiting p) et e =
        let (b, eb, last) = >>=-eq-some (get_elem? w.state.snapshot.backends p.lease.backend) _ e in
        subst (λ v. Refines (fleet_of w) (fleet_of v)) (some-injective _ _ last)
          (ends-Refines (waiting p) b et eb)
    on_drop-Refines (streaming body) et e =
        let (b, eb, last) =
          >>=-eq-some (get_elem? w.state.snapshot.backends body.lease.backend) _ e in
        subst (λ v. Refines (fleet_of w) (fleet_of v)) (some-injective _ _ last)
          (ends-Refines (streaming body) b et eb)

    pub on_chunk-Refines :
        (j : Json D (List ℕ)) (clock : Clock D) (bytes : List ℕ) (t : Task B)
        → get_elem? w.tasks i ≡ some t
        → on_chunk j w i clock bytes t ≡ some u
        → Refines (fleet_of w) (fleet_of u)
    unfolding on_chunk set_backend
    on_chunk-Refines j clock bytes (waiting p) et e = cc
    on_chunk-Refines j clock bytes (streaming body) et e =
        let (b, eb, last) =
          >>=-eq-some (get_elem? w.state.snapshot.backends body.lease.backend) _ e in
        let r : Relay D S = record {
          body = body;
          backend = b;
          route_hists = w.state.route_hists;
          observed = w.log;
        } in
        let (n, seen) = on_data-HasSeen j clock (body.lease, b) bytes r (0, refl) in
        let el = get-map task_lease w.tasks i (streaming body) et in
        subst (λ v. Refines (fleet_of w) (fleet_of v)) (some-injective _ _ last)
          (
            observe_events i n,
            observe_events-Fits i n,
            run-observes (fleet_of w) i body.lease b el eb n
                ∙ ap (λ p. some (with_pair (fleet_of w) i body.lease b el eb p)) (sym seen)
                ∙ ap
                    (λ ls. some (record {
                      backends =
                          set w.state.snapshot.backends body.lease.backend
                            (on_data j clock bytes r).backend;
                      leases = ls;
                    }))
                    (sym (map-set task_lease w.tasks i _)),
          )
