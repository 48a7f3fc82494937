-- ===== src/Lease/Ledger/Runs.antt =====
-- Runs of several events of the ledger: one after another, the tokens of a frame each, and a lease that
-- is dropped as soon as it was opened.
use mathlib.Core.Path.{subst}
use keel_llm_router.Base.{
  ℕ, zero, suc, ◌≡◌, refl, sym, ap, ◌∙◌, Option, some, List, [], ◌∷◌, ◌++◌, arith, get_elem?, set,
  ◌>>=◌, get-set_same, set-set, set_self, Option-cases, inl, inr, All, All-append,
}
use keel_llm_router.Backend.{Backend}
use keel_llm_router.Cost.{KvModel}
use keel_llm_router.Lease.{CostLease, open_lease, observe_tokens, drop_lease}
use keel_llm_router.Lease.Ledger.{Fleet, Event, opens, observes, drops, step, run}
use keel_llm_router.Lease.Ledger.Balance.{Fits}

-- The lease and its backend after `n` tokens, seen one by one.
abbrev pub observe_times : {S : Type 0} → ℕ → CostLease × Backend S → CostLease × Backend S
observe_times zero p = p
observe_times (suc n) p = let q = observe_times n p in observe_tokens q.0 q.1 1

abbrev pub observe_events : ℕ → ℕ → List Event
observe_events i zero = []
observe_events i (suc n) = observe_events i n ++ observes i 1 ∷ []

pub observe_events-Fits : (i n : ℕ) → All Fits (observe_events i n)
observe_events-Fits i zero = tt
observe_events-Fits i (suc n) = All-append Fits _ _ (observe_events-Fits i n) (tt, tt)

module _ {S : Type 0} where
  pub run-append :
      (s : Fleet S) (es fs : List Event) {t : Fleet S}
      → run s es ≡ some t
      → run s (es ++ fs) ≡ run t fs
  unfolding run
  run-append s [] fs e = ap (λ m. m >>= λ t. run t fs) e
  run-append s (x ∷ es) fs e = elim (Option-cases (step s x)) [
    | inl n ↦ cc
    | inr (u, h) ↦ rw h (run-append u es fs (rw h at e))
  ]

  observe_tokens-backend :
      (l : CostLease) (b : Backend S) (n : ℕ) → (observe_tokens l b n).0.backend ≡ l.backend
  unfolding observe_tokens
  observe_tokens-backend l b n = ground arith

  observe_times-backend :
      (n : ℕ) (l : CostLease) (b : Backend S) → (observe_times n (l, b)).0.backend ≡ l.backend
  observe_times-backend zero l b = refl
  observe_times-backend (suc n) l b =
      observe_tokens-backend (observe_times n (l, b)).0 (observe_times n (l, b)).1 1
      ∙ observe_times-backend n l b

  step-at :
      (t : Fleet S) (i n : ℕ) (l : CostLease) (b : Backend S)
      → get_elem? t.leases i ≡ some l
      → get_elem? t.backends l.backend ≡ some b
      → let seen = observe_tokens l b n in
        step t (observes i n)
        ≡ some (record t {
          backends = set t.backends l.backend seen.1;
          leases = set t.leases i seen.0;
        })
  unfolding step
  step-at t i n l b el eb = rw (el, step) (rw eb refl)

  module _ (s : Fleet S) (i : ℕ) (l : CostLease) (b : Backend S)
      (el : get_elem? s.leases i ≡ some l) (eb : get_elem? s.backends l.backend ≡ some b) where
    -- The fleet with another lease at the position, and another backend for it.
    abbrev pub with_pair : CostLease × Backend S → Fleet S
    with_pair p = record s { backends = set s.backends l.backend p.1; leases = set s.leases i p.0 }

    fleet : List (Backend S) → List CostLease → Option (Fleet S)
    fleet bs ls = some (record s { backends = bs; leases = ls })

    step-observes :
        (p : CostLease × Backend S)
        → p.0.backend ≡ l.backend
        → step (with_pair p) (observes i 1) ≡ some (with_pair (observe_tokens p.0 p.1 1))
    unfolding fleet
    step-observes p same =
        let (l', b') = observe_tokens p.0 p.1 1 in
        let bs = set s.backends l.backend p.1 in
        let ls = set s.leases i p.0 in
        step-at (with_pair p) i 1 p.0 p.1 (get-set_same s.leases i p.0 l el) (
          subst (λ k. get_elem? bs k ≡ some p.1) (sym same)
            (get-set_same s.backends l.backend p.1 b eb))
        ∙ ap (λ k. fleet (set bs k b') (set ls i l')) same
        ∙ ap (λ k. fleet k (set ls i l')) (set-set s.backends l.backend p.1 b')
        ∙ ap (λ k. fleet (set s.backends l.backend b') k) (set-set s.leases i p.0 l')

    pub run-observes :
        (n : ℕ) → run s (observe_events i n) ≡ some (with_pair (observe_times n (l, b)))
    unfolding run
    run-observes zero = rw (set_self s.backends l.backend b eb, set_self s.leases i l el) refl
    run-observes (suc n) =
        run-append s (observe_events i n) (observes i 1 ∷ []) (run-observes n)
        ∙ ap (λ m. m >>= λ t. some t)
            (step-observes (observe_times n (l, b)) (observe_times-backend n l b))

  pub open_then_drop :
      (s : Fleet S) (p prompt o_hat : ℕ) (m : KvModel) (now : ℕ) (b : Backend S)
      → get_elem? s.backends p ≡ some b
      → let opened = open_lease p b prompt o_hat m now in
        run s (opens p prompt o_hat m now ∷ drops 0 ∷ [])
        ≡ some (record s { backends = set s.backends p (drop_lease opened.0 opened.1) })
  unfolding run step open_lease
  open_then_drop s p prompt o_hat m now b e =
      let opened = open_lease p b prompt o_hat m now in
      rw
        (
          e,
          get-set_same s.backends p opened.1 b e,
          set-set s.backends p opened.1 (drop_lease opened.0 opened.1),
        )
        refl
