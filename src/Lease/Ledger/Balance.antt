-- ===== src/Lease/Ledger/Balance.antt =====
-- The counters of every backend account for the open leases, after any interleaving.
use mathlib.Core.Path.{subst}
use mathlib.Core.Option.{some-injective}
use keel_llm_router.Base.{
  ℕ, ◌%◌, ◌<◌, ◌≡◌, some, List, [], ◌∷◌, arith, length, >>=-eq-some, bind_total, get_elem?-lt, refl,
  true, get_elem?, All, All-get,
}
use keel_llm_router.Base.Word.{u32_mod, i64_mod}
use keel_llm_router.Backend.{Backend}
use keel_llm_router.Lease.{assert_invariant}
use keel_llm_router.Lease.Ledger.{Fleet, Event, opens, observes, drops, step, run, count, charges}
use keel_llm_router.Lease.Ledger.Count.{no_count}
use keel_llm_router.Lease.Ledger.Calls.{
  IsBalanced, IsPlaced, open-IsBalanced, observe-IsBalanced, drop-IsBalanced,
}

-- The arguments of a call are words.
abbrev pub Fits : Event → Type 0
Fits (opens p prompt_tokens o_hat m now) = (prompt_tokens < u32_mod) × (o_hat < u32_mod)
Fits (observes i n) = Unit
Fits (drops i) = Unit

module _ {S : Type 0} where
  -- An event of a task of the proxy keeps the books of every backend.
  pub step-IsBalanced :
      (s : Fleet S) (e : Event) {t : Fleet S}
      → Fits e
      → IsBalanced s
      → step s e ≡ some t
      → IsBalanced t
  unfolding step
  step-IsBalanced s (opens p prompt o_hat m now) h v e =
      let (b, eb, last) = >>=-eq-some (get_elem? s.backends p) _ e in
      subst IsBalanced (some-injective _ _ last)
        (open-IsBalanced s p prompt o_hat m now b h.0 h.1 eb v)
  step-IsBalanced s (observes i n) h v e =
      let (l, el, rest) = >>=-eq-some (get_elem? s.leases i) _ e in
      let (b, eb, last) = >>=-eq-some (get_elem? s.backends l.backend) _ rest in
      subst IsBalanced (some-injective _ _ last) (observe-IsBalanced s i n l b el eb v)
  step-IsBalanced s (drops i) h v e =
      let (l, el, rest) = >>=-eq-some (get_elem? s.leases i) _ e in
      let (b, eb, last) = >>=-eq-some (get_elem? s.backends l.backend) _ rest in
      subst IsBalanced (some-injective _ _ last) (drop-IsBalanced s i l b el eb v)

  pub run-IsBalanced :
      (s : Fleet S) (es : List Event) {t : Fleet S}
      → All Fits es
      → IsBalanced s
      → run s es ≡ some t
      → IsBalanced t
  unfolding run
  run-IsBalanced s [] h v e = subst IsBalanced (some-injective _ _ e) v
  run-IsBalanced s (x ∷ es) h v e =
      let (t, et, rest) = >>=-eq-some (step s x) _ e in
      run-IsBalanced t es h.1 (step-IsBalanced s x h.0 v et) rest

  -- A fleet that starts, before any request: every counter is zero.
  abbrev pub IsIdle : Backend S → Type 0
  IsIdle b = (b.live.inflight ≡ 0) × (b.live.kv_projected_tokens ≡ 0)

  pub start-IsBalanced :
      (bs : List (Backend S)) → All IsIdle bs → IsBalanced (record { backends = bs; leases = [] })
  unfolding count charges
  start-IsBalanced bs h = record {
    counts = λ p b e. let (i, k) = All-get IsIdle bs p h e in ground arith;
    priced = tt;
    placed = tt;
  }

  -- From a fleet whose counters are zero, after any interleaving of events whose token counts are `u32`:
  -- each counter of each backend is the number, and the sum of the charges, of the leases that are open
  -- on it, modulo its word.
  pub run_accounts :
      (bs : List (Backend S)) (es : List Event) {t : Fleet S} (p : ℕ) (b : Backend S)
      → All IsIdle bs
      → All Fits es
      → run (record { backends = bs; leases = [] }) es ≡ some t
      → get_elem? t.backends p ≡ some b
      → (b.live.inflight ≡ count p t.leases % u32_mod)
        × (b.live.kv_projected_tokens ≡ charges p t.leases % i64_mod)
  run_accounts bs es p b idle fits e eb =
      (run-IsBalanced _ es fits (start-IsBalanced bs idle) e).counts p b eb

  -- From a fleet whose counters are zero, after any interleaving of events whose token counts are `u32`:
  -- the check that a debug build makes of a quiet backend holds, if fewer than 2 ^ 32 leases are open on
  -- the backend.
  pub run-assert_invariant :
      (bs : List (Backend S)) (es : List Event) {t : Fleet S} (p : ℕ) (b : Backend S)
      → All IsIdle bs
      → All Fits es
      → run (record { backends = bs; leases = [] }) es ≡ some t
      → get_elem? t.backends p ≡ some b
      → count p t.leases < u32_mod
      → assert_invariant b ≡ true
  unfolding assert_invariant
  run-assert_invariant bs es {t} p b idle fits e eb few =
      let (i, k) = run_accounts bs es p b idle fits e eb in ground (arith, no_count p t.leases)

  -- The backend or the lease of the event is there.
  abbrev pub Happens : Fleet S → Event → Type 0
  Happens s (opens p prompt_tokens o_hat m now) = p < length s.backends
  Happens s (observes i n) = i < length s.leases
  Happens s (drops i) = i < length s.leases

  step-some :
      (s : Fleet S) (e : Event) → IsBalanced s → Happens s e → (t : Fleet S) × (step s e ≡ some t)
  unfolding step
  step-some s (opens p prompt o_hat m now) v h =
      let (b, eb) = get_elem?-lt s.backends p h in
      bind_total (get_elem? s.backends p) _ eb (_, refl)
  step-some s (observes i n) v h =
      let (l, el) = get_elem?-lt s.leases i h in
      let (b, eb) =
        get_elem?-lt s.backends l.backend (All-get (IsPlaced s.backends) s.leases i v.placed el) in
      bind_total (get_elem? s.leases i) _ el
        (bind_total (get_elem? s.backends l.backend) _ eb (_, refl))
  step-some s (drops i) v h =
      let (l, el) = get_elem?-lt s.leases i h in
      let (b, eb) =
        get_elem?-lt s.backends l.backend (All-get (IsPlaced s.backends) s.leases i v.placed el) in
      bind_total (get_elem? s.leases i) _ el
        (bind_total (get_elem? s.backends l.backend) _ eb (_, refl))

  -- In a fleet whose books are kept, an event with `u32` token counts, on a backend or on a lease that is
  -- there gets a result: the backend that a lease points to is found. The books of the result are kept
  -- too.
  pub step_total :
      (s : Fleet S) (e : Event)
      → Fits e
      → IsBalanced s
      → Happens s e
      → (t : Fleet S) × (step s e ≡ some t) × IsBalanced t
  step_total s e fits v h =
      let (t, et) = step-some s e v h in (t, et, step-IsBalanced s e fits v et)
