-- ===== src/Lease/Ledger/Caps.antt =====
-- What the ledger never changes, the capacities of the backends.
use mathlib.Core.Option.{some-injective}
use keel_llm_router.Base.{
  ℕ, ◌≡◌, refl, sym, ap, ◌∙◌, some, List, [], ◌∷◌, map, arith, get_elem?, set, >>=-eq-some, get-map,
  map-set, set_self,
}
use keel_llm_router.Backend.{Backend, CapsEstimate}
use keel_llm_router.Cost.{KvModel}
use keel_llm_router.Lease.{CostLease, open_lease, observe_tokens, drop_lease}
use keel_llm_router.Lease.Ledger.{Fleet, Event, opens, observes, drops, step, run}

module _ {S : Type 0} where
  abbrev pub caps_of : List (Backend S) → List CapsEstimate
  caps_of bs = map (λ b. b.caps) bs

  caps-set :
      (bs : List (Backend S)) (p : ℕ) (b b' : Backend S)
      → get_elem? bs p ≡ some b
      → b'.caps ≡ b.caps
      → caps_of (set bs p b') ≡ caps_of bs
  caps-set bs p b b' e same =
      map-set (λ (c : Backend S). c.caps) bs p b'
      ∙ ap (set (caps_of bs) p) same
      ∙ set_self (caps_of bs) p b.caps (get-map (λ (c : Backend S). c.caps) bs p b e)

  open-caps :
      (p : ℕ) (b : Backend S) (prompt o_hat : ℕ) (m : KvModel) (now : ℕ)
      → (open_lease p b prompt o_hat m now).1.caps ≡ b.caps
  unfolding open_lease
  open-caps p b prompt o_hat m now = refl

  observe-caps : (l : CostLease) (b : Backend S) (n : ℕ) → (observe_tokens l b n).1.caps ≡ b.caps
  unfolding observe_tokens
  observe-caps l b n = ground arith

  drop-caps : (l : CostLease) (b : Backend S) → (drop_lease l b).caps ≡ b.caps
  unfolding drop_lease
  drop-caps l b = ground arith

  step-caps :
      (s t : Fleet S) (e : Event) → step s e ≡ some t → caps_of t.backends ≡ caps_of s.backends
  unfolding step
  step-caps s t (opens p prompt o_hat m now) h =
      let (b, eb, last) = >>=-eq-some (get_elem? s.backends p) _ h in
      rw (sym (some-injective _ _ last))
        (caps-set s.backends p b _ eb (open-caps p b prompt o_hat m now))
  step-caps s t (observes i n) h =
      let (l, el, rest) = >>=-eq-some (get_elem? s.leases i) _ h in
      let (b, eb, last) = >>=-eq-some (get_elem? s.backends l.backend) _ rest in
      rw (sym (some-injective _ _ last)) (caps-set s.backends l.backend b _ eb (observe-caps l b n))
  step-caps s t (drops i) h =
      let (l, el, rest) = >>=-eq-some (get_elem? s.leases i) _ h in
      let (b, eb, last) = >>=-eq-some (get_elem? s.backends l.backend) _ rest in
      rw (sym (some-injective _ _ last)) (caps-set s.backends l.backend b _ eb (drop-caps l b))

  pub run-caps :
      (s t : Fleet S) (es : List Event)
      → run s es ≡ some t
      → caps_of t.backends ≡ caps_of s.backends
  unfolding run
  run-caps s t [] h = ap (λ (u : Fleet S). caps_of u.backends) (sym (some-injective _ _ h))
  run-caps s t (e ∷ es) h =
      let (u, eu, rest) = >>=-eq-some (step s e) _ h in run-caps u t es rest ∙ step-caps s u e eu
