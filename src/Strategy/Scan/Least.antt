-- ===== src/Strategy/Scan/Least.antt =====
-- The scan ends with the ids whose key is least, all of them and no other.
use mathlib.Core.Option.{some-injective}
use mathlib.Core.Path.{subst}
use keel_llm_router.Base.{
  ◌≡◌, inl, inr, refl, ◌≢◌, Bool, true, some, List, [], ◌∷◌, arith, get_elem?, Elem, >>=-eq-some,
}
use keel_llm_router.Backend.{Backend, BackendId}
use keel_llm_router.Strategy.Scan.{Verdict, replace, tie, skip, Scan, visit, scan}
use keel_llm_router.Strategy.Scan.Best.{IsRanking, At, AllGood, Scanned, Scanned-nil, Scanned-cons}

module _ {S K : Type 0} {judge : K → K → Verdict} {good : K → Type 0} {leq : K → K → Bool}
    (key : Backend S → K) (ranking : IsRanking judge good leq) (backends : List (Backend S)) where
  open ranking use {judge-eq, leq_trans, leq_total}

  visit_good :
      (v : Verdict) (k : K) (id : BackendId) (s : Scan K)
      → good k
      → good s.best
      → good (visit v k id s).best
  unfolding visit
  visit_good replace k id s gk gb = gk
  visit_good tie k id s gk gb = gb
  visit_good skip k id s gk gb = gb

  scan-Scanned :
      (ids : List BackendId) (s : Scan K) {r : Scan K}
      → AllGood key ranking backends ids
      → good s.best
      → scan judge key backends ids s ≡ some r
      → Scanned key ranking backends ids s r
  unfolding scan
  scan-Scanned [] s all gb e =
      subst (Scanned key ranking backends [] s) (some-injective _ _ e)
        (Scanned-nil key ranking backends s gb)
  scan-Scanned (id ∷ ids) s {r} all gb e =
      let (b, eb, rest) = >>=-eq-some (get_elem? backends id) _ e in
      let gk = all id b (inl refl) eb in
      Scanned-cons key ranking backends id ids b s r eb gk gb (
        scan-Scanned ids (visit (judge (key b) s.best) (key b) id s) (λ j c m. all j c (inr m))
          (visit_good (judge (key b) s.best) (key b) id s gk gb) rest)

  -- The scan from an empty list of ties and a top key: the ids in the ties are exactly those of the
  -- candidates whose key is least, and there is one if there is a candidate.
  pub record Least (ids : List BackendId) (r : Scan K) : Type 0 where
    pub least :
        (id : BackendId) (b : Backend S)
        → Elem id ids
        → get_elem? backends id ≡ some b
        → leq r.best (key b) ≡ true
    pub ties_least :
        (id : BackendId)
        → Elem id r.ties
        → Elem id ids × At key ranking backends id (λ k. leq k r.best ≡ true)
    pub least_ties :
        (id : BackendId) (b : Backend S)
        → Elem id ids
        → get_elem? backends id ≡ some b
        → leq (key b) r.best ≡ true
        → Elem id r.ties

  pub scan-Least :
      (ids : List BackendId) (top : K) {r : Scan K}
      → AllGood key ranking backends ids
      → good top
      → scan judge key backends ids (record { best = top; ties = [] }) ≡ some r
      → Least ids r
  scan-Least ids top all gt e =
      let h = scan-Scanned ids (record { best = top; ties = [] }) all gt e in
      record {
        least = h.best_least;
        ties_least = λ id m. elim (h.ties_only id m) [ inl o ↦ absurd o.0 | inr n ↦ n ];
        least_ties = h.ties_new;
      }

  visit_ties :
      (v : Verdict) (k : K) (id : BackendId) (s : Scan K) → s.ties ≢ [] → (visit v k id s).ties ≢ []
  unfolding visit
  visit_ties replace k id s h = λ e. cc
  visit_ties tie k id s h = ground arith
  visit_ties skip k id s h = h

  scan_ties :
      (ids : List BackendId) (s : Scan K) {r : Scan K}
      → s.ties ≢ []
      → scan judge key backends ids s ≡ some r
      → r.ties ≢ []
  unfolding scan
  scan_ties [] s h e = rw (← some-injective _ _ e) h
  scan_ties (id ∷ ids) s h e =
      let (b, eb, rest) = >>=-eq-some (get_elem? backends id) _ e in
      scan_ties ids (visit (judge (key b) s.best) (key b) id s)
        (visit_ties (judge (key b) s.best) (key b) id s h) rest

  first_ties :
      (k : K) (id : BackendId) (top : K)
      → good k
      → good top
      → leq k top ≡ true
      → (visit (judge k top) k id (record { best = top; ties = [] })).ties ≢ []
  unfolding visit
  first_ties k id top gk gt l = ground (arith, judge-eq k top gk gt)

  -- If every key is below the first one, a candidate leaves a tie behind.
  pub scan_nonempty :
      (ids : List BackendId) (top : K) {r : Scan K}
      → AllGood key ranking backends ids
      → good top
      → ((k : K) → good k → leq k top ≡ true)
      → ids ≢ []
      → scan judge key backends ids (record { best = top; ties = [] }) ≡ some r
      → r.ties ≢ []
  unfolding scan
  scan_nonempty [] top all gt below h e = absurd (h refl)
  scan_nonempty (id ∷ ids) top all gt below h e =
      let (b, eb, rest) = >>=-eq-some (get_elem? backends id) _ e in
      let gk = all id b (inl refl) eb in
      scan_ties ids _ (first_ties (key b) id top gk gt (below (key b) gk)) rest
