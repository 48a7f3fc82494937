-- ===== src/Strategy/Scan/Best.antt =====
-- What a scan keeps: the least key so far, and the ids that have it. One candidate at a time.
use mathlib.Core.Option.{some-injective}
use keel_llm_router.Base.{
  ◌≡◌, ◌⊎◌, inl, inr, refl, sym, ap, ◌∙◌, Bool, true, false, some, List, [], ◌∷◌, ◌++◌, arith,
  get_elem?, Elem, Elem-append, eq_of_Elem, false≢true,
}
use keel_llm_router.Backend.{Backend, BackendId}
use keel_llm_router.Strategy.Scan.{Verdict, replace, tie, skip, Scan, visit}

abbrev pub verdict : Bool → Bool → Verdict
verdict true true = tie
verdict true false = replace
verdict false _ = skip

-- On keys that are `good`, the judgement is that of a total order.
pub record IsRanking {K : Type 0} (judge : K → K → Verdict) (good : K → Type 0) (leq : K → K → Bool)
    : Type 0 where
  pub judge-eq : (k b : K) → good k → good b → judge k b ≡ verdict (leq k b) (leq b k)
  pub leq_trans : (x y z : K) → leq x y ≡ true → leq y z ≡ true → leq x z ≡ true
  pub leq_total : (x y : K) → good x → good y → (leq x y ≡ true) ⊎ (leq y x ≡ true)

module _ {S K : Type 0} {judge : K → K → Verdict} {good : K → Type 0} {leq : K → K → Bool}
    (key : Backend S → K) (ranking : IsRanking judge good leq) (backends : List (Backend S)) where
  open ranking use {judge-eq, leq_trans, leq_total}

  -- The backend at an id is there, with a key for which `P` holds.
  abbrev pub At : BackendId → (K → Type 0) → Type 0
  At id P = (b : Backend S) × (get_elem? backends id ≡ some b) × P (key b)

  abbrev pub AllGood : List BackendId → Type 0
  AllGood ids =
      (id : BackendId) (b : Backend S) → Elem id ids → get_elem? backends id ≡ some b → good (key b)

  -- What the scan of `ids` makes of `s`.
  pub record Scanned (ids : List BackendId) (s r : Scan K) : Type 0 where
    pub best_good : good r.best
    pub best_falls : leq r.best s.best ≡ true
    pub best_least :
        (id : BackendId) (b : Backend S)
        → Elem id ids
        → get_elem? backends id ≡ some b
        → leq r.best (key b) ≡ true
    pub ties_old : (id : BackendId) → Elem id s.ties → leq s.best r.best ≡ true → Elem id r.ties
    pub ties_new :
        (id : BackendId) (b : Backend S)
        → Elem id ids
        → get_elem? backends id ≡ some b
        → leq (key b) r.best ≡ true
        → Elem id r.ties
    pub ties_only :
        (id : BackendId)
        → Elem id r.ties
        → (Elem id s.ties × (leq s.best r.best ≡ true))
          ⊎ (Elem id ids × At id (λ k. leq k r.best ≡ true))

  leq_refl : (x : K) → good x → leq x x ≡ true
  leq_refl x h = ground (arith, leq_total x x h h)

  pub Scanned-nil : (s : Scan K) → good s.best → Scanned [] s s
  Scanned-nil s h = record {
    best_good = h;
    best_falls = leq_refl s.best h;
    best_least = λ id b m e. absurd m;
    ties_old = λ id m e. m;
    ties_new = λ id b m e l. absurd m;
    ties_only = λ id m. inl (m, leq_refl s.best h);
  }

  -- One candidate whose key is no worse than the best: it replaces the ties, or joins them.
  module _ (id : BackendId) (ids : List BackendId) (b : Backend S) (s r : Scan K)
      (e : get_elem? backends id ≡ some b) where
    key_at :
        (j : BackendId) (c : Backend S) → j ≡ id → get_elem? backends j ≡ some c → key c ≡ key b
    key_at j c same ec = ap key (some-injective _ _ (sym ec ∙ ap (get_elem? backends) same ∙ e))

    at_self : (j : BackendId) → j ≡ id → leq (key b) r.best ≡ true → At j (λ k. leq k r.best ≡ true)
    at_self j same l = (b, ap (get_elem? backends) same ∙ e, l)

    Scanned-tie :
        leq (key b) s.best ≡ true
        → leq s.best (key b) ≡ true
        → Scanned ids (record { best = s.best; ties = s.ties ++ id ∷ [] }) r
        → Scanned (id ∷ ids) s r
    Scanned-tie down up h = record {
      best_good = h.best_good;
      best_falls = h.best_falls;
      best_least = λ j c. elim [
        | inl same ↦ λ ec. rw (key_at j c same ec) (leq_trans _ _ _ h.best_falls up)
        | inr m ↦ λ ec. h.best_least j c m ec
      ];
      ties_old = λ j m l. h.ties_old j ((Elem-append j s.ties (id ∷ [])).1 (inl m)) l;
      ties_new = λ j c. elim [
        | inl same ↦ λ ec l.
            h.ties_old j ((Elem-append j s.ties (id ∷ [])).1 (inr (inl same)))
              (leq_trans _ _ _ up (rw (key_at j c same ec) at l))
        | inr m ↦ λ ec l. h.ties_new j c m ec l
      ];
      ties_only = λ j m. elim (h.ties_only j m) [
        | inr n ↦ inr (inr n.0, n.1)
        | inl o ↦ elim ((Elem-append j s.ties (id ∷ [])).0 o.0) [
          | inl old ↦ inl (old, o.1)
          | inr new ↦ inr (
            inl (eq_of_Elem j id new),
            at_self j (eq_of_Elem j id new) (leq_trans _ _ _ down o.1),
          )
        ]
      ];
    }

    Scanned-replace :
        leq (key b) s.best ≡ true
        → leq s.best (key b) ≡ false
        → Scanned ids (record { best = key b; ties = id ∷ [] }) r
        → Scanned (id ∷ ids) s r
    Scanned-replace down up h = record {
      best_good = h.best_good;
      best_falls = leq_trans _ _ _ h.best_falls down;
      best_least = λ j c. elim [
        | inl same ↦ λ ec. rw (key_at j c same ec) h.best_falls
        | inr m ↦ λ ec. h.best_least j c m ec
      ];
      ties_old = λ j m l. absurd (false≢true (sym up ∙ leq_trans _ _ _ l h.best_falls));
      ties_new = λ j c. elim [
        | inl same ↦ λ ec l. h.ties_old j (inl same) (rw (key_at j c same ec) at l)
        | inr m ↦ λ ec l. h.ties_new j c m ec l
      ];
      ties_only = λ j m. elim (h.ties_only j m) [
        | inr n ↦ inr (inr n.0, n.1)
        | inl o ↦ inr (inl (eq_of_Elem j id o.0), at_self j (eq_of_Elem j id o.0) o.1)
      ];
    }

    Scanned-skip :
        leq (key b) s.best ≡ false
        → leq s.best (key b) ≡ true
        → Scanned ids s r
        → Scanned (id ∷ ids) s r
    Scanned-skip down up h = record {
      best_good = h.best_good;
      best_falls = h.best_falls;
      best_least = λ j c. elim [
        | inl same ↦ λ ec. rw (key_at j c same ec) (leq_trans _ _ _ h.best_falls up)
        | inr m ↦ λ ec. h.best_least j c m ec
      ];
      ties_old = h.ties_old;
      ties_new = λ j c. elim [
        | inl same ↦ λ ec l.
            absurd
              (false≢true (sym down ∙ leq_trans _ _ _ (rw (key_at j c same ec) at l) h.best_falls))
        | inr m ↦ λ ec l. h.ties_new j c m ec l
      ];
      ties_only = λ j m. elim (h.ties_only j m) [ inr n ↦ inr (inr n.0, n.1) | inl o ↦ inl o ];
    }

    by_verdict :
        (p q : Bool)
        → leq (key b) s.best ≡ p
        → leq s.best (key b) ≡ q
        → good (key b)
        → good s.best
        → Scanned ids (visit (verdict p q) (key b) id s) r
        → Scanned (id ∷ ids) s r
    unfolding visit
    by_verdict true true down up gk gb h = Scanned-tie down up h
    by_verdict true false down up gk gb h = Scanned-replace down up h
    by_verdict false true down up gk gb h = Scanned-skip down up h
    by_verdict false false down up gk gb h = elim (leq_total (key b) s.best gk gb) [
      | inl l ↦ absurd (false≢true (sym down ∙ l))
      | inr l ↦ absurd (false≢true (sym up ∙ l))
    ]

    pub Scanned-cons :
        good (key b)
        → good s.best
        → Scanned ids (visit (judge (key b) s.best) (key b) id s) r
        → Scanned (id ∷ ids) s r
    Scanned-cons gk gb h =
        by_verdict (leq (key b) s.best) (leq s.best (key b)) refl refl gk gb
          (rw (judge-eq (key b) s.best gk gb) at h)
