-- ===== src/LengthEstimator/Histograms.antt =====
-- The estimate of a route: what it is made from, and that routes do not disturb each other.
use keel_llm_router.Base.{
  ℕ, ◌≤◌, ◌<◌, ◌≡◌, ◌≢◌, ◌↔◌, refl, inl, inr, true, Option, none, some, List, [], ◌∷◌, arith,
  =s=_iff, Option-cases,
}
use keel_llm_router.Base.Word.{u32_mod}
use keel_llm_router.Float.{Float}
use keel_llm_router.Features.{RouteKey}
use keel_llm_router.LengthEstimator.{
  Decay, new_quantile, observe_value, estimate_of, RouteHistograms, same_key, lookup, upsert,
  estimate, observe, at_least_one,
}

-- `as u32` gives a word, and a word that became an `f64` comes back.
pub record IsRounding (D : Type 0) ⦃f : Float D⦄ ⦃d : Decay D⦄ : Type 0 where
  pub round_fits : (x : D) → d.round_u32 x < u32_mod
  pub round_of_ℕ : (n : ℕ) → n < u32_mod → d.round_u32 (f.of_ℕ n) ≡ n

same_key_iff : (k l : RouteKey) → (same_key k l ≡ true) ↔ (k ≡ l)
same_key_iff k l = ground (arith, =s=_iff k.model l.model)

module _ {A : Type 0} where
  lookup-upsert :
      (es : List (RouteKey × A)) (key : RouteKey) (fresh : A) (change : A → A)
      → lookup (upsert es key fresh change) key
        ≡ some (change (elim (lookup es key) [ none ↦ fresh | some a ↦ a ]))
  unfolding lookup upsert
  lookup-upsert [] key fresh change = ground (arith, same_key_iff key key)
  lookup-upsert (e ∷ es) key fresh change = ground (arith, lookup-upsert es key fresh change)

  lookup-upsert_other :
      (es : List (RouteKey × A)) (key other : RouteKey) (fresh : A) (change : A → A)
      → key ≢ other
      → lookup (upsert es key fresh change) other ≡ lookup es other
  unfolding lookup upsert
  lookup-upsert_other [] key other fresh change h = ground (arith, same_key_iff key other)
  lookup-upsert_other (e ∷ es) key other fresh change h = ground (
    arith,
    same_key_iff key other,
    same_key_iff e.0 key,
    same_key_iff e.0 other,
    lookup-upsert_other es key other fresh change h,
  )

-- `max_tokens`, where a client gives it, is a `u32`.
abbrev pub AreTokens : Option ℕ → Type 0
AreTokens none = Unit
AreTokens (some n) = n < u32_mod

module _ {D : Type 0} ⦃f : Float D⦄ ⦃d : Decay D⦄ (laws : IsRounding D) where
  -- If `as u32` gives words and `max_tokens`, if given, is one, an estimate is a `u32` and never zero,
  -- whatever the history, even of values that are not numbers.
  pub estimate_bounds :
      (h : RouteHistograms D) (key : RouteKey) (max_tokens : Option ℕ)
      → AreTokens max_tokens
      → (1 ≤ estimate h key max_tokens) × (estimate h key max_tokens < u32_mod)
  unfolding estimate estimate_of
  estimate_bounds h key (some n) fits = ground arith
  estimate_bounds h key none fits = elim (Option-cases (lookup h.inner key)) [
    | inl e ↦ rw (e, estimate) (omega arith, omega arith)
    | inr (q, e) ↦ elim (Option-cases q.estimate) [
      | inl n ↦ rw (e, n, estimate) (omega arith, omega arith)
      | inr (v, ev) ↦ rw (e, ev, estimate) (ground (arith, laws.round_fits v))
    ]
  ]

  -- Of a completion that is a `u32`, where `u32` values come back from `f64`: the first completion of a
  -- route that is observed becomes its estimate, and 1 if it is empty; and no
  -- observation of one route changes an estimate of another.
  pub estimate-observe :
      (h : RouteHistograms D) (key : RouteKey) (n : ℕ) (now_s : D)
      → n < u32_mod
      → (lookup h.inner key ≡ none → estimate (observe h key n now_s) key none ≡ at_least_one n)
        × ((other : RouteKey) (max_tokens : Option ℕ)
            → key ≢ other
            → estimate (observe h key n now_s) other max_tokens ≡ estimate h other max_tokens)
  unfolding estimate observe estimate_of observe_value new_quantile
  estimate-observe h key n now_s fits = (first, others)
    where
      first : lookup h.inner key ≡ none → estimate (observe h key n now_s) key none ≡ at_least_one n
      first e =
          rw
            (
              lookup-upsert h.inner key (new_quantile h.halflife_s) (λ q. observe_value q n now_s),
              e,
              estimate,
              laws.round_of_ℕ n fits,
            )
            refl

      others :
          (other : RouteKey) (max_tokens : Option ℕ)
          → key ≢ other
          → estimate (observe h key n now_s) other max_tokens ≡ estimate h other max_tokens
      others other (some m) h' = refl
      others other none h' =
          rw
            (
              lookup-upsert_other h.inner key other (new_quantile h.halflife_s)
                  (λ q. observe_value q n now_s) h',
              estimate,
            )
            refl
