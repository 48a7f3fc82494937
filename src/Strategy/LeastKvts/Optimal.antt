-- ===== src/Strategy/LeastKvts/Optimal.antt =====
-- The strategy picks a healthy backend with the most KV tokens left.
use keel_llm_router.Base.{
  ℕ, ◌-◌, ◌^◌, ◌<◌, ◌≡◌, ◌≢◌, true, Option, some, [], arith, leb, get_elem?, Elem, All, All-get,
  is_empty_ne, sym, ap, ◌∙◌,
}
use keel_llm_router.Base.Word.{u32_mod, i64_half, max_zero, sub_i64}
use keel_llm_router.Float.{Float, IsOrdered, IsNumber}
use keel_llm_router.Backend.{Backend, BackendId, Snapshot, IsWired}
use keel_llm_router.Features.{RequestFeatures}
use keel_llm_router.Trace.{DecisionTrace, record_pick_total}
use keel_llm_router.Strategy.Rng.{Rng, IsFair, Picked}
use keel_llm_router.Strategy.Scan.Best.{IsRanking}
use keel_llm_router.Strategy.Scan.Select.{IsBest, IsBest-mono, select_best}
use keel_llm_router.Strategy.LeastKvts.{judge, remaining, name, pick}

-- The charges of the backend are not negative, and its capacity is a word.
abbrev pub IsCharged : {S : Type 0} → Backend S → Type 0
IsCharged b = (b.live.kv_projected_tokens < i64_half) × (b.caps.kv_capacity_tokens < u32_mod)

-- The tokens that are left of a capacity.
abbrev pub left : {S : Type 0} → Backend S → ℕ
left b = b.caps.kv_capacity_tokens - b.live.kv_projected_tokens

finite_left :
    {S : Type 0} (b : Backend S)
    → max_zero (sub_i64 b.caps.kv_capacity_tokens b.live.kv_projected_tokens) < 2 ^ 64
finite_left b = ground arith

module _ {D : Type 0} ⦃f : Float D⦄ (laws : IsOrdered D) where
  open laws use {
    number_of_le, le_trans, le_total, number_of_finite, neg_infinity_bottom, of_ℕ_finite, of_ℕ-le,
  }

  ranking : IsRanking judge (λ (x : D). IsNumber x) (λ x y. f.le y x)
  ranking = record {
    judge-eq = λ k b hk hb. ground (arith, le_total k b hk hb);
    leq_trans = λ x y z h k. le_trans z y x k h;
    leq_total = λ x y hx hy. le_total y x hy hx;
  }

  remaining-eq : {S : Type 0} (b : Backend S) → IsCharged b → remaining b ≡ f.of_ℕ (left b)
  remaining-eq b h = ap f.of_ℕ (ground arith)

  remaining-left :
      {S : Type 0} (b c : Backend S)
      → IsCharged b
      → IsCharged c
      → f.le (remaining c) (remaining b) ≡ true
      → leb (left c) (left b) ≡ true
  remaining-left b c hb hc h =
      sym (of_ℕ-le (left c) (left b) (omega arith) (omega arith))
      ∙ rw (remaining-eq b hb, remaining-eq c hc) at h

  module _ {S R : Type 0} ⦃g : Rng R⦄ (fair : IsFair R) where
    -- With numbers that are ordered as IEEE 754 says and a generator that draws what it is given: on a
    -- snapshot that is wired, with a healthy backend, and whose charges are not negative and capacities
    -- `u32`, the pick does not panic and returns a healthy backend that has at least as many KV tokens
    -- left as any other.
    pub pick_most_left :
        (snap : Snapshot S) (req : RequestFeatures) (rng : R) (trace : Option (DecisionTrace D S))
        → IsWired snap
        → All IsCharged snap.backends
        → snap.healthy ≢ []
        → (out : Picked D S R) × (pick snap req rng trace ≡ some out)
          × (id : BackendId) × (out.chosen ≡ some id)
          × IsBest left (λ x y. leb y x) snap.backends snap.healthy id
    unfolding pick
    pick_most_left snap req rng trace wired charged some_id =
        let sound =
          λ (j : BackendId) (c : Backend S) (m : Elem j snap.healthy)
              (e : get_elem? snap.backends j ≡ some c).
            number_of_finite (remaining c) (of_ℕ_finite _ (finite_left c)) in
        let (s, es, id, chosen, best) =
          select_best fair remaining ranking snap.backends snap.healthy f.neg_infinity rng wired
            sound
            (number_of_le _ _
              (neg_infinity_bottom (f.of_ℕ 0) (number_of_finite _ (of_ℕ_finite 0 (omega arith))))).0
            neg_infinity_bottom some_id in
        let (t, et) = record_pick_total trace name snap req (g.choose rng s.ties).0 wired in
        (
          record { chosen = (g.choose rng s.ties).0; rng = (g.choose rng s.ties).1; trace = t },
          rw (is_empty_ne snap.healthy some_id, es, et),
          id,
          chosen,
          IsBest-mono remaining (λ x y. f.le y x) left (λ x y. leb y x) snap.backends snap.healthy
              id
              (λ i j b c eb ec.
                remaining-left b c (All-get IsCharged snap.backends i charged eb)
                  (All-get IsCharged snap.backends j charged ec))
              best,
        )
