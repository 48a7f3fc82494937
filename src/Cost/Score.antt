-- ===== src/Cost/Score.antt =====
-- The occupancy is a number that is not negative, and the score grows with it.
use keel_llm_router.Base.{ℕ, ◌^◌, ◌≤◌, ◌<◌, ◌≡◌, inl, inr, true, false, arith, Bool-cases}
use keel_llm_router.Base.Word.{u32_mod, max_zero}
use keel_llm_router.Float.{Float, IsRounded, IsNumber, IsFinite, ◌≼◌, le_refl, fmax_bounds}
use keel_llm_router.Backend.{Backend}
use keel_llm_router.Cost.{occupancy, pressure_score}

-- The capacities are configured, and they and the count of requests in flight fit their words.
pub record IsSized {S : Type 0} (b : Backend S) : Type 0 where
  pub slots_pos : 0 < b.caps.max_num_seqs
  pub slots_fit : b.caps.max_num_seqs < u32_mod
  pub tokens_pos : 0 < b.caps.kv_capacity_tokens
  pub tokens_fit : b.caps.kv_capacity_tokens < u32_mod
  pub inflight_fit : b.live.inflight < u32_mod

-- `theta` is a number strictly between 0 and 1, and the penalty is finite and not negative.
pub record IsTuned {D : Type 0} ⦃f : Float D⦄ (theta penalty : D) : Type 0 where
  pub theta_pos : f.lt f.nought theta ≡ true
  pub theta_finite : IsFinite theta
  pub room_pos : f.lt f.nought (f.sub f.unit theta) ≡ true
  pub room_finite : IsFinite (f.sub f.unit theta)
  pub penalty_nonneg : f.nought ≼ penalty
  pub penalty_finite : IsFinite penalty

-- How far the occupancy stands above the knee, as a fraction of the room there is.
abbrev pub over : {D : Type 0} ⦃f : Float D⦄ → D → D → D
over ⦃f⦄ u theta = f.div (f.sub u theta) (f.sub f.unit theta)

-- The overshoot and the product that the score takes of it stay below infinity.
pub record IsBounded {D : Type 0} ⦃f : Float D⦄ (u theta penalty : D) : Type 0 where
  pub over_finite : IsFinite (over u theta)
  pub product_finite : IsFinite (f.mul penalty (over u theta))

module _ {D : Type 0} ⦃f : Float D⦄ (laws : IsRounded D) where
  open laws use {
    ordered, finite_of_le, number_of_le, le_trans, le_total, lt-eq-not-le, number_of_finite,
    of_ℕ_finite, of_ℕ-le, of_ℕ-zero, of_ℕ_mono, sub_mono, sub_nonneg, div_mono, div_nonneg,
    mul_nonneg, mul_mono, le-add_right, add_mono,
  }

  of_ℕ_nonneg : (n : ℕ) → f.nought ≼ f.of_ℕ n
  of_ℕ_nonneg n = ground (arith, of_ℕ-zero, of_ℕ_mono 0 n)

  of_ℕ_pos : (n : ℕ) → 0 < n → n ≤ 2 ^ 53 → f.lt f.nought (f.of_ℕ n) ≡ true
  of_ℕ_pos n pos h = ground (
    arith,
    of_ℕ-zero,
    of_ℕ-le n 0,
    number_of_le _ _ (of_ℕ_nonneg n),
    lt-eq-not-le f.nought (f.of_ℕ n),
  )

  -- With numbers that round as IEEE 754 says, the occupancy of a backend that is configured is never
  -- negative, so it is not NaN either.
  pub occupancy_nonneg : {S : Type 0} (b : Backend S) → IsSized b → f.nought ≼ occupancy b
  unfolding occupancy
  occupancy_nonneg b h =
      let kv = max_zero b.live.kv_projected_tokens in
      let slots =
        div_nonneg (f.of_ℕ b.live.inflight) (f.of_ℕ b.caps.max_num_seqs)
          (of_ℕ_finite _ (omega arith)) (of_ℕ_pos _ h.slots_pos (omega arith)) (of_ℕ_nonneg _) in
      let mem =
        div_nonneg (f.of_ℕ kv) (f.of_ℕ b.caps.kv_capacity_tokens) (of_ℕ_finite _ (omega arith))
          (of_ℕ_pos _ h.tokens_pos (omega arith)) (of_ℕ_nonneg _) in
      le_trans _ _ _ slots
        (fmax_bounds ordered _ _ (number_of_le _ _ slots).1 (number_of_le _ _ mem).1).0

  module _ {theta penalty : D} (tuned : IsTuned theta penalty) where
    open tuned use {theta_finite, room_pos, room_finite, penalty_nonneg, penalty_finite}

    le_of_not_lt : (u : D) → IsNumber u → f.lt u theta ≡ false → theta ≼ u
    le_of_not_lt u hu h =
        ground (arith, number_of_finite theta theta_finite, lt-eq-not-le u theta hu)

    over_nonneg : (u : D) → theta ≼ u → f.nought ≼ over u theta
    over_nonneg u h = div_nonneg _ _ room_finite room_pos (sub_nonneg u theta theta_finite h)

    over_mono : (u v : D) → u ≼ v → over u theta ≼ over v theta
    over_mono u v h = div_mono _ _ _ room_finite room_pos (sub_mono u v theta theta_finite h)

    abbrev excess : D → D
    excess u = f.mul (f.mul penalty (over u theta)) (over u theta)

    excess_bounds :
        (u v : D)
        → theta ≼ u
        → u ≼ v
        → IsBounded v theta penalty
        → (f.nought ≼ excess u) × (excess u ≼ excess v)
    excess_bounds u v h huv b =
        let zero_over = over_nonneg u h in
        let grows = over_mono u v huv in
        let finite = finite_of_le _ _ zero_over grows b.over_finite in
        let product = mul_nonneg penalty _ penalty_finite finite penalty_nonneg zero_over in
        let scaled =
          mul_mono penalty penalty _ _ penalty_finite b.over_finite penalty_nonneg
            (le_refl ordered _ (number_of_finite _ penalty_finite)) zero_over grows in
        let finite' = finite_of_le _ _ product scaled b.product_finite in
        (
          mul_nonneg _ _ finite' finite product zero_over,
          mul_mono _ _ _ _ b.product_finite b.over_finite product scaled zero_over grows,
        )

    pub pressure_score_mono :
        (u v : D)
        → f.nought ≼ u
        → u ≼ v
        → IsBounded v theta penalty
        → pressure_score u theta penalty ≼ pressure_score v theta penalty
    unfolding pressure_score
    pressure_score_mono u v hu huv b = elim (Bool-cases (f.lt u theta)) [
      | inl low ↦ elim (Bool-cases (f.lt v theta)) [
        | inl low' ↦ rw (low, low') huv
        | inr high' ↦
            rw (low, high')
              (le_trans _ _ _ huv (
                le-add_right _ _ (le_trans _ _ _ hu huv)
                  (excess_bounds v v (le_of_not_lt v v_number high') (le_refl ordered v v_number)
                    b).0))
      ]
      | inr high ↦
          let above = le_of_not_lt u u_number high in
          let (zero_excess, grows) = excess_bounds u v above huv b in
          rw (high, not_below above) (add_mono u v (excess u) (excess v) hu huv zero_excess grows)
    ]
      where
        u_number : IsNumber u
        u_number = (number_of_le u v huv).0

        v_number : IsNumber v
        v_number = (number_of_le u v huv).1

        not_below : theta ≼ u → f.lt v theta ≡ false
        not_below h =
            rw (lt-eq-not-le v theta v_number (number_of_le _ _ h).0, le_trans _ _ _ h huv)
