-- ===== src/LengthEstimator/Bucket.antt =====
-- The bucket of a prompt is the power of two below its length, up to 4096.
use native.Mathlib.Nat.{two-pow-succ}
use keel_llm_router.Base.{
  ℕ, zero, suc, ◌+◌, ◌-◌, ◌^◌, ◌≤◌, ◌<◌, ◌≡◌, refl, inl, inr, arith, Bool-cases, ltb, ltb→lt,
  if◌then◌else◌, ◌==◌, false,
}
use keel_llm_router.Base.Word.{u32_mod}
use keel_llm_router.LengthEstimator.{leading_zeros, prompt_bucket}

-- The leading zeros of a number of `k` bits leave the position of its highest bit.
leading_zeros_lem :
    (k x : ℕ)
    → 0 < x
    → x < 2 ^ k
    → (j : ℕ) × (leading_zeros k x + j + 1 ≡ k) × (2 ^ j ≤ x) × (x < 2 ^ j + 2 ^ j)
unfolding leading_zeros
leading_zeros_lem zero x pos h = absurd (omega arith)
leading_zeros_lem (suc k) x pos h = elim (Bool-cases (ltb x (2 ^ k))) [
  | inl t ↦
      let (j, e, low, high) = leading_zeros_lem k x pos (ltb→lt x (2 ^ k) t) in
      (j, rw t (omega (arith, e)), low, high)
  | inr n ↦ (k, rw n (omega arith), not_lt n, omega (arith, h, two-pow-succ k))
]
  where
    not_lt : ltb x (2 ^ k) ≡ false → 2 ^ k ≤ x
    not_lt n = ground (arith, n)

prompt_bucket-eq :
    (tokens j : ℕ)
    → 0 < tokens
    → leading_zeros 32 tokens + j + 1 ≡ 32
    → prompt_bucket tokens ≡ (if ltb 4096 (2 ^ j) then 4096 else 2 ^ j)
unfolding prompt_bucket
prompt_bucket-eq tokens j pos e = rw (not_zero, exponent) refl
  where
    not_zero : (tokens == 0) ≡ false
    not_zero = ground arith

    exponent : 31 - leading_zeros 32 tokens ≡ j
    exponent = omega (arith, e)

-- The bucket of a prompt that is not empty, and whose length is a `u32`, is a power of two that is at
-- most its length and at most 4096; below 4096 it is more than half of the length.
pub prompt_bucket_bounds :
    (tokens : ℕ)
    → 0 < tokens
    → tokens < u32_mod
    → (j : ℕ) × (prompt_bucket tokens ≡ 2 ^ j)
      × (prompt_bucket tokens ≤ tokens)
      × (prompt_bucket tokens ≤ 4096)
      × (prompt_bucket tokens < 4096 → tokens < prompt_bucket tokens + prompt_bucket tokens)
prompt_bucket_bounds tokens pos h =
    let (j, e, low, high) = leading_zeros_lem 32 tokens pos h in
    let same = prompt_bucket-eq tokens j pos e in
    elim (Bool-cases (ltb 4096 (2 ^ j))) [
      | inl t ↦
          let over = ltb→lt 4096 (2 ^ j) t in
          rw (same, t) (12, refl, omega (arith, over, low), omega arith, λ k. omega (arith, k))
      | inr n ↦ rw (same, n) (j, refl, low, ground (arith, n), λ k. high)
    ]
