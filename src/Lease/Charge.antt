-- ===== src/Lease/Charge.antt =====
-- What one lease charges: it is released once, and its charge covers the output that was seen.
use keel_llm_router.Base.{ℕ, ◌+◌, ◌*◌, ◌≤◌, ◌<◌, ◌≡◌, arith, false}
use keel_llm_router.Base.Word.{u32_mod, i64_mod, add_i64}
use keel_llm_router.Backend.{Backend}
use keel_llm_router.Cost.{KvModel, prompt_only, prompt_plus_output, project, recharge_step}
use keel_llm_router.Lease.{CostLease, open_lease, observe_tokens, release}

-- The charge is the projection, and the words are words.
pub record IsPriced (l : CostLease) : Type 0 where
  pub unreleased : l.released ≡ false
  pub priced : l.charged ≡ project l.kv_model l.prompt_tokens l.o_hat
  pub prompt_fits : l.prompt_tokens < u32_mod
  pub o_hat_fits : l.o_hat < u32_mod

pub project_fits : (m : KvModel) (p o : ℕ) → p < u32_mod → o < u32_mod → project m p o < 2 * u32_mod
unfolding project
project_fits prompt_only p o hp ho = omega arith
project_fits prompt_plus_output p o hp ho = omega arith

module _ {S : Type 0} where
  pub open_lease-IsPriced :
      (p : ℕ) (b : Backend S) (prompt o_hat : ℕ) (m : KvModel) (now : ℕ)
      → prompt < u32_mod
      → o_hat < u32_mod
      → IsPriced (open_lease p b prompt o_hat m now).0
  unfolding open_lease
  open_lease-IsPriced p b prompt o_hat m now hp ho = ground arith

  pub observe_tokens-IsPriced :
      (l : CostLease) (b : Backend S) (n : ℕ) → IsPriced l → IsPriced (observe_tokens l b n).0
  unfolding observe_tokens
  observe_tokens-IsPriced l b n h = ground arith

  -- A lease that charges the projection of its estimate under its model, with an estimate that covers the
  -- output that was seen, still does both after a frame of at most `recharge_step` tokens, if the estimate
  -- has room for another step; then under `prompt_plus_output` the charge is at least the prompt and the
  -- output.
  pub observe_tokens_covers :
      (l : CostLease) (b : Backend S) (n : ℕ)
      → IsPriced l
      → l.tokens_seen ≤ l.o_hat
      → n ≤ recharge_step
      → l.o_hat + recharge_step < u32_mod
      → let l' = (observe_tokens l b n).0 in
        (l'.charged ≡ project l.kv_model l.prompt_tokens l'.o_hat)
        × (l'.tokens_seen ≡ l.tokens_seen + n)
        × (l'.tokens_seen ≤ l'.o_hat)
        × (l.kv_model ≡ prompt_plus_output → l.prompt_tokens + l'.tokens_seen ≤ l'.charged)
  unfolding observe_tokens
  observe_tokens_covers l b n h covered small room = ground arith

  -- For a lease that charges its projection under `prompt_only`, no output changes what the backend is
  -- charged.
  pub observe_tokens_prompt_only :
      (l : CostLease) (b : Backend S) (n : ℕ)
      → IsPriced l
      → l.kv_model ≡ prompt_only
      → (observe_tokens l b n).1 ≡ b
  unfolding observe_tokens
  observe_tokens_prompt_only l b n h m = ground arith

  -- The backend is charged exactly what the lease's charge grows by, and nothing else changes.
  pub observe_tokens_delta :
      (l : CostLease) (b : Backend S) (n : ℕ)
      → IsPriced l
      → b.live.kv_projected_tokens < i64_mod
      → let (l', b') = observe_tokens l b n in
        (l'.backend ≡ l.backend)
        × (b'.live.inflight ≡ b.live.inflight)
        × (b'.live.kv_projected_tokens < i64_mod)
        × (add_i64 b'.live.kv_projected_tokens l.charged
            ≡ add_i64 b.live.kv_projected_tokens l'.charged)
  unfolding observe_tokens
  observe_tokens_delta l b n h fits = ground arith

  -- A second release changes nothing.
  pub release_twice :
      (l : CostLease) (b : Backend S) → let (l', b') = release l b in release l' b' ≡ (l', b')
  unfolding release
  release_twice l b = ground arith
