-- ===== src/Gate/Ceiling.antt =====
-- A lease that is opened on a backend that the gate admitted for it stays below the ceiling.
use keel_llm_router.Base.{ℕ, ◌+◌, ◌≤◌, ◌<◌, ◌≡◌, true, arith}
use keel_llm_router.Base.Word.{u32_mod, le_i64}
use keel_llm_router.Float.{Float}
use keel_llm_router.Backend.{Backend}
use keel_llm_router.Cost.{KvModel, project}
use keel_llm_router.Lease.{open_lease}
use keel_llm_router.Gate.{ceiling, admits}

module _ {D : Type 0} ⦃f : Float D⦄ {S : Type 0} where
  -- If `max_num_seqs` is a `u32` and the gate admits a request for what the lease will charge, then after
  -- the lease is opened the projected tokens are at most `sigma * kv_capacity_tokens`, and the requests
  -- in flight are one more and at most `max_num_seqs`.
  pub open_admitted :
      (b : Backend S) (p prompt o_hat : ℕ) (m : KvModel) (now : ℕ) (sigma : D)
      → b.caps.max_num_seqs < u32_mod
      → admits b (project m prompt o_hat) sigma ≡ true
      → let b' = (open_lease p b prompt o_hat m now).1 in
        (le_i64 b'.live.kv_projected_tokens (ceiling b' sigma) ≡ true)
        × (b'.live.inflight ≡ b.live.inflight + 1)
        × (b'.live.inflight ≤ b'.caps.max_num_seqs)
  unfolding admits open_lease
  open_admitted b p prompt o_hat m now sigma fits h = ground arith
