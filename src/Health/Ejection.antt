-- ===== src/Health/Ejection.antt =====
-- A backend is ejected exactly while its last five requests, or more, have failed.
use keel_llm_router.Base.{ℕ, suc, ◌+◌, ◌<◌, ◌≡◌, refl, List, [], ◌∷◌, arith, leb, length}
use keel_llm_router.Base.Word.{u32_mod}
use keel_llm_router.Backend.{Backend, HealthState, default_health}
use keel_llm_router.Health.{record_failure, record_success, consecutive_failures_to_eject}

pub data Outcome : Type 0 where
  failure success : Outcome

module _ {S : Type 0} where
  pub record_outcome : Backend S → Outcome → Backend S
  record_outcome b failure = record_failure b
  record_outcome b success = record_success b

  pub record_outcomes : Backend S → List Outcome → Backend S
  record_outcomes b [] = b
  record_outcomes b (o ∷ os) = record_outcomes (record_outcome b o) os

-- The failures at the end of a history, after `n` that came before it.
unfoldable pub trailing : ℕ → List Outcome → ℕ
trailing n [] = n
trailing n (failure ∷ os) = trailing (suc n) os
trailing n (success ∷ os) = trailing 0 os

abbrev Follows : HealthState → ℕ → Type 0
Follows h n = (h.consecutive_failures ≡ n) × (h.ejected ≡ leb consecutive_failures_to_eject n)

module _ {S : Type 0} where
  outcomes_follow :
      (b : Backend S) (n : ℕ) (os : List Outcome)
      → n + length os < u32_mod
      → Follows b.health n
      → Follows (record_outcomes b os).health (trailing n os)
  unfolding record_outcomes record_outcome record_failure record_success trailing
  outcomes_follow b n [] fits h = h
  outcomes_follow b n (failure ∷ os) fits h =
      outcomes_follow (record_failure b) (suc n) os (omega arith) (ground arith)
  outcomes_follow b n (success ∷ os) fits h =
      outcomes_follow (record_success b) 0 os (omega arith) (refl, refl)

  -- After any history of outcomes that the counter can count, a backend that started afresh is ejected
  -- if and only if the history ends in at least five failures.
  pub ejected-iff_trailing :
      (b : Backend S) (os : List Outcome)
      → b.health ≡ default_health
      → length os < u32_mod
      → (record_outcomes b os).health.ejected ≡ leb consecutive_failures_to_eject (trailing 0 os)
  unfolding default_health
  ejected-iff_trailing b os fresh fits = (outcomes_follow b 0 os (omega arith) (ground arith)).1
