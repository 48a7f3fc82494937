-- ===== src/Tests/ObserveTests.antt =====
-- What the router tells of itself: crates/router-proxy/src/observe.rs and sampler.rs.
use keel_llm_router.Base.{
  ℕ, zero, suc, ◌≤◌, ◌≡◌, ◌↔◌, refl, true, Option, none, some, List, [], ◌∷◌, arith, length, All,
}
use keel_llm_router.Cost
use keel_llm_router.Float.Milli.{Milli, fin, milli_float}
use keel_llm_router.Observe.{
  Call, backend_error, prompt_token_ratio, fresh, is_mismatch, sample, perform, perform_all,
  record_prompt_token_ratio,
}
use keel_llm_router.Observe.Described.{IsDescribed, All-IsDescribed}
use keel_llm_router.Observe.Mean.{started, mismatches, ratios, WasOff, mismatch_iff_off}
use keel_llm_router.Observe.Once.{
  Turn, calls, turns, Threads, start, run, step, turn, IsJustified, run_warns_once,
}
use keel_llm_router.Sampler.{sample_occupancy_loop}
use keel_llm_router.Sampler.Ceiling.{ticks, ceilings, samples_every_backend}
use keel_llm_router.Tests.{snapshot}

abbrev widen : Milli → Milli
widen x = x

-- Fifty prompts that are counted 1.75 times too high, and an error of a backend.
abbrev log_of : ℕ → List (Call Milli Milli)
log_of zero = backend_error "b" "connect" ∷ []
log_of (suc n) = prompt_token_ratio 7 4 ∷ log_of n

abbrev log : List (Call Milli Milli)
log = log_of 50

mismatch_iff_off_example :
    let n = mismatches (perform_all widen log started).warnings in
    (n ≤ 1) × ((n ≡ 1) ↔ WasOff (ratios log))
mismatch_iff_off_example = mismatch_iff_off widen log (omega arith) (omega arith)

warns_at_fifty : mismatches (perform_all widen (log_of 50) started).warnings ≡ 1
unfolding perform_all perform record_prompt_token_ratio sample is_mismatch fresh
warns_at_fifty = refl

silent_below_fifty : mismatches (perform_all widen (log_of 49) started).warnings ≡ 0
unfolding perform_all perform record_prompt_token_ratio sample is_mismatch fresh
silent_below_fifty = refl

All-IsDescribed_example : All IsDescribed (perform_all widen log started).metrics
All-IsDescribed_example = All-IsDescribed widen log

-- Fifty calls that have counted, of which the last two race for the warning.
abbrev calls_of : ℕ → List (Turn Milli) → List (Turn Milli)
calls_of zero rest = rest
calls_of (suc n) rest = calls (fin 1750) ∷ turns 0 ∷ turns 0 ∷ calls_of n rest

abbrev schedule : List (Turn Milli)
schedule = calls_of 51 (turns 0 ∷ turns 1 ∷ turns 1 ∷ turns 0 ∷ [])

abbrev threads_or : Option (Threads Milli) → Threads Milli
threads_or none = start is_mismatch
threads_or (some t) = t

abbrev raced : Threads Milli
raced = threads_or (run is_mismatch (start is_mismatch) schedule)

races : run is_mismatch (start is_mismatch) schedule ≡ some raced
unfolding run step turn is_mismatch fresh
races = refl

run_warns_once_example :
    (length raced.given ≤ 1)
    × ((length raced.given ≡ 1) ↔ (raced.statics.warned ≡ true))
    × All (IsJustified is_mismatch) raced.given
run_warns_once_example = run_warns_once is_mismatch schedule raced races

one_wins : length raced.given ≡ 1
unfolding run step turn is_mismatch fresh
one_wins = refl

samples_every_backend_example :
    let m =
      perform_all widen (sample_occupancy_loop (fin 950) (snapshot ∷ snapshot ∷ []) []) started in
    let ms = m.metrics in
    (ticks "b" ms ≡ 6) × (ceilings "b" ms ≡ 2) × (ceilings "b" ms ≤ ticks "b" ms)
unfolding Cost.occupancy
samples_every_backend_example = samples_every_backend (fin 950) widen "b" (snapshot ∷ snapshot ∷ [])
