-- ===== src/Tests/LeaseTests.antt =====
-- Leases on one backend: crates/router-core/src/lease.rs and gate.rs.
use keel_llm_router.Base.{◌+◌, ◌%◌, ◌≤◌, ◌≡◌, refl, true, false, some, List, [], ◌∷◌, arith, keep}
use keel_llm_router.Base.Word.{u32_mod, i64_mod, le_i64}
use keel_llm_router.Float.Milli.{Milli, fin, milli_float}
use keel_llm_router.Backend.{Backend}
use keel_llm_router.Cost.{prompt_only, prompt_plus_output, project}
use keel_llm_router.Gate.{admits, ceiling, eligible}
use keel_llm_router.Gate.Eligible.{admitted, eligible-eq}
use keel_llm_router.Gate.Ceiling.{open_admitted}
use keel_llm_router.Lease.{CostLease, open_lease, observe_tokens, drop_lease, assert_invariant}
use keel_llm_router.Lease.Charge.{IsPriced, observe_tokens_covers}
use keel_llm_router.Lease.Ledger.{Fleet, Event, opens, observes, drops, step, run, count, charges}
use keel_llm_router.Lease.Ledger.Balance.{run_accounts, run-assert_invariant}
use keel_llm_router.Tests.{backend_at, three, snapshot}

abbrev fleet : List (Backend Milli)
fleet = backend_at 0 0 0 ∷ backend_at 1 0 0 ∷ []

-- Two leases on the first backend, one of which outgrows its estimate, and one that comes and goes.
abbrev history : List Event
history =
    opens 0 100 10 prompt_plus_output 1
    ∷ opens 1 50 30 prompt_only 2
    ∷ opens 0 20 5 prompt_plus_output 3
    ∷ observes 2 11
    ∷ drops 1
    ∷ []

abbrev leases_after : List CostLease
leases_after =
    record {
      backend = 0;
      charged = 25;
      kv_model = prompt_plus_output;
      prompt_tokens = 20;
      o_hat = 5;
      tokens_seen = 0;
      dispatched_at = 3;
      released = false;
    }
    ∷ record {
      backend = 0;
      charged = 160;
      kv_model = prompt_plus_output;
      prompt_tokens = 100;
      o_hat = 60;
      tokens_seen = 11;
      dispatched_at = 1;
      released = false;
    }
    ∷ []

abbrev fleet_after : Fleet Milli
fleet_after = record {
  backends = backend_at 0 2 185 ∷ backend_at 1 0 0 ∷ [];
  leases = leases_after;
}

history_runs : run (record { backends = fleet; leases = [] }) history ≡ some fleet_after
unfolding run step open_lease observe_tokens drop_lease
history_runs = refl

run_accounts_example :
    let b = backend_at 0 2 185 in
    (b.live.inflight ≡ count 0 leases_after % u32_mod)
    × (b.live.kv_projected_tokens ≡ charges 0 leases_after % i64_mod)
run_accounts_example =
    run_accounts fleet history 0 (backend_at 0 2 185) (omega arith) (omega arith) history_runs refl

run-assert_invariant_example : assert_invariant (backend_at 1 0 0) ≡ true
unfolding count
run-assert_invariant_example =
    run-assert_invariant fleet history 1 (backend_at 1 0 0) (omega arith) (omega arith) history_runs
      refl (omega arith)

abbrev at_start : Fleet Milli
at_start = record { backends = fleet; leases = [] }

abbrev lease : CostLease
lease = record {
  backend = 0;
  charged = 110;
  kv_model = prompt_plus_output;
  prompt_tokens = 100;
  o_hat = 10;
  tokens_seen = 10;
  dispatched_at = 1;
  released = false;
}

lease-IsPriced : IsPriced lease
unfolding project
lease-IsPriced = record {
  unreleased = refl;
  priced = refl;
  prompt_fits = omega arith;
  o_hat_fits = omega arith;
}

observe_tokens_covers_example :
    let l' = (observe_tokens lease (backend_at 0 1 110) 1).0 in
    (l'.charged ≡ project prompt_plus_output 100 l'.o_hat)
    × (l'.tokens_seen ≡ 10 + 1)
    × (l'.tokens_seen ≤ l'.o_hat)
    × (lease.kv_model ≡ prompt_plus_output → 100 + l'.tokens_seen ≤ l'.charged)
observe_tokens_covers_example =
    observe_tokens_covers lease (backend_at 0 1 110) 1 lease-IsPriced (omega arith) (omega arith)
      (omega arith)

-- An estimate is outgrown by the token after it, not by the last one that it covers.
strictly_greater :
    ((observe_tokens lease (backend_at 0 1 110) 0).1 ≡ backend_at 0 1 110)
    × ((observe_tokens lease (backend_at 0 1 110) 1).1 ≡ backend_at 0 1 160)
unfolding observe_tokens
strictly_greater = (refl, refl)

open_admitted_example :
    let b' = (open_lease 0 (backend_at 0 5 4000) 100 50 prompt_only 7).1 in
    (le_i64 b'.live.kv_projected_tokens (ceiling b' (fin 950)) ≡ true)
    × (b'.live.inflight ≡ 5 + 1)
    × (b'.live.inflight ≤ 32)
unfolding admits project open_lease
open_admitted_example =
    open_admitted (backend_at 0 5 4000) 0 100 50 prompt_only 7 (fin 950) (omega arith) refl

eligible-eq_example :
    eligible snapshot 100 (fin 950) ≡ some (keep (admitted three 100 (fin 950)) (0 ∷ 1 ∷ 2 ∷ []))
eligible-eq_example = eligible-eq snapshot 100 (fin 950) (omega arith)

-- The backend with 8000 of its 8192 tokens charged is refused.
gate_refuses_full : eligible snapshot 100 (fin 950) ≡ some (0 ∷ 1 ∷ [])
unfolding eligible admits
gate_refuses_full = refl

abbrev prompt_lease : CostLease
prompt_lease = record lease { charged = 100; kv_model = prompt_only }

prompt_lease-IsPriced : IsPriced prompt_lease
unfolding project
prompt_lease-IsPriced = record {
  unreleased = refl;
  priced = refl;
  prompt_fits = omega arith;
  o_hat_fits = omega arith;
}
