-- ===== src/Tests.antt =====
-- Concrete backends, snapshots and a generator for the tests, which stand in the modules below.
mod LeaseTests
mod CostTests
mod StrategyTests
mod HealthTests
mod BootTests
mod ConfigTests
mod RequestTests
mod RouterTests
mod ProxyTests
mod ObserveTests
mod StreamTests
mod SignalTests
use mathlib.Core.List.{Perm}
use mathlib.Core.List.Perm
use keel_llm_router.Base.{
  ℕ, ◌≤◌, ◌≡◌, ◌≢◌, refl, inl, true, false, Option, none, some, List, [], ◌∷◌, arith, length, take,
  Elem,
}
use keel_llm_router.Float.Milli.{Milli, fin}
use keel_llm_router.Backend.{
  Backend, BackendId, Snapshot, LiveCounters, default_counters, default_health,
}
use keel_llm_router.Features.{RequestFeatures}
use keel_llm_router.Strategy.Rng.{Rng, IsFair}

-- A backend of 8192 tokens and 32 slots.
abbrev pub backend_at : ℕ → ℕ → ℕ → Backend Milli
backend_at id inflight kv = record {
  id = id;
  key = "b";
  uri = "http://x";
  model = "m";
  weight = fin 1000;
  caps = record { kv_capacity_tokens = 8192; max_num_seqs = 32 };
  live = record {
    inflight = inflight;
    kv_projected_tokens = kv;
    total_dispatched = 0;
    ewma_ttft_us = 0;
    ewma_itl_us = 0;
  };
  reported = none;
  health = record { consecutive_failures = 0; ejected = false };
}

-- The busy one, the light one and the full one.
abbrev pub three : List (Backend Milli)
three = backend_at 0 5 4000 ∷ backend_at 1 1 600 ∷ backend_at 2 3 8000 ∷ []

abbrev pub snapshot : Snapshot Milli
snapshot = record { epoch = 0; backends = three; healthy = 0 ∷ 1 ∷ 2 ∷ []; ring = [] }

abbrev pub request : RequestFeatures
request = record {
  model = "m";
  prompt_tokens = 100;
  prompt_tokens_exact = true;
  expected_output_tokens = 50;
  max_tokens = none;
  prefix_key = none;
  streaming = true;
  arrived_at = 0;
}

-- A generator that draws from the front.
abbrev first_of : List BackendId → Option BackendId
first_of [] = none
first_of (x ∷ xs) = some x

instance abbrev pub front_rng : Rng ℕ
front_rng = record { choose = λ r xs. (first_of xs, r); choose_multiple = λ r xs n. (take n xs, r) }

front_some :
    (r : ℕ) (xs : List BackendId)
    → xs ≢ []
    → (x : BackendId) × ((front_rng.choose r xs).0 ≡ some x) × Elem x xs
front_some r [] h = absurd (h refl)
front_some r (x ∷ xs) h = (x, refl, inl refl)

front_two :
    (r : ℕ) (xs : List BackendId)
    → 2 ≤ length xs
    → (a b : BackendId) × (rest : List BackendId) × ((front_rng.choose_multiple r xs 2).0
        ≡ a ∷ b ∷ [])
      × Perm (a ∷ b ∷ rest) xs
front_two r [] h = absurd (omega arith)
front_two r (x ∷ []) h = absurd (omega arith)
front_two r (x ∷ y ∷ xs) h = (x, y, xs, refl, Perm.refl _)

pub front_fair : IsFair ℕ
front_fair = record { choose_none = λ r. refl; choose_some = front_some; choose_two = front_two }
