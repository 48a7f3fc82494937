-- ===== src/Lease/Ledger.antt =====
-- A fleet of backends and all the leases that are open on it. The tasks of the proxy open, feed and
-- drop leases in any order: a list of events is one interleaving of their atomic calls.
mod Count
pub mod Calls
pub mod Balance
pub mod Runs
pub mod Caps
use keel_llm_router.Base.{
  ℕ, zero, suc, ◌+◌, ◌≡◌, Option, none, some, List, [], ◌∷◌, length, get_elem?, set, erase_idx,
  ◌>>=◌, if◌then◌else◌, ◌==◌,
}
use keel_llm_router.Backend.{Backend}
use keel_llm_router.Cost.{KvModel}
use keel_llm_router.Lease.{CostLease, open_lease, observe_tokens, drop_lease}

pub record Fleet (S : Type 0) : Type 0 where
  pub backends : List (Backend S)
  pub leases : List CostLease

-- `opens p prompt_tokens o_hat kv_model now`, `observes i n` and `drops i`, of the i-th open lease.
pub data Event : Type 0 where
  opens : ℕ → ℕ → ℕ → KvModel → ℕ → Event
  observes : ℕ → ℕ → Event
  drops : ℕ → Event

module _ {S : Type 0} where
  -- `none` is an event on a backend or a lease that is not there.
  unfoldable pub step : Fleet S → Event → Option (Fleet S)
  step s (opens p prompt_tokens o_hat kv_model now) = do
    b ← get_elem? s.backends p
    let opened = open_lease p b prompt_tokens o_hat kv_model now
    some (record s { backends = set s.backends p opened.1; leases = opened.0 ∷ s.leases })
  step s (observes i n) = do
    l ← get_elem? s.leases i
    b ← get_elem? s.backends l.backend
    let seen = observe_tokens l b n
    some (record s { backends = set s.backends l.backend seen.1; leases = set s.leases i seen.0 })
  step s (drops i) = do
    l ← get_elem? s.leases i
    b ← get_elem? s.backends l.backend
    some (record s {
      backends = set s.backends l.backend (drop_lease l b);
      leases = erase_idx s.leases i;
    })

  unfoldable pub run : Fleet S → List Event → Option (Fleet S)
  run s [] = some s
  run s (e ∷ es) = step s e >>= λ t. run t es

-- How many of the leases are on the backend at `p`, and what they charge together.
unfoldable pub count : ℕ → List CostLease → ℕ
count p [] = 0
count p (l ∷ ls) = if l.backend == p then suc (count p ls) else count p ls

unfoldable pub charges : ℕ → List CostLease → ℕ
charges p [] = 0
charges p (l ∷ ls) = if l.backend == p then l.charged + charges p ls else charges p ls
