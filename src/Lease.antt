-- ===== src/Lease.antt =====
-- crates/router-core/src/lease.rs: the lease that a request holds on a backend. A method takes the
-- backend that the lease points to and returns it with its counters changed. `+` on `u32` and `i64`
-- wraps, as in a release build.
pub mod Charge
pub mod Ledger
use keel_llm_router.Base.{ℕ, ◌+◌, ◌≡◌, Bool, true, false, not, ◌||◌, if◌then◌else◌, ltb, ◌==◌}
use keel_llm_router.Base.Word.{add_u32, sub_u32, add_i64, sub_i64}
use keel_llm_router.Backend.{Backend}
use keel_llm_router.Cost.{KvModel, project, recharge_step}

-- `backend` is the `Arc`: the position of the backend in the fleet.
pub record CostLease : Type 0 where
  pub backend : ℕ
  pub charged : ℕ
  pub kv_model : KvModel
  pub prompt_tokens : ℕ
  pub o_hat : ℕ
  pub tokens_seen : ℕ
  pub dispatched_at : ℕ
  pub released : Bool

module _ {S : Type 0} where
  -- `live.inflight.fetch_add(1)`, and the subtraction.
  abbrev pub inflight_add : Backend S → ℕ → Backend S
  inflight_add b n =
      let live = b.live in record b { live = record live { inflight = add_u32 live.inflight n } }

  abbrev pub inflight_sub : Backend S → ℕ → Backend S
  inflight_sub b n =
      let live = b.live in record b { live = record live { inflight = sub_u32 live.inflight n } }

  -- `live.kv_projected_tokens.fetch_add(n)`, and the subtraction.
  abbrev pub kv_add : Backend S → ℕ → Backend S
  kv_add b n =
      let live = b.live in
      record b { live = record live { kv_projected_tokens = add_i64 live.kv_projected_tokens n } }

  abbrev pub kv_sub : Backend S → ℕ → Backend S
  kv_sub b n =
      let live = b.live in
      record b { live = record live { kv_projected_tokens = sub_i64 live.kv_projected_tokens n } }

  unfoldable pub open_lease : ℕ → Backend S → ℕ → ℕ → KvModel → ℕ → CostLease × Backend S
  unfolding project
  open_lease backend b prompt_tokens o_hat kv_model now =
      let charged = project kv_model prompt_tokens o_hat in
      (
        record {
          backend = backend;
          charged = charged;
          kv_model = kv_model;
          prompt_tokens = prompt_tokens;
          o_hat = o_hat;
          tokens_seen = 0;
          dispatched_at = now;
          released = false;
        },
        kv_add (inflight_add b 1) charged,
      )

  -- The branch of `observe_tokens` on an output that has outgrown its estimate.
  recharge : CostLease → Backend S → CostLease × Backend S
  unfolding project
  recharge l b =
      let o_hat = add_u32 l.o_hat recharge_step in
      let new_charge = project l.kv_model l.prompt_tokens o_hat in
      let delta = sub_i64 new_charge l.charged in
      (record l { o_hat = o_hat; charged = new_charge }, if delta == 0 then b else kv_add b delta)

  unfoldable pub observe_tokens : CostLease → Backend S → ℕ → CostLease × Backend S
  unfolding recharge
  observe_tokens l b n =
      let seen = add_u32 l.tokens_seen n in
      if ltb l.o_hat seen
      then recharge (record l { tokens_seen = seen }) b
      else (record l { tokens_seen = seen }, b)

  unfoldable pub release : CostLease → Backend S → CostLease × Backend S
  release l b =
      if l.released
      then (l, b)
      else (record l { released = true; charged = 0 }, kv_sub (inflight_sub b 1) l.charged)

  -- `Drop` releases; nothing is left of the lease.
  unfoldable pub drop_lease : CostLease → Backend S → Backend S
  unfolding release
  drop_lease l b = (release l b).1

  unfoldable pub assert_invariant : Backend S → Bool
  assert_invariant b = not (b.live.inflight == 0) || b.live.kv_projected_tokens == 0
