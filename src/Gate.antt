-- ===== src/Gate.antt =====
-- crates/router-core/src/gate.rs: the admission gate.
pub mod Eligible
pub mod Ceiling
use keel_llm_router.Base.{
  ℕ, Bool, ◌&&◌, Option, some, List, [], ◌∷◌, ◌++◌, get_elem?, ◌>>=◌, ltb, if◌then◌else◌,
}
use keel_llm_router.Base.Word.{add_i64, le_i64}
use keel_llm_router.Float.{Float}
use keel_llm_router.Backend.{Backend, BackendId, Snapshot}

module _ {D : Type 0} ⦃f : Float D⦄ {S : Type 0} where
  -- `(sigma * kv_capacity_tokens as f64) as i64`
  abbrev pub ceiling : Backend S → D → ℕ
  ceiling b sigma = f.to_i64 (f.mul sigma (f.of_ℕ b.caps.kv_capacity_tokens))

  unfoldable pub admits : Backend S → ℕ → D → Bool
  admits b need_kv sigma =
      let projected = add_i64 b.live.kv_projected_tokens need_kv in
      let kv_ok = le_i64 projected (ceiling b sigma) in
      let slot_ok = ltb b.live.inflight b.caps.max_num_seqs in kv_ok && slot_ok

  -- The loop over the healthy backends; `none` is an id out of bounds, which panics.
  unfoldable pub eligible_loop :
      List (Backend S) → ℕ → D → List BackendId → List BackendId → Option (List BackendId)
  eligible_loop backends need_kv sigma [] out = some out
  eligible_loop backends need_kv sigma (id ∷ ids) out = do
    b ← get_elem? backends id
    eligible_loop backends need_kv sigma ids
        (if admits b need_kv sigma then out ++ id ∷ [] else out)

  unfoldable pub eligible : Snapshot S → ℕ → D → Option (List BackendId)
  unfolding eligible_loop
  eligible snap need_kv sigma = eligible_loop snap.backends need_kv sigma snap.healthy []
