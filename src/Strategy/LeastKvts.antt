-- ===== src/Strategy/LeastKvts.antt =====
-- crates/router-core/src/strategy/least_kvts.rs: the most KV tokens left, ties at random.
pub mod Optimal
use Prim.Native.Nat.{Ordering}
use keel_llm_router.Base.{
  ℕ, zero, suc, ◌+◌, ◌-◌, ◌*◌, ◌%◌, ◌^◌, ◌≤◌, ◌<◌, ◌≡◌, ◌≢◌, refl, inl, inr, Bool, true, false, not,
  ◌&&◌, Option, none, some, List, [], ◌∷◌, ◌++◌, String, arith, length, get_elem?, is_empty,
  collect, ◌>>=◌, ltb, leb, ◌==◌, if◌then◌else◌,
}
use keel_llm_router.Base.Word.{sub_i64, max_zero}
use keel_llm_router.Backend.{Backend, BackendId, Snapshot}
use keel_llm_router.Float.{Float, partial_cmp}
use keel_llm_router.Features.{RequestFeatures}
use keel_llm_router.Trace.{DecisionTrace, record_pick}
use keel_llm_router.Strategy.Rng.{Rng, Picked}
use keel_llm_router.Strategy.Scan.{Verdict, replace, tie, skip, scan}

abbrev pub name : String
name = "least_kvts"

module _ {D : Type 0} ⦃f : Float D⦄ where
  -- `match remaining.partial_cmp(&best_score)`
  abbrev pub judge : D → D → Verdict
  judge remaining best_score = elim (partial_cmp remaining best_score) [
    | none ↦ skip
    | some o ↦ elim o [ Ordering.gt ↦ replace | Ordering.eq ↦ tie | Ordering.lt ↦ skip ]
  ]

  -- `(kv_capacity_tokens as i64 - kv).max(0) as f64`
  abbrev pub remaining : {S : Type 0} → Backend S → D
  remaining b = f.of_ℕ (max_zero (sub_i64 b.caps.kv_capacity_tokens b.live.kv_projected_tokens))

  module _ {S R : Type 0} ⦃g : Rng R⦄ where
    unfoldable pub pick :
        Snapshot S → RequestFeatures → R → Option (DecisionTrace D S) → Option (Picked D S R)
    pick snap req rng trace =
        if is_empty snap.healthy
        then (do
          trace' ← record_pick trace name snap req none
          some (record { chosen = none; rng = rng; trace = trace' }))
        else do
          s ←
              scan judge remaining snap.backends snap.healthy
                (record { best = f.neg_infinity; ties = [] })
          let picked = g.choose rng s.ties
          trace' ← record_pick trace name snap req picked.0
          some (record { chosen = picked.0; rng = picked.1; trace = trace' })
