-- ===== src/Strategy/Pressure.antt =====
-- crates/router-core/src/strategy/pressure.rs: among the backends that the gate admits, or all the
-- healthy ones if it admits none, the lowest pressure score, ties at random.
pub mod Optimal
pub mod Total
pub mod Explain
use Prim.Native.Nat.{Ordering}
use keel_llm_router.Base.{
  ℕ, zero, suc, ◌+◌, ◌-◌, ◌*◌, ◌%◌, ◌^◌, ◌≤◌, ◌<◌, ◌≡◌, ◌≢◌, refl, inl, inr, Bool, true, false, not,
  ◌&&◌, Option, none, some, List, [], ◌∷◌, ◌++◌, String, arith, length, get_elem?, is_empty,
  collect, ◌>>=◌, ltb, leb, ◌==◌, if◌then◌else◌,
}
use keel_llm_router.Base.Word.{add_i64, le_i64}
use keel_llm_router.Backend.{Backend, BackendId, Snapshot}
use keel_llm_router.Cost.{KvModel, project, occupancy, pressure_score}
use keel_llm_router.Float.{Float, partial_cmp}
use keel_llm_router.Features.{RequestFeatures}
use keel_llm_router.Gate.{ceiling, eligible}
use keel_llm_router.Trace.{DecisionTrace, CandidateScore, GateReason, kv_headroom, slot_limit}
use keel_llm_router.Strategy.Rng.{Rng, Picked}
use keel_llm_router.Strategy.Scan.{Verdict, replace, tie, skip, scan}

abbrev pub name : String
name = "pressure"

pub record Pressure (D : Type 0) : Type 0 where
  pub theta : D
  pub penalty : D
  pub sigma : D
  pub kv_model : KvModel

-- `eligible.contains(&id)`
abbrev pub contains : List BackendId → BackendId → Bool
contains [] id = false
contains (x ∷ xs) id = if x == id then true else contains xs id

module _ {D : Type 0} ⦃f : Float D⦄ where
  -- `match score.partial_cmp(&min_score)`
  abbrev pub judge : D → D → Verdict
  judge score min_score = elim (partial_cmp score min_score) [
    | none ↦ skip
    | some o ↦ elim o [ Ordering.lt ↦ replace | Ordering.eq ↦ tie | Ordering.gt ↦ skip ]
  ]

  module _ {S : Type 0} where
    abbrev pub score_of : Pressure D → Backend S → D
    score_of s b = pressure_score (occupancy b) s.theta s.penalty

    unfoldable pub gated_by :
        Pressure D → ℕ → Bool → List BackendId → BackendId → Backend S → Option GateReason
    gated_by s need_kv fell_through eligible id b =
        let kv_ok = le_i64 (add_i64 b.live.kv_projected_tokens need_kv) (ceiling b s.sigma) in
        if not fell_through && not (contains eligible id)
        then (if not kv_ok then some kv_headroom else some slot_limit)
        else none

    -- The entry of the trace for one healthy backend.
    unfoldable pub candidate :
        Pressure D
        → ℕ
        → Bool
        → List BackendId
        → List (Backend S)
        → BackendId
        → Option (CandidateScore D S)
    candidate s need_kv fell_through eligible backends id = do
      b ← get_elem? backends id
      some (record {
        backend = id;
        score = score_of s b;
        occupancy = occupancy b;
        inflight = b.live.inflight;
        kv_projected = b.live.kv_projected_tokens;
        gated_by = gated_by s need_kv fell_through eligible id b;
        reported_kv = b.reported >>= λ r. r.kv_usage_perc;
        signal_age_ms = none;
      })

    -- The trace of a decision; `none` is a panic.
    unfoldable pub record_decision :
        Pressure D
        → Snapshot S
        → RequestFeatures
        → ℕ
        → Bool
        → List BackendId
        → Option BackendId
        → Option (DecisionTrace D S)
        → Option (Option (DecisionTrace D S))
    record_decision s snap req need_kv fell_through eligible picked none = some none
    record_decision s snap req need_kv fell_through eligible picked (some t) = do
      candidates ← collect (candidate s need_kv fell_through eligible snap.backends) snap.healthy
      some (
          some (record t {
            strategy = name;
            chosen = picked;
            prompt_tokens = req.prompt_tokens;
            expected_output_tokens = req.expected_output_tokens;
            fell_through = fell_through;
            candidates = candidates;
          }))

    -- With no healthy backend only four fields of the trace are written.
    unfoldable pub record_empty :
        RequestFeatures → Option (DecisionTrace D S) → Option (DecisionTrace D S)
    record_empty req none = none
    record_empty req (some t) = some (record t {
      strategy = name;
      chosen = none;
      prompt_tokens = req.prompt_tokens;
      expected_output_tokens = req.expected_output_tokens;
    })

    module _ {R : Type 0} ⦃g : Rng R⦄ where
      -- The decision on the ids that passed the gate.
      unfoldable pub decide :
          Pressure D
          → Snapshot S
          → RequestFeatures
          → ℕ
          → List BackendId
          → R
          → Option (DecisionTrace D S)
          → Option (Picked D S R)
      decide s snap req need_kv eligible rng trace = do
        let fell_through = is_empty eligible
        let pool = if fell_through then snap.healthy else eligible
        best ← scan judge (score_of s) snap.backends pool (record { best = f.infinity; ties = [] })
        let picked = g.choose rng best.ties
        trace' ← record_decision s snap req need_kv fell_through eligible picked.0 trace
        some (record { chosen = picked.0; rng = picked.1; trace = trace' })

      unfoldable pub pick :
          Pressure D
          → Snapshot S
          → RequestFeatures
          → R
          → Option (DecisionTrace D S)
          → Option (Picked D S R)
      unfolding decide
      pick s snap req rng trace =
          if is_empty snap.healthy
          then some (record { chosen = none; rng = rng; trace = record_empty req trace })
          else do
            let need_kv = project s.kv_model req.prompt_tokens req.expected_output_tokens
            passed ← eligible snap need_kv s.sigma
            decide s snap req need_kv passed rng trace
