-- ===== src/Trace.antt =====
-- crates/router-core/src/trace.rs: the audit record of a routing decision. `D` is the type of `f64` and
-- `S` that of `f32`.
use keel_llm_router.Base.{
  ℕ, Bool, false, Option, none, some, List, String, get_elem?, collect, collect_total, bind_total,
  get_elem?-lt, All, length, ◌<◌, ◌≡◌, refl, [], ◌∷◌, ◌>>=◌,
}
use keel_llm_router.Float.{Float}
use keel_llm_router.Backend.{Backend, BackendId, Snapshot, IsWired}
use keel_llm_router.Features.{RequestFeatures}

pub data GateReason : Type 0 where
  kv_headroom slot_limit : GateReason

pub record CandidateScore (D S : Type 0) : Type 0 where
  pub backend : BackendId
  pub score : D
  pub occupancy : D
  pub inflight : ℕ
  pub kv_projected : ℕ
  pub gated_by : Option GateReason
  pub reported_kv : Option S
  pub signal_age_ms : Option ℕ

pub record DecisionTrace (D S : Type 0) : Type 0 where
  pub strategy : String
  pub chosen : Option BackendId
  pub candidates : List (CandidateScore D S)
  pub prompt_tokens : ℕ
  pub expected_output_tokens : ℕ
  pub fell_through : Bool

module _ {D : Type 0} ⦃f : Float D⦄ {S : Type 0} where
  abbrev pub plain_candidate : List (Backend S) → BackendId → Option (CandidateScore D S)
  plain_candidate backends id = do
    b ← get_elem? backends id
    some (record {
      backend = id;
      score = f.nought;
      occupancy = f.nought;
      inflight = b.live.inflight;
      kv_projected = b.live.kv_projected_tokens;
      gated_by = none;
      reported_kv = none;
      signal_age_ms = none;
    })

  -- The outer `none` is a panic, on an id out of bounds.
  unfoldable pub record_pick :
      Option (DecisionTrace D S)
      → String
      → Snapshot S
      → RequestFeatures
      → Option BackendId
      → Option (Option (DecisionTrace D S))
  record_pick none strategy snap req chosen = some none
  record_pick (some trace) strategy snap req chosen = do
    candidates ← collect (plain_candidate snap.backends) snap.healthy
    some (
        some (record trace {
          strategy = strategy;
          chosen = chosen;
          prompt_tokens = req.prompt_tokens;
          expected_output_tokens = req.expected_output_tokens;
          fell_through = false;
          candidates = candidates;
        }))

  -- On a snapshot that is wired the trace is written without a panic.
  pub record_pick_total :
      (trace : Option (DecisionTrace D S)) (strategy : String) (snap : Snapshot S)
      (req : RequestFeatures) (chosen : Option BackendId)
      → IsWired snap
      → (t : Option (DecisionTrace D S)) × (record_pick trace strategy snap req chosen ≡ some t)
  unfolding record_pick
  record_pick_total none strategy snap req chosen h = (none, refl)
  record_pick_total (some trace) strategy snap req chosen h =
      let (cs, e) =
        collect_total (plain_candidate snap.backends) snap.healthy
          (candidates_total snap.backends snap.healthy h) in
      bind_total (collect (plain_candidate snap.backends) snap.healthy) _ e (_, refl)
    where
      candidates_total :
          (backends : List (Backend S)) (ids : List BackendId)
          → All (λ id. id < length backends) ids
          → All (λ id. (c : CandidateScore D S) × (plain_candidate backends id ≡ some c)) ids
      candidates_total backends [] h = tt
      candidates_total backends (id ∷ ids) h =
          let (b, e) = get_elem?-lt backends id h.0 in
          (bind_total (get_elem? backends id) _ e (_, refl), candidates_total backends ids h.1)
