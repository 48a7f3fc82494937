-- ===== src/Strategy/Pressure/Total.antt =====
-- What the pick of the pressure strategy needs in order not to panic: the ids among which it chooses are
-- positions of the snapshot, and its trace can be written.
use keel_llm_router.Base.{
  ℕ, ◌<◌, ◌≡◌, refl, inl, inr, Bool, Option, none, some, List, [], ◌∷◌, length, get_elem?,
  get_elem?-lt, is_empty, All, keep, collect, collect_total, bind_total, Bool-cases, Elem,
  Elem-keep, if◌then◌else◌,
}
use keel_llm_router.Float.{Float}
use keel_llm_router.Backend.{Backend, BackendId, Snapshot, IsWired}
use keel_llm_router.Features.{RequestFeatures}
use keel_llm_router.Trace.{DecisionTrace, CandidateScore}
use keel_llm_router.Strategy.Pressure.{Pressure, candidate, record_decision}

Wired-keep :
    (n : ℕ) (p : BackendId → Bool) (ids : List BackendId)
    → All (λ id. id < n) ids
    → All (λ id. id < n) (keep p ids)
Wired-keep n p [] h = tt
Wired-keep n p (id ∷ ids) h = elim (Bool-cases (p id)) [
  | inl t ↦ rw t (h.0, Wired-keep n p ids h.1)
  | inr f ↦ rw f (Wired-keep n p ids h.1)
]

module _ {S : Type 0} where
  -- The ids among which the choice is made: those that pass, or all healthy ones if none does.
  abbrev pub pool : Snapshot S → List BackendId → List BackendId
  pool snap passed = if is_empty passed then snap.healthy else passed

  pub pool_inside :
      (n : ℕ) (snap : Snapshot S) (p : BackendId → Bool)
      → All (λ id. id < n) snap.healthy
      → All (λ id. id < n) (pool snap (keep p snap.healthy))
  pool_inside n snap p h = elim (Bool-cases (is_empty (keep p snap.healthy))) [
    | inl t ↦ rw t h
    | inr t ↦ rw t (Wired-keep n p snap.healthy h)
  ]

  pub pool-Elem :
      (snap : Snapshot S) (p : BackendId → Bool) (id : BackendId)
      → Elem id (pool snap (keep p snap.healthy))
      → Elem id snap.healthy
  pool-Elem snap p id m = elim (Bool-cases (is_empty (keep p snap.healthy))) [
    | inl t ↦ rw t at m
    | inr n ↦ ((Elem-keep p id snap.healthy).0 (rw n at m)).0
  ]

module _ {D : Type 0} ⦃f : Float D⦄ {S : Type 0} where
  candidates_total :
      (s : Pressure D) (need_kv : ℕ) (fell : Bool) (passed : List BackendId)
      (backends : List (Backend S)) (ids : List BackendId)
      → All (λ id. id < length backends) ids
      → All
          (λ id. (c : CandidateScore D S) × (candidate s need_kv fell passed backends id ≡ some c))
          ids
  unfolding candidate
  candidates_total s need_kv fell passed backends [] h = tt
  candidates_total s need_kv fell passed backends (id ∷ ids) h =
      let (b, e) = get_elem?-lt backends id h.0 in
      (
        bind_total (get_elem? backends id) _ e (_, refl),
        candidates_total s need_kv fell passed backends ids h.1,
      )

  pub record_decision_total :
      (s : Pressure D) (snap : Snapshot S) (req : RequestFeatures) (need_kv : ℕ) (fell : Bool)
      (passed : List BackendId) (picked : Option BackendId) (trace : Option (DecisionTrace D S))
      → IsWired snap
      → (t : Option (DecisionTrace D S)) × (record_decision s snap req need_kv fell passed picked
            trace
          ≡ some t)
  unfolding record_decision
  record_decision_total s snap req need_kv fell passed picked none h = (none, refl)
  record_decision_total s snap req need_kv fell passed picked (some trace) h =
      let (cs, e) =
        collect_total (candidate s need_kv fell passed snap.backends) snap.healthy
          (candidates_total s need_kv fell passed snap.backends snap.healthy h) in
      bind_total (collect (candidate s need_kv fell passed snap.backends) snap.healthy) _ e
        (_, refl)
