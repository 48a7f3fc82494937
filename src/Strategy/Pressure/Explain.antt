-- ===== src/Strategy/Pressure/Explain.antt =====
-- The trace names the reason for which the gate refused a backend.
use keel_llm_router.Base.{
  ℕ, ◌≤◌, ◌≡◌, ◌↔◌, refl, inl, inr, Bool, true, false, ◌&&◌, none, some, List, [], ◌∷◌, arith,
  get_elem?, Elem, keep, ◌∙◌,
}
use keel_llm_router.Base.Word.{add_i64, le_i64}
use keel_llm_router.Float.{Float}
use keel_llm_router.Backend.{Backend, BackendId}
use keel_llm_router.Gate.{ceiling, admits}
use keel_llm_router.Gate.Eligible.{admitted}
use keel_llm_router.Trace.{kv_headroom, slot_limit}
use keel_llm_router.Strategy.Pressure.{Pressure, contains, gated_by}

contains_of_Elem : (ids : List BackendId) (id : BackendId) → Elem id ids → contains ids id ≡ true
contains_of_Elem [] id m = absurd m
contains_of_Elem (x ∷ ids) id (inl e) = ground arith
contains_of_Elem (x ∷ ids) id (inr m) = ground (arith, contains_of_Elem ids id m)

contains-keep :
    (p : BackendId → Bool) (ids : List BackendId) (id : BackendId)
    → contains (keep p ids) id ≡ (contains ids id && p id)
contains-keep p [] id = refl
contains-keep p (x ∷ ids) id = ground (arith, contains-keep p ids id)

module _ {D : Type 0} ⦃f : Float D⦄ {S : Type 0} where
  -- When some backend passed the gate, the trace gives no reason for a healthy backend exactly if the
  -- gate admits it, the KV headroom exactly if the projected tokens are above the ceiling, and the slot
  -- limit only if every slot is taken.
  pub gated_by_explains :
      (s : Pressure D) (need_kv : ℕ) (backends : List (Backend S)) (healthy : List BackendId)
      (id : BackendId) (b : Backend S)
      → Elem id healthy
      → get_elem? backends id ≡ some b
      → let reason =
          gated_by s need_kv false (keep (admitted backends need_kv s.sigma) healthy) id b in
        ((reason ≡ none) ↔ (admits b need_kv s.sigma ≡ true))
        × ((reason ≡ some kv_headroom)
            ↔ (le_i64 (add_i64 b.live.kv_projected_tokens need_kv) (ceiling b s.sigma) ≡ false))
        × (reason ≡ some slot_limit → b.caps.max_num_seqs ≤ b.live.inflight)
  unfolding gated_by admits
  gated_by_explains s need_kv backends healthy id b m e =
      let passed : contains (keep (admitted backends need_kv s.sigma) healthy) id
          ≡ admits b need_kv s.sigma =
        contains-keep (admitted backends need_kv s.sigma) healthy id
        ∙ rw (contains_of_Elem healthy id m, e, admitted) in
      ground (arith, passed)
