-- ===== src/Gate/Eligible.antt =====
-- The gate keeps, in their order, the healthy backends that it admits.
use keel_llm_router.Base.{
  ℕ, ◌<◌, ◌≡◌, ap, ◌∙◌, Bool, false, none, some, List, [], ◌∷◌, ◌++◌, length, get_elem?,
  get_elem?-lt, All, keep, Bool-cases, inl, inr,
}
use mathlib.Core.List.{append-nil, append_assoc}
use keel_llm_router.Float.{Float}
use keel_llm_router.Backend.{Backend, BackendId, Snapshot, IsWired}
use keel_llm_router.Gate.{admits, eligible_loop, eligible}

module _ {D : Type 0} ⦃f : Float D⦄ {S : Type 0} (backends : List (Backend S)) (need_kv : ℕ)
    (sigma : D) where
  abbrev pub admitted : BackendId → Bool
  admitted id = elim (get_elem? backends id) [ none ↦ false | some b ↦ admits b need_kv sigma ]

  eligible_loop-eq :
      (ids out : List BackendId)
      → All (λ id. id < length backends) ids
      → eligible_loop backends need_kv sigma ids out ≡ some (out ++ keep admitted ids)
  unfolding eligible_loop
  eligible_loop-eq [] out h = rw append-nil
  eligible_loop-eq (id ∷ ids) out h =
      let (b, e) = get_elem?-lt backends id h.0 in
      let same : admitted id ≡ admits b need_kv sigma = rw (e, admitted) in
      elim (Bool-cases (admits b need_kv sigma)) [
        | inl t ↦
            rw (e, t, same ∙ t)
              (eligible_loop-eq ids (out ++ id ∷ []) h.1
                ∙ ap some (append_assoc out (id ∷ []) (keep admitted ids)))
        | inr n ↦ rw (e, n, same ∙ n) (eligible_loop-eq ids out h.1)
      ]

module _ {D : Type 0} ⦃f : Float D⦄ {S : Type 0} where
  -- On a snapshot that is wired the gate does not panic, and returns the healthy backends that it
  -- admits, all of them, in their order.
  pub eligible-eq :
      (snap : Snapshot S) (need_kv : ℕ) (sigma : D)
      → IsWired snap
      → eligible snap need_kv sigma
        ≡ some (keep (admitted snap.backends need_kv sigma) snap.healthy)
  unfolding eligible
  eligible-eq snap need_kv sigma h = eligible_loop-eq snap.backends need_kv sigma snap.healthy [] h
