-- ===== src/Health/Rebuild.antt =====
-- The next snapshot holds exactly the backends that are not ejected, and its ids are in bounds.
use mathlib.Core.Path.{subst}
use mathlib.Core.Option.{some-injective}
use keel_llm_router.Base.{
  ℕ, zero, suc, ◌+◌, ◌<◌, ◌≡◌, ◌↔◌, refl, inl, inr, false, some, List, [], ◌∷◌, arith, length,
  get_elem?, All-of_Elem, Elem, ◌⊎◌, Bool-cases, lt_of_get_elem?, sym, ap, ◌∙◌,
}
use keel_llm_router.Backend.{Backend, BackendId, Snapshot, IsWired}
use keel_llm_router.Health.{rebuild_healthy, next_snapshot}

-- Ids are the positions of the backends, counted from `n`.
abbrev pub IsIndexed : {S : Type 0} → ℕ → List (Backend S) → Type 0
IsIndexed n [] = Unit
IsIndexed n (b ∷ bs) = (b.id ≡ n) × IsIndexed (suc n) bs

shift : (n i : ℕ) → suc n + i ≡ n + suc i
shift n i = omega arith

zero_add : (i : ℕ) → 0 + i ≡ i
zero_add i = omega arith

module _ {S : Type 0} where
  -- The backend at position `i` is there, and not ejected.
  abbrev pub IsUp : List (Backend S) → ℕ → Type 0
  IsUp bs i = (b : Backend S) × (get_elem? bs i ≡ some b) × (b.health.ejected ≡ false)

  healthy_sound :
      (n : ℕ) (bs : List (Backend S)) (id : BackendId)
      → IsIndexed n bs
      → Elem id (rebuild_healthy bs)
      → (i : ℕ) × (id ≡ n + i) × IsUp bs i
  unfolding rebuild_healthy
  healthy_sound n [] id h m = absurd m
  healthy_sound n (b ∷ bs) id h m = elim (Bool-cases b.health.ejected) [
    | inl out ↦
        let (i, e, up) = healthy_sound (suc n) bs id h.1 (rw out at m) in (suc i, omega arith, up)
    | inr in_use ↦ elim (first in_use m) [
      | inl e ↦ (0, omega (arith, e, h.0), (b, refl, in_use))
      | inr m' ↦ let (i, e, up) = healthy_sound (suc n) bs id h.1 m' in (suc i, omega arith, up)
    ]
  ]
    where
      first :
          b.health.ejected ≡ false
          → Elem id (rebuild_healthy (b ∷ bs))
          → (id ≡ b.id) ⊎ Elem id (rebuild_healthy bs)
      first in_use m = rw in_use at m

  healthy_complete :
      (n : ℕ) (bs : List (Backend S)) (i : ℕ)
      → IsIndexed n bs
      → IsUp bs i
      → Elem (n + i) (rebuild_healthy bs)
  unfolding rebuild_healthy
  healthy_complete n [] i h (b, e, up) = cc
  healthy_complete n (b ∷ bs) zero h (c, e, up) =
      rw (ap (λ (x : Backend S). x.health.ejected) (some-injective _ _ e) ∙ up)
        (inl (omega (arith, h.0)))
  healthy_complete n (b ∷ bs) (suc i) h (c, e, up) =
      let m =
        subst (λ k. Elem k (rebuild_healthy bs)) (shift n i)
          (healthy_complete (suc n) bs i h.1 (c, e, up)) in
      elim (Bool-cases b.health.ejected) [ inl out ↦ rw out m | inr in_use ↦ rw in_use (inr m) ]

  -- If the ids are the positions of the backends, the next snapshot keeps the backends, is wired, and
  -- lists as healthy exactly the backends that are not ejected.
  pub next_snapshot_healthy :
      (prev : Snapshot S)
      → IsIndexed 0 prev.backends
      → let next = next_snapshot prev in
        (next.backends ≡ prev.backends)
        × IsWired next
        × ((id : BackendId) → Elem id next.healthy ↔ IsUp prev.backends id)
  unfolding next_snapshot
  next_snapshot_healthy prev h = (
    refl,
    All-of_Elem (λ id. id < length prev.backends) (rebuild_healthy prev.backends)
        (λ id m.
          let (i, e, (b, eb, up)) = healthy_sound 0 prev.backends id h m in
          omega (arith, lt_of_get_elem? prev.backends i b eb)),
    λ id. (into id, back id),
  )
    where
      into : (id : BackendId) → Elem id (rebuild_healthy prev.backends) → IsUp prev.backends id
      into id m =
          let (i, e, up) = healthy_sound 0 prev.backends id h m in
          subst (IsUp prev.backends) (sym (e ∙ zero_add i)) up

      back : (id : BackendId) → IsUp prev.backends id → Elem id (rebuild_healthy prev.backends)
      back id up =
          subst (λ k. Elem k (rebuild_healthy prev.backends)) (zero_add id)
            (healthy_complete 0 prev.backends id h up)
