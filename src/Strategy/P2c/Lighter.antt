-- ===== src/Strategy/P2c/Lighter.antt =====
-- The strategy never picks the more loaded of the two backends that it draws.
use mathlib.Core.List.{Perm, Mem, mem-cons, mem-cons_self, mem-cons_of_mem, not-mem-nil}
use mathlib.Core.List.Perm
use mathlib.Core.Logic.Or
use native.Mathlib.Bridge.{le_prop}
use keel_llm_router.Base.{
  ℕ, ◌≤◌, ◌<◌, ◌≡◌, refl, Option, some, List, [], ◌∷◌, arith, length, get_elem?, get_elem?-lt, All,
  leb, inl, inr, ◌⊎◌, Bool-cases, leb→le, false, ◌==◌,
}
use keel_llm_router.Float.{Float}
use keel_llm_router.Backend.{Backend, BackendId, Snapshot, IsWired}
use keel_llm_router.Features.{RequestFeatures}
use keel_llm_router.Trace.{DecisionTrace, record_pick_total}
use keel_llm_router.Strategy.Rng.{Rng, IsFair, Picked}
use keel_llm_router.Strategy.P2c.{lighter, name, pick}

-- The two ids are drawn at distinct positions of the list.
abbrev pub IsDrawn : BackendId → BackendId → List BackendId → Type 0
IsDrawn a b ids = (rest : List BackendId) × Perm (a ∷ b ∷ rest) ids

-- The choice is the one of two backends that has no more requests in flight than the other.
abbrev pub IsLighter : {S : Type 0} → List (Backend S) → BackendId → BackendId → BackendId → Type 0
IsLighter {S} backends a b id =
    (x y : Backend S) × (get_elem? backends a ≡ some x)
    × (get_elem? backends b ≡ some y)
    × (((id ≡ a) × (x.live.inflight ≤ y.live.inflight))
        ⊎ ((id ≡ b) × (y.live.inflight < x.live.inflight)))

module _ {S : Type 0} where
  lighter_lem :
      (backends : List (Backend S)) (a b : BackendId)
      → a < length backends
      → b < length backends
      → (id : BackendId) × (lighter backends (a ∷ b ∷ []) ≡ some id) × IsLighter backends a b id
  unfolding lighter
  lighter_lem backends a b ha hb =
      let (x, ex) = get_elem?-lt backends a ha in
      let (y, ey) = get_elem?-lt backends b hb in
      elim (Bool-cases (leb x.live.inflight y.live.inflight)) [
        | inl t ↦ (a, rw (ex, ey, t), (x, y, ex, ey, inl (refl, leb→le _ _ t)))
        | inr n ↦ (b, rw (ex, ey, n), (x, y, ex, ey, inr (refl, ground arith)))
      ]

-- A bound on a list holds of its members, and so of the items of a permutation.
bound_of_mem : (n a : ℕ) (xs : List ℕ) → All (λ x. x < n) xs → Mem a xs → a < n
bound_of_mem n a [] h m = absurd (not-mem-nil m)
bound_of_mem n a (x ∷ xs) h m =
    Or.elim le_prop (mem-cons.0 m) (λ e. rw e h.0) (bound_of_mem n a xs h.1)

drawn_bounds :
    (n a b : ℕ) (ids : List ℕ) → All (λ x. x < n) ids → IsDrawn a b ids → (a < n) × (b < n)
drawn_bounds n a b ids h (rest, p) = (
  bound_of_mem n a ids h ((Perm.mem_iff p).0 mem-cons_self),
  bound_of_mem n b ids h ((Perm.mem_iff p).0 (mem-cons_of_mem a mem-cons_self)),
)

module _ {D S R : Type 0} ⦃f : Float D⦄ ⦃g : Rng R⦄ (fair : IsFair R) where
  -- With a generator that draws at distinct positions and a snapshot that is wired, with at least two
  -- healthy backends, the pick draws two of them at distinct positions with the generator that it is given,
  -- leaves the generator as that draw does, and returns the one of the two drawn with no more requests in
  -- flight than the other, the first on a tie.
  pub pick-IsLighter :
      (snap : Snapshot S) (req : RequestFeatures) (rng : R) (trace : Option (DecisionTrace D S))
      → IsWired snap
      → 2 ≤ length snap.healthy
      → (out : Picked D S R) × (pick snap req rng trace ≡ some out)
        × (out.rng ≡ (g.choose_multiple rng snap.healthy 2).1)
        × (a b id : BackendId) × ((g.choose_multiple rng snap.healthy 2).0 ≡ a ∷ b ∷ [])
        × IsDrawn a b snap.healthy
        × (out.chosen ≡ some id)
        × IsLighter snap.backends a b id
  unfolding pick
  pick-IsLighter snap req rng trace wired two =
      let (a, b, rest, ed, p) = fair.choose_two rng snap.healthy two in
      let (ha, hb) = drawn_bounds (length snap.backends) a b snap.healthy wired (rest, p) in
      let (id, ei, lighter) = lighter_lem snap.backends a b ha hb in
      let (t, et) = record_pick_total trace name snap req (some id) wired in
      (
        record { chosen = some id; rng = (g.choose_multiple rng snap.healthy 2).1; trace = t },
        rw (
          not_eq (length snap.healthy) 0 (omega arith),
          not_eq (length snap.healthy) 1 (omega arith),
          ed,
          ei,
          et,
        ),
        refl,
        a,
        b,
        id,
        ed,
        (rest, p),
        refl,
        lighter,
      )
    where
      not_eq : (m n : ℕ) → n < m → (m == n) ≡ false
      not_eq m n h = ground arith
