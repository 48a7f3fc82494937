-- ===== src/Strategy/Dispatch/Unscored.antt =====
-- The strategies that compute no scores, round_robin and p2c, pick a healthy backend: crates/router-core/src/strategy.
use native.Mathlib.Nat.{mod-lt}
use keel_llm_router.Base.{
  ◌+◌, ◌^◌, ◌%◌, ◌≤◌, ◌≡◌, ◌≢◌, ◌⊎◌, refl, inl, inr, ◌∙◌, true, false, Option, none, some, List, [],
  ◌∷◌, arith, length, get_elem?-lt, Elem, ◌==◌, Bool-cases,
}
use keel_llm_router.Float.{Float}
use keel_llm_router.Backend.{BackendId, Snapshot, IsWired}
use keel_llm_router.Features.{RequestFeatures}
use keel_llm_router.Trace.{DecisionTrace, record_pick_total}
use keel_llm_router.Strategy.Rng.{Rng, IsFair}
use keel_llm_router.Strategy.RoundRobin.{RoundRobin}
use keel_llm_router.Strategy.RoundRobin.Turns.{length_pos, pick_turn}
use keel_llm_router.Strategy.P2c
use keel_llm_router.Strategy.P2c.Lighter.{pick-IsLighter}
use keel_llm_router.Strategy.Dispatch.Drawn.{Elem-of_drawn, Elem-get_elem?}
use keel_llm_router.Strategy.Dispatch.Empty.{Returned}
use keel_llm_router.Strategy.Dispatch.{round_robin, p2c, route}

either : {A B C E : Type 0} → (A × B) ⊎ (C × E) → A ⊎ C
either (inl h) = inl h.0
either (inr h) = inr h.0

pub none-ne-some : {A : Type 0} {a : A} → none ≡ some a → ⊥
none-ne-some e = cc

pub list_cases : {A : Type 0} (xs : List A) → (xs ≡ []) ⊎ (xs ≢ [])
list_cases [] = inl refl
list_cases (x ∷ xs) = inr (λ e. cc)

-- The choice is a healthy backend.
abbrev pub Chosen : {S : Type 0} → Snapshot S → Option BackendId → Type 0
Chosen snap o = (id : BackendId) × (o ≡ some id) × Elem id snap.healthy

module _ {D S R : Type 0} ⦃f : Float D⦄ ⦃g : Rng R⦄ where
  pub turn-Chosen :
      (s : RoundRobin) (snap : Snapshot S) (req : RequestFeatures) (rng : R)
      (trace : Option (DecisionTrace D S))
      → IsWired snap
      → snap.healthy ≢ []
      → Returned (round_robin s) snap req rng trace (Chosen snap)
  unfolding route
  turn-Chosen s snap req rng trace wired some_id =
      let (out, e, chosen) = pick_turn s snap req rng trace wired some_id in
      let i = s.next % length snap.healthy in
      let (id, ei) =
        get_elem?-lt snap.healthy i (mod-lt s.next (length_pos snap.healthy some_id)) in
      (
        (round_robin (record { next = (s.next + 1) % 2 ^ 64 }), out),
        rw e refl,
        (id, chosen ∙ ei, Elem-get_elem? snap.healthy i id ei),
      )

  p2c_single :
      (snap : Snapshot S) (req : RequestFeatures) (rng : R) (trace : Option (DecisionTrace D S))
      → IsWired snap
      → length snap.healthy ≡ 1
      → Returned p2c snap req rng trace (Chosen snap)
  unfolding route P2c.pick
  p2c_single snap req rng trace wired one =
      let (id, e) = get_elem?-lt snap.healthy 0 (omega (arith, one)) in
      let (t, et) = record_pick_total trace P2c.name snap req (some id) wired in
      (
        (p2c, record { chosen = some id; rng = rng; trace = t }),
        rw (one_there, is_one, e, et) refl,
        (id, refl, Elem-get_elem? snap.healthy 0 id e),
      )
    where
      one_there : (length snap.healthy == 0) ≡ false
      one_there = ground (arith, one)

      is_one : (length snap.healthy == 1) ≡ true
      is_one = ground (arith, one)

  pub drawn-Chosen :
      IsFair R
      → (snap : Snapshot S) (req : RequestFeatures) (rng : R) (trace : Option (DecisionTrace D S))
      → IsWired snap
      → snap.healthy ≢ []
      → Returned p2c snap req rng trace (Chosen snap)
  unfolding route
  drawn-Chosen fair snap req rng trace wired some_id =
      elim (Bool-cases (length snap.healthy == 1)) [
        | inl one ↦ p2c_single snap req rng trace wired (ground (arith, one))
        | inr more ↦
            let (out, e, moved, a, b, id, sampled, drawn, chosen, (x, y, ex, ey, which)) =
              pick-IsLighter fair snap req rng trace wired (two_of more) in
            (
              (p2c, out),
              rw e refl,
              (id, chosen, Elem-of_drawn snap.healthy a b id drawn (either which)),
            )
      ]
    where
      two_of : (length snap.healthy == 1) ≡ false → 2 ≤ length snap.healthy
      two_of more = ground (arith, more, length_pos snap.healthy some_id)
