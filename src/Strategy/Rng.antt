-- ===== src/Strategy/Rng.antt =====
-- The calls of the crate `rand`: `choose` and `choose_multiple` on a slice of ids. `IsFair` is what its
-- documentation says of them: an item of the slice, and that many items at distinct positions.
use mathlib.Core.List.{Perm}
use keel_llm_router.Base.{ℕ, ◌≤◌, ◌≡◌, ◌≢◌, Option, none, some, List, [], ◌∷◌, length, Elem}
use keel_llm_router.Backend.{BackendId}
use keel_llm_router.Trace.{DecisionTrace}

pub record Rng (R : Type 0) : Type 0 where
  pub choose : R → List BackendId → Option BackendId × R
  pub choose_multiple : R → List BackendId → ℕ → List BackendId × R

pub record IsFair (R : Type 0) ⦃g : Rng R⦄ : Type 0 where
  pub choose_none : (r : R) → (g.choose r []).0 ≡ none
  pub choose_some :
      (r : R) (xs : List BackendId)
      → xs ≢ []
      → (x : BackendId) × ((g.choose r xs).0 ≡ some x) × Elem x xs
  pub choose_two :
      (r : R) (xs : List BackendId)
      → 2 ≤ length xs
      → (a b : BackendId) × (rest : List BackendId) × ((g.choose_multiple r xs 2).0 ≡ a ∷ b ∷ [])
        × Perm (a ∷ b ∷ rest) xs

-- What a strategy hands back: its choice, the generator and the trace as it leaves them.
pub record Picked (D S R : Type 0) : Type 0 where
  pub chosen : Option BackendId
  pub rng : R
  pub trace : Option (DecisionTrace D S)
