-- ===== src/Strategy/Scan.antt =====
-- The loop that the least-loaded strategies share: over the candidates, keep the best key and the ids
-- that reach it.
pub mod Best
pub mod Least
pub mod Select
use keel_llm_router.Base.{ℕ, Option, some, List, [], ◌∷◌, ◌++◌, get_elem?, ◌>>=◌}
use keel_llm_router.Backend.{Backend, BackendId}

-- What the comparison of a key with the best one so far leads to: take its place, join the ties, pass.
pub data Verdict : Type 0 where
  replace tie skip : Verdict

pub record Scan (K : Type 0) : Type 0 where
  pub best : K
  pub ties : List BackendId

unfoldable pub visit : {K : Type 0} → Verdict → K → BackendId → Scan K → Scan K
visit replace key id s = record { best = key; ties = id ∷ [] }
visit tie key id s = record { best = s.best; ties = s.ties ++ id ∷ [] }
visit skip key id s = s

-- `none` is an id out of bounds, which panics.
unfoldable pub scan :
    {S K : Type 0}
    → (K → K → Verdict)
    → (Backend S → K)
    → List (Backend S)
    → List BackendId
    → Scan K
    → Option (Scan K)
scan judge key backends [] s = some s
scan judge key backends (id ∷ ids) s = do
  b ← get_elem? backends id
  scan judge key backends ids (visit (judge (key b) s.best) (key b) id s)
