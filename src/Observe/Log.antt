-- ===== src/Observe/Log.antt =====
-- How many requests a log of calls counts as done.
use keel_llm_router.Base.{ℕ, ◌+◌, ◌≡◌, List, [], ◌∷◌, ◌++◌, arith}
use keel_llm_router.Observe.{Call, request_result}

abbrev pub is_result : {D S : Type 0} → Call D S → ℕ
is_result (request_result b) = 1
is_result c = 0

abbrev pub results : {D S : Type 0} → List (Call D S) → ℕ
results [] = 0
results (c ∷ log) = is_result c + results log

module _ {D S : Type 0} where
  pub results-append : (xs ys : List (Call D S)) → results (xs ++ ys) ≡ results xs + results ys
  results-append [] ys = omega arith
  results-append (x ∷ xs) ys = omega (arith, results-append xs ys)
