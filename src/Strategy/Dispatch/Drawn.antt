-- ===== src/Strategy/Dispatch/Drawn.antt =====
-- An id that was drawn is one of the ids.
use mathlib.Core.List.{Mem, mem-cons, mem-cons_self, mem-cons_of_mem, not-mem-nil}
use mathlib.Core.List.Perm
use mathlib.Core.Logic.Or
use mathlib.Core.Option.{some-injective}
use native.Mathlib.Bridge.{le_prop}
use keel_llm_router.Base.{
  ℕ, zero, suc, ◌≤◌, ◌≡◌, ◌⊎◌, inl, inr, sym, some, List, [], ◌∷◌, arith, get_elem?, Elem,
  if◌then◌else◌, ◌==◌,
}
use keel_llm_router.Backend.{BackendId}
use keel_llm_router.Strategy.P2c.Lighter.{IsDrawn}

-- Whether the item is in the list, as a number, so that it is a proposition.
hits : ℕ → List ℕ → ℕ
hits a [] = 0
hits a (x ∷ xs) = if a == x then 1 else hits a xs

hits_of_mem : (a : ℕ) (xs : List ℕ) → Mem a xs → 1 ≤ hits a xs
unfolding hits
hits_of_mem a [] m = absurd (not-mem-nil m)
hits_of_mem a (x ∷ xs) m =
    Or.elim le_prop (mem-cons.0 m) (λ e. ground arith) (λ m'. ground (arith, hits_of_mem a xs m'))

Elem-of_hits : (a : ℕ) (xs : List ℕ) → 1 ≤ hits a xs → Elem a xs
unfolding hits
Elem-of_hits a [] h = ground arith
Elem-of_hits a (x ∷ xs) h = ground (arith, Elem-of_hits a xs)

Elem-of_mem : (a : ℕ) (xs : List ℕ) → Mem a xs → Elem a xs
Elem-of_mem a xs m = Elem-of_hits a xs (hits_of_mem a xs m)

pub Elem-of_drawn :
    (backends : List BackendId) (a b id : BackendId)
    → IsDrawn a b backends
    → (id ≡ a) ⊎ (id ≡ b)
    → Elem id backends
Elem-of_drawn ids a b id (rest, p) (inl e) =
    rw e (Elem-of_mem a ids ((Perm.mem_iff p).0 mem-cons_self))
Elem-of_drawn ids a b id (rest, p) (inr e) =
    rw e (Elem-of_mem b ids ((Perm.mem_iff p).0 (mem-cons_of_mem a mem-cons_self)))

pub Elem-get_elem? :
    {A : Type 0} (xs : List A) (i : ℕ) (a : A) → get_elem? xs i ≡ some a → Elem a xs
Elem-get_elem? [] i a e = cc
Elem-get_elem? (x ∷ xs) zero a e = inl (sym (some-injective _ _ e))
Elem-get_elem? (x ∷ xs) (suc i) a e = inr (Elem-get_elem? xs i a e)
