-- ===== src/Base/Positions.antt =====
-- Lists that are read and written at a position.
use Prim.Native.Nat.{ℕ, zero, suc}
use mathlib.Core.Path.{◌≡◌, refl, sym, ap}
use mathlib.Core.Logic.{◌≢◌}
use mathlib.Core.List.{List, [], ◌∷◌, map}
use mathlib.Core.Option.{some, some-injective}
use keel_llm_router.Base.Lists.{length, get_elem?, set, erase_idx, All}

module _ {A : Type 0} where
  pub get-set_same :
      (xs : List A) (i : ℕ) (v a : A) → get_elem? xs i ≡ some a → get_elem? (set xs i v) i ≡ some v
  get-set_same [] i v a e = cc
  get-set_same (x ∷ xs) zero v a e = refl
  get-set_same (x ∷ xs) (suc i) v a e = get-set_same xs i v a e

  pub get-set_other :
      (xs : List A) (i k : ℕ) (v : A) → i ≢ k → get_elem? (set xs i v) k ≡ get_elem? xs k
  get-set_other [] i k v h = refl
  get-set_other (x ∷ xs) zero zero v h = absurd (h refl)
  get-set_other (x ∷ xs) zero (suc k) v h = refl
  get-set_other (x ∷ xs) (suc i) zero v h = refl
  get-set_other (x ∷ xs) (suc i) (suc k) v h = get-set_other xs i k v (λ e. h (ap suc e))

  pub set-set : (xs : List A) (i : ℕ) (v w : A) → set (set xs i v) i w ≡ set xs i w
  set-set [] i v w = refl
  set-set (x ∷ xs) zero v w = refl
  set-set (x ∷ xs) (suc i) v w = ap (λ k. x ∷ k) (set-set xs i v w)

  pub set_self : (xs : List A) (i : ℕ) (a : A) → get_elem? xs i ≡ some a → set xs i a ≡ xs
  set_self [] i a e = refl
  set_self (x ∷ xs) zero a e = ap (λ k. k ∷ xs) (some-injective _ _ (sym e))
  set_self (x ∷ xs) (suc i) a e = ap (λ k. x ∷ k) (set_self xs i a e)

-- A function over the items of a list, read and written at a position.
module _ {A B : Type 0} (g : A → B) where
  pub get-map :
      (xs : List A) (i : ℕ) (a : A) → get_elem? xs i ≡ some a → get_elem? (map g xs) i ≡ some (g a)
  get-map [] i a e = cc
  get-map (x ∷ xs) zero a e = ap some (ap g (some-injective _ _ e))
  get-map (x ∷ xs) (suc i) a e = get-map xs i a e

  pub map-set : (xs : List A) (i : ℕ) (a : A) → map g (set xs i a) ≡ set (map g xs) i (g a)
  map-set [] i a = refl
  map-set (x ∷ xs) zero a = refl
  map-set (x ∷ xs) (suc i) a = ap (λ k. g x ∷ k) (map-set xs i a)

  pub map-erase_idx : (xs : List A) (i : ℕ) → map g (erase_idx xs i) ≡ erase_idx (map g xs) i
  map-erase_idx [] i = refl
  map-erase_idx (x ∷ xs) zero = refl
  map-erase_idx (x ∷ xs) (suc i) = ap (λ k. g x ∷ k) (map-erase_idx xs i)

pub length-map : {A B : Type 0} (g : A → B) (xs : List A) → length (map g xs) ≡ length xs
length-map g [] = refl
length-map g (x ∷ xs) = ap suc (length-map g xs)

-- What holds at every position holds of all.
pub All-of_get :
    {A : Type 0} (P : A → Type 0) (xs : List A)
    → ((i : ℕ) (a : A) → get_elem? xs i ≡ some a → P a)
    → All P xs
All-of_get P [] h = tt
All-of_get P (x ∷ xs) h = (h 0 x refl, All-of_get P xs (λ i a e. h (suc i) a e))
