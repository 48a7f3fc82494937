-- ===== src/Base/Lists.antt =====
-- Lists measured and indexed by native numbers, membership by recursion, and the chain of steps
-- that may panic: `none` is a panic.
use Prim.Native.Nat.{ℕ, zero, suc, ◌+◌, ◌<◌}
use mathlib.Core.Path.{◌≡◌, refl, sym, ap, ◌∙◌}
use mathlib.Core.Logic.{◌≢◌, ◌⊎◌, ◌↔◌, inl, inr}
use mathlib.Core.Bool.{Bool, true, false, false≢true}
use keel_llm_router.Base.Tests.{if◌then◌else◌, Bool-cases}
use mathlib.Core.List.{List, [], ◌∷◌, ◌++◌}
use mathlib.Core.Option.{Option, none, some, some-injective}
use native.Mathlib.Omega.{arith}

module _ {ℓ} {A : Type ℓ} where
  abbrev pub length : List A → ℕ
  length [] = 0
  length (x ∷ xs) = suc (length xs)

  -- `v[i]`: out of bounds it panics.
  abbrev pub get_elem? : List A → ℕ → Option A
  get_elem? [] i = none
  get_elem? (x ∷ xs) zero = some x
  get_elem? (x ∷ xs) (suc i) = get_elem? xs i

  abbrev pub set : List A → ℕ → A → List A
  set [] i v = []
  set (x ∷ xs) zero v = v ∷ xs
  set (x ∷ xs) (suc i) v = x ∷ set xs i v

  abbrev pub is_empty : List A → Bool
  is_empty [] = true
  is_empty (x ∷ xs) = false

  pub is_empty_ne : (xs : List A) → xs ≢ [] → is_empty xs ≡ false
  is_empty_ne [] h = absurd (h refl)
  is_empty_ne (x ∷ xs) h = refl

  pub length-append : (xs ys : List A) → length (xs ++ ys) ≡ length xs + length ys
  length-append [] ys = omega arith
  length-append (x ∷ xs) ys = omega (arith, length-append xs ys)

  pub length-set : (xs : List A) (i : ℕ) (v : A) → length (set xs i v) ≡ length xs
  length-set [] i v = refl
  length-set (x ∷ xs) zero v = refl
  length-set (x ∷ xs) (suc i) v = ap suc (length-set xs i v)

  pub get_elem?-lt : (xs : List A) (i : ℕ) → i < length xs → (a : A) × (get_elem? xs i ≡ some a)
  get_elem?-lt [] i h = elim h [ ]
  get_elem?-lt (x ∷ xs) zero h = (x, refl)
  get_elem?-lt (x ∷ xs) (suc i) h = get_elem?-lt xs i (omega arith)

  pub lt_of_get_elem? : (xs : List A) (i : ℕ) (a : A) → get_elem? xs i ≡ some a → i < length xs
  lt_of_get_elem? [] i a e = cc
  lt_of_get_elem? (x ∷ xs) zero a e = omega arith
  lt_of_get_elem? (x ∷ xs) (suc i) a e = omega (arith, lt_of_get_elem? xs i a e)

  abbrev pub take : ℕ → List A → List A
  take zero xs = []
  take (suc n) [] = []
  take (suc n) (x ∷ xs) = x ∷ take n xs

  -- What a read finds after a write.
  pub set_cases :
      (xs : List A) (i j : ℕ) (v c : A)
      → get_elem? (set xs i v) j ≡ some c
      → ((i ≡ j) × (c ≡ v)) ⊎ ((i ≢ j) × (get_elem? xs j ≡ some c))
  set_cases [] i j v c e = cc
  set_cases (x ∷ xs) zero zero v c e = ground arith
  set_cases (x ∷ xs) zero (suc j) v c e = ground arith
  set_cases (x ∷ xs) (suc i) zero v c e = ground arith
  set_cases (x ∷ xs) (suc i) (suc j) v c e = ground (arith, set_cases xs i j v c e)

  -- `v.remove(i)` of a position that is there.
  abbrev pub erase_idx : List A → ℕ → List A
  erase_idx [] i = []
  erase_idx (x ∷ xs) zero = xs
  erase_idx (x ∷ xs) (suc i) = x ∷ erase_idx xs i

  abbrev pub All {κ} : (A → Type κ) → List A → Type κ
  All P [] = Unit
  All P (x ∷ xs) = P x × All P xs

module _ {ℓ κ} {A : Type ℓ} (P : A → Type κ) where
  pub All-get : (xs : List A) (i : ℕ) {a : A} → All P xs → get_elem? xs i ≡ some a → P a
  All-get [] i h e = cc
  All-get (x ∷ xs) zero h e = rw (some-injective _ _ (sym e)) h.0
  All-get (x ∷ xs) (suc i) h e = All-get xs i h.1 e

  pub All-set : (xs : List A) (i : ℕ) (a : A) → All P xs → P a → All P (set xs i a)
  All-set [] i a h p = tt
  All-set (x ∷ xs) zero a h p = (p, h.1)
  All-set (x ∷ xs) (suc i) a h p = (h.0, All-set xs i a h.1 p)

  pub All-erase_idx : (xs : List A) (i : ℕ) → All P xs → All P (erase_idx xs i)
  All-erase_idx [] i h = tt
  All-erase_idx (x ∷ xs) zero h = h.1
  All-erase_idx (x ∷ xs) (suc i) h = (h.0, All-erase_idx xs i h.1)

  pub All-append : (xs ys : List A) → All P xs → All P ys → All P (xs ++ ys)
  All-append [] ys h k = k
  All-append (x ∷ xs) ys h k = (h.0, All-append xs ys h.1 k)

-- Membership that the tactics take apart.
abbrev pub Elem : {A : Type 0} → A → List A → Type 0
Elem a [] = ⊥
Elem a (x ∷ xs) = (a ≡ x) ⊎ Elem a xs

pub All-Elem {κ} : {A : Type 0} (P : A → Type κ) (a : A) (xs : List A) → All P xs → Elem a xs → P a
All-Elem P a [] h m = absurd m
All-Elem P a (x ∷ xs) h (inl e) = rw e h.0
All-Elem P a (x ∷ xs) h (inr m) = All-Elem P a xs h.1 m

infixl 5 ◌>>=◌
abbrev pub ◌>>=◌ {ℓ κ} : {A : Type ℓ} {B : Type κ} → Option A → (A → Option B) → Option B
none >>= f = none
some a >>= f = f a

-- Both steps of a chain that returns have returned.
pub >>=-eq-some {ℓ κ} :
    {A : Type ℓ} {B : Type κ} (m : Option A) (f : A → Option B) {b : B}
    → (m >>= f) ≡ some b
    → (a : A) × (m ≡ some a) × (f a ≡ some b)
>>=-eq-some none f h = cc
>>=-eq-some (some a) f h = (a, refl, h)

pub All-of_Elem {κ} :
    {A : Type 0} (P : A → Type κ) (xs : List A) → ((a : A) → Elem a xs → P a) → All P xs
All-of_Elem P [] h = tt
All-of_Elem P (x ∷ xs) h = (h x (inl refl), All-of_Elem P xs (λ a m. h a (inr m)))

module _ {A : Type 0} where
  pub Elem-append : (a : A) (xs ys : List A) → Elem a (xs ++ ys) ↔ (Elem a xs ⊎ Elem a ys)
  Elem-append a [] ys = (λ m. inr m, λ m. elim m [ inl h ↦ absurd h | inr h ↦ h ])
  Elem-append a (x ∷ xs) ys =
      let (out, back) = Elem-append a xs ys in
      (
        elim [ inl e ↦ inl (inl e) | inr m ↦ elim (out m) [ inl h ↦ inl (inr h) | inr h ↦ inr h ] ],
        elim [
          | inl m ↦ elim m [ inl e ↦ inl e | inr h ↦ inr (back (inl h)) ]
          | inr h ↦ inr (back (inr h))
        ],
      )

  -- The items that pass a test, in their order.
  abbrev pub keep : (A → Bool) → List A → List A
  keep p [] = []
  keep p (x ∷ xs) = if p x then x ∷ keep p xs else keep p xs

  pub Elem-keep :
      (p : A → Bool) (a : A) (xs : List A) → Elem a (keep p xs) ↔ (Elem a xs × (p a ≡ true))
  Elem-keep p a [] = (λ h. absurd h, λ h. h.0)
  Elem-keep p a (x ∷ xs) =
      let (into, back) = Elem-keep p a xs in
      elim (Bool-cases (p x)) [
        | inl t ↦ rw t (
          elim [ inl e ↦ (inl e, ap p e ∙ t) | inr m ↦ (inr (into m).0, (into m).1) ],
          λ h. elim h.0 [ inl e ↦ inl e | inr m ↦ inr (back (m, h.1)) ],
        )
        | inr f ↦ rw f (
          λ m. (inr (into m).0, (into m).1),
          λ h. elim h.0 [
            | inl e ↦ absurd (false≢true (sym f ∙ ap p (sym e) ∙ h.1))
            | inr m ↦ back (m, h.1)
          ],
        )
      ]

  pub eq_of_Elem : (a x : A) → Elem a (x ∷ []) → a ≡ x
  eq_of_Elem a x (inl e) = e
  eq_of_Elem a x (inr m) = absurd m

-- A chain whose first step returns goes on.
pub bind_total {ℓ κ} :
    {A : Type ℓ} {B : Type κ} (m : Option A) (f : A → Option B) {a : A}
    → m ≡ some a
    → (b : B) × (f a ≡ some b)
    → (b : B) × ((m >>= f) ≡ some b)
bind_total m f e (b, h) = (b, rw e h)

-- `iter().map(..).collect()` of a function that may panic.
unfoldable pub collect : {A B : Type 0} → (A → Option B) → List A → Option (List B)
collect g [] = some []
collect g (x ∷ xs) = do y ← g x; ys ← collect g xs; some (y ∷ ys)

pub collect_total :
    {A B : Type 0} (g : A → Option B) (xs : List A)
    → All (λ x. (y : B) × (g x ≡ some y)) xs
    → (ys : List B) × (collect g xs ≡ some ys)
unfolding collect
collect_total g [] h = ([], refl)
collect_total g (x ∷ xs) ((y, e), h) = let (ys, es) = collect_total g xs h in (y ∷ ys, rw (e, es))

-- `Result<A, E>`.
pub data Result (E A : Type 0) : Type 0 where
  ok : A → Result E A
  err : E → Result E A

pub ok-injective : {E A : Type 0} {a b : A} → Path (Result E A) (ok a) (ok b) → a ≡ b
ok-injective {a = a} e = ap (elim [ ok x ↦ x | err x ↦ a ]) e

pub err-ne-ok : {E A : Type 0} {a : A} {x : E} → Path (Result E A) (err x) (ok a) → ⊥
err-ne-ok e = cc
