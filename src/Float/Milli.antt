-- ===== src/Float/Milli.antt =====
-- A concrete number type that meets the laws: thousandths that are not negative, infinity and NaN,
-- with every operation rounded down. It serves the tests.
use native.Mathlib.Nat.{mul-le-mul}
use keel_llm_router.Base.{
  ℕ, ◌+◌, ◌-◌, ◌*◌, ◌/◌, ◌^◌, ◌≤◌, ◌<◌, ◌≡◌, refl, Bool, true, false, arith, ltb, leb, ltb→lt,
  leb→le, le→leb, if◌then◌else◌,
}
use keel_llm_router.Float.{Float, IsOrdered, IsRounded}

pub data Milli : Type 0 where
  nan : Milli
  fin : ℕ → Milli
  inf : Milli

abbrev le_milli : Milli → Milli → Bool
le_milli nan y = false
le_milli (fin m) nan = false
le_milli (fin m) (fin n) = leb m n
le_milli (fin m) inf = true
le_milli inf nan = false
le_milli inf (fin n) = false
le_milli inf inf = true

abbrev lt_milli : Milli → Milli → Bool
lt_milli nan y = false
lt_milli (fin m) nan = false
lt_milli (fin m) (fin n) = ltb m n
lt_milli (fin m) inf = true
lt_milli inf y = false

abbrev lift : (ℕ → ℕ → ℕ) → Milli → Milli → Milli
lift g nan y = nan
lift g (fin m) nan = nan
lift g (fin m) (fin n) = fin (g m n)
lift g (fin m) inf = inf
lift g inf nan = nan
lift g inf (fin n) = inf
lift g inf inf = inf

instance abbrev pub milli_float : Float Milli
milli_float = record {
  lt = lt_milli;
  le = le_milli;
  is_nan = elim [ nan ↦ true | fin n ↦ false | inf ↦ false ];
  is_finite = elim [ nan ↦ false | fin n ↦ true | inf ↦ false ];
  nought = fin 0;
  unit = fin 1000;
  infinity = inf;
  neg_infinity = fin 0;
  add = lift (λ m n. m + n);
  sub = lift (λ m n. m - n);
  mul = lift (λ m n. m * n / 1000);
  div = lift (λ m n. m * 1000 / n);
  of_ℕ = λ n. fin (n * 1000);
  to_i64 = elim [
    | nan ↦ 0
    | fin n ↦ if ltb (n / 1000) (2 ^ 63) then n / 1000 else 2 ^ 63 - 1
    | inf ↦ 2 ^ 63 - 1
  ];
  ceil_u64 = elim [
    | nan ↦ 0
    | fin n ↦ if ltb ((n + 999) / 1000) (2 ^ 64) then (n + 999) / 1000 else 2 ^ 64 - 1
    | inf ↦ 2 ^ 64 - 1
  ];
  round_u64 = elim [
    | nan ↦ 0
    | fin n ↦ if ltb ((n + 500) / 1000) (2 ^ 64) then (n + 500) / 1000 else 2 ^ 64 - 1
    | inf ↦ 2 ^ 64 - 1
  ];
  abs = λ x. x;
  of_i64 = λ n. fin (if ltb n (2 ^ 63) then n * 1000 else 0);
  thousandths = fin;
}

infix 4 ◌⊑◌
abbrev ◌⊑◌ : Milli → Milli → Type 0
x ⊑ y = le_milli x y ≡ true

trans : (x y z : Milli) → x ⊑ y → y ⊑ z → x ⊑ z
trans x y z h k = ground arith

pub Milli-IsOrdered : IsOrdered Milli
Milli-IsOrdered = record {
  number_of_le = λ x y h. ground arith;
  le_trans = trans;
  le_total = λ x y hx hy. ground arith;
  lt-eq-not-le = λ x y hx hy. ground arith;
  number_of_finite = λ x h. ground arith;
  finite_of_le = λ x y hx h k. ground arith;
  infinity_top = λ x h. ground arith;
  neg_infinity_bottom = λ x h. ground arith;
  of_ℕ_finite = λ n h. refl;
  of_ℕ_mono = λ m n h. ground arith;
  of_ℕ-le = λ m n hm hn. ground arith;
  of_ℕ-zero = refl;
}

div_le : (m n c : ℕ) → 0 < c → m ≤ n → m * 1000 / c ≤ n * 1000 / c
div_le m n c hc h = grind arith

mul_le : (m m' n n' : ℕ) → m ≤ m' → n ≤ n' → m * n / 1000 ≤ m' * n' / 1000
mul_le m m' n n' h k = omega (arith, mul-le-mul h k)

div_mono :
    (x y c : Milli)
    → milli_float.is_finite c ≡ true
    → lt_milli (fin 0) c ≡ true
    → x ⊑ y
    → milli_float.div x c ⊑ milli_float.div y c
div_mono (fin m) (fin n) (fin c) hc pos h =
    le→leb _ _ (div_le m n c (ltb→lt 0 c pos) (leb→le m n h))
div_mono x y c hc pos h = ground arith

mul_mono :
    (x x' y y' : Milli)
    → milli_float.is_finite x' ≡ true
    → milli_float.is_finite y' ≡ true
    → x ⊑ x'
    → y ⊑ y'
    → milli_float.mul x y ⊑ milli_float.mul x' y'
mul_mono (fin m) (fin m') (fin n) (fin n') hx hy h k =
    le→leb _ _ (mul_le m m' n n' (leb→le m m' h) (leb→le n n' k))
mul_mono x x' y y' hx hy h k = ground arith

pub Milli-IsRounded : IsRounded Milli
Milli-IsRounded = record {
  ordered = Milli-IsOrdered;
  sub_mono = λ x y c hc h. ground arith;
  sub_nonneg = λ x c hc h. ground arith;
  div_mono = div_mono;
  div_nonneg = λ x c hc pos h. ground arith;
  mul_nonneg = λ x y hx hy h k. ground arith;
  mul_mono = λ x x' y y' hx hy zx h zy k. mul_mono x x' y y' hx hy h k;
  le-add_right = λ x y h k. ground arith;
  add_mono = λ x x' y y' h hx k hy. ground arith;
}
