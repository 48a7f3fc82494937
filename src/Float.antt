-- ===== src/Float.antt =====
-- What the router uses of `f64`: comparisons, arithmetic and conversions, as an interface, since the
-- checker has no floating point. `IsOrdered` and `IsRounded` state what IEEE 754 gives: an order that
-- is total off NaN, integers that are exact up to 2 ^ 53, and operations that round monotonically.
pub mod Milli
use Prim.Native.Nat.{Ordering}
use keel_llm_router.Base.{
  ℕ, ◌^◌, ◌≤◌, ◌<◌, ◌≡◌, Bool, true, false, not, Option, none, some, ◌⊎◌, arith, leb, if◌then◌else◌,
}

pub record Float (D : Type 0) : Type 0 where
  pub lt : D → D → Bool
  pub le : D → D → Bool
  pub is_nan : D → Bool
  pub is_finite : D → Bool
  pub nought : D
  pub unit : D
  pub infinity : D
  pub neg_infinity : D
  pub add : D → D → D
  pub sub : D → D → D
  pub mul : D → D → D
  pub div : D → D → D
  -- `n as f64` of an integer that is not negative
  pub of_ℕ : ℕ → D
  -- `x as i64`, saturating, as a pattern
  pub to_i64 : D → ℕ
  -- `x.ceil() as u64`, saturating
  pub ceil_u64 : D → ℕ
  -- `x.round() as u64`, saturating
  pub round_u64 : D → ℕ
  pub abs : D → D
  -- `n as f64` of an `i64`, given as its pattern
  pub of_i64 : ℕ → D
  -- the literal n / 1000
  pub thousandths : ℕ → D

infix 4 ◌≼◌
abbrev pub ◌≼◌ : {D : Type 0} ⦃f : Float D⦄ → D → D → Type 0
◌≼◌ ⦃f⦄ x y = f.le x y ≡ true

abbrev pub IsNumber : {D : Type 0} ⦃f : Float D⦄ → D → Type 0
IsNumber ⦃f⦄ x = f.is_nan x ≡ false

abbrev pub IsFinite : {D : Type 0} ⦃f : Float D⦄ → D → Type 0
IsFinite ⦃f⦄ x = f.is_finite x ≡ true

abbrev pub order_of : Bool → Bool → Option Ordering
order_of true true = some Ordering.eq
order_of true false = some Ordering.lt
order_of false true = some Ordering.gt
order_of false false = none

module _ {D : Type 0} ⦃f : Float D⦄ where
  -- `f64::partial_cmp`, as the standard library defines it from `<=` and `>=`.
  abbrev pub partial_cmp : D → D → Option Ordering
  partial_cmp x y = order_of (f.le x y) (f.le y x)

  -- `f64::max`, which passes over a NaN.
  abbrev pub fmax : D → D → D
  fmax x y = if f.is_nan x then y else if f.is_nan y then x else if f.lt x y then y else x

pub record IsOrdered (D : Type 0) ⦃f : Float D⦄ : Type 0 where
  pub number_of_le : (x y : D) → x ≼ y → IsNumber x × IsNumber y
  pub le_trans : (x y z : D) → x ≼ y → y ≼ z → x ≼ z
  pub le_total : (x y : D) → IsNumber x → IsNumber y → (x ≼ y) ⊎ (y ≼ x)
  pub lt-eq-not-le : (x y : D) → IsNumber x → IsNumber y → f.lt x y ≡ not (f.le y x)
  pub number_of_finite : (x : D) → IsFinite x → IsNumber x
  pub finite_of_le : (x y : D) → f.nought ≼ x → x ≼ y → IsFinite y → IsFinite x
  pub infinity_top : (x : D) → IsNumber x → x ≼ f.infinity
  pub neg_infinity_bottom : (x : D) → IsNumber x → f.neg_infinity ≼ x
  pub of_ℕ_finite : (n : ℕ) → n < 2 ^ 64 → IsFinite (f.of_ℕ n)
  pub of_ℕ_mono : (m n : ℕ) → m ≤ n → f.of_ℕ m ≼ f.of_ℕ n
  pub of_ℕ-le : (m n : ℕ) → m ≤ 2 ^ 53 → n ≤ 2 ^ 53 → f.le (f.of_ℕ m) (f.of_ℕ n) ≡ leb m n
  pub of_ℕ-zero : f.of_ℕ 0 ≡ f.nought

pub record IsRounded (D : Type 0) ⦃f : Float D⦄ : Type 0 where
  pub ordered : IsOrdered D
  pub open ordered use *
  pub sub_mono : (x y c : D) → IsFinite c → x ≼ y → f.sub x c ≼ f.sub y c
  pub sub_nonneg : (x c : D) → IsFinite c → c ≼ x → f.nought ≼ f.sub x c
  pub div_mono : (x y c : D) → IsFinite c → f.lt f.nought c ≡ true → x ≼ y → f.div x c ≼ f.div y c
  pub div_nonneg :
      (x c : D) → IsFinite c → f.lt f.nought c ≡ true → f.nought ≼ x → f.nought ≼ f.div x c
  pub mul_nonneg :
      (x y : D) → IsFinite x → IsFinite y → f.nought ≼ x → f.nought ≼ y → f.nought ≼ f.mul x y
  pub mul_mono :
      (x x' y y' : D)
      → IsFinite x'
      → IsFinite y'
      → f.nought ≼ x
      → x ≼ x'
      → f.nought ≼ y
      → y ≼ y'
      → f.mul x y ≼ f.mul x' y'
  pub le-add_right : (x y : D) → f.nought ≼ x → f.nought ≼ y → x ≼ f.add x y
  pub add_mono :
      (x x' y y' : D) → f.nought ≼ x → x ≼ x' → f.nought ≼ y → y ≼ y' → f.add x y ≼ f.add x' y'

module _ {D : Type 0} ⦃f : Float D⦄ (laws : IsOrdered D) where
  open laws use {number_of_le, le_trans, le_total, lt-eq-not-le}

  pub le_refl : (x : D) → IsNumber x → x ≼ x
  le_refl x h = ground (arith, le_total x x h h)

  -- The greater of two numbers bounds both, and is one of them.
  pub fmax_bounds :
      (x y : D) → IsNumber x → IsNumber y → (x ≼ fmax x y) × (y ≼ fmax x y) × IsNumber (fmax x y)
  fmax_bounds x y hx hy =
      ground (arith, lt-eq-not-le x y hx hy, le_total x y hx hy, le_refl x hx, le_refl y hy)

  pub fmax-number : (x y : D) → IsNumber x → IsNumber y → IsNumber (fmax x y)
  fmax-number x y hx hy = (fmax_bounds x y hx hy).2
