-- ===== src/Base/Word.antt =====
-- Unsigned words are numbers below 2 ^ w. An `i64` is its two's complement pattern, a number below
-- 2 ^ 64, so that the atomic additions and subtractions are the machine's, wrap-around included.
use Prim.Native.Nat.{ℕ, ◌+◌, ◌-◌, ◌%◌, ◌^◌}
use mathlib.Core.Bool.{Bool}
use keel_llm_router.Base.Tests.{ltb, leb, if◌then◌else◌}

abbrev pub u32_mod : ℕ
u32_mod = 2 ^ 32

abbrev pub i64_mod : ℕ
i64_mod = 2 ^ 64

abbrev pub i64_half : ℕ
i64_half = 2 ^ 63

abbrev pub u32_max : ℕ
u32_max = 2 ^ 32 - 1

abbrev pub add_u32 : ℕ → ℕ → ℕ
add_u32 a b = (a + b) % u32_mod

abbrev pub sub_u32 : ℕ → ℕ → ℕ
sub_u32 a b = (a + u32_mod - b) % u32_mod

abbrev pub add_i64 : ℕ → ℕ → ℕ
add_i64 a b = (a + b) % i64_mod

abbrev pub sub_i64 : ℕ → ℕ → ℕ
sub_i64 a b = (a + i64_mod - b) % i64_mod

-- `a <= b` on signed values: the patterns in the order of the integers they stand for.
abbrev pub le_i64 : ℕ → ℕ → Bool
le_i64 a b = leb ((a + i64_half) % i64_mod) ((b + i64_half) % i64_mod)

-- `x.max(0)`, which is not negative, so its pattern is its value.
abbrev pub max_zero : ℕ → ℕ
max_zero a = if ltb a i64_half then a else 0
