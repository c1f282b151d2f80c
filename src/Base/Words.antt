-- ===== src/Base/Words.antt =====
-- Unsigned machine words as native numbers: saturating and wrapping arithmetic.
use Prim.Native.Nat.{ℕ, ◌+◌, ◌-◌, ◌*◌, ◌%◌, ◌^◌}
use mathlib.Core.Bool.{Bool}
use vulos_relay.Base.Tests.{ltb, leb, if◌then◌else◌}

abbrev pub u64_max : ℕ
u64_max = 2 ^ 64 - 1

abbrev pub u32_max : ℕ
u32_max = 2 ^ 32 - 1

-- `u64::saturating_add`, `u64::saturating_mul`; `saturating_sub` is `-` on ℕ.
abbrev pub sat_add : ℕ → ℕ → ℕ
sat_add a b = if leb (a + b) u64_max then a + b else u64_max

abbrev pub sat_mul : ℕ → ℕ → ℕ
sat_mul a b = if leb (a * b) u64_max then a * b else u64_max

-- `u64` addition in a release build.
abbrev pub wrap_add : ℕ → ℕ → ℕ
wrap_add a b = (a + b) % 2 ^ 64

-- `u64` subtraction in a release build; on two's complement words it is that of `i64`.
abbrev pub wrap_sub : ℕ → ℕ → ℕ
wrap_sub a b = (a + (2 ^ 64 - b % 2 ^ 64)) % 2 ^ 64

-- `<` on `i64`, by two's complement words.
abbrev pub signed_lt : ℕ → ℕ → Bool
signed_lt a b = ltb ((a + 2 ^ 63) % 2 ^ 64) ((b + 2 ^ 63) % 2 ^ 64)
