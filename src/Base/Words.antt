-- ===== src/Base/Words.antt =====
-- Go's `int64`, as the bit pattern of its two's complement: a number below 2 ^ 64, negative from
-- 2 ^ 63 on. Sums and differences wrap.
use Prim.Native.Nat.{ℕ, ◌+◌, ◌-◌, ◌%◌, ◌^◌}
use mathlib.Core.Bool.{Bool, ◌&&◌, ◌||◌}
use claw_proxy_hub_next.Base.Tests.{ltb, leb, if◌then◌else◌}

abbrev pub int64_mod : ℕ
int64_mod = 2 ^ 64

abbrev pub int64_max : ℕ
int64_max = 2 ^ 63 - 1

abbrev pub add64 : ℕ → ℕ → ℕ
add64 a b = (a + b) % int64_mod

abbrev pub sub64 : ℕ → ℕ → ℕ
sub64 a b = (a + int64_mod - b) % int64_mod

-- `x < 0`
abbrev pub negative64 : ℕ → Bool
negative64 x = ltb int64_max x

-- `x > 0`
abbrev pub positive64 : ℕ → Bool
positive64 x = ltb 0 x && leb x int64_max

-- `x > y` of two signed numbers
abbrev pub gt64 : ℕ → ℕ → Bool
gt64 x y = if negative64 x then negative64 y && ltb y x else (negative64 y || ltb y x)
