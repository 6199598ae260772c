-- ===== src/Base/Words.antt =====
-- The source's `int64` as the bit pattern that it stands for: a number below 2^64, of which those
-- from 2^63 on are negative.
use Prim.Native.Nat.{ℕ, ◌+◌, ◌%◌}
use mathlib.Core.Path.{◌≡◌}
use mathlib.Core.Bool.{Bool, ◌&&◌}
use native.Mathlib.Omega.{arith}
use infercost.Base.Tests.{ltb}

abbrev pub u64_mod : ℕ
u64_mod = 18446744073709551616

abbrev pub i64_min : ℕ
i64_min = 9223372036854775808

-- a + b, with Go's wrap-around
unfoldable pub add_int64 : ℕ → ℕ → ℕ
add_int64 a b = (a + b) % u64_mod

-- a > 0
abbrev pub pos_int64 : ℕ → Bool
pos_int64 a = ltb 0 a && ltb a i64_min

pub add_int64_comm : (a b : ℕ) → add_int64 a b ≡ add_int64 b a
unfolding add_int64
add_int64_comm a b = omega arith

pub add_int64_assoc : (a b c : ℕ) → add_int64 (add_int64 a b) c ≡ add_int64 a (add_int64 b c)
unfolding add_int64
add_int64_assoc a b c = omega arith
