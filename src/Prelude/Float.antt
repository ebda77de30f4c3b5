-- ===== src/Prelude/Float.antt =====
-- The finite float64 values of Go, and the operations on them that the trading core uses.
use Prim.Native.Nat.{ℕ, zero, suc, ◌+◌, ◌*◌, ◌/◌, ◌%◌, ◌^◌}
use mathlib.Core.Bool.{Bool, true, false}
use custom_hts_legacy.Prelude.Tests.{ltb, if◌then◌else◌}
use custom_hts_legacy.Prelude.Int.{ℤ, int64, sub_ℕ}

-- The value (-1)^sign * mantissa * 2^left / 2^right, where the mantissa is below 2^53.
pub record Float64 : Type 0 where
  pub negative : Bool
  pub mantissa : ℕ
  pub left : ℕ
  pub right : ℕ

abbrev pub signed : Bool → ℕ → ℤ
signed true n = sub_ℕ 0 n
signed false n = sub_ℕ n 0

-- `math.Round` on a magnitude: to the nearest integer, a half away from zero.
unfoldable pub round_half_up : ℕ → ℕ → ℕ
round_half_up n right = (2 * n + 2 ^ right) / (2 * 2 ^ right)

-- `int64(math.Round(f))`.
unfoldable pub round_to_int64 : Float64 → ℤ
unfolding round_half_up
round_to_int64 f = int64 (signed f.negative (round_half_up (f.mantissa * 2 ^ f.left) f.right))

-- `int64(f)`: toward zero.
unfoldable pub trunc_to_int64 : Float64 → ℤ
trunc_to_int64 f = int64 (signed f.negative (f.mantissa * 2 ^ f.left / 2 ^ f.right))

-- The number of low bits of `n` that do not fit into a mantissa, for `n` below 2 ^ (53 + fuel).
unfoldable pub excess_bits : ℕ → ℕ → ℕ
excess_bits zero n = 0
excess_bits (suc fuel) n =
    let rest = excess_bits fuel (n / 2) in if ltb n (2 ^ 53) then 0 else suc rest

-- To the nearest multiple of 2 ^ k, a tie to the even one.
unfoldable pub round_even : ℕ → ℕ → ℕ
round_even zero n = n
round_even (suc k) n =
    let q = n / 2 ^ suc k in
    let r = n % 2 ^ suc k in
    if ltb r (2 ^ k) then q else (if ltb (2 ^ k) r then q + 1 else q + q % 2)

-- `f * float64(n)` for an integer `n` below 2 ^ 14, without exponent overflow or underflow.
unfoldable pub scale : Float64 → ℕ → Float64
unfolding excess_bits round_even
scale f n =
    let k = excess_bits 14 (f.mantissa * n) in
    record f { mantissa = round_even k (f.mantissa * n); left = f.left + k }
