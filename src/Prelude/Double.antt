-- ===== src/Prelude/Double.antt =====
-- The finite numbers of JavaScript from zero up: a double is a natural multiple of 2 ^ -1074, and
-- is written as that multiple.
use Prim.Native.Nat.{ℕ, zero, suc, ◌-◌, ◌*◌, ◌/◌, ◌%◌, ◌^◌}
use mathlib.Core.Bool.{◌&&◌, ◌||◌}
use deckxcoin.Prelude.Tests.{ltb, ◌==◌, if◌then◌else◌}

abbrev pub Double : Type 0
Double = ℕ

-- The number of binary digits, for a number below `2 ^ fuel`.
bit_length : ℕ → ℕ → ℕ
bit_length zero n = 0
bit_length (suc fuel) n = let rest = bit_length fuel (n / 2) in if n == 0 then 0 else suc rest

-- The double nearest to `n / d` units, ties to even: 53 digits are kept.
unfoldable pub rounded : ℕ → ℕ → Double
unfolding bit_length
rounded n d =
    let step = 2 ^ (bit_length 2200 (n / d) - 53) in
    let m = n / (step * d) in
    let r = n % (step * d) in
    if ltb (step * d) (2 * r) || (2 * r == step * d && m % 2 == 1) then suc m * step else m * step

-- `Number(v)` of a BigInt.
unfoldable pub to_number : ℕ → Double
unfolding rounded
to_number v = rounded (v * 2 ^ 1074) 1

-- A double divided by a length.
unfoldable pub quotient : Double → ℕ → Double
unfolding rounded
quotient a length = rounded a length
