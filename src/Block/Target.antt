-- ===== src/Block/Target.antt =====
-- Difficulty: compact targets, retargeting and chainwork, of chain/src/block.ts.
use Prim.Native.Nat.{bit_or}
use deckxcoin.Prelude.{
  ℕ, zero, suc, ◌+◌, ◌-◌, ◌*◌, ◌/◌, ◌%◌, ◌^◌, min, max, Option, none, some, leb, ◌==◌,
  if◌then◌else◌,
}

-- `bits >>> 24` and `bits & 0x007fffff`, on the low 32 bits.
abbrev pub exponent_of : ℕ → ℕ
exponent_of bits = bits % 2 ^ 32 / 2 ^ 24

abbrev pub mantissa_of : ℕ → ℕ
mantissa_of bits = bits % 2 ^ 23

unfoldable pub bits_to_target : ℕ → ℕ
bits_to_target bits =
    if leb (exponent_of bits) 3
    then mantissa_of bits / 2 ^ (8 * (3 - exponent_of bits))
    else mantissa_of bits * 2 ^ (8 * (exponent_of bits - 3))

-- `while (t > 0n) { t >>= 8n; size++; }`; `t` itself is enough fuel.
unfoldable pub size_loop : ℕ → ℕ → ℕ
size_loop zero t = 0
size_loop (suc fuel) t = let rest = suc (size_loop fuel (t / 256)) in if t == 0 then 0 else rest

unfoldable pub size_of : ℕ → ℕ
unfolding size_loop
size_of t = size_loop t t

abbrev pub mantissa_at : ℕ → ℕ → ℕ
mantissa_at target size =
    if leb size 3 then target * 2 ^ (8 * (3 - size)) else target / 2 ^ (8 * (size - 3))

-- The mantissa and the size, the mantissa's sign bit kept clear.
unfoldable pub compact_of : ℕ → ℕ × ℕ
unfolding size_of
compact_of target =
    let size = size_of target in
    let compact = mantissa_at target size in
    if compact / 2 ^ 23 % 2 == 1 then (compact / 256, size + 1) else (compact, size)

-- `none`: the target is zero, and the function throws.
unfoldable pub target_to_bits : ℕ → Option ℕ
unfolding compact_of
target_to_bits target =
    let (compact, size) = compact_of target in
    if target == 0 then none else some (bit_or compact (size * 2 ^ 24))

abbrev pub genesis_bits : ℕ
genesis_bits = 0x1f00ffff

abbrev pub max_target : ℕ
unfolding bits_to_target
max_target = bits_to_target genesis_bits

abbrev pub target_spacing : ℕ
target_spacing = 600

abbrev pub retarget_interval : ℕ
retarget_interval = 2016

abbrev pub target_timespan : ℕ
target_timespan = retarget_interval * target_spacing

-- A timespan below zero is clamped as zero is.
abbrev pub clamped : ℕ → ℕ
clamped actual_timespan = min (max actual_timespan (target_timespan / 4)) (target_timespan * 4)

abbrev pub next_target : ℕ → ℕ → ℕ
next_target target actual_timespan =
    min (target * clamped actual_timespan / target_timespan) max_target

unfoldable pub next_bits : ℕ → ℕ → Option ℕ
unfolding target_to_bits bits_to_target
next_bits current_bits actual_timespan =
    target_to_bits (next_target (bits_to_target current_bits) actual_timespan)

-- 2^256 / (target + 1)
unfoldable pub block_work : ℕ → ℕ
unfolding bits_to_target
block_work bits = 2 ^ 256 / (bits_to_target bits + 1)
