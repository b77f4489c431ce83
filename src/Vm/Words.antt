-- ===== src/Vm/Words.antt =====
-- 256-bit words: wrapping, byte length and powers (chain/src/vm.ts).
pub mod Power
use deckxcoin.Prelude.{ℕ, zero, suc, ◌+◌, ◌-◌, ◌*◌, ◌/◌, ◌%◌, ◌^◌, ◌==◌, if◌then◌else◌}
use deckxcoin.Prelude.Int.{ℤ, pos, negsuc}

-- 1n << WORD
abbrev pub word_mod : ℕ
word_mod = 2 ^ 256

-- BigInt.asUintN(256, v), for v ≥ 0.
abbrev pub wrap : ℕ → ℕ
wrap v = v % word_mod

-- BigInt.asUintN(256, v): -(n + 1) is 2^256 - 1 - n, modulo 2^256.
unfoldable pub wrap_ℤ : ℤ → ℕ
wrap_ℤ (pos n) = wrap n
wrap_ℤ (negsuc n) = word_mod - 1 - wrap n

-- wrap(a - b)
unfoldable pub sub_words : ℕ → ℕ → ℕ
sub_words a b = (wrap a + word_mod - wrap b) % word_mod

-- `while (x > 0n) { x >>= 8n; n++; }`; the fuel `x` itself is enough.
unfoldable pub byte_len_loop : ℕ → ℕ → ℕ
byte_len_loop zero x = 0
byte_len_loop (suc fuel) x =
    let rest = suc (byte_len_loop fuel (x / 256)) in if x == 0 then 0 else rest

unfoldable pub byte_len : ℕ → ℕ
unfolding byte_len_loop
byte_len v = byte_len_loop v v

-- The loop of `modPow`; the exponent itself is enough fuel.
unfoldable pub mod_pow_loop : ℕ → ℕ → ℕ → ℕ → ℕ
mod_pow_loop zero b e result = result
mod_pow_loop (suc fuel) b e result =
    let next =
      mod_pow_loop fuel (wrap (b * b)) (e / 2) (if e % 2 == 1 then wrap (result * b) else result) in
    if e == 0 then result else next

unfoldable pub mod_pow : ℕ → ℕ → ℕ
unfolding mod_pow_loop
mod_pow base exp = mod_pow_loop exp (wrap base) exp 1
