-- ===== src/Volt/Secrets.antt =====
-- The chain of commitment secrets, chain/src/volt/secrets.ts.
use deckxcoin.Prelude.{
  ℕ, zero, suc, ◌+◌, ◌-◌, ◌≤◌, ◌≡◌, refl, ◌∙◌, false, Option, none, some, arith, ltb, leb,
  if◌then◌else◌, Bool-cases, leb→lt, inl, inr,
}
use deckxcoin.Tx.Oracle.{Bytes}

abbrev pub chain_depth : ℕ
chain_depth = 4096

-- The seed is the tagged hash that the constructor stores.
pub record SecretChain : Type 0 where
  pub seed : Bytes
  pub depth : ℕ

-- `hash` is taggedHash('Volt/chain', ·).
unfoldable pub hash_times : (Bytes → Bytes) → ℕ → Bytes → Bytes
hash_times hash zero h = h
hash_times hash (suc n) h = hash_times hash n (hash h)

-- `none`: out of range, and the method throws.
unfoldable pub secret : (Bytes → Bytes) → SecretChain → ℕ → Option Bytes
unfolding hash_times
secret hash chain index =
    if leb chain.depth index then none else some (hash_times hash (chain.depth - index) chain.seed)

unfoldable pub derive_earlier : (Bytes → Bytes) → Bytes → ℕ → ℕ → Option Bytes
unfolding hash_times
derive_earlier hash revealed from to =
    if ltb from to then none else some (hash_times hash (from - to) revealed)

module _ (hash : Bytes → Bytes) where
  hash_times-add :
      (m n : ℕ) (h : Bytes) → hash_times hash n (hash_times hash m h) ≡ hash_times hash (m + n) h
  unfolding hash_times
  hash_times-add zero n h = let e : 0 + n ≡ n = omega arith in rw e refl
  hash_times-add (suc m) n h =
      let e : suc m + n ≡ suc (m + n) = omega arith in hash_times-add m n (hash h) ∙ rw e refl

  -- From the secret of one commitment the secret of every earlier one is derived, and it is the one
  -- that the chain itself gives.
  pub derive_earlier-secret :
      (chain : SecretChain) (from to : ℕ) (revealed : Bytes)
      → to ≤ from
      → secret hash chain from ≡ some revealed
      → derive_earlier hash revealed from to ≡ secret hash chain to
  unfolding secret derive_earlier
  derive_earlier-secret chain from to revealed p h =
      let within : leb chain.depth from ≡ false = elim (Bool-cases (leb chain.depth from)) [
        | inl out ↦ absurd (ground arith)
        | inr inside ↦ inside
      ] in
      let lt = leb→lt chain.depth from within in
      let sum : chain.depth - from + (from - to) ≡ chain.depth - to = omega arith in
      let e : hash_times hash (chain.depth - from) chain.seed ≡ revealed = ground arith in
      let reached : hash_times hash (from - to) revealed
          ≡ hash_times hash (chain.depth - to) chain.seed =
        rw (← e) (hash_times-add (chain.depth - from) (from - to) chain.seed ∙ rw sum refl) in
      ground arith
