-- ===== src/Block/Mine.antt =====
-- `mine` of chain/src/block.ts: the search for a nonce.
use deckxcoin.Prelude.{
  ℕ, zero, suc, ◌+◌, ◌≤◌, ◌<◌, ap, ◌∙◌, subst, ◌%◌, ◌^◌, Option, none, some, ◌==◌, if◌then◌else◌,
  ◌≡◌, sym, Bool-cases, inl, inr, arith,
}
use deckxcoin.Block.Target.{bits_to_target}
use deckxcoin.Block.Header.{BlockHeader, Hashes, meets_target}

abbrev pub candidate : BlockHeader → ℕ → ℕ → BlockHeader
candidate header nonce extra_nonce = record header { nonce = nonce; extra_nonce = extra_nonce }

-- The next pair of counters, each of 32 bits.
unfoldable pub next_nonce : ℕ → ℕ
next_nonce nonce = (nonce + 1) % 2 ^ 32

unfoldable pub next_extra : ℕ → ℕ → ℕ
unfolding next_nonce
next_extra nonce extra_nonce =
    if next_nonce nonce == 0 then (extra_nonce + 1) % 2 ^ 32 else extra_nonce

-- `none`: no solution within the attempts, and the function throws.
unfoldable pub grind_from : Hashes → BlockHeader → ℕ → ℕ → ℕ → Option BlockHeader
grind_from h header zero nonce extra_nonce = none
grind_from h header (suc attempts) nonce extra_nonce =
    let later = grind_from h header attempts (next_nonce nonce) (next_extra nonce extra_nonce) in
    let tried = candidate header nonce extra_nonce in
    if meets_target h (h.block_hash tried) header.bits then some tried else later

unfoldable pub mine : Hashes → BlockHeader → ℕ → Option BlockHeader
unfolding grind_from
mine h header max_attempts =
    grind_from h header max_attempts (header.nonce % 2 ^ 32) (header.extra_nonce % 2 ^ 32)

abbrev pub default_attempts : ℕ
default_attempts = 50_000_000

-- What a mined header is: the header asked for, with the counters of a candidate that is tried, and a
-- hash that is at most the target of its bits.
pub record IsMined (h : Hashes) (header mined : BlockHeader) (max_attempts : ℕ) : Type 0 where
  pub nonce : ℕ
  pub extra_nonce : ℕ
  pub same : mined ≡ candidate header nonce extra_nonce
  pub tries : ℕ
  pub early : tries < max_attempts
  pub counted : nonce ≡ (header.nonce + tries) % 2 ^ 32
  pub extra_bound : extra_nonce < 2 ^ 32
  pub work : h.hash_number (h.block_hash mined) ≤ bits_to_target mined.bits

next_nonce_lem : (n tries : ℕ) → next_nonce ((n + tries) % 2 ^ 32) ≡ (n + suc tries) % 2 ^ 32
unfolding next_nonce
next_nonce_lem n tries = omega arith

next_extra_bound :
    (nonce extra_nonce : ℕ) → extra_nonce < 2 ^ 32 → next_extra nonce extra_nonce < 2 ^ 32
unfolding next_extra
next_extra_bound nonce extra_nonce l = ground arith

grind_from-IsMined :
    (h : Hashes) (header mined : BlockHeader) (attempts tries nonce extra_nonce : ℕ)
    → nonce ≡ (header.nonce + tries) % 2 ^ 32
    → extra_nonce < 2 ^ 32
    → grind_from h header attempts nonce extra_nonce ≡ some mined
    → IsMined h header mined (tries + attempts)
unfolding grind_from
grind_from-IsMined h header mined zero tries nonce extra_nonce n x e = cc
grind_from-IsMined h header mined (suc attempts) tries nonce extra_nonce n x e =
    elim (Bool-cases
      (meets_target h (h.block_hash (candidate header nonce extra_nonce)) header.bits)) [
        | inl hit ↦
            let same : candidate header nonce extra_nonce ≡ mined = ground arith in
            record {
              nonce = nonce;
              extra_nonce = extra_nonce;
              same = sym same;
              tries = tries;
              early = omega arith;
              counted = n;
              extra_bound = x;
              work = rw (← same) (unfold meets_target in ground arith);
            }
        | inr miss ↦
            let more : suc tries + attempts ≡ tries + suc attempts = omega arith in
            subst (IsMined h header mined) more (
              grind_from-IsMined h header mined attempts (suc tries) (next_nonce nonce)
                (next_extra nonce extra_nonce) (ap next_nonce n ∙ next_nonce_lem header.nonce tries)
                (next_extra_bound nonce extra_nonce x) (ground arith))
      ]

-- A header that `mine` returns differs from the header it was given in the two counters alone, and its
-- hash, as a number, is at most the target that its own bits state. Both counters fit 32 bits; the nonce
-- is the one of the template raised, modulo 2^32, once for each attempt before, and these are fewer than
-- the attempts allowed.
pub mine-IsMined :
    (h : Hashes) (header mined : BlockHeader) (max_attempts : ℕ)
    → mine h header max_attempts ≡ some mined
    → IsMined h header mined max_attempts
unfolding mine
mine-IsMined h header mined max_attempts e =
    let all : 0 + max_attempts ≡ max_attempts = omega arith in
    subst (IsMined h header mined) all
      (grind_from-IsMined h header mined max_attempts 0 _ _ (omega arith) (omega arith) e)
