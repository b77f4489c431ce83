-- ===== src/Block/Header.antt =====
-- Blocks and the checks on a header alone, of chain/src/block.ts.
use deckxcoin.Prelude.{
  ℕ, ◌+◌, Bool, not, Option, none, some, List, [], ◌∷◌, map, ltb, leb, any, length, if◌then◌else◌,
}
use deckxcoin.Prelude.Eq.{◌===◌, string_eq}
use deckxcoin.Merkle.{merkle_root}
use deckxcoin.Tx.{Hex, Transaction, is_coinbase}
use deckxcoin.Block.Target.{bits_to_target}

pub record BlockHeader : Type 0 where
  pub version : ℕ
  pub prev_hash : Hex
  pub merkle_root : Hex
  pub state_root : Hex
  pub time : ℕ
  pub bits : ℕ
  pub height : ℕ
  pub nonce : ℕ
  pub extra_nonce : ℕ

pub record Block : Type 0 where
  pub header : BlockHeader
  pub transactions : List Transaction

-- The digests that the header checks call. `node_hash` is sha256d over two hex digests, and
-- `hash_number` is beToBigInt(fromHex(hash)).
pub record Hashes : Type 0 where
  pub txid : Transaction → Hex
  pub node_hash : Hex → Hex → Hex
  pub empty_root : Hex
  pub block_hash : BlockHeader → Hex
  pub hash_number : Hex → ℕ

abbrev pub max_block_txs : ℕ
max_block_txs = 4096

abbrev pub block_gas_limit : ℕ
block_gas_limit = 30_000_000

abbrev pub max_future_drift : ℕ
max_future_drift = 7200

-- The texts of `checkHeader`.
pub data HeaderError : Type 0 where
  no_transactions too_many_transactions no_coinbase second_coinbase : HeaderError
  merkle_mismatch too_far_ahead insufficient_work : HeaderError

-- `crashes` is the exception of `merkleRoot`, which leaves `checkHeader`.
pub data HeaderCheck : Type 0 where
  passes : HeaderCheck
  fails : HeaderError → HeaderCheck
  crashes : HeaderCheck

unfoldable pub compute_merkle_root : Hashes → List Transaction → Option Hex
compute_merkle_root h txs = merkle_root h.node_hash h.empty_root (map h.txid txs)

unfoldable pub meets_target : Hashes → Hex → ℕ → Bool
meets_target h hash bits = leb (h.hash_number hash) (bits_to_target bits)

-- The commitment, the time and the work of a block whose first transaction is the only coinbase.
check_commitments : Hashes → Block → ℕ → HeaderCheck
check_commitments h block now = elim (compute_merkle_root h block.transactions) [
  | none ↦ crashes
  | some expected ↦
      if not (expected === block.header.merkle_root)
      then fails merkle_mismatch
      else if ltb (now + max_future_drift) block.header.time
      then fails too_far_ahead
      else if not (meets_target h (h.block_hash block.header) block.header.bits)
      then fails insufficient_work
      else passes
]

unfoldable pub check_transactions : List Transaction → HeaderCheck
check_transactions [] = fails no_transactions
check_transactions (first ∷ rest) =
    if ltb max_block_txs (length (first ∷ rest))
    then fails too_many_transactions
    else if not (is_coinbase first.kind)
    then fails no_coinbase
    else if any (λ tx. is_coinbase tx.kind) rest
    then fails second_coinbase
    else passes

unfoldable pub check_header : Hashes → Block → ℕ → HeaderCheck
unfolding check_commitments
check_header h block now = elim (check_transactions block.transactions) [
  | fails e ↦ fails e
  | crashes ↦ crashes
  | passes ↦ check_commitments h block now
]
