-- ===== src/Tx/Oracle.antt =====
-- The functions of chain/src/crypto.ts and of the hash and curve libraries that validation calls, as
-- an argument. A function that may throw returns an option.
use Prim.Native.String.{String}
use deckxcoin.Prelude.{ℕ, Bool, Option, List}
use deckxcoin.Tx.{Hex, Transaction}

abbrev pub Bytes : Type 0
Bytes = List ℕ

pub record Oracle : Type 0 where
  pub from_hex : Hex → Option Bytes
  -- toHex(sha256(bytes))
  pub sha256_hex : Bytes → Hex
  -- toHex(pointFromSecret(bytes)), which throws on a scalar out of range
  pub point_hex : Bytes → Option Hex
  pub address_from_pubkey : Bytes → String
  pub is_contract_address : String → Bool
  pub is_valid_address : String → Bool
  pub is_canonical_address : String → Bool
  pub contract_address : String → ℕ → String
  pub verify : Hex → Bytes → Bytes → Bool
  pub sighash : Transaction → ℕ → ℕ → String → Bytes
  pub txid : Transaction → Hex
  -- beToBigInt(sha256(beBytes(v, 32)))
  pub sha256_word : ℕ → ℕ
  pub address_word : String → ℕ
