-- ===== src/Tx.antt =====
-- Transactions, chain/src/tx.ts: their data. A text that holds a decimal integer is the integer that
-- `BigInt` reads in it, or `none` where `BigInt` throws.
pub mod Oracle
pub mod Check
pub mod Serialize
pub mod Build
use Prim.Native.String.{String}
use deckxcoin.Prelude.{ℕ, ◌*◌, Bool, true, false, Option, none, some, List, [], ◌∷◌}
use deckxcoin.Prelude.Int.{ℤ, pos}

abbrev pub Hex : Type 0
Hex = String

pub data TxKind : Type 0 where
  coinbase transfer deploy call : TxKind

pub record Cosign : Type 0 where
  pub pubkey : Hex
  pub signature : Hex

pub record TxInput : Type 0 where
  pub txid : Hex
  pub vout : ℕ
  pub pubkey : Hex
  pub signature : Hex
  pub sequence : ℕ
  pub cosign : Option Cosign
  pub preimage : Option Hex
  pub scalar : Option Hex

pub data OutputScript : Type 0 where
  p2pkh : OutputScript
  multisig2 : Hex → Hex → OutputScript
  htlc : Hex → ℕ → Hex → OutputScript
  ptlc : Hex → ℕ → Hex → OutputScript
  revocable : ℕ → Hex → OutputScript

pub record TxOutput : Type 0 where
  pub value : Option ℤ
  pub address : String
  pub script : Option OutputScript

pub record ContractPayload : Type 0 where
  pub code : Option Hex
  pub target : Option String
  pub calldata : List (Option ℤ)
  pub gas_limit : ℕ
  pub gas_price : Option ℤ
  pub nonce : ℕ

pub record Transaction : Type 0 where
  pub version : ℕ
  pub kind : TxKind
  pub inputs : List TxInput
  pub outputs : List TxOutput
  pub lock_time : ℕ
  pub contract : Option ContractPayload
  pub memo : Option String

pub record PrevOut : Type 0 where
  pub value : ℕ
  pub address : String
  pub script : Option OutputScript

abbrev pub max_money : ℕ
max_money = 21_000_000 * 100_000_000

abbrev pub is_coinbase : TxKind → Bool
is_coinbase TxKind.coinbase = true
is_coinbase _ = false

unfoldable pub coinbase_tx : String → ℕ → ℕ → String → Transaction
coinbase_tx to value height memo = record {
  version = 1;
  kind = TxKind.coinbase;
  inputs = [];
  outputs = record { value = some (pos value); address = to; script = none } ∷ [];
  lock_time = height;
  contract = none;
  memo = some memo;
}
