-- ===== src/Tests/Toy.antt =====
-- Digests and keys that can be computed by hand, and a small chain over them.
use Prim.Native.String.{String}
use deckxcoin.Prelude.{ℕ, Option, none, some, [], ◌∷◌, if◌then◌else◌, true, false}
use deckxcoin.Prelude.Eq.{◌===◌, string_eq}
use deckxcoin.Prelude.Int.{pos}
use deckxcoin.Block.Header.{Hashes}
use deckxcoin.Tx.{Hex, TxKind, TxInput, TxOutput, Transaction, OutputScript}
use deckxcoin.Tx.Oracle.{Oracle, Bytes}
use deckxcoin.State.{Utxo, WorldState}
use deckxcoin.Chain.Attempt.{TxContext}

abbrev pub key_bytes : Bytes
key_bytes =
    1 ∷ 1 ∷ 1 ∷ 1 ∷ 1 ∷ 1 ∷ 1 ∷ 1 ∷ 1 ∷ 1 ∷ 1 ∷ 1 ∷ 1 ∷ 1 ∷ 1 ∷ 1 ∷ 1 ∷ 1 ∷ 1 ∷ 1 ∷ 1 ∷ 1 ∷ 1 ∷ 1
    ∷ 1 ∷ 1 ∷ 1 ∷ 1 ∷ 1 ∷ 1 ∷ 1 ∷ 1 ∷ []

-- PUSH1 1 PUSH1 7 PUSH1 2 RETURN: the words 1 and 7.
abbrev pub approving : Bytes
approving = 0x60 ∷ 1 ∷ 0x60 ∷ 7 ∷ 0x60 ∷ 2 ∷ 0xf3 ∷ []

-- A transaction is known by its memo, every key is alice's, every signature verifies.
abbrev pub toy : Oracle
toy = record {
  from_hex = λ text. if text === "approving" then some approving else some key_bytes;
  sha256_hex = λ bytes. "digest";
  point_hex = λ bytes. some "point";
  address_from_pubkey = λ key. "alice";
  is_contract_address = λ address. address === "vault";
  is_valid_address = λ address. true;
  is_canonical_address = λ address. true;
  contract_address = λ creator nonce. "vault";
  verify = λ signature digest key. true;
  sighash = λ tx index value address. [];
  txid = λ tx. elim tx.memo [ none ↦ "" | some text ↦ text ];
  sha256_word = λ v. v;
  address_word = λ address. if address === "bob" then 7 else 0;
}

abbrev pub toy_hashes : Hashes
toy_hashes = record {
  txid = toy.txid;
  node_hash = λ a b. a;
  empty_root = "empty";
  block_hash = λ header. header.merkle_root;
  hash_number = λ hash. 0;
}

abbrev pub to : String → ℕ → TxOutput
to address value = record { value = some (pos value); address = address; script = none }

abbrev pub from : Hex → TxInput
from id = record {
  txid = id;
  vout = 0;
  pubkey = "key";
  signature = "signature";
  sequence = 3;
  cosign = none;
  preimage = none;
  scalar = none;
}

abbrev pub payment : Hex → Hex → TxOutput → Transaction
payment id spent out = record {
  version = 1;
  kind = TxKind.transfer;
  inputs = from spent ∷ [];
  outputs = out ∷ [];
  lock_time = 0;
  contract = none;
  memo = some id;
}

abbrev pub coin : Hex → String → ℕ → Option OutputScript → Utxo
coin id address value script = record {
  txid = id;
  vout = 0;
  value = value;
  address = address;
  script = script;
  height = 1;
  coinbase = false;
}

abbrev pub holding : Utxo → WorldState
holding u = record { utxos = ((u.txid, u.vout), u) ∷ []; contracts = []; nonces = [] }

abbrev pub at_height : ℕ → ℕ → TxContext
at_height height fees = record { height = height; time = 0; available_fees = fees }
