-- ===== src/Tx/Build.antt =====
-- The constructors and the signing of transactions, chain/src/tx.ts.
use Prim.Native.String.{String}
use deckxcoin.Prelude.{ℕ, zero, suc, Option, none, some, List, [], ◌∷◌, map}
use deckxcoin.Tx.{Hex, TxKind, TxInput, TxOutput, Cosign, Transaction, PrevOut}
use deckxcoin.Tx.Oracle.{Oracle, Bytes}

pub record KeyPair : Type 0 where
  pub private_key : Bytes
  pub public_key : Hex
  -- toHex(point)
  pub point : Hex
  pub address : String

-- `sign(digest, privateKey)` of chain/src/crypto.ts.
abbrev pub Sign : Type 0
Sign = Bytes → Bytes → Hex

pub record InputSpec : Type 0 where
  pub txid : Hex
  pub vout : ℕ
  pub sequence : Option ℕ

pub record TransferSpec : Type 0 where
  pub inputs : List InputSpec
  pub outputs : List TxOutput
  pub lock_time : Option ℕ
  pub memo : Option String

abbrev final_sequence : Option ℕ → ℕ
final_sequence none = 0xffffffff
final_sequence (some sequence) = sequence

abbrev or_zero : Option ℕ → ℕ
or_zero none = 0
or_zero (some n) = n

abbrev pub unsigned_input : InputSpec → TxInput
unsigned_input i = record {
  txid = i.txid;
  vout = i.vout;
  pubkey = "";
  signature = "";
  sequence = final_sequence i.sequence;
  cosign = none;
  preimage = none;
  scalar = none;
}

unfoldable pub transfer_tx : TransferSpec → Transaction
transfer_tx spec = record {
  version = 1;
  kind = TxKind.transfer;
  inputs = map unsigned_input spec.inputs;
  outputs = spec.outputs;
  lock_time = or_zero spec.lock_time;
  contract = none;
  memo = spec.memo;
}

-- `inputs.map((input, i) => i === index ? change(input) : input)`
abbrev pub change_at : ℕ → (TxInput → TxInput) → List TxInput → List TxInput
change_at index change [] = []
change_at zero change (input ∷ rest) = change input ∷ rest
change_at (suc index) change (input ∷ rest) = input ∷ change_at index change rest

unfoldable pub sign_input : Oracle → Sign → Transaction → ℕ → KeyPair → PrevOut → Transaction
sign_input o sign tx index key prev =
    let digest = o.sighash tx index prev.value prev.address in
    record tx {
      inputs =
          change_at index
            (λ input. record input {
              pubkey = key.public_key;
              signature = sign digest key.private_key;
            })
            tx.inputs;
    }

unfoldable pub cosign_input : Oracle → Sign → Transaction → ℕ → KeyPair → PrevOut → Transaction
cosign_input o sign tx index key prev =
    let digest = o.sighash tx index prev.value prev.address in
    let half : Cosign = record {
      pubkey = key.public_key;
      signature = sign digest key.private_key;
    } in
    record tx { inputs = change_at index (λ input. record input { cosign = some half }) tx.inputs }

unfoldable pub with_preimage : Transaction → ℕ → Hex → Transaction
with_preimage tx index preimage = record tx {
  inputs = change_at index (λ input. record input { preimage = some preimage }) tx.inputs;
}
