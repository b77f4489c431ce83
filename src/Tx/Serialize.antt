-- ===== src/Tx/Serialize.antt =====
-- `serializeTx` of chain/src/tx.ts. An exception is `none`.
use Prim.Native.String.{String}
use deckxcoin.Prelude.{
  ℕ, zero, suc, ◌/◌, ◌%◌, Bool, false, Option, none, some, List, [], ◌∷◌, ◌++◌, length, ◌==◌,
  if◌then◌else◌, ◌≡◌, refl, map, arith,
}
use deckxcoin.Prelude.Int.{ℤ, pos, negsuc}
use deckxcoin.Tx.{
  Hex, TxKind, Cosign, TxInput, OutputScript, TxOutput, ContractPayload, Transaction,
}
use deckxcoin.Tx.Oracle.{Bytes}

-- The texts of the language: UTF-8, `JSON.stringify`, and the hex of chain/src/crypto.ts.
pub record Encoder : Type 0 where
  pub from_hex : Hex → Option Bytes
  pub utf8 : String → Bytes
  pub script_json : OutputScript → String
  pub contract_json : ContractPayload → String

be_loop : ℕ → ℕ → Bytes → Option Bytes
be_loop zero v out = if v == 0 then some out else none
be_loop (suc n) v out = be_loop n (v / 256) (v % 256 ∷ out)

unfoldable pub be_bytes : ℕ → ℕ → Option Bytes
unfolding be_loop
be_bytes value len = be_loop len value []

be_bytes_of : Option ℤ → ℕ → Option Bytes
unfolding be_bytes
be_bytes_of none len = none
be_bytes_of (some (pos v)) len = be_bytes v len
be_bytes_of (some (negsuc v)) len = none

-- The parts one behind the other, if none of them throws.
unfoldable pub concat_all : List (Option Bytes) → Option Bytes
concat_all [] = some []
concat_all (none ∷ rest) = none
concat_all (some part ∷ rest) = elim (concat_all rest) [
  | none ↦ none
  | some bytes ↦ some (part ++ bytes)
]

len_prefixed : Option Bytes → Option Bytes
unfolding be_bytes concat_all
len_prefixed none = none
len_prefixed (some data_) = concat_all (be_bytes (length data_) 4 ∷ some data_ ∷ [])

kind_text : TxKind → String
kind_text TxKind.coinbase = "coinbase"
kind_text TxKind.transfer = "transfer"
kind_text TxKind.deploy = "deploy"
kind_text TxKind.call = "call"

module _ (enc : Encoder) where
  text : String → Option Bytes
  unfolding len_prefixed
  text t = len_prefixed (some (enc.utf8 t))

  text_or_empty : Option String → Option Bytes
  unfolding text
  text_or_empty none = text ""
  text_or_empty (some t) = text t

  cosign_text : Option Cosign → Option Bytes
  unfolding text len_prefixed
  cosign_text none = text ""
  cosign_text (some c) = len_prefixed (some (enc.utf8 c.pubkey ++ 58 ∷ enc.utf8 c.signature))

  witness_parts : TxInput → List (Option Bytes)
  unfolding len_prefixed cosign_text text_or_empty
  witness_parts input =
      len_prefixed (enc.from_hex input.pubkey)
      ∷ len_prefixed (enc.from_hex input.signature)
      ∷ cosign_text input.cosign
      ∷ text_or_empty input.preimage
      ∷ text_or_empty input.scalar
      ∷ []

  input_parts : Bool → List TxInput → List (Option Bytes)
  unfolding be_bytes witness_parts
  input_parts with_signatures [] = []
  input_parts with_signatures (input ∷ rest) =
      enc.from_hex input.txid
        ∷ be_bytes input.vout 4
        ∷ be_bytes input.sequence 4
        ∷ (if with_signatures then witness_parts input else [])
      ++ input_parts with_signatures rest

  script_text : Option OutputScript → Option Bytes
  unfolding text
  script_text none = text ""
  script_text (some script) = text (enc.script_json script)

  output_parts : List TxOutput → List (Option Bytes)
  unfolding be_bytes_of text script_text
  output_parts [] = []
  output_parts (out ∷ rest) =
      be_bytes_of out.value 8 ∷ text out.address ∷ script_text out.script ∷ output_parts rest

  contract_text : Option ContractPayload → Option Bytes
  unfolding text
  contract_text none = text ""
  contract_text (some c) = text (enc.contract_json c)

  unfoldable pub serialize_tx : Transaction → Bool → Option Bytes
  unfolding be_bytes text kind_text input_parts output_parts contract_text text_or_empty concat_all
  serialize_tx tx with_signatures = concat_all (
      (be_bytes tx.version 4 ∷ text (kind_text tx.kind) ∷ be_bytes (length tx.inputs) 4 ∷ [])
      ++ input_parts with_signatures tx.inputs
      ++ be_bytes (length tx.outputs) 4 ∷ output_parts tx.outputs
      ++ be_bytes tx.lock_time 4 ∷ contract_text tx.contract ∷ text_or_empty tx.memo ∷ [])

  -- The parts of an input that its transaction's id commits to.
  abbrev pub identity : TxInput → Hex × ℕ × ℕ
  identity input = (input.txid, input.vout, input.sequence)

  input_parts-identity :
      (xs ys : List TxInput)
      → map identity xs ≡ map identity ys
      → input_parts false xs ≡ input_parts false ys
  unfolding input_parts
  input_parts-identity [] [] h = refl
  input_parts-identity [] (y ∷ ys) h = cc
  input_parts-identity (x ∷ xs) [] h = cc
  input_parts-identity (x ∷ xs) (y ∷ ys) h = ground (arith, input_parts-identity xs ys)

  length-identity :
      (xs ys : List TxInput) → map identity xs ≡ map identity ys → length xs ≡ length ys
  length-identity [] [] h = refl
  length-identity [] (y ∷ ys) h = cc
  length-identity (x ∷ xs) [] h = cc
  length-identity (x ∷ xs) (y ∷ ys) h = ground (arith, length-identity xs ys)

  -- Two transactions that differ at most in their inputs' keys, signatures, cosignatures, preimages and
  -- scalars have one encoding without signatures, the one that the id and the signed digests are over.
  pub serialize_tx-witness :
      (tx : Transaction) (inputs : List TxInput)
      → map identity inputs ≡ map identity tx.inputs
      → serialize_tx (record tx { inputs = inputs }) false ≡ serialize_tx tx false
  unfolding serialize_tx
  serialize_tx-witness tx inputs h =
      rw (input_parts-identity inputs tx.inputs h) (rw (length-identity inputs tx.inputs h) refl)
