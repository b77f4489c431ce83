-- ===== src/Tx/Check.antt =====
-- `checkTx` of chain/src/tx.ts.
pub mod Inputs
pub mod Amounts
use Prim.Native.String.{String, len}
use deckxcoin.Prelude.{
  ℕ, ◌+◌, ◌-◌, ◌*◌, ◌%◌, Bool, true, false, ◌&&◌, ◌||◌, not, Option, none, some, List, [], ◌∷◌, ltb,
  ◌==◌, length, any, if◌then◌else◌,
}
use deckxcoin.Prelude.Eq.{◌===◌, string_eq, nat_eq, pair_eq}
use deckxcoin.Prelude.Int.{ℤ, pos, negsuc}
use deckxcoin.Tx.{
  Hex, TxKind, TxInput, Cosign, OutputScript, p2pkh, multisig2, htlc, ptlc, revocable, TxOutput,
  ContractPayload, Transaction, PrevOut, max_money, is_coinbase,
}
use deckxcoin.Tx.Oracle.{Oracle, Bytes}

-- The texts that `bad` is given.
pub data TxError : Type 0 where
  unsupported_version no_outputs memo_too_long : TxError
  value_not_integer negative_value value_exceeds_max invalid_address output_sum_exceeds_max :
      TxError
  coinbase_with_inputs no_inputs prev_outs_mismatch duplicate_input : TxError
  covenant_needs_call covenant_wrong_target bad_pubkey_length pubkey_mismatch : TxError
  cosignature_missing wrong_cosigners bad_cosignature bad_preimage bad_scalar : TxError
  wrong_refund_key refund_too_early revocation_too_early bad_signature : TxError
  input_sum_exceeds_max outputs_exceed_inputs : TxError
  no_payload no_gas gas_limit_too_high negative_gas_price gas_not_covered no_code no_target :
      TxError
  invalid_target : TxError

-- `thrown`: an exception that `checkTx` does not catch.
pub data Checked {ℓ} (A : Type ℓ) : Type ℓ where
  valid : A → Checked A
  bad : TxError → Checked A
  thrown : Checked A

infixl 5 ◌>>=◌ ◌>>◌
abbrev pub ◌>>=◌ {ℓ κ} : {A : Type ℓ} {B : Type κ} → Checked A → (A → Checked B) → Checked B
valid a >>= f = f a
bad e >>= f = bad e
thrown >>= f = thrown

abbrev pub ◌>>◌ {ℓ} : {B : Type ℓ} → Checked (Unit {0}) → Checked B → Checked B
m >> k = m >>= λ _. k

abbrev pub refuse_if : Bool → TxError → Checked (Unit {0})
refuse_if true e = bad e
refuse_if false e = valid tt

-- A text in a test: the empty one is falsy.
abbrev pub given : Option String → Bool
given none = false
given (some s) = not (s === "")

abbrev pub or_throw {ℓ} : {A : Type ℓ} → Option A → Checked A
or_throw none = thrown
or_throw (some a) = valid a

-- A value of an output, read by `BigInt`.
abbrev pub check_value : Option ℤ → Checked ℕ
check_value none = bad value_not_integer
check_value (some (negsuc n)) = bad negative_value
check_value (some (pos v)) = valid v

-- The loop over the outputs, from `sum` on.
unfoldable pub check_outputs : Oracle → List TxOutput → ℕ → Checked ℕ
check_outputs o [] sum = valid sum
check_outputs o (out ∷ rest) sum = do
  value ← check_value out.value
  refuse_if (ltb max_money value) value_exceeds_max
  refuse_if (not (o.is_canonical_address out.address)) invalid_address
  refuse_if (ltb max_money (sum + value)) output_sum_exceeds_max
  check_outputs o rest (sum + value)

-- The outpoints of the inputs, against those seen before.
unfoldable pub check_distinct : List TxInput → List (Hex × ℕ) → Checked (Unit {0})
check_distinct [] seen = valid tt
check_distinct (input ∷ rest) seen = do
  refuse_if (any (λ key. key === (input.txid, input.vout)) seen) duplicate_input
  check_distinct rest ((input.txid, input.vout) ∷ seen)

-- `prev.address` as the code tests it against the owner's key.
abbrev pub owner_key : Oracle → Bytes → PrevOut → Bool
owner_key o pubkey prev = o.address_from_pubkey pubkey === prev.address

-- Two pairs of keys, both sorted, are equal if they are equal in one order or the other.
abbrev pub same_keys : Hex → Hex → Hex → Hex → Bool
same_keys p q a b = (p === a && q === b) || (p === b && q === a)

unfoldable pub check_cosign :
    Oracle → Bytes → TxInput → Hex → Hex → Option Cosign → Checked (Unit {0})
check_cosign o digest input key_a key_b none = bad cosignature_missing
check_cosign o digest input key_a key_b (some c) = do
  refuse_if (not (same_keys input.pubkey c.pubkey key_a key_b)) wrong_cosigners
  key ← or_throw (o.from_hex c.pubkey)
  refuse_if (not (o.verify c.signature digest key)) bad_cosignature

-- The timeout branch of `htlc` and `ptlc`.
abbrev pub check_refund : Transaction → TxInput → ℕ → Hex → Checked (Unit {0})
check_refund tx input timeout refund_key = do
  refuse_if (not (input.pubkey === refund_key)) wrong_refund_key
  refuse_if (ltb tx.lock_time timeout) refund_too_early

-- Whether the preimage opens the hash; an absent or empty one opens nothing.
unfoldable pub opens_hash : Oracle → Option Hex → Hex → Checked Bool
opens_hash o none hash = valid false
opens_hash o (some preimage) hash =
    if preimage === ""
    then valid false
    else do bytes ← or_throw (o.from_hex preimage); valid (o.sha256_hex bytes === hash)

-- Whether the scalar opens the point; every exception counts as no.
unfoldable pub opens_point : Oracle → Option Hex → Hex → Bool
opens_point o none point = false
opens_point o (some scalar) point = if scalar === "" then false else elim (o.from_hex scalar) [
  | none ↦ false
  | some bytes ↦ elim (o.point_hex bytes) [ none ↦ false | some p ↦ p === point ]
]

-- The spending predicate of a key-locked output.
unfoldable pub check_script :
    Oracle → Transaction → TxInput → PrevOut → Bytes → Bytes → OutputScript → Checked (Unit {0})
unfolding check_cosign opens_hash opens_point
check_script o tx input prev pubkey digest p2pkh =
    refuse_if (not (owner_key o pubkey prev)) pubkey_mismatch
check_script o tx input prev pubkey digest (multisig2 key_a key_b) =
    check_cosign o digest input key_a key_b input.cosign
check_script o tx input prev pubkey digest (htlc hash timeout refund_key) = do
  claimed ← opens_hash o input.preimage hash
  if claimed then refuse_if (not (owner_key o pubkey prev)) pubkey_mismatch else do
    refuse_if (given input.preimage) bad_preimage
    check_refund tx input timeout refund_key
check_script o tx input prev pubkey digest (ptlc point timeout refund_key) =
    if opens_point o input.scalar point
    then refuse_if (not (owner_key o pubkey prev)) pubkey_mismatch
    else do refuse_if (given input.scalar) bad_scalar; check_refund tx input timeout refund_key
check_script o tx input prev pubkey digest (revocable delay revocation_key) =
    if input.pubkey === revocation_key then valid tt else do
      refuse_if (not (owner_key o pubkey prev)) pubkey_mismatch
      refuse_if (ltb (input.sequence % 65_536) delay) revocation_too_early

abbrev pub script_of : Option OutputScript → OutputScript
script_of none = p2pkh
script_of (some script) = script

-- `tx.contract?.target`
abbrev pub target_of : Option ContractPayload → Option String
target_of none = none
target_of (some c) = c.target

abbrev pub is_call : TxKind → Bool
is_call TxKind.call = true
is_call _ = false

abbrev pub is_deploy : TxKind → Bool
is_deploy TxKind.deploy = true
is_deploy _ = false

abbrev pub equals_target : Option String → String → Bool
equals_target none address = false
equals_target (some target) address = target === address

-- The covenant rule before the contract runs.
unfoldable pub check_covenant : Transaction → PrevOut → Checked (Unit {0})
check_covenant tx prev = do
  refuse_if (not (is_call tx.kind)) covenant_needs_call
  refuse_if (not (equals_target (target_of tx.contract) prev.address)) covenant_wrong_target

unfoldable pub check_key : Oracle → Transaction → ℕ → TxInput → PrevOut → Checked (Unit {0})
unfolding check_script
check_key o tx i input prev = do
  pubkey ← or_throw (o.from_hex input.pubkey)
  refuse_if (not (length pubkey == 32)) bad_pubkey_length
  let digest = o.sighash tx i prev.value prev.address
  check_script o tx input prev pubkey digest (script_of prev.script)
  refuse_if (not (o.verify input.signature digest pubkey)) bad_signature

unfoldable pub check_input : Oracle → Transaction → ℕ → TxInput → PrevOut → Checked (Unit {0})
unfolding check_covenant check_key
check_input o tx i input prev =
    if o.is_contract_address prev.address
    then check_covenant tx prev
    else check_key o tx i input prev

-- The loop over the inputs and the outputs that they spend, from input `i` and `sum` on.
unfoldable pub check_inputs : Oracle → Transaction → ℕ → List TxInput → List PrevOut → ℕ → Checked ℕ
check_inputs o tx i [] prevs sum = valid sum
check_inputs o tx i (input ∷ inputs) [] sum = thrown
check_inputs o tx i (input ∷ inputs) (prev ∷ prevs) sum = do
  check_input o tx i input prev
  check_inputs o tx (i + 1) inputs prevs (sum + prev.value)

abbrev check_price : Option ℤ → Checked ℕ
check_price none = thrown
check_price (some (negsuc n)) = bad negative_gas_price
check_price (some (pos n)) = valid n

check_target : Oracle → Option String → Checked (Unit {0})
check_target o none = bad no_target
check_target o (some target) = do
  refuse_if (target === "") no_target
  refuse_if (not (o.is_canonical_address target)) invalid_target

-- The payload of a deploy or a call; `fee` must cover the whole gas limit.
unfoldable pub check_payload : Oracle → TxKind → ℕ → Option ContractPayload → Checked (Unit {0})
unfolding check_target
check_payload o kind fee none = bad no_payload
check_payload o kind fee (some c) = do
  refuse_if (c.gas_limit == 0) no_gas
  refuse_if (ltb 10_000_000 c.gas_limit) gas_limit_too_high
  gas_price ← check_price c.gas_price
  refuse_if (ltb fee (c.gas_limit * gas_price)) gas_not_covered
  refuse_if (is_deploy kind && not (given c.code)) no_code
  if is_call kind then check_target o c.target else valid tt

abbrev memo_bytes : Option String → ℕ
memo_bytes none = 0
memo_bytes (some text) = len text

-- What every transaction is checked for; the sum of the outputs.
unfoldable pub check_common : Oracle → Transaction → Checked ℕ
check_common o tx = do
  refuse_if (not (tx.version == 1)) unsupported_version
  refuse_if (length tx.outputs == 0) no_outputs
  refuse_if (ltb 80 (memo_bytes tx.memo)) memo_too_long
  check_outputs o tx.outputs 0

-- The rest for what is no coinbase; the fee.
unfoldable pub check_spend : Oracle → Transaction → List PrevOut → ℕ → Checked ℕ
unfolding check_distinct check_inputs check_payload
check_spend o tx prevs output_sum = do
  refuse_if (length tx.inputs == 0) no_inputs
  refuse_if (not (length prevs == length tx.inputs)) prev_outs_mismatch
  check_distinct tx.inputs []
  input_sum ← check_inputs o tx 0 tx.inputs prevs 0
  refuse_if (ltb max_money input_sum) input_sum_exceeds_max
  refuse_if (ltb input_sum output_sum) outputs_exceed_inputs
  let fee = input_sum - output_sum
  if is_deploy tx.kind || is_call tx.kind then check_payload o tx.kind fee tx.contract else valid tt
  valid fee

-- The fee that a valid transaction pays.
unfoldable pub check_tx : Oracle → Transaction → List PrevOut → Checked ℕ
check_tx o tx prevs = do
  output_sum ← check_common o tx
  if is_coinbase tx.kind
      then (do refuse_if (not (length tx.inputs == 0)) coinbase_with_inputs; valid 0)
      else check_spend o tx prevs output_sum
