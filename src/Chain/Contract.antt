-- ===== src/Chain/Contract.antt =====
-- The part of `applyTx` of chain/src/chain.ts that runs the contract of a deploy or of a call.
use Prim.Native.String.{String}
use deckxcoin.Prelude.{
  ℕ, zero, suc, ◌+◌, ◌*◌, Bool, true, false, ◌&&◌, not, Option, none, some, List, [], ◌∷◌, ltb,
  ◌==◌, any, if◌then◌else◌,
}
use deckxcoin.Prelude.Eq.{◌===◌, string_eq, nat_eq}
use deckxcoin.Prelude.Int.{ℤ}
use deckxcoin.Vm.{Storage, VmLog, VmResult}
use deckxcoin.Vm.Run.{execute}
use deckxcoin.Tx.{Hex, TxOutput, ContractPayload, Transaction}
use deckxcoin.Tx.Oracle.{Oracle}
use deckxcoin.Tx.Check.{is_deploy}
use deckxcoin.Tx.Check.Amounts.{amount}
use deckxcoin.State.{
  Utxo, WorldState, ContractAccount, balance_of, put_contract, get_contract, set_storage, nonce_of,
  bump_nonce,
}
use deckxcoin.Chain.Attempt.{
  ApplyError, Attempt, ◌>>=◌, ◌>>◌, fail_if, or_throw, or_fail, TxContext, contract_exists,
  nonce_mismatch, no_contract, gas_not_covered, vm_failed, covenant_refused, recipient_mismatch,
  got, refuse,
}

-- The first input that a key unlocks; else the first input; else the empty text.
key_locked : Oracle → List Utxo → Option String
key_locked o [] = none
key_locked o (u ∷ us) =
    let rest = key_locked o us in if o.is_contract_address u.address then rest else some u.address

abbrev first_address : List Utxo → String
first_address [] = ""
first_address (u ∷ us) = u.address

unfoldable pub spender_of : Oracle → List Utxo → String
unfolding key_locked
spender_of o us = elim (key_locked o us) [ none ↦ first_address us | some a ↦ a ]

unfoldable pub value_to : String → List TxOutput → ℕ
value_to target [] = 0
value_to target (out ∷ rest) =
    (if out.address === target then amount out.value else 0) + value_to target rest

-- `payload.calldata.map((w) => BigInt(w))`
pub calldata_of : List (Option ℤ) → Option (List ℤ)
calldata_of [] = some []
calldata_of (none ∷ ws) = none
calldata_of (some w ∷ ws) = elim (calldata_of ws) [ none ↦ none | some rest ↦ some (w ∷ rest) ]

-- What the contract part has decided: the account to write, and whether its nonce is bumped.
pub data Effect : Type 0 where
  no_effect : Effect
  deploys : ContractAccount → Effect
  writes : String → Storage → Effect

pub record Outcome : Type 0 where
  pub gas_used : ℕ
  pub logs : List VmLog
  pub effect : Effect

abbrev pub idle : Outcome
idle = record { gas_used = 0; logs = []; effect = no_effect }

abbrev pub word_at : List ℕ → ℕ → ℕ
word_at [] i = 0
word_at (w ∷ ws) zero = w
word_at (w ∷ ws) (suc i) = word_at ws i

abbrev pub refuse_if : Bool → ApplyError → ℕ → Attempt (Unit {0})
refuse_if true e fee = refuse e fee 0
refuse_if false e fee = got tt

-- A contract-locked input needs a non-zero first word, and an output to the second, if it is given.
unfoldable pub authorise : Oracle → Transaction → List Utxo → ℕ → List ℕ → Attempt (Unit {0})
authorise o tx us fee words =
    if any (λ u. o.is_contract_address u.address) us
    then (do
      refuse_if (word_at words 0 == 0) covenant_refused fee
      let declared = word_at words 1
      refuse_if
          (not (declared == 0)
            && not (any (λ out. o.address_word out.address == declared) tx.outputs))
          recipient_mismatch fee)
    else got tt

-- Where the code comes from, with the address and the storage that it runs on.
pub record Program : Type 0 where
  pub target : String
  pub code : Hex
  pub storage : Storage

unfoldable pub load_program :
    Oracle → Transaction → ContractPayload → String → WorldState → Attempt Program
load_program o tx payload spender s =
    if is_deploy tx.kind
    then (do
      let target = o.contract_address spender payload.nonce
      fail_if (elim (get_contract target s) [ none ↦ false | some _ ↦ true ]) contract_exists
      fail_if (not (nonce_of spender s == payload.nonce)) nonce_mismatch
      code ← or_throw payload.code
      got (record { target = target; code = code; storage = [] }))
    else do
      target ← or_throw payload.target
      account ← or_fail (get_contract target s) no_contract
      got (record { target = target; code = account.code; storage = account.storage })

unfoldable pub effect_of : Transaction → String → ℕ → Program → VmResult → Effect
effect_of tx spender height program vm =
    if is_deploy tx.kind
    then deploys (record {
      address = program.target;
      code = program.code;
      storage = vm.storage;
      deployed_at = height;
      deployer = spender;
    })
    else writes program.target vm.storage

-- The settlement after the run, for `gas_price` zaps a unit.
unfoldable pub settle : Oracle → Transaction → List Utxo → ℕ → ℕ → VmResult → Attempt (Unit {0})
settle o tx us fee gas_price vm = do
  fail_if (ltb fee (vm.gas_used * gas_price)) gas_not_covered
  if vm.ok
      then authorise o tx us fee vm.return_value
      else refuse (vm_failed vm.error) fee vm.gas_used

-- The contract part, for a deploy or a call.
unfoldable pub run_contract :
    Oracle → Transaction → TxContext → List Utxo → ℕ → WorldState → Attempt Outcome
unfolding load_program calldata_of settle effect_of
run_contract o tx ctx us fee s = do
  payload ← or_throw tx.contract
  let spender = spender_of o us
  program ← load_program o tx payload spender s
  code ← or_throw (o.from_hex program.code)
  calldata ← or_throw (calldata_of payload.calldata)
  vm ← or_throw (
      execute o.sha256_word o.address_word code
        (record {
          address = program.target;
          caller = spender;
          call_value = value_to program.target tx.outputs;
          calldata = calldata;
          block_number = ctx.height;
          block_time = ctx.time;
          gas_limit = payload.gas_limit;
          balance_of = λ a. balance_of a s;
        })
        program.storage)
  settle o tx us fee (amount payload.gas_price) vm
  got (record {
    gas_used = vm.gas_used;
    logs = vm.logs;
    effect = effect_of tx spender ctx.height program vm;
  })

unfoldable pub commit_effect : Effect → WorldState → Option WorldState
commit_effect no_effect s = some s
commit_effect (deploys account) s = some (bump_nonce account.deployer (put_contract account s))
commit_effect (writes target storage) s = set_storage target storage s

unfoldable pub deployed : Effect → Option String
deployed no_effect = none
deployed (deploys account) = some account.address
deployed (writes target storage) = none
