-- ===== src/Chain/Apply.antt =====
-- `applyTx` of chain/src/chain.ts. It changes the state only after its last refusal, so that no state
-- comes back with a refusal; what an exception leaves behind is a draft that its caller drops.
pub mod Coins
pub mod Conserves
pub mod Runs
pub mod Covenants
pub mod Outpoints
pub mod Locks
pub mod Effects
use deckxcoin.Prelude.{
  ℕ, ◌+◌, ◌-◌, ◌%◌, Bool, true, false, ◌&&◌, ◌||◌, not, Option, none, some, List, [], ◌∷◌, ltb,
  ◌==◌, map, if◌then◌else◌,
}
use deckxcoin.Prelude.Eq.{string_eq, nat_eq}
use deckxcoin.Block.Subsidy.{max_supply, block_subsidy, issuance_of}
use deckxcoin.Tx.{Hex, TxInput, TxOutput, Transaction, PrevOut, is_coinbase}
use deckxcoin.Tx.Oracle.{Oracle}
use deckxcoin.Tx.Check.{check_tx, is_call, is_deploy}
use deckxcoin.Tx.Check.Amounts.{amount, outputs_value}
use deckxcoin.State.{Utxo, WorldState, coinbase_maturity, add_utxo, get_utxo, spend_utxo}
use deckxcoin.Chain.Attempt.{
  Attempt, ◌>>=◌, ◌>>◌, fail_if, or_throw, or_fail, checked, TxContext, Receipt, coinbase_overpays,
  supply_cap, unknown_output, immature, relative_lock, absolute_lock, got, refuse, throws,
}
use deckxcoin.Chain.Contract.{Outcome, idle, run_contract, commit_effect, deployed}

abbrev pub utxo_of : Hex → ℕ → ℕ → Bool → TxOutput → Utxo
utxo_of id height vout coinbase out = record {
  txid = id;
  vout = vout;
  value = amount out.value;
  address = out.address;
  script = out.script;
  height = height;
  coinbase = coinbase;
}

-- `tx.outputs.forEach(… state.addUtxo …)`, from output `vout` on.
unfoldable pub add_outputs : Hex → ℕ → Bool → ℕ → List TxOutput → WorldState → Option WorldState
add_outputs id height coinbase vout [] s = some s
add_outputs id height coinbase vout (out ∷ rest) s =
    elim (add_utxo (utxo_of id height vout coinbase out) s) [
      | none ↦ none
      | some t ↦ add_outputs id height coinbase (vout + 1) rest t
    ]

-- `for (const input of tx.inputs) state.spendUtxo(input.txid, input.vout)`
unfoldable pub spend_inputs : List TxInput → WorldState → Option WorldState
spend_inputs [] s = some s
spend_inputs (input ∷ rest) s = elim (spend_utxo input.txid input.vout s) [
  | none ↦ none
  | some t ↦ spend_inputs rest t
]

-- The outputs that the inputs spend.
unfoldable pub resolve : ℕ → WorldState → List TxInput → Attempt (List Utxo)
resolve height s [] = got []
resolve height s (input ∷ rest) = do
  u ← or_fail (get_utxo input.txid input.vout s) unknown_output
  fail_if (u.coinbase && ltb height (u.height + coinbase_maturity)) immature
  us ← resolve height s rest
  got (u ∷ us)

abbrev pub prev_out : Utxo → PrevOut
prev_out u = record { value = u.value; address = u.address; script = u.script }

-- `age < minAge`, with both sides moved up by the height of the output.
abbrev pub too_young : ℕ → TxInput → Utxo → Bool
too_young height input u =
    not (input.sequence == 0xffffffff) && ltb height (u.height + input.sequence % 65_536)

unfoldable pub relative_locks : ℕ → List TxInput → List Utxo → Attempt (Unit {0})
relative_locks height [] us = got tt
relative_locks height (input ∷ rest) [] = throws
relative_locks height (input ∷ rest) (u ∷ us) = do
  fail_if (too_young height input u) relative_lock
  relative_locks height rest us

-- All that may refuse a transaction that is no coinbase; its fee and its contract's outcome.
unfoldable pub examine : Oracle → Transaction → TxContext → WorldState → Attempt (ℕ × Outcome)
examine o tx ctx s = do
  us ← resolve ctx.height s tx.inputs
  fee ← checked (check_tx o tx (map prev_out us))
  relative_locks ctx.height tx.inputs us
  fail_if (ltb 0 tx.lock_time && ltb ctx.height tx.lock_time) absolute_lock
  outcome ←
      if is_deploy tx.kind || is_call tx.kind then run_contract o tx ctx us fee s else got idle
  got (fee, outcome)

-- The coins move: the inputs are spent, and the outputs are added.
unfoldable pub move_coins : Oracle → Transaction → ℕ → Bool → WorldState → Option WorldState
move_coins o tx height coinbase s = elim (spend_inputs tx.inputs s) [
  | none ↦ none
  | some t ↦ add_outputs (o.txid tx) height coinbase 0 tx.outputs t
]

unfoldable pub apply_coinbase :
    Oracle → Transaction → TxContext → WorldState → Attempt (Receipt × WorldState)
apply_coinbase o tx ctx s = do
  _ ← checked (check_tx o tx [])
  let paid = outputs_value tx.outputs
  fail_if (ltb (block_subsidy ctx.height + ctx.available_fees) paid) coinbase_overpays
  fail_if
      (ltb ctx.available_fees paid
        && ltb max_supply (issuance_of ctx.height + (paid - ctx.available_fees)))
      supply_cap
  t ← or_throw (add_outputs (o.txid tx) ctx.height true 0 tx.outputs s)
  got (record { fee = 0; gas_used = 0; logs = []; contract_address = none }, t)

unfoldable pub apply_spend :
    Oracle → Transaction → TxContext → WorldState → Attempt (Receipt × WorldState)
apply_spend o tx ctx s = do
  examined ← examine o tx ctx s
  let (fee, outcome) = examined
  written ← or_throw (commit_effect outcome.effect s)
  t ← or_throw (move_coins o tx ctx.height false written)
  got (
    record {
      fee = fee;
      gas_used = outcome.gas_used;
      logs = outcome.logs;
      contract_address = deployed outcome.effect;
    },
    t,
  )

unfoldable pub apply_tx :
    Oracle → Transaction → TxContext → WorldState → Attempt (Receipt × WorldState)
apply_tx o tx ctx s =
    if is_coinbase tx.kind then apply_coinbase o tx ctx s else apply_spend o tx ctx s
