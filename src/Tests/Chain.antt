-- ===== src/Tests/Chain.antt =====
-- Transactions and blocks of a small chain.
use deckxcoin.Prelude.{◌+◌, ◌≤◌, ◌≡◌, refl, true, none, some, [], ◌∷◌, arith}
use deckxcoin.Prelude.Eq.{string_eq, nat_eq, pair_eq}
use deckxcoin.Prelude.JsMap.{IsMap}
use deckxcoin.Prelude.Int.{pos}
use deckxcoin.Block.Subsidy.{block_subsidy}
use deckxcoin.Tx.{
  Hex, TxKind, TxInput, TxOutput, Transaction, OutputScript, revocable, coinbase_tx, is_coinbase,
}
use deckxcoin.Tx.Check.{check_tx, check_key, check_script, valid, target_of}
use deckxcoin.Tx.Check.Inputs.{KeySpend, check_tx-KeySpend}
use deckxcoin.Tx.Check.Amounts.{outputs_value}
use deckxcoin.State.{Utxo, WorldState, total_supply, get_utxo}
use deckxcoin.Chain.Apply.{
  prev_out, apply_tx, apply_spend, apply_coinbase, examine, resolve, relative_locks, move_coins,
  spend_inputs, add_outputs,
}
use deckxcoin.Chain.Contract.{run_contract, commit_effect}
use deckxcoin.Chain.Attempt.{got, Receipt}
use deckxcoin.Chain.Apply.Conserves.{apply_tx-conserves, apply_tx-coinbase}
use deckxcoin.Chain.Apply.Covenants.{Approved, OwnedBy, apply_tx-Approved}
use deckxcoin.Chain.Apply.Locks.{
  Pairwise, Aged, Delayed, apply_tx-Aged, apply_tx-Delayed, final_sequence-escapes,
}
use deckxcoin.Chain.Apply.Outpoints.{apply_tx-get, utxo_after}
use deckxcoin.Tests.Toy.{key_bytes, toy, to, from, payment, coin, holding, at_height}

abbrev pub spend : Transaction
spend = payment "spend" "old" (to "bob" 40)

abbrev pub before : WorldState
before = holding (coin "old" "alice" 50 none)

abbrev pub after : WorldState
after = record {
  utxos = (("spend", 0), record (coin "spend" "bob" 40 none) { height = 9 }) ∷ [];
  contracts = [];
  nonces = [];
}

abbrev pub spend_receipt : Receipt
spend_receipt = record { fee = 10; gas_used = 0; logs = []; contract_address = none }

pub spend_applies : apply_tx toy spend (at_height 9 0) before ≡ got (spend_receipt, after)
unfolding apply_tx apply_spend examine resolve relative_locks move_coins commit_effect spend_inputs
    add_outputs get_utxo check_tx deckxcoin.Tx.Check.check_common deckxcoin.Tx.Check.check_outputs
    deckxcoin.Tx.Check.check_spend deckxcoin.Tx.Check.check_input deckxcoin.State.spend_utxo
    deckxcoin.State.add_utxo deckxcoin.Chain.Contract.deployed
spend_applies = refl

apply_tx-conserves_example : total_supply after + 10 ≡ total_supply before
apply_tx-conserves_example =
    apply_tx-conserves toy spend (at_height 9 0) before spend_receipt after refl spend_applies

apply_tx-get_example :
    IsMap after.utxos
    × (get_utxo "old" 0 after ≡ utxo_after toy spend 9 ("old", 0) (get_utxo "old" 0 before))
apply_tx-get_example =
    apply_tx-get toy spend (at_height 9 0) before spend_receipt after ("old", 0) (refl, tt)
      spend_applies

spend_resolves : resolve 9 before spend.inputs ≡ got (coin "old" "alice" 50 none ∷ [])
unfolding resolve get_utxo
spend_resolves = refl

apply_tx-Aged_example :
    Pairwise (Aged 9) spend.inputs (coin "old" "alice" 50 none ∷ []) × (spend.lock_time ≤ 9)
apply_tx-Aged_example =
    apply_tx-Aged toy spend (at_height 9 0) before spend_receipt after
      (coin "old" "alice" 50 none ∷ []) refl spend_applies spend_resolves

-- A coinbase
abbrev pub reward : Transaction
reward = record {
  version = 1;
  kind = TxKind.coinbase;
  inputs = [];
  outputs = to "miner" 100 ∷ [];
  lock_time = 9;
  contract = none;
  memo = some "reward";
}

abbrev rewarded : WorldState
rewarded = record before {
  utxos =
      (("old", 0), coin "old" "alice" 50 none)
      ∷ (("reward", 0), record (coin "reward" "miner" 100 none) { height = 9; coinbase = true })
      ∷ [];
}

abbrev reward_receipt : Receipt
reward_receipt = record { fee = 0; gas_used = 0; logs = []; contract_address = none }

reward_applies : apply_tx toy reward (at_height 9 10) before ≡ got (reward_receipt, rewarded)
unfolding apply_tx apply_coinbase check_tx deckxcoin.Tx.Check.check_common
    deckxcoin.Tx.Check.check_outputs block_subsidy deckxcoin.Block.Subsidy.era_subsidy
    deckxcoin.Block.Subsidy.issuance_of add_outputs deckxcoin.State.add_utxo
reward_applies = refl

apply_tx-coinbase_example :
    (total_supply rewarded ≡ total_supply before + outputs_value reward.outputs)
    × (outputs_value reward.outputs ≤ block_subsidy 9 + 10)
apply_tx-coinbase_example =
    apply_tx-coinbase toy reward (at_height 9 10) before reward_receipt rewarded refl reward_applies

-- An output that its owner may take after three blocks
abbrev delayed : Utxo
delayed = coin "old" "alice" 50 (some (revocable 3 "other"))

delayed_applies : apply_tx toy spend (at_height 9 0) (holding delayed) ≡ got (spend_receipt, after)
unfolding apply_tx apply_spend examine resolve relative_locks move_coins commit_effect spend_inputs
    add_outputs get_utxo check_tx deckxcoin.Tx.Check.check_common deckxcoin.Tx.Check.check_outputs
    deckxcoin.Tx.Check.check_spend deckxcoin.Tx.Check.check_input deckxcoin.State.spend_utxo
    deckxcoin.State.add_utxo deckxcoin.Chain.Contract.deployed check_key check_script
delayed_applies = refl

delayed_resolves : resolve 9 (holding delayed) spend.inputs ≡ got (delayed ∷ [])
unfolding resolve get_utxo
delayed_resolves = refl

apply_tx-Delayed_example :
    Pairwise (Delayed toy spend (at_height 9 0) (holding delayed)) spend.inputs (delayed ∷ [])
apply_tx-Delayed_example =
    apply_tx-Delayed toy spend (at_height 9 0) (holding delayed) spend_receipt after (delayed ∷ [])
      refl delayed_applies delayed_resolves

abbrev hurried : TxInput
hurried = record (from "old") { sequence = 0xffffffff }

final_sequence-escapes_example :
    (check_script toy spend hurried (prev_out delayed) key_bytes [] (revocable 144 "other")
      ≡ valid tt)
    × (relative_locks 1 (hurried ∷ []) (delayed ∷ []) ≡ got tt)
final_sequence-escapes_example =
    final_sequence-escapes toy spend hurried delayed key_bytes [] 144 "other" 1 refl refl
      (omega arith)

check_tx_passes : check_tx toy spend (prev_out delayed ∷ []) ≡ valid 10
unfolding check_tx deckxcoin.Tx.Check.check_common deckxcoin.Tx.Check.check_outputs
    deckxcoin.Tx.Check.check_spend deckxcoin.Tx.Check.check_input check_key check_script
check_tx_passes = refl

check_tx-KeySpend_example : KeySpend toy spend (from "old") (prev_out delayed) 0
check_tx-KeySpend_example =
    check_tx-KeySpend toy spend (prev_out delayed ∷ []) 10 0 (from "old") (prev_out delayed) refl
      check_tx_passes refl refl refl

-- A contract that agrees, and names the payee
abbrev vaulted : WorldState
vaulted = record {
  utxos = (("old", 0), coin "old" "vault" 50 none) ∷ [];
  contracts =
      (
        "vault",
        record {
          address = "vault";
          code = "approving";
          storage = [];
          deployed_at = 1;
          deployer = "alice";
        },
      )
      ∷ [];
  nonces = [];
}

abbrev release : Transaction
release = record spend {
  kind = TxKind.call;
  contract = some (record {
    code = none;
    target = some "vault";
    calldata = [];
    gas_limit = 100;
    gas_price = some (pos 0);
    nonce = 0;
  });
}

abbrev released : WorldState
released = record vaulted { utxos = after.utxos }

abbrev release_receipt : Receipt
release_receipt = record { fee = 10; gas_used = 9; logs = []; contract_address = none }

release_applies : apply_tx toy release (at_height 9 0) vaulted ≡ got (release_receipt, released)
unfolding apply_tx apply_spend examine resolve relative_locks move_coins commit_effect spend_inputs
    add_outputs get_utxo check_tx deckxcoin.Tx.Check.check_common deckxcoin.Tx.Check.check_outputs
    deckxcoin.Tx.Check.check_spend deckxcoin.Tx.Check.check_input deckxcoin.State.spend_utxo
    deckxcoin.State.add_utxo deckxcoin.Chain.Contract.deployed check_key check_script
    deckxcoin.Tx.Check.check_covenant deckxcoin.Tx.Check.check_payload run_contract
    deckxcoin.Vm.Run.execute deckxcoin.Chain.Contract.spender_of deckxcoin.Chain.Contract.value_to
    deckxcoin.Chain.Contract.authorise deckxcoin.State.get_contract deckxcoin.State.nonce_of
    deckxcoin.State.set_storage deckxcoin.State.balance_of
release_applies = refl

release_resolves : resolve 9 vaulted release.inputs ≡ got (coin "old" "vault" 50 none ∷ [])
unfolding resolve get_utxo
release_resolves = refl

apply_tx-Approved_example :
    OwnedBy toy (target_of release.contract) (coin "old" "vault" 50 none ∷ [])
    × Approved toy release (at_height 9 0) vaulted (coin "old" "vault" 50 none ∷ [])
apply_tx-Approved_example =
    apply_tx-Approved toy release (at_height 9 0) vaulted release_receipt released
      (coin "old" "vault" 50 none ∷ []) refl release_applies release_resolves refl
