-- ===== src/Tests/Volt.antt =====
-- A channel between two parties.
use Prim.Native.String.{String}
use deckxcoin.Prelude.{◌+◌, ◌%◌, ◌≤◌, ◌≡◌, refl, false, none, some, [], ◌∷◌, arith}
use deckxcoin.Prelude.Int.{pos, negsuc}
use deckxcoin.Tx.{TxKind, Transaction, multisig2, revocable}
use deckxcoin.Tx.Build.{KeyPair}
use deckxcoin.Tx.Check.Amounts.{outputs_value}
use deckxcoin.State.{Utxo, WorldState, get_utxo}
use deckxcoin.Chain.Apply.{apply_tx}
use deckxcoin.Chain.Attempt.{got, Receipt}
use deckxcoin.Volt.Channel.{
  side_a, side_b, ChannelState, ChannelParty, FundingOutpoint, VoltChannel, Opening, overdrawn,
  open_channel, spendable,
}
use deckxcoin.Volt.Channel.Commitment.{Keys, commitment_outputs, build_commitment}
use deckxcoin.Volt.Channel.Payments.{pay}
use deckxcoin.Volt.Channel.Balance.{IsBalanced}
use deckxcoin.Volt.Channel.Balance.Steps.{
  Reachable, fresh, state_set, paid, left, Reachable-IsBalanced,
}
use deckxcoin.Volt.Channel.Broadcast.{
  burnt, burnt_htlcs, commitment_outputs-capacity, commitment-waits,
}
use deckxcoin.Tests.Toy.{toy, coin, holding, at_height}

abbrev pub keys : Keys
keys = record {
  oracle = toy;
  sign = λ digest key. "signature";
  chain_hash = λ bytes. bytes;
  to_hex = λ bytes. "secret";
  revocation_pubkey = λ base point. some "revocation";
  memo = λ id n. "memo";
}

abbrev pub key_of : String → KeyPair
key_of name = record { private_key = []; public_key = name; point = name; address = name }

abbrev party_of : String → ChannelParty
party_of name = record {
  name = name;
  key = key_of name;
  revocation_base = key_of name;
  secrets = record { seed = []; depth = 4096 };
}

abbrev funding : FundingOutpoint
funding = record {
  txid = "old";
  vout = 0;
  value = 10_000;
  address = "both";
  script = multisig2 "ann" "ben";
}

abbrev pub opened : VoltChannel
opened = record {
  id = "channel";
  a = party_of "ann";
  b = party_of "ben";
  csv_delay = 144;
  capacity = 10_000;
  funding = funding;
  splices = [];
  balance_a = 7_000;
  balance_b = 3_000;
  state = ChannelState.opening;
  commitment_number = 0;
  htlcs = [];
  next_htlc_id = 0;
  revoked_by_a = [];
  revoked_by_b = [];
  history = [];
}

channel_opens :
    open_channel "channel" (party_of "ann") (party_of "ben") funding (pos 7_000) (pos 3_000) none
    ≡ Opening.opened opened
unfolding open_channel
channel_opens = refl

-- A balance below zero is accepted.
negative_opens :
    open_channel "channel" (party_of "ann") (party_of "ben") funding (pos 10_005) (negsuc 4) none
    ≡ overdrawn
unfolding open_channel
negative_opens = refl

-- Ann pays ben.
opened-Reachable :
    Reachable keys
      (left (pay keys side_a (pos 500) (record opened { state = ChannelState.open_now })))
opened-Reachable =
    paid side_a (pos 500) (record opened { state = ChannelState.open_now })
      (state_set ChannelState.open_now opened (
        fresh "channel" (party_of "ann") (party_of "ben") funding (pos 7_000) (pos 3_000) none
          opened channel_opens))

Reachable-IsBalanced_example :
    IsBalanced (left (pay keys side_a (pos 500) (record opened { state = ChannelState.open_now })))
Reachable-IsBalanced_example =
    Reachable-IsBalanced keys
      (left (pay keys side_a (pos 500) (record opened { state = ChannelState.open_now })))
      opened-Reachable

opened-IsBalanced : IsBalanced opened
unfolding deckxcoin.Volt.Channel.pending_sum
opened-IsBalanced = (refl, refl, omega arith, omega arith)

commitment_outputs-capacity_example :
    outputs_value (commitment_outputs side_a opened "revocation")
      + (burnt (spendable side_a opened) + burnt (spendable side_b opened) + burnt_htlcs [])
    ≡ 10_000
commitment_outputs-capacity_example =
    commitment_outputs-capacity opened side_a "revocation" opened-IsBalanced

abbrev pub commitment : Transaction
commitment = record {
  version = 1;
  kind = TxKind.transfer;
  inputs =
      record {
        txid = "old";
        vout = 0;
        pubkey = "ann";
        signature = "signature";
        sequence = 0x00800003;
        cosign = some (record { pubkey = "ben"; signature = "signature" });
        preimage = none;
        scalar = none;
      }
      ∷ [];
  outputs =
      record {
        value = some (pos 7_000);
        address = "ann";
        script = some (revocable 144 "revocation");
      }
      ∷ record { value = some (pos 3_000); address = "ben"; script = none }
      ∷ [];
  lock_time = 0;
  contract = none;
  memo = some "memo";
}

third_commitment : build_commitment keys side_a opened 3 ≡ some commitment
unfolding build_commitment commitment_outputs deckxcoin.Volt.Channel.Commitment.commitment_tx
    deckxcoin.Volt.Channel.Commitment.commitment_point spendable deckxcoin.Volt.Secrets.secret
    deckxcoin.Tx.Build.transfer_tx deckxcoin.Tx.Build.sign_input deckxcoin.Tx.Build.cosign_input
    deckxcoin.Volt.Channel.Commitment.sign_both
third_commitment = refl

abbrev funded : Utxo
funded = coin "old" "both" 10_000 (some (multisig2 "ann" "ben"))

abbrev broadcast : WorldState
broadcast = record {
  utxos =
      (
        ("memo", 0),
        record {
          txid = "memo";
          vout = 0;
          value = 7_000;
          address = "ann";
          script = some (revocable 144 "revocation");
          height = 9;
          coinbase = false;
        },
      )
      ∷ (
        ("memo", 1),
        record {
          txid = "memo";
          vout = 1;
          value = 3_000;
          address = "ben";
          script = none;
          height = 9;
          coinbase = false;
        },
      )
      ∷ [];
  contracts = [];
  nonces = [];
}

abbrev broadcast_receipt : Receipt
broadcast_receipt = record { fee = 0; gas_used = 0; logs = []; contract_address = none }

commitment_applies :
    apply_tx toy commitment (at_height 9 0) (holding funded) ≡ got (broadcast_receipt, broadcast)
unfolding apply_tx deckxcoin.Chain.Apply.apply_spend deckxcoin.Chain.Apply.examine
    deckxcoin.Chain.Apply.resolve deckxcoin.Chain.Apply.relative_locks
    deckxcoin.Chain.Apply.move_coins deckxcoin.Chain.Contract.commit_effect
    deckxcoin.Chain.Apply.spend_inputs deckxcoin.Chain.Apply.add_outputs get_utxo
    deckxcoin.Tx.Check.check_tx deckxcoin.Tx.Check.check_common deckxcoin.Tx.Check.check_outputs
    deckxcoin.Tx.Check.check_spend deckxcoin.Tx.Check.check_input deckxcoin.State.spend_utxo
    deckxcoin.State.add_utxo deckxcoin.Chain.Contract.deployed deckxcoin.Tx.Check.check_key
    deckxcoin.Tx.Check.check_script deckxcoin.Tx.Check.check_cosign
commitment_applies = refl

funded_found : get_utxo "old" 0 (holding funded) ≡ some funded
unfolding get_utxo
funded_found = refl

commitment-waits_example : 1 + 3 % 65_536 ≤ 9
commitment-waits_example =
    commitment-waits keys side_a opened 3 commitment (at_height 9 0) (holding funded) broadcast
      broadcast_receipt funded third_commitment funded_found commitment_applies
