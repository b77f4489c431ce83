-- ===== src/Tests/Blocks.antt =====
-- A small chain of blocks.
use deckxcoin.Prelude.{ℕ, ◌+◌, ◌≤◌, ◌≡◌, refl, true, none, some, [], ◌∷◌, length}
use deckxcoin.Block.Subsidy.{block_subsidy}
use deckxcoin.Block.Header.{BlockHeader, Block}
use deckxcoin.Block.Mine.{IsMined, mine, mine-IsMined}
use deckxcoin.Tx.{Hex, TxKind, Transaction, coinbase_tx}
use deckxcoin.State.{WorldState, total_supply}
use deckxcoin.Chain.Blockchain.{Blockchain, added, add_block, create, audit_supply}
use deckxcoin.Chain.Blockchain.Added.{IsAdded, add_block-IsAdded}
use deckxcoin.Chain.Blockchain.Supply.{genesis, grown, add_block-supply, Reachable-audit}
use deckxcoin.Tests.Toy.{toy, toy_hashes, to}

abbrev root_of : WorldState → Hex
root_of s = "root"

abbrev reward : ℕ → Hex → ℕ → Transaction
reward height id value = record {
  version = 1;
  kind = TxKind.coinbase;
  inputs = [];
  outputs = to "miner" value ∷ [];
  lock_time = height;
  contract = none;
  memo = some id;
}

abbrev header_at : ℕ → ℕ → Hex → Hex → BlockHeader
header_at height time parent id = record {
  version = 1;
  prev_hash = parent;
  merkle_root = id;
  state_root = "root";
  time = time;
  bits = 0x1f00ffff;
  height = height;
  nonce = 0;
  extra_nonce = 0;
}

abbrev utxo_at : ℕ → Hex → ℕ → (Hex × ℕ) × deckxcoin.State.Utxo
utxo_at height id value = (
  (id, 0),
  record {
    txid = id;
    vout = 0;
    value = value;
    address = "miner";
    script = none;
    height = height;
    coinbase = true;
  },
)

abbrev first_chain : Blockchain
first_chain = record {
  blocks =
      record {
        header = header_at 0 1000 "empty" "first";
        transactions = reward 0 "first" 19_977_168_949 ∷ [];
      }
      ∷ [];
  state = record { utxos = utxo_at 0 "first" 19_977_168_949 ∷ []; contracts = []; nonces = [] };
  work = 65_537;
}

abbrev second_block : Block
second_block = record {
  header = header_at 1 1600 "first" "second";
  transactions = reward 1 "second" 19_977_168_949 ∷ [];
}

abbrev second_chain : Blockchain
second_chain = record {
  blocks = second_block ∷ first_chain.blocks;
  state = record first_chain.state {
    utxos = utxo_at 0 "first" 19_977_168_949 ∷ utxo_at 1 "second" 19_977_168_949 ∷ [];
  };
  work = 131_074;
}

first_created : create toy toy_hashes root_of "miner" 0x1f00ffff 1000 "first" ≡ some first_chain
unfolding create deckxcoin.State.add_utxo deckxcoin.Block.Header.compute_merkle_root
    deckxcoin.Merkle.merkle_root mine deckxcoin.Block.Header.meets_target
    deckxcoin.Block.Target.bits_to_target block_subsidy deckxcoin.Block.Target.block_work
    deckxcoin.Block.Subsidy.era_subsidy
first_created = refl

second_added : add_block toy toy_hashes root_of first_chain second_block 2000 ≡ added second_chain
unfolding add_block deckxcoin.Chain.Blockchain.check_context deckxcoin.Block.Header.check_header
    deckxcoin.Block.Header.check_transactions deckxcoin.Block.Header.compute_merkle_root
    deckxcoin.Merkle.merkle_root deckxcoin.Block.Header.meets_target
    deckxcoin.Block.Target.bits_to_target deckxcoin.Chain.Blockchain.next_bits_for
    deckxcoin.Chain.Blockchain.median_time_past deckxcoin.Chain.Blockchain.connect_block
    deckxcoin.Chain.Blockchain.apply_all deckxcoin.Chain.Apply.apply_tx
    deckxcoin.Chain.Apply.apply_coinbase deckxcoin.Tx.Check.check_tx deckxcoin.Tx.Check.check_common
    deckxcoin.Tx.Check.check_outputs block_subsidy deckxcoin.Block.Subsidy.era_subsidy
    deckxcoin.Block.Subsidy.issuance_of deckxcoin.Chain.Apply.add_outputs deckxcoin.State.add_utxo
    deckxcoin.Block.Target.block_work
second_added = refl

Reachable-audit_example :
    ((audit_supply second_chain).utxo_total ≤ (audit_supply second_chain).expected_subsidy)
    × ((audit_supply second_chain).under_cap ≡ true)
Reachable-audit_example = Reachable-audit toy toy_hashes root_of second_chain (
    grown first_chain second_chain second_block 2000
      (genesis "miner" 0x1f00ffff 1000 "first" first_chain first_created) second_added)

add_block-supply_example :
    total_supply second_chain.state
    ≤ total_supply first_chain.state + block_subsidy (length first_chain.blocks)
add_block-supply_example =
    add_block-supply toy toy_hashes root_of first_chain second_chain second_block 2000 second_added

add_block-IsAdded_example :
    IsAdded toy toy_hashes root_of first_chain second_block 2000 second_chain
add_block-IsAdded_example =
    add_block-IsAdded toy toy_hashes root_of first_chain second_block 2000 second_chain second_added

abbrev mined : BlockHeader
mined = header_at 1 1600 "first" "second"

mined_at_once : mine toy_hashes mined 10 ≡ some mined
unfolding mine deckxcoin.Block.Header.meets_target deckxcoin.Block.Target.bits_to_target
mined_at_once = refl

mine-IsMined_example : IsMined toy_hashes mined mined 10
mine-IsMined_example = mine-IsMined toy_hashes mined mined 10 mined_at_once
