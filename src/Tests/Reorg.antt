-- ===== src/Tests/Reorg.antt =====
-- A block that is connected and disconnected, and a reorganisation, on a small stored chain.
use deckxcoin.Prelude.{
  ℕ, ◌≡◌, ◌<◌, refl, sym, subst, true, false, none, some, [], ◌∷◌, arith, Bool-cases, inl, inr,
}
use deckxcoin.Prelude.Eq.{◌===◌, string_eq, nat_eq, pair_eq, ===→eq}
use deckxcoin.Block.Header.{Block, BlockHeader}
use deckxcoin.Tx.{Hex, Transaction}
use deckxcoin.State.{WorldState}
use deckxcoin.Chain.Apply.Effects.{Effects, apply_tx-Effects}
use deckxcoin.Node.Store.{ChainStore, BlockRow, StoredHeader, row_to_header, get_header, get_block}
use deckxcoin.Node.ChainState.{ChainState, moved, connect, disconnect, commit_block}
use deckxcoin.Node.Draft.{Record, draft_block, drafted, undo_of}
use deckxcoin.Node.ChainState.Undo.Drafts.{IsWorld}
use deckxcoin.Node.ChainState.Undo.Restores.{StartsWithCoinbase, Same}
use deckxcoin.Node.ChainState.Undo.Roundtrip.{connect-disconnect}
use deckxcoin.Node.ChainState.Reorg.{reorg_to, diverges}
use deckxcoin.Node.ChainState.Reorg.View.{view, IsKeyed}
use deckxcoin.Node.ChainState.Reorg.Outcome.{Lands, reorg_to-Lands}
use deckxcoin.Node.ChainState.Reorg.Ends.{IsLinked, reorg_to-ends}
use deckxcoin.Node.ChainState.Accept.{accept_block}
use deckxcoin.Node.ChainState.Accept.Progress.{accept_block-Advances}
use deckxcoin.Node.ChainState.Accept.Placing.{Fulfils}
use deckxcoin.Tests.Toy.{toy, toy_hashes, coin, at_height}
use deckxcoin.Tests.Chain.{spend, before, after, spend_receipt, spend_applies, reward}

apply_tx-Effects_example : Effects toy spend (at_height 9 0) before spend_receipt after
apply_tx-Effects_example =
    apply_tx-Effects toy spend (at_height 9 0) before spend_receipt after spend_applies

abbrev header_of : Hex → Hex → ℕ → BlockHeader
header_of hash below height = record {
  version = 1;
  prev_hash = below;
  merkle_root = hash;
  state_root = "root";
  time = height;
  bits = 0x207fffff;
  height = height;
  nonce = 0;
  extra_nonce = 0;
}

abbrev below : Block
below = record { header = header_of "below" "start" 8; transactions = [] }

abbrev below_row : BlockRow
below_row = record { block = below; chain_work = 5; active = true }

abbrev chain : ChainState
chain = record {
  undo_retention = 500;
  store = record {
    blocks = ("below", below_row) ∷ [];
    utxos = [];
    contracts = [];
    nonces = [];
    undo = [];
    meta = [];
  };
  state = before;
  tip = row_to_header "below" below_row;
}

abbrev root : WorldState → Hex
root s = "root"

abbrev above : Block
above = record { header = header_of "above" "below" 9; transactions = reward ∷ spend ∷ [] }

abbrev drafted_state : WorldState
drafted_state = record {
  utxos =
      (("spend", 0), record (coin "spend" "bob" 40 none) { height = 9 })
      ∷ (("reward", 0), record (coin "reward" "miner" 100 none) { height = 9; coinbase = true })
      ∷ [];
  contracts = [];
  nonces = [];
}

abbrev no_record : Record
no_record = record { contracts = []; nonces = [] }

abbrev connected_chain : ChainState
connected_chain = record chain {
  store =
      commit_block "above" above 7 (undo_of toy "above" above before no_record) drafted_state 500
        chain.store;
  state = drafted_state;
  tip = row_to_header "above" (record { block = above; chain_work = 7; active = true });
}

connects : connect toy toy_hashes root above 7 chain ≡ moved connected_chain
unfolding connect draft_block commit_block undo_of get_header deckxcoin.Node.Store.put_block
    deckxcoin.Node.Draft.record_receipt deckxcoin.Node.Store.put_undo deckxcoin.Chain.Apply.apply_tx
    deckxcoin.Chain.Apply.apply_spend deckxcoin.Chain.Apply.examine deckxcoin.Chain.Apply.resolve
    deckxcoin.State.get_utxo deckxcoin.Tx.Check.check_tx deckxcoin.Tx.Check.check_common
    deckxcoin.Tx.Check.check_outputs deckxcoin.Tx.Check.check_spend deckxcoin.Tx.Check.check_input
    deckxcoin.Chain.Apply.relative_locks deckxcoin.Chain.Contract.commit_effect
    deckxcoin.Chain.Apply.move_coins deckxcoin.Chain.Apply.spend_inputs deckxcoin.State.spend_utxo
    deckxcoin.Chain.Apply.add_outputs deckxcoin.State.add_utxo deckxcoin.Chain.Apply.apply_coinbase
    deckxcoin.Block.Subsidy.block_subsidy deckxcoin.Block.Subsidy.era_subsidy
    deckxcoin.Block.Subsidy.issuance_of deckxcoin.Chain.Contract.deployed
connects = refl

before-IsWorld : IsWorld before
before-IsWorld = record {
  utxos_map = (refl, tt);
  contracts_map = tt;
  nonces_map = tt;
  placed = λ key u g.
      unfold deckxcoin.State.get_utxo in
      elim (Bool-cases (key === ("old", 0))) [
        | inl same ↦ ground (arith, ===→eq key ("old", 0) same)
        | inr other ↦ absurd (ground arith)
      ];
  filed = λ a c g. absurd (ground arith);
  unnamed = refl;
  positive = λ a g. ground arith;
}

above-starts : StartsWithCoinbase above
above-starts coinbase others e = ground arith

connect-disconnect_example :
    (back : ChainState) × (disconnect root connected_chain ≡ moved back)
    × Same back.state before
    × (back.tip.hash ≡ "below")
unfolding get_header get_block
connect-disconnect_example =
    connect-disconnect toy toy_hashes root above below 7 chain connected_chain before-IsWorld
      above-starts (λ creator nonce. refl) (λ s t same. refl) refl refl refl refl connects

chain-IsKeyed : IsKeyed toy_hashes chain.store
unfolding view
chain-IsKeyed k block work e = elim (Bool-cases (k === "below")) [
  | inl same ↦ ground (arith, ===→eq k "below" same)
  | inr other ↦ absurd (ground arith)
]

accept_block-Advances_example :
    Fulfils toy_hashes "above" chain (accept_block toy toy_hashes root above 9 chain)
unfolding view
accept_block-Advances_example =
    accept_block-Advances toy toy_hashes root above 9 chain chain-IsKeyed (below, refl)

-- Another block on the same parent, with more work, that is stored but not active
abbrev side_row : BlockRow
side_row = record {
  block = record above { header = header_of "side" "below" 9 };
  chain_work = 9;
  active = false;
}

abbrev forked : ChainState
forked = record chain {
  store = record chain.store { blocks = ("below", below_row) ∷ ("side", side_row) ∷ [] };
}

abbrev side : StoredHeader
side = row_to_header "side" side_row

forked-IsKeyed : IsKeyed toy_hashes forked.store
unfolding view
forked-IsKeyed k block work e = elim (Bool-cases (k === "below")) [
  | inl same ↦ ground (arith, ===→eq k "below" same)
  | inr other ↦ elim (Bool-cases (k === "side")) [
    | inl same ↦ ground (arith, ===→eq k "side" same)
    | inr off ↦ absurd (ground arith)
  ]
]

reorg_to-Lands_example : Lands forked side (reorg_to toy toy_hashes root side forked)
unfolding view
reorg_to-Lands_example =
    reorg_to-Lands toy toy_hashes root side forked forked-IsKeyed (below, refl)
      (side_row.block, refl)

forked-IsLinked : IsLinked forked.store
unfolding view
forked-IsLinked k child parent c p = elim (Bool-cases (k === "below")) [
  | inl same ↦
      let own : (below, 5) ≡ child = ground arith in
      let gone : view "start" forked.store ≡ some parent =
        subst (λ (x : Block × ℕ). view x.0.header.prev_hash forked.store ≡ some parent) (sym own)
          p in
      absurd (ground arith)
  | inr other ↦ elim (Bool-cases (k === "side")) [
    | inl same ↦
        let own : (side_row.block, 9) ≡ child = ground arith in
        let found : view "below" forked.store ≡ some parent =
          subst (λ (x : Block × ℕ). view x.0.header.prev_hash forked.store ≡ some parent) (sym own)
            p in
        let it : (below, 5) ≡ parent = ground arith in
        subst (λ (x : Block × ℕ). x.0.header.height < child.0.header.height) it
          (subst (λ (x : Block × ℕ). 8 < x.0.header.height) own (omega arith))
    | inr off ↦ absurd (ground arith)
  ]
]

reorg_to-ends_example : ¬ (reorg_to toy toy_hashes root side forked ≡ diverges)
unfolding view
reorg_to-ends_example =
    reorg_to-ends toy toy_hashes root side forked forked-IsLinked
      ((side_row.block, 9), refl, refl, refl) ((below, 5), refl, refl, refl)
