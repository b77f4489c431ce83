-- ===== src/Node/ChainState/Accept.antt =====
-- `acceptBlock` and `mineBlock` of chain/src/node/chainstate.ts, and what they compute of a branch.
pub mod Placing
pub mod Progress
use Prim.Native.String.{String}
use deckxcoin.Prelude.{
  ℕ, zero, suc, ◌+◌, ◌-◌, ◌/◌, ◌%◌, false, not, Option, none, some, List, [], ◌∷◌, ◌++◌, ltb, leb,
  ◌==◌, length, get_elem?, if◌then◌else◌,
}
use deckxcoin.Prelude.Eq.{◌===◌, string_eq}
use deckxcoin.Block.Subsidy.{block_subsidy}
use deckxcoin.Block.Target.{next_bits, retarget_interval, block_work}
use deckxcoin.Block.Header.{
  Block, Hashes, passes, fails, crashes, check_header, block_gas_limit, compute_merkle_root,
}
use deckxcoin.Block.Mine.{mine}
use deckxcoin.Tx.{Hex, Transaction, coinbase_tx}
use deckxcoin.Tx.Oracle.{Oracle}
use deckxcoin.State.{WorldState}
use deckxcoin.Chain.Apply.{apply_tx}
use deckxcoin.Chain.Attempt.{ApplyError, got, refuse, throws}
use deckxcoin.Chain.Blockchain.{
  BlockError, header, wrong_height, wrong_difficulty, time_too_early, sort_times,
}
use deckxcoin.Node.Store.{ChainStore, StoredHeader, get_header, has_block, put_block}
use deckxcoin.Node.ChainState.{ChainState, moved, stuck, panics, MoveError, invalid, connect}
use deckxcoin.Node.ChainState.Reorg.{Reorg, reorganised, kept, diverges, reorg_to}
use deckxcoin.Node.ChainState.Reorg

-- The times of a header and of those below it, `left` at most.
times_back : ℕ → ChainStore → Option StoredHeader → List ℕ
times_back zero store cursor = []
times_back (suc left) store none = []
times_back (suc left) store (some cursor) =
    let rest = times_back left store (get_header cursor.prev_hash store) in
    cursor.time ∷ (if cursor.height == 0 then [] else rest)

-- `none` stands for the `undefined` of an unknown hash.
unfoldable pub median_time_past_at : Hex → ChainStore → Option ℕ
unfolding times_back
median_time_past_at hash store =
    let window = sort_times (times_back 11 store (get_header hash store)) in
    get_elem? window (length window / 2)

back_window : ℕ → ChainStore → StoredHeader → Option StoredHeader
back_window zero store cursor = some cursor
back_window (suc left) store cursor =
    if cursor.height == 0 then some cursor else elim (get_header cursor.prev_hash store) [
      | none ↦ none
      | some below ↦ back_window left store below
    ]

-- `none`: `nextBits` throws.
unfoldable pub next_bits_after : StoredHeader → ChainStore → Option ℕ
unfolding back_window
next_bits_after parent store =
    if not ((parent.height + 1) % retarget_interval == 0)
    then some parent.bits
    else elim (back_window (retarget_interval - 1) store parent) [
      | none ↦ some parent.bits
      | some first ↦ next_bits parent.bits (parent.time - first.time)
    ]

-- `ACCEPT`, with what the result reports of an invalid block and of a reorganisation.
pub data AcceptStatus : Type 0 where
  connected : AcceptStatus
  reorg : List Hex → List Hex → AcceptStatus
  sidechain duplicate orphan : AcceptStatus
  refused : BlockError → AcceptStatus
  unmoved : MoveError → AcceptStatus

-- `escapes`: an exception leaves the method. `loops`: it does not return.
pub data Accepted : Type 0 where
  accepted : AcceptStatus → ChainState → Accepted
  escapes : Accepted
  loops : Accepted

-- The checks of a block against its parent.
pub data Context : Type 0 where
  fits : Context
  unfit : BlockError → Context
  crash : Context

unfoldable pub check_parent : Block → StoredHeader → ChainStore → Context
unfolding next_bits_after median_time_past_at
check_parent block parent store =
    if not (block.header.height == parent.height + 1)
    then unfit wrong_height
    else elim (next_bits_after parent store) [
      | none ↦ crash
      | some bits ↦
          if not (block.header.bits == bits)
          then unfit wrong_difficulty
          else elim (median_time_past_at parent.hash store) [
            | none ↦ fits
            | some median ↦ if leb block.header.time median then unfit time_too_early else fits
          ]
    ]

-- The dry run of `mineBlock`: what is included, with its fees and gas, and the draft. A transaction
-- that is left out for the gas has been applied to the draft all the same.
pub record Selection : Type 0 where
  pub included : List Transaction
  pub rejected : List (Hex × Option ApplyError)
  pub fees : ℕ
  pub gas : ℕ
  pub draft : WorldState

module _ (o : Oracle) (h : Hashes) (state_root : WorldState → Hex) where
  extend : Block → ℕ → ChainState → Accepted
  extend block work chain = elim (connect o h state_root block work chain) [
    | moved after ↦ accepted connected after
    | stuck e ↦ accepted (unmoved e) chain
    | panics ↦ escapes
  ]

  switch_to : StoredHeader → ChainState → Accepted
  switch_to target chain = elim (reorg_to o h state_root target chain) [
    | reorganised after down up ↦ accepted (reorg down up) after
    | kept e after ↦ accepted (unmoved e) after
    | Reorg.throws ↦ escapes
    | diverges ↦ loops
  ]

  -- A block off the tip is stored, and its branch is taken if it has more work than the tip.
  branch_off : Hex → Block → ℕ → ChainState → Accepted
  unfolding switch_to
  branch_off hash block work chain =
      let stored : ChainState = record chain {
        store = put_block hash block work false chain.store;
      } in
      if ltb chain.tip.chain_work work
      then elim (get_header hash stored.store) [
        | none ↦ escapes
        | some target ↦ switch_to target stored
      ]
      else accepted sidechain stored

  unfoldable pub place_block : Block → StoredHeader → ChainState → Accepted
  unfolding extend branch_off
  place_block block parent chain =
      let work = parent.chain_work + block_work block.header.bits in
      if parent.hash === chain.tip.hash
      then extend block work chain
      else branch_off (h.block_hash block.header) block work chain

  unfoldable pub accept_block : Block → ℕ → ChainState → Accepted
  unfolding check_parent place_block
  accept_block block now chain =
      if has_block (h.block_hash block.header) chain.store
      then accepted duplicate chain
      else elim (check_header h block now) [
        | fails e ↦ accepted (refused (header e)) chain
        | crashes ↦ escapes
        | passes ↦ elim (get_header block.header.prev_hash chain.store) [
          | none ↦ accepted orphan chain
          | some parent ↦ elim (check_parent block parent chain.store) [
            | crash ↦ escapes
            | unfit e ↦ accepted (refused e) chain
            | fits ↦ place_block block parent chain
          ]
        ]
      ]

  unfoldable pub select : ℕ → ℕ → List Transaction → Selection → Option Selection
  select height time [] sel = some sel
  select height time (tx ∷ rest) sel =
      elim (apply_tx o tx (record { height = height; time = time; available_fees = 0 }) sel.draft) [
        | throws ↦ none
        | refuse e fee gas ↦
            select height time rest
              (record sel { rejected = sel.rejected ++ (o.txid tx, some e) ∷ [] })
        | got after ↦ select height time rest (
            if leb (sel.gas + after.0.gas_used) block_gas_limit
            then record {
              included = sel.included ++ tx ∷ [];
              rejected = sel.rejected;
              fees = sel.fees + after.0.fee;
              gas = sel.gas + after.0.gas_used;
              draft = after.1;
            }
            else record sel { rejected = sel.rejected ++ (o.txid tx, none) ∷ []; draft = after.1 })
      ]

  -- The draft under the coinbase; a refusal leaves it as it was.
  with_coinbase : Transaction → ℕ → ℕ → ℕ → WorldState → Option WorldState
  with_coinbase cb height time fees draft =
      elim (apply_tx o cb (record { height = height; time = time; available_fees = fees }) draft) [
        | throws ↦ none
        | refuse e fee gas ↦ some draft
        | got after ↦ some after.1
      ]

  -- The mined block and its acceptance; `none`: an exception leaves the method before.
  unfoldable pub mine_block :
      List Transaction → String → ℕ → String → ℕ → ChainState → Option (Block × Accepted)
  unfolding next_bits_after select with_coinbase accept_block coinbase_tx
  mine_block txs miner time memo max_attempts chain =
      let height = chain.tip.height + 1 in
      elim (select height time txs
        (record { included = []; rejected = []; fees = 0; gas = 0; draft = chain.state })) [
          | none ↦ none
          | some sel ↦
              let cb = coinbase_tx miner (block_subsidy height + sel.fees) height memo in
              elim (with_coinbase cb height time sel.fees sel.draft) [
                | none ↦ none
                | some draft ↦ elim (compute_merkle_root h (cb ∷ sel.included)) [
                  | none ↦ none
                  | some root ↦ elim (next_bits_after chain.tip chain.store) [
                    | none ↦ none
                    | some bits ↦
                        elim (mine h
                          (record {
                            version = 1;
                            prev_hash = chain.tip.hash;
                            merkle_root = root;
                            state_root = state_root draft;
                            time = time;
                            bits = bits;
                            height = height;
                            nonce = 0;
                            extra_nonce = 0;
                          })
                          max_attempts) [
                            | none ↦ none
                            | some mined ↦
                                let block : Block = record {
                                  header = mined;
                                  transactions = cb ∷ sel.included;
                                } in
                                some (block, accept_block block (time + 1) chain)
                          ]
                  ]
                ]
              ]
        ]
