-- ===== src/Chain/Blockchain.antt =====
-- `Blockchain` of chain/src/chain.ts: the block list, the world state, and `addBlock`.
pub mod Added
pub mod Supply
use Prim.Native.String.{String}
use deckxcoin.Prelude.{
  ℕ, zero, suc, ◌+◌, ◌-◌, ◌/◌, ◌%◌, Bool, true, ◌||◌, not, Option, none, some, List, [], ◌∷◌, ltb,
  leb, ◌==◌, length, get_elem?, map, if◌then◌else◌,
}
use deckxcoin.Prelude.Eq.{◌===◌, string_eq}
use deckxcoin.Block.Subsidy.{block_subsidy, cumulative_issuance, max_supply}
use deckxcoin.Block.Target.{next_bits, retarget_interval, block_work}
use deckxcoin.Block.Header.{
  BlockHeader, Block, Hashes, HeaderError, HeaderCheck, passes, fails, check_header,
  block_gas_limit, compute_merkle_root,
}
use deckxcoin.Block.Mine.{mine, default_attempts}
use deckxcoin.Tx.{Hex, Transaction, coinbase_tx}
use deckxcoin.Tx.Oracle.{Oracle}
use deckxcoin.State.{WorldState, Utxo, empty, add_utxo, total_supply}
use deckxcoin.Chain.Apply.{apply_tx}
use deckxcoin.Chain.Attempt.{ApplyError, got, refuse, throws}

-- The newest block is the head of the list.
pub record Blockchain : Type 0 where
  pub blocks : List Block
  pub state : WorldState
  pub work : ℕ

abbrev pub times_of : List Block → List ℕ
times_of blocks = map (λ (b : Block). b.header.time) blocks

-- Array.prototype.sort by number, as insertion.
unfoldable pub insert_time : ℕ → List ℕ → List ℕ
insert_time t [] = t ∷ []
insert_time t (u ∷ us) = if leb t u then t ∷ u ∷ us else u ∷ insert_time t us

unfoldable pub sort_times : List ℕ → List ℕ
sort_times [] = []
sort_times (t ∷ ts) = insert_time t (sort_times ts)

abbrev take_newest : ℕ → List ℕ → List ℕ
take_newest zero ts = []
take_newest (suc n) [] = []
take_newest (suc n) (t ∷ ts) = t ∷ take_newest n ts

-- `none` on a chain with no block.
unfoldable pub median_time_past : List Block → Option ℕ
unfolding sort_times insert_time
median_time_past blocks =
    let window = sort_times (take_newest 11 (times_of blocks)) in
    get_elem? window (length window / 2)

-- `none`: the chain has no tip, or `nextBits` throws. The block at height
-- `height - RETARGET_INTERVAL` stands `RETARGET_INTERVAL - 1` places behind the tip.
unfoldable pub next_bits_for : ℕ → List Block → Option ℕ
next_bits_for height [] = none
next_bits_for height (tip ∷ rest) =
    if height == 0 || not (height % retarget_interval == 0)
    then some tip.header.bits
    else elim (get_elem? (tip ∷ rest) (retarget_interval - 1)) [
      | none ↦ none
      | some first ↦ next_bits tip.header.bits (tip.header.time - first.header.time)
    ]

-- The texts of `addBlock`.
pub data BlockError : Type 0 where
  header : HeaderError → BlockError
  wrong_height wrong_parent wrong_difficulty time_too_early : BlockError
  transaction : ApplyError → BlockError
  block_gas_exceeded state_root_mismatch : BlockError

-- `crashes`: an exception leaves `addBlock`, which has changed nothing by then.
pub data AddBlock : Type 0 where
  added : Blockchain → AddBlock
  rejected : BlockError → AddBlock
  crashes : AddBlock

-- The transactions behind the coinbase, with the fees and the gas so far.
pub record Totals : Type 0 where
  pub fees : ℕ
  pub gas : ℕ

pub data Replayed : Type 0 where
  replayed : Totals → WorldState → Replayed
  stops : BlockError → Replayed
  breaks : Replayed

unfoldable pub apply_all : Oracle → ℕ → ℕ → List Transaction → Totals → WorldState → Replayed
apply_all o height time [] totals s = replayed totals s
apply_all o height time (tx ∷ rest) totals s =
    elim (apply_tx o tx (record { height = height; time = time; available_fees = 0 }) s) [
      | throws ↦ breaks
      | refuse e fee gas ↦ stops (transaction e)
      | got receipt ↦
          let after : Totals = record {
            fees = totals.fees + receipt.0.fee;
            gas = totals.gas + receipt.0.gas_used;
          } in
          let on = apply_all o height time rest after receipt.1 in
          if ltb block_gas_limit after.gas then stops block_gas_exceeded else on
    ]

-- The coinbase comes last: its allowance depends on the fees.
apply_block_coinbase :
    Oracle → (WorldState → Hex) → Blockchain → Block → Transaction → Totals → WorldState → AddBlock
apply_block_coinbase o state_root chain block coinbase totals draft =
    elim (apply_tx o coinbase
      (record {
        height = block.header.height;
        time = block.header.time;
        available_fees = totals.fees;
      })
      draft) [
        | throws ↦ crashes
        | refuse e fee gas ↦ rejected (transaction e)
        | got receipt ↦
            if not (state_root receipt.1 === block.header.state_root)
            then rejected state_root_mismatch
            else added (record {
              blocks = block ∷ chain.blocks;
              state = receipt.1;
              work = chain.work + block_work block.header.bits;
            })
      ]

-- The transactions of a block whose header has passed.
unfoldable pub connect_block :
    Oracle → (WorldState → Hex) → Blockchain → Block → List Transaction → AddBlock
unfolding apply_block_coinbase
connect_block o state_root chain block [] = crashes
connect_block o state_root chain block (coinbase ∷ rest) =
    elim (apply_all o block.header.height block.header.time rest (record { fees = 0; gas = 0 })
      chain.state) [
        | breaks ↦ crashes
        | stops e ↦ rejected e
        | replayed totals draft ↦
            apply_block_coinbase o state_root chain block coinbase totals draft
      ]

-- Why a block stops before its transactions.
pub data Stop : Type 0 where
  refused : BlockError → Stop
  crash : Stop

-- The height of a chain is one less than its number of blocks.
check_tip : Hashes → List Block → BlockHeader → Option Stop
check_tip h [] next = some crash
check_tip h (tip ∷ older) next =
    if not (next.height == length (tip ∷ older))
    then some (refused wrong_height)
    else if not (next.prev_hash === h.block_hash tip.header)
    then some (refused wrong_parent)
    else elim (next_bits_for next.height (tip ∷ older)) [
      | none ↦ some crash
      | some bits ↦
          if not (next.bits == bits)
          then some (refused wrong_difficulty)
          else elim (median_time_past (tip ∷ older)) [
            | none ↦ some crash
            | some median ↦ if leb next.time median then some (refused time_too_early) else none
          ]
    ]

-- The checks before the transactions; `none` lets the block through.
unfoldable pub check_context : Hashes → Blockchain → Block → ℕ → Option Stop
unfolding check_tip
check_context h chain block now = elim (check_header h block now) [
  | fails e ↦ some (refused (header e))
  | HeaderCheck.crashes ↦ some crash
  | passes ↦ check_tip h chain.blocks block.header
]

unfoldable pub add_block : Oracle → Hashes → (WorldState → Hex) → Blockchain → Block → ℕ → AddBlock
add_block o h state_root chain block now = elim (check_context h chain block now) [
  | some crash ↦ crashes
  | some (refused e) ↦ rejected e
  | none ↦ connect_block o state_root chain block block.transactions
]

-- `auditSupplyOf`, less its percentage.
pub record SupplyAudit : Type 0 where
  pub utxo_total : ℕ
  pub expected_subsidy : ℕ
  pub balanced : Bool
  pub under_cap : Bool

unfoldable pub audit_supply_of : WorldState → ℕ → SupplyAudit
audit_supply_of s height =
    let expected = cumulative_issuance height in
    let total = total_supply s in
    record {
      utxo_total = total;
      expected_subsidy = expected;
      balanced = total == expected;
      under_cap = leb total max_supply;
    }

unfoldable pub audit_supply : Blockchain → SupplyAudit
unfolding audit_supply_of
audit_supply chain = audit_supply_of chain.state (length chain.blocks - 1)

-- The genesis block that pays `miner`; `none` where the mining throws.
unfoldable pub create :
    Oracle → Hashes → (WorldState → Hex) → String → ℕ → ℕ → String → Option Blockchain
unfolding coinbase_tx
create o h state_root miner bits time memo =
    let cb = coinbase_tx miner (block_subsidy 0) 0 memo in
    let utxo : Utxo = record {
      txid = o.txid cb;
      vout = 0;
      value = block_subsidy 0;
      address = miner;
      script = none;
      height = 0;
      coinbase = true;
    } in
    elim (add_utxo utxo empty) [
      | none ↦ none
      | some state ↦ elim (compute_merkle_root h (cb ∷ [])) [
        | none ↦ none
        | some root ↦
            let template : BlockHeader = record {
              version = 1;
              prev_hash = h.empty_root;
              merkle_root = root;
              state_root = state_root state;
              time = time;
              bits = bits;
              height = 0;
              nonce = 0;
              extra_nonce = 0;
            } in
            elim (mine h template default_attempts) [
              | none ↦ none
              | some mined ↦ some (record {
                blocks = record { header = mined; transactions = cb ∷ [] } ∷ [];
                state = state;
                work = block_work mined.bits;
              })
            ]
      ]
    ]
