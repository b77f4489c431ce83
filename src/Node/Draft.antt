-- ===== src/Node/Draft.antt =====
-- What `#connect` of chain/src/node/chainstate.ts works out of a block before it writes: the state behind
-- the block, and the record that undoes it.
use Prim.Native.String.{String}
use deckxcoin.Prelude.{ℕ, ◌+◌, not, Option, none, some, List, [], ◌∷◌, ◌++◌, ltb, if◌then◌else◌}
use deckxcoin.Prelude.Eq.{◌===◌, string_eq, nat_eq, pair_eq}
use deckxcoin.Prelude.JsMap
use deckxcoin.Prelude.JsMap.{JsMap}
use deckxcoin.Block.Header.{Block, BlockHeader, block_gas_limit}
use deckxcoin.Tx.{Hex, TxInput, TxOutput, Transaction}
use deckxcoin.Tx.Oracle.{Oracle}
use deckxcoin.State.{
  Outpoint, outpoint, Utxo, ContractAccount, WorldState, get_utxo, get_contract, nonce_of,
}
use deckxcoin.Chain.Apply.{apply_tx}
use deckxcoin.Chain.Attempt.{got, refuse, throws, Receipt}
use deckxcoin.Chain.Blockchain.{
  BlockError, transaction, block_gas_exceeded, state_root_mismatch, Totals,
}
use deckxcoin.Node.Store.{BlockUndo}

-- The unspent outputs, before the block, that its inputs name.
unfoldable pub spent_by : WorldState → List TxInput → List Utxo
spent_by s [] = []
spent_by s (input ∷ rest) = elim (get_utxo input.txid input.vout s) [
  | none ↦ spent_by s rest
  | some u ↦ u ∷ spent_by s rest
]

unfoldable pub spent_of : WorldState → List Transaction → List Utxo
unfolding spent_by
spent_of s [] = []
spent_of s (tx ∷ rest) = spent_by s tx.inputs ++ spent_of s rest

unfoldable pub outpoints_from : Hex → ℕ → List TxOutput → List Outpoint
outpoints_from id vout [] = []
outpoints_from id vout (out ∷ rest) = outpoint id vout ∷ outpoints_from id (vout + 1) rest

unfoldable pub created_of : Oracle → List Transaction → List Outpoint
unfolding outpoints_from
created_of o [] = []
created_of o (tx ∷ rest) = outpoints_from (o.txid tx) 0 tx.outputs ++ created_of o rest

-- The contracts as they were, with `none` for the `null` of one that was not there.
abbrev pub Before : Type 0
Before = JsMap String (Option ContractAccount)

-- The empty text counts as no target.
unfoldable pub target_of : Transaction → Option String
target_of tx = elim tx.contract [
  | none ↦ none
  | some payload ↦ elim payload.target [
    | none ↦ none
    | some target ↦ if target === "" then none else some target
  ]
]

-- `if (!m.has(key)) m.set(key, v)`
abbrev pub note : {V : Type 0} → String → V → JsMap String V → JsMap String V
note key v m = if JsMap.has key m then m else JsMap.put key v m

unfoldable pub targets_before : WorldState → List Transaction → Before → Before
unfolding target_of
targets_before s [] before = before
targets_before s (tx ∷ rest) before = targets_before s rest (elim (target_of tx) [
  | none ↦ before
  | some target ↦ note target (get_contract target s) before
])

-- What the loop over the transactions records.
pub record Record : Type 0 where
  pub contracts : Before
  pub nonces : JsMap String ℕ

-- The address that a receipt reports, with the empty text for none.
abbrev pub reported : Receipt → Option String
reported r = elim r.contract_address [
  | none ↦ none
  | some address ↦ if address === "" then none else some address
]

abbrev pub deployer_of : WorldState → Transaction → String → Option String
deployer_of draft tx address = elim tx.contract [
  | none ↦ none
  | some payload ↦ elim (get_contract address draft) [
    | none ↦ none
    | some account ↦ some account.deployer
  ]
]

abbrev pub note_nonce : WorldState → Option String → JsMap String ℕ → JsMap String ℕ
note_nonce s none nonces = nonces
note_nonce s (some deployer) nonces = note deployer (nonce_of deployer s) nonces

-- After one transaction: `s` is the state before the block, `draft` the state so far.
unfoldable pub record_receipt : WorldState → WorldState → Transaction → Receipt → Record → Record
record_receipt s draft tx r rec = elim (reported r) [
  | none ↦ rec
  | some address ↦ record {
    contracts = note address none rec.contracts;
    nonces = note_nonce s (deployer_of draft tx address) rec.nonces;
  }
]

pub data Applied : Type 0 where
  applied : Totals → Record → WorldState → Applied
  stops : BlockError → Applied
  breaks : Applied

-- The loop over the transactions behind the coinbase.
unfoldable pub apply_recording :
    Oracle → WorldState → ℕ → ℕ → List Transaction → Totals → Record → WorldState → Applied
unfolding record_receipt
apply_recording o s height time [] totals rec draft = applied totals rec draft
apply_recording o s height time (tx ∷ rest) totals rec draft =
    elim (apply_tx o tx (record { height = height; time = time; available_fees = 0 }) draft) [
      | throws ↦ breaks
      | refuse e fee gas ↦ stops (transaction e)
      | got receipt ↦
          let after : Totals = record {
            fees = totals.fees + receipt.0.fee;
            gas = totals.gas + receipt.0.gas_used;
          } in
          let on =
            apply_recording o s height time rest after (record_receipt s receipt.1 tx receipt.0 rec)
              receipt.1 in
          if ltb block_gas_limit after.gas then stops block_gas_exceeded else on
    ]

-- The draft after the coinbase, with the record, if the block is sound.
pub data Drafted : Type 0 where
  drafted : Record → WorldState → Drafted
  declines : BlockError → Drafted
  fails : Drafted

unfoldable pub draft_coinbase :
    Oracle → (WorldState → Hex) → BlockHeader → Transaction → Totals → Record → WorldState → Drafted
draft_coinbase o state_root header coinbase totals rec draft =
    elim (apply_tx o coinbase
      (record { height = header.height; time = header.time; available_fees = totals.fees }) draft) [
        | throws ↦ fails
        | refuse e fee gas ↦ declines (transaction e)
        | got receipt ↦
            if not (state_root receipt.1 === header.state_root)
            then declines state_root_mismatch
            else drafted rec receipt.1
      ]

unfoldable pub draft_block : Oracle → (WorldState → Hex) → Block → WorldState → Drafted
unfolding targets_before apply_recording draft_coinbase
draft_block o state_root block s = elim block.transactions [
  | [] ↦ fails
  | coinbase ∷ rest ↦
      elim (apply_recording o s block.header.height block.header.time rest
        (record { fees = 0; gas = 0 })
        (record { contracts = targets_before s (coinbase ∷ rest) []; nonces = [] }) s) [
          | breaks ↦ fails
          | stops e ↦ declines e
          | applied totals rec draft ↦
              draft_coinbase o state_root block.header coinbase totals rec draft
        ]
]

unfoldable pub undo_of : Oracle → Hex → Block → WorldState → Record → BlockUndo
unfolding spent_of created_of
undo_of o hash block s rec = record {
  height = block.header.height;
  hash = hash;
  spent = spent_of s block.transactions;
  created = created_of o block.transactions;
  contracts = rec.contracts;
  nonces = rec.nonces;
}
