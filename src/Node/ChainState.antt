-- ===== src/Node/ChainState.antt =====
-- `ChainState` of chain/src/node/chainstate.ts: its state, and `#connect` and `#disconnect`. The logs by
-- height are left out.
pub mod Undo
pub mod Reorg
pub mod Accept
pub mod Locator
use Prim.Native.String.{String}
use deckxcoin.Prelude.{
  ℕ, ◌-◌, Bool, true, false, ◌&&◌, not, Option, none, some, List, [], ◌∷◌, ltb, ◌==◌, if◌then◌else◌,
}
use deckxcoin.Prelude.Eq.{◌===◌, string_eq, nat_eq, pair_eq}
use deckxcoin.Prelude.JsMap
use deckxcoin.Block.Header.{Block, Hashes}
use deckxcoin.Tx.{Hex}
use deckxcoin.Tx.Oracle.{Oracle}
use deckxcoin.State.{
  Outpoint, Utxo, ContractAccount, WorldState, add_utxo, get_utxo, spend_utxo, put_contract,
  get_contract, drop_contract, nonce_of, set_nonce,
}
use deckxcoin.Chain.Blockchain.{BlockError, transaction}
use deckxcoin.Node.Store
use deckxcoin.Node.Store.{ChainStore, StoredHeader, BlockUndo, get_header, get_block, get_undo}
use deckxcoin.Node.Draft.{draft_block, undo_of, drafted, declines, fails}

pub record ChainState : Type 0 where
  pub undo_retention : ℕ
  pub store : ChainStore
  pub state : WorldState
  pub tip : StoredHeader

unfoldable pub remove_spent : List Utxo → ChainStore → ChainStore
remove_spent [] store = store
remove_spent (u ∷ us) store = remove_spent us (Store.remove_utxo u.txid u.vout store)

unfoldable pub add_created : WorldState → List Outpoint → ChainStore → ChainStore
add_created draft [] store = store
add_created draft ((id, vout) ∷ rest) store =
    add_created draft rest
      (elim (get_utxo id vout draft) [ none ↦ store | some u ↦ Store.add_utxo u store ])

unfoldable pub write_contracts :
    WorldState → List (String × Option ContractAccount) → ChainStore → ChainStore
write_contracts draft [] store = store
write_contracts draft ((address, before) ∷ rest) store =
    write_contracts draft rest (elim (get_contract address draft) [
      | none ↦ Store.remove_contract address store
      | some now ↦ Store.put_contract now store
    ])

unfoldable pub write_nonces : WorldState → List (String × ℕ) → ChainStore → ChainStore
write_nonces draft [] store = store
write_nonces draft ((address, before) ∷ rest) store =
    write_nonces draft rest (Store.set_nonce address (nonce_of address draft) store)

-- What `#connect` writes, as one transaction of the store.
unfoldable pub commit_block : Hex → Block → ℕ → BlockUndo → WorldState → ℕ → ChainStore → ChainStore
unfolding remove_spent add_created write_contracts write_nonces
commit_block hash block work undo draft undo_retention store =
    let height = block.header.height in
    let written = Store.set_tip hash (
      write_nonces draft undo.nonces (
        write_contracts draft undo.contracts (
          add_created draft undo.created (
            remove_spent undo.spent
              (Store.put_undo undo (Store.put_block hash block work true store)))))) in
    if ltb undo_retention height
    then Store.prune_undo (height - undo_retention) written
    else written

-- The texts of `#connect`, `#disconnect` and `#reorgTo`.
pub data MoveError : Type 0 where
  invalid : BlockError → MoveError
  at_genesis no_undo parent_missing wrong_root : MoveError
  unconnected too_deep no_body : MoveError

-- `moved` carries the chain as it then is; otherwise nothing has changed.
pub data Move : Type 0 where
  moved : ChainState → Move
  stuck : MoveError → Move
  panics : Move

unfoldable pub connect : Oracle → Hashes → (WorldState → Hex) → Block → ℕ → ChainState → Move
unfolding draft_block undo_of commit_block
connect o h state_root block work chain = elim (draft_block o state_root block chain.state) [
  | fails ↦ panics
  | declines e ↦ stuck (invalid e)
  | drafted rec draft ↦
      let hash = h.block_hash block.header in
      let undo = undo_of o hash block chain.state rec in
      let store = commit_block hash block work undo draft chain.undo_retention chain.store in
      elim (get_header hash store) [
        | none ↦ panics
        | some tip ↦ moved (record chain { store = store; state = draft; tip = tip })
      ]
]

-- `if (restored.hasUtxo(…)) restored.spendUtxo(…)`
unfoldable pub unmake_one : Outpoint → WorldState → WorldState
unmake_one key s = elim (spend_utxo key.0 key.1 s) [ none ↦ s | some t ↦ t ]

unfoldable pub unmake : List Outpoint → WorldState → WorldState
unfolding unmake_one
unmake [] s = s
unmake (key ∷ rest) s = unmake rest (unmake_one key s)

-- `if (!restored.hasUtxo(…)) restored.addUtxo(u)`
unfoldable pub unspend_one : Utxo → WorldState → WorldState
unspend_one u s = elim (add_utxo u s) [ none ↦ s | some t ↦ t ]

unfoldable pub unspend : List Utxo → WorldState → WorldState
unfolding unspend_one
unspend [] s = s
unspend (u ∷ us) s = unspend us (unspend_one u s)

unfoldable pub put_back_one : String → Option ContractAccount → WorldState → WorldState
put_back_one address none s = drop_contract address s
put_back_one address (some before) s = put_contract before s

unfoldable pub put_back : List (String × Option ContractAccount) → WorldState → WorldState
unfolding put_back_one
put_back [] s = s
put_back ((address, before) ∷ rest) s = put_back rest (put_back_one address before s)

unfoldable pub reset_nonces : List (String × ℕ) → WorldState → WorldState
reset_nonces [] s = s
reset_nonces ((address, nonce) ∷ rest) s = reset_nonces rest (set_nonce address nonce s)

unfoldable pub rewind : BlockUndo → WorldState → WorldState
unfolding unmake unspend put_back reset_nonces
rewind undo s =
    reset_nonces undo.nonces (put_back undo.contracts (unspend undo.spent (unmake undo.created s)))

-- `expectedRoot && actualRoot !== expectedRoot`; the empty text commits to nothing.
abbrev pub root_differs : Hex → Option Block → Bool
root_differs actual none = false
root_differs actual (some parent) =
    not (parent.header.state_root === "") && not (actual === parent.header.state_root)

unfoldable pub disconnect : (WorldState → Hex) → ChainState → Move
unfolding rewind
disconnect state_root chain =
    if chain.tip.height == 0 then stuck at_genesis else elim (get_undo chain.tip.hash chain.store) [
      | none ↦ stuck no_undo
      | some undo ↦
          let restored = rewind undo chain.state in
          elim (get_header chain.tip.prev_hash chain.store) [
            | none ↦ stuck parent_missing
            | some parent ↦
                if root_differs (state_root restored) (get_block parent.hash chain.store)
                then stuck wrong_root
                else moved (record chain {
                  store = Store.set_tip parent.hash (
                      Store.write_state restored
                        (Store.set_active chain.tip.hash false chain.store));
                  state = restored;
                  tip = parent;
                })
          ]
    ]
