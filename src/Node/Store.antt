-- ===== src/Node/Store.antt =====
-- `ChainStore` of chain/src/store/sqlite.ts: each table is a map from its primary key, and the rows of
-- peers and of watchtower blobs are left out. A row of `blocks` keeps the block, its work and whether
-- it is active; its other columns are the header's.
use Prim.Native.String.{String}
use deckxcoin.Prelude.{
  ℕ, zero, suc, ◌%◌, ◌^◌, Bool, ◌&&◌, Option, none, some, List, [], ◌∷◌, ltb, ◌==◌, length,
  if◌then◌else◌,
}
use deckxcoin.Prelude.Eq.{◌===◌, string_eq, nat_eq, pair_eq}
use deckxcoin.Prelude.JsMap
use deckxcoin.Prelude.JsMap.{JsMap}
use deckxcoin.Block.Header.{Block}
use deckxcoin.Tx.{Hex}
use deckxcoin.State
use deckxcoin.State.{Outpoint, outpoint, Utxo, ContractAccount, WorldState}

pub record BlockUndo : Type 0 where
  pub height : ℕ
  pub hash : Hex
  pub spent : List Utxo
  pub created : List Outpoint
  pub contracts : List (String × Option ContractAccount)
  pub nonces : List (String × ℕ)

pub record StoredHeader : Type 0 where
  pub hash : Hex
  pub prev_hash : Hex
  pub height : ℕ
  pub time : ℕ
  pub bits : ℕ
  pub chain_work : ℕ
  pub active : Bool

pub record BlockRow : Type 0 where
  pub block : Block
  pub chain_work : ℕ
  pub active : Bool

pub record ChainStore : Type 0 where
  pub blocks : JsMap Hex BlockRow
  pub utxos : JsMap Outpoint Utxo
  pub contracts : JsMap String ContractAccount
  pub nonces : JsMap String ℕ
  pub undo : JsMap Hex BlockUndo
  pub meta : JsMap String String

abbrev pub get_meta : String → ChainStore → Option String
get_meta key store = JsMap.get key store.meta

abbrev pub set_meta : String → String → ChainStore → ChainStore
set_meta key value store = record store { meta = JsMap.put key value store.meta }

abbrev pub delete_meta : String → ChainStore → ChainStore
delete_meta key store = record store { meta = JsMap.delete key store.meta }

abbrev pub tip_hash : ChainStore → Option Hex
tip_hash store = get_meta "tip" store

abbrev pub set_tip : Hex → ChainStore → ChainStore
set_tip hash store = set_meta "tip" hash store

abbrev pub is_empty : ChainStore → Bool
is_empty store = length store.blocks == 0

abbrev pub row_to_header : Hex → BlockRow → StoredHeader
row_to_header hash row = record {
  hash = hash;
  prev_hash = row.block.header.prev_hash;
  height = row.block.header.height;
  time = row.block.header.time;
  bits = row.block.header.bits % 2 ^ 32;
  chain_work = row.chain_work;
  active = row.active;
}

abbrev pub kept_block : Block → Option BlockRow → Block
kept_block block none = block
kept_block block (some row) = row.block

-- On a known hash only the work and the flag are written.
unfoldable pub put_block : Hex → Block → ℕ → Bool → ChainStore → ChainStore
put_block hash block chain_work active store =
    let kept = kept_block block (JsMap.get hash store.blocks) in
    record store {
      blocks =
          JsMap.put hash (record { block = kept; chain_work = chain_work; active = active })
            store.blocks;
    }

unfoldable pub get_block : Hex → ChainStore → Option Block
get_block hash store = elim (JsMap.get hash store.blocks) [
  | none ↦ none
  | some row ↦ some row.block
]

unfoldable pub has_block : Hex → ChainStore → Bool
has_block hash store = JsMap.has hash store.blocks

unfoldable pub get_header : Hex → ChainStore → Option StoredHeader
get_header hash store = elim (JsMap.get hash store.blocks) [
  | none ↦ none
  | some row ↦ some (row_to_header hash row)
]

active_at : ℕ → JsMap Hex BlockRow → Option StoredHeader
active_at height [] = none
active_at height ((hash, row) ∷ rest) =
    if row.active && row.block.header.height == height
    then some (row_to_header hash row)
    else active_at height rest

-- The first active row at the height.
unfoldable pub get_active_at : ℕ → ChainStore → Option StoredHeader
unfolding active_at
get_active_at height store = active_at height store.blocks

unfoldable pub children_of : Hex → JsMap Hex BlockRow → List StoredHeader
children_of parent [] = []
children_of parent ((hash, row) ∷ rest) =
    if row.block.header.prev_hash === parent
    then row_to_header hash row ∷ children_of parent rest
    else children_of parent rest

unfoldable pub set_active : Hex → Bool → ChainStore → ChainStore
set_active hash active store = elim (JsMap.get hash store.blocks) [
  | none ↦ store
  | some row ↦ record store {
    blocks = JsMap.put hash (record row { active = active }) store.blocks;
  }
]

unfoldable pub put_undo : BlockUndo → ChainStore → ChainStore
put_undo undo store = record store { undo = JsMap.put undo.hash undo store.undo }

unfoldable pub get_undo : Hex → ChainStore → Option BlockUndo
get_undo hash store = JsMap.get hash store.undo

-- `DELETE FROM undo WHERE height < ?`
unfoldable pub without_below : ℕ → JsMap Hex BlockUndo → JsMap Hex BlockUndo
without_below keep_from [] = []
without_below keep_from ((hash, undo) ∷ rest) =
    if ltb undo.height keep_from
    then without_below keep_from rest
    else (hash, undo) ∷ without_below keep_from rest

unfoldable pub prune_undo : ℕ → ChainStore → ChainStore
unfolding without_below
prune_undo keep_from store = record store { undo = without_below keep_from store.undo }

-- `INSERT OR REPLACE`
abbrev pub add_utxo : Utxo → ChainStore → ChainStore
add_utxo u store = record store { utxos = JsMap.put (outpoint u.txid u.vout) u store.utxos }

abbrev pub remove_utxo : Hex → ℕ → ChainStore → ChainStore
remove_utxo txid vout store = record store { utxos = JsMap.delete (outpoint txid vout) store.utxos }

abbrev pub put_contract : ContractAccount → ChainStore → ChainStore
put_contract c store = record store { contracts = JsMap.put c.address c store.contracts }

abbrev pub remove_contract : String → ChainStore → ChainStore
remove_contract address store = record store { contracts = JsMap.delete address store.contracts }

abbrev pub set_nonce : String → ℕ → ChainStore → ChainStore
set_nonce address nonce store = record store { nonces = JsMap.put address nonce store.nonces }

abbrev pub remove_nonce : String → ChainStore → ChainStore
remove_nonce address store = record store { nonces = JsMap.delete address store.nonces }

unfoldable pub add_utxos : List Utxo → ChainStore → ChainStore
add_utxos [] store = store
add_utxos (u ∷ us) store = add_utxos us (add_utxo u store)

unfoldable pub put_contracts : List ContractAccount → ChainStore → ChainStore
put_contracts [] store = store
put_contracts (c ∷ cs) store = put_contracts cs (put_contract c store)

unfoldable pub set_nonces : List (String × ℕ) → ChainStore → ChainStore
set_nonces [] store = store
set_nonces ((address, nonce) ∷ rest) store = set_nonces rest (set_nonce address nonce store)

unfoldable pub write_state : WorldState → ChainStore → ChainStore
unfolding add_utxos put_contracts set_nonces
write_state state store = set_nonces state.nonces (
    put_contracts (JsMap.values state.contracts) (
      add_utxos (JsMap.values state.utxos)
        (record store { utxos = []; contracts = []; nonces = [] })))

restore_utxos : JsMap Outpoint Utxo → WorldState → Option WorldState
restore_utxos [] s = some s
restore_utxos ((k, u) ∷ rest) s = elim (State.add_utxo u s) [
  | none ↦ none
  | some t ↦ restore_utxos rest t
]

restore_contracts : JsMap String ContractAccount → WorldState → WorldState
restore_contracts [] s = s
restore_contracts ((k, c) ∷ rest) s = restore_contracts rest (State.put_contract c s)

bump_times : ℕ → String → WorldState → WorldState
bump_times zero address s = s
bump_times (suc n) address s = bump_times n address (State.bump_nonce address s)

restore_nonces : JsMap String ℕ → WorldState → WorldState
unfolding bump_times
restore_nonces [] s = s
restore_nonces ((address, n) ∷ rest) s = restore_nonces rest (bump_times n address s)

-- `none`: `addUtxo` throws.
unfoldable pub read_state : ChainStore → Option WorldState
unfolding restore_utxos restore_contracts restore_nonces
read_state store = elim (restore_utxos store.utxos State.empty) [
  | none ↦ none
  | some s ↦ some (restore_nonces store.nonces (restore_contracts store.contracts s))
]
