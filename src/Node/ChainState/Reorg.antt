-- ===== src/Node/ChainState/Reorg.antt =====
-- `#reorgTo` and `#restoreTo` of chain/src/node/chainstate.ts. The walk back takes at most one step for
-- each height from the target down, and the disconnecting at most one for each height from the tip down.
pub mod Ends
pub mod View
pub mod Moves
pub mod Branches
pub mod Restored
pub mod Outcome
use deckxcoin.Prelude.{
  ℕ, zero, suc, ◌+◌, ◌-◌, false, not, Option, none, some, List, [], ◌∷◌, ◌++◌, ltb, if◌then◌else◌,
}
use deckxcoin.Prelude.Eq.{◌===◌, string_eq}
use deckxcoin.Block.Header.{Hashes}
use deckxcoin.Tx.{Hex}
use deckxcoin.Tx.Oracle.{Oracle}
use deckxcoin.State.{WorldState}
use deckxcoin.Node.Store.{ChainStore, StoredHeader, get_header, get_block, set_active}
use deckxcoin.Node.ChainState.{
  ChainState, moved, stuck, panics, MoveError, unconnected, too_deep, no_body, connect, disconnect,
}

-- The headers from the first block off the active chain to the target, and the block below them.
pub data Walk : Type 0 where
  reaches : List StoredHeader → StoredHeader → Walk
  dangling : Walk
  spins : Walk

unfoldable pub walk_back : ℕ → ChainStore → StoredHeader → List StoredHeader → Walk
walk_back zero store cursor branch = spins
walk_back (suc steps) store cursor branch =
    if cursor.active then reaches branch cursor else elim (get_header cursor.prev_hash store) [
      | none ↦ dangling
      | some parent ↦ walk_back steps store parent (cursor ∷ branch)
    ]

-- `halts` and `breaks` carry the chain as it then is, and what has been disconnected or connected.
pub data Progress : Type 0 where
  arrives : ChainState → List Hex → Progress
  halts : MoveError → ChainState → List Hex → Progress
  breaks : ChainState → Progress
  endless : Progress

-- The ids in the order of `push`.
unfoldable pub disconnect_to : (WorldState → Hex) → ℕ → Hex → ChainState → List Hex → Progress
disconnect_to state_root zero fork chain disconnected = endless
disconnect_to state_root (suc steps) fork chain disconnected =
    if chain.tip.hash === fork
    then arrives chain disconnected
    else elim (disconnect state_root chain) [
      | panics ↦ breaks chain
      | stuck e ↦ halts e chain disconnected
      | moved next ↦ disconnect_to state_root steps fork next (disconnected ++ chain.tip.hash ∷ [])
    ]

-- `kept`: the result is not ok; `throws`: an exception leaves the method.
pub data Reorg : Type 0 where
  reorganised : ChainState → List Hex → List Hex → Reorg
  kept : MoveError → ChainState → Reorg
  throws : Reorg
  diverges : Reorg

abbrev pub restored : MoveError → Option ChainState → Reorg
restored e none = throws
restored e (some chain) = kept e chain

module _ (o : Oracle) (h : Hashes) (state_root : WorldState → Hex) where
  unfoldable pub connect_branch : List StoredHeader → ChainState → List Hex → Progress
  connect_branch [] chain connected = arrives chain connected
  connect_branch (header ∷ rest) chain connected = elim (get_block header.hash chain.store) [
    | none ↦ halts no_body chain connected
    | some block ↦ elim (connect o h state_root block header.chain_work chain) [
      | panics ↦ breaks chain
      | stuck e ↦
          halts e (record chain { store = set_active header.hash false chain.store }) connected
      | moved next ↦ connect_branch rest next (connected ++ header.hash ∷ [])
    ]
  ]

  -- `none`: an exception leaves the loop. The list is taken from its end.
  unfoldable pub undo_connected : List Hex → ChainState → Option ChainState
  undo_connected [] chain = some chain
  undo_connected (hash ∷ rest) chain = elim (undo_connected rest chain) [
    | none ↦ none
    | some later ↦
        if later.tip.hash === hash
        then elim (disconnect state_root later) [
          | panics ↦ none
          | stuck e ↦ some later
          | moved next ↦ some next
        ]
        else some later
  ]

  unfoldable pub redo_one : Hex → ChainState → Option ChainState
  redo_one hash chain = elim (get_block hash chain.store) [
    | none ↦ some chain
    | some block ↦ elim (get_header hash chain.store) [
      | none ↦ some chain
      | some header ↦ elim (connect o h state_root block header.chain_work chain) [
        | panics ↦ none
        | stuck e ↦ some chain
        | moved next ↦ some next
      ]
    ]
  ]

  unfoldable pub redo_disconnected : List Hex → ChainState → Option ChainState
  unfolding redo_one
  redo_disconnected [] chain = some chain
  redo_disconnected (hash ∷ rest) chain = elim (redo_disconnected rest chain) [
    | none ↦ none
    | some later ↦ redo_one hash later
  ]

  -- `none`: an exception, for another tip than the original one too.
  unfoldable pub restore_to : StoredHeader → List Hex → List Hex → ChainState → Option ChainState
  unfolding undo_connected redo_disconnected
  restore_to original disconnected connected chain = elim (undo_connected connected chain) [
    | none ↦ none
    | some down ↦ elim (redo_disconnected disconnected down) [
      | none ↦ none
      | some up ↦ if not (up.tip.hash === original.hash) then none else some up
    ]
  ]

  move_up : StoredHeader → List Hex → List StoredHeader → ChainState → Reorg
  unfolding connect_branch restore_to
  move_up original disconnected branch chain = elim (connect_branch branch chain []) [
    | arrives last connected ↦ reorganised last disconnected connected
    | halts e last connected ↦ restored e (restore_to original disconnected connected last)
    | breaks last ↦ throws
    | endless ↦ diverges
  ]

  unfoldable pub reorg_to : StoredHeader → ChainState → Reorg
  unfolding walk_back disconnect_to restore_to move_up
  reorg_to target chain = elim (walk_back (suc target.height) chain.store target []) [
    | spins ↦ diverges
    | dangling ↦ kept unconnected chain
    | reaches branch fork ↦
        if ltb (fork.height + chain.undo_retention) chain.tip.height
        then kept too_deep chain
        else elim (disconnect_to state_root (suc chain.tip.height) fork.hash chain []) [
          | arrives down disconnected ↦ move_up chain.tip disconnected branch down
          | halts e down disconnected ↦ restored e (restore_to chain.tip disconnected [] down)
          | breaks down ↦ throws
          | endless ↦ diverges
        ]
  ]
