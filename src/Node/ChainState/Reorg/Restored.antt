-- ===== src/Node/ChainState/Reorg/Restored.antt =====
-- Where `#reorgTo` and `#restoreTo` (chain/src/node/chainstate.ts) leave the tip, and that they keep the
-- stored blocks.
use deckxcoin.Prelude.{◌≡◌, some, List, [], ◌∷◌, arith, Bool-cases, Option-cases, inl, inr, subst}
use deckxcoin.Prelude.Eq.{◌===◌, string_eq, ===→eq}
use deckxcoin.Block.Header.{Hashes}
use deckxcoin.Tx.{Hex}
use deckxcoin.Tx.Oracle.{Oracle}
use deckxcoin.State.{WorldState}
use deckxcoin.Node.Store.{StoredHeader, get_header, get_block}
use deckxcoin.Node.ChainState.{ChainState, connect, disconnect}
use deckxcoin.Node.ChainState.Reorg.{undo_connected, redo_one, redo_disconnected, restore_to}
use deckxcoin.Node.ChainState.Reorg.Moves.{Keeps-trans, at_moved, at_stuck, at_panic, move_ends}
use deckxcoin.Node.ChainState.Reorg.Branches.{get_header-IsKnown, known-Keeps, Keeps-IsKeyed}
use deckxcoin.Node.ChainState.Reorg.View.{
  IsKeyed, get_header-view, Keeps, disconnect-IsDisconnected, disconnect-Keeps,
}

module _ (o : Oracle) (h : Hashes) (state_root : WorldState → Hex) where
  undo_connected-Keeps :
      (ids : List Hex) (origin chain last : ChainState)
      → Keeps origin chain
      → undo_connected o h state_root ids chain ≡ some last
      → Keeps origin last
  unfolding undo_connected
  undo_connected-Keeps [] origin chain last k e =
      let same : chain ≡ last = ground arith in subst (Keeps origin) same k
  undo_connected-Keeps (hash ∷ rest) origin chain last k e =
      elim (Option-cases (undo_connected o h state_root rest chain)) [
        | inl x ↦ absurd (ground arith)
        | inr (later, x) ↦
            let one = undo_connected-Keeps rest origin chain later k x in
            elim (Bool-cases (later.tip.hash === hash)) [
              | inr other ↦ let same : later ≡ last = ground arith in subst (Keeps origin) same one
              | inl there ↦ elim (move_ends (disconnect state_root later)) [
                | at_panic y ↦ absurd (ground arith)
                | at_stuck why y ↦
                    let same : later ≡ last = ground arith in subst (Keeps origin) same one
                | at_moved next y ↦
                    let same : next ≡ last = ground arith in
                    subst (Keeps origin) same (
                      Keeps-trans origin later next one (
                        disconnect-Keeps later next
                          (disconnect-IsDisconnected state_root later next y)))
              ]
            ]
      ]

  redo_one-Keeps :
      (hash : Hex) (origin chain last : ChainState)
      → IsKeyed h origin.store
      → Keeps origin chain
      → redo_one o h state_root hash chain ≡ some last
      → Keeps origin last
  unfolding redo_one
  redo_one-Keeps hash origin chain last keyed k e =
      elim (Option-cases (get_block hash chain.store)) [
        | inl x ↦ let same : chain ≡ last = ground arith in subst (Keeps origin) same k
        | inr (block, x) ↦ elim (Option-cases (get_header hash chain.store)) [
          | inl y ↦ let same : chain ≡ last = ground arith in subst (Keeps origin) same k
          | inr (header, y) ↦
              elim (move_ends (connect o h state_root block header.chain_work chain)) [
                | at_panic z ↦ absurd (ground arith)
                | at_stuck why z ↦
                    let same : chain ≡ last = ground arith in subst (Keeps origin) same k
                | at_moved next z ↦
                    let same : next ≡ last = ground arith in
                    let name = (get_header-view hash chain.store header y).2 in
                    let (one, tip) =
                      known-Keeps o h state_root header block chain next
                        (Keeps-IsKeyed o h state_root origin chain k keyed)
                        (get_header-IsKnown hash chain.store header y) (rw name x) z in
                    subst (Keeps origin) same (Keeps-trans origin chain next k one)
              ]
        ]
      ]

  redo_disconnected-Keeps :
      (ids : List Hex) (origin chain last : ChainState)
      → IsKeyed h origin.store
      → Keeps origin chain
      → redo_disconnected o h state_root ids chain ≡ some last
      → Keeps origin last
  unfolding redo_disconnected
  redo_disconnected-Keeps [] origin chain last keyed k e =
      let same : chain ≡ last = ground arith in subst (Keeps origin) same k
  redo_disconnected-Keeps (hash ∷ rest) origin chain last keyed k e =
      elim (Option-cases (redo_disconnected o h state_root rest chain)) [
        | inl x ↦ absurd (ground arith)
        | inr (later, x) ↦
            redo_one-Keeps hash origin later last keyed
              (redo_disconnected-Keeps rest origin chain later keyed k x) (ground arith)
      ]

  -- What a restoration that returns gives.
  pub restore_to-tip :
      (original : StoredHeader) (down up : List Hex) (origin chain last : ChainState)
      → IsKeyed h origin.store
      → Keeps origin chain
      → restore_to o h state_root original down up chain ≡ some last
      → Keeps origin last × (last.tip.hash ≡ original.hash)
  unfolding restore_to
  restore_to-tip original down up origin chain last keyed k e =
      elim (Option-cases (undo_connected o h state_root up chain)) [
        | inl x ↦ absurd (ground arith)
        | inr (low, x) ↦ elim (Option-cases (redo_disconnected o h state_root down low)) [
          | inl y ↦ absurd (ground arith)
          | inr (high, y) ↦ elim (Bool-cases (high.tip.hash === original.hash)) [
            | inr other ↦ absurd (ground arith)
            | inl there ↦
                let same : high ≡ last = ground arith in
                subst (λ (c : ChainState). Keeps origin c × (c.tip.hash ≡ original.hash)) same
                  (
                    redo_disconnected-Keeps down origin low high keyed
                        (undo_connected-Keeps up origin chain low k x) y,
                    ===→eq high.tip.hash original.hash there,
                  )
          ]
        ]
      ]
