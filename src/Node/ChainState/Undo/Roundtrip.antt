-- ===== src/Node/ChainState/Undo/Roundtrip.antt =====
-- `#connect` and then `#disconnect` of chain/src/node/chainstate.ts.
use Prim.Native.String.{String}
use deckxcoin.Prelude.{
  ℕ, ◌≡◌, refl, sym, ap, ◌∙◌, Bool, true, false, none, some, arith, Bool-cases, Option-cases, inl,
  inr, subst, ◌==◌,
}
use deckxcoin.Prelude.Eq.{◌===◌, string_eq, ===→eq, ===_refl}
use deckxcoin.Prelude.JsMap
use deckxcoin.Prelude.JsMap.{JsMap, get-put}
use deckxcoin.Block.Header.{Block, Hashes}
use deckxcoin.Tx.{Hex}
use deckxcoin.Tx.Oracle.{Oracle}
use deckxcoin.State.{WorldState}
use deckxcoin.Node.Store.{
  ChainStore, BlockRow, BlockUndo, StoredHeader, row_to_header, put_block, get_block, get_header,
  get_undo,
}
use deckxcoin.Node.ChainState.{ChainState, moved, connect, rewind, root_differs, disconnect}
use deckxcoin.Node.Draft.{undo_of}
use deckxcoin.Node.ChainState.Undo.Drafts.{IsWorld}
use deckxcoin.Node.ChainState.Undo.Restores.{StartsWithCoinbase, Same, rewind-Same}
use deckxcoin.Node.ChainState.Undo.Written.{IsConnected, connect-IsConnected, commit_block-rows}

put_block-fresh :
    (hash : Hex) (block : Block) (work : ℕ) (active : Bool) (store : ChainStore)
    → get_header hash store ≡ none
    → (put_block hash block work active store).blocks
      ≡ JsMap.put hash (record { block = block; chain_work = work; active = active }) store.blocks
unfolding put_block get_header
put_block-fresh hash block work active store h = elim (Option-cases (JsMap.get hash store.blocks)) [
  | inl e ↦ rw e refl
  | inr (row, e) ↦ absurd (ground arith)
]

disconnect-moved :
    (state_root : WorldState → Hex) (chain : ChainState) (undo : BlockUndo) (parent : StoredHeader)
    → (chain.tip.height == 0) ≡ false
    → get_undo chain.tip.hash chain.store ≡ some undo
    → get_header chain.tip.prev_hash chain.store ≡ some parent
    → root_differs (state_root (rewind undo chain.state)) (get_block parent.hash chain.store)
      ≡ false
    → (back : ChainState) × (disconnect state_root chain ≡ moved back)
      × (back.state ≡ rewind undo chain.state)
      × (back.tip ≡ parent)
unfolding disconnect
disconnect-moved state_root chain undo parent high u p r =
    rw (disconnect, high, u, p, r) (_, refl, refl, refl)

module _ (o : Oracle) (h : Hashes) (state_root : WorldState → Hex) (block : Block) (work : ℕ)
    (chain after : ChainState) (parent : Block)
    (fresh : get_header (h.block_hash block.header) chain.store ≡ none)
    (stored : get_block block.header.prev_hash chain.store ≡ some parent)
    (c : IsConnected o h state_root block work chain after) where
  connected_undo : BlockUndo
  connected_undo = undo_of o (h.block_hash block.header) block chain.state c.rec

  connected-rows :
      (after.store.blocks
        ≡ JsMap.put
            (h.block_hash block.header)
            (record { block = block; chain_work = work; active = true })
            chain.store.blocks)
      × (get_undo (h.block_hash block.header) after.store ≡ some connected_undo)
  unfolding connected_undo undo_of get_undo
  connected-rows =
      let hash = h.block_hash block.header in
      let (b, u) =
        commit_block-rows hash block work connected_undo after.state chain.undo_retention
          chain.store refl refl in
      let same = c.committed in
      (
        ap (λ (s : ChainStore). s.blocks) same
            ∙ b
            ∙ put_block-fresh hash block work true chain.store fresh,
        ap (λ (s : ChainStore). JsMap.get hash s.undo) same ∙ u,
      )

  -- The new tip is the block's header, and its parent is still found.
  connected-tip :
      (after.tip
        ≡ row_to_header
            (h.block_hash block.header)
            (record { block = block; chain_work = work; active = true }))
      × ((row : BlockRow) × (JsMap.get block.header.prev_hash after.store.blocks ≡ some row)
          × (row.block ≡ parent))
  unfolding get_header get_block
  connected-tip =
      let hash = h.block_hash block.header in
      let (rows, u) = connected-rows in
      let row : BlockRow = record { block = block; chain_work = work; active = true } in
      let tipped = c.tipped in
      let found : JsMap.get hash after.store.blocks ≡ some row =
        ap (JsMap.get hash) rows
        ∙ get-put hash hash row chain.store.blocks
        ∙ rw (===_refl hash) refl in
      let g = get-put block.header.prev_hash hash row chain.store.blocks in
      elim (Option-cases (JsMap.get block.header.prev_hash chain.store.blocks)) [
        | inl e ↦ absurd (ground arith)
        | inr (old, e) ↦ elim (Bool-cases (block.header.prev_hash === hash)) [
          | inl same ↦
              let e2 =
                subst (λ x. JsMap.get x chain.store.blocks ≡ some old)
                  (===→eq block.header.prev_hash hash same) e in
              absurd (ground arith)
          | inr other ↦ (
            ground arith,
            (old, ap (JsMap.get block.header.prev_hash) rows ∙ g ∙ rw other e, ground arith),
          )
        ]
      ]

get_header-row :
    (hash : Hex) (row : BlockRow) (store : ChainStore)
    → JsMap.get hash store.blocks ≡ some row
    → get_header hash store ≡ some (row_to_header hash row)
unfolding get_header
get_header-row hash row store h = rw (get_header, h) refl

root_agrees :
    (root hash : Hex) (row : BlockRow) (parent : Block) (store : ChainStore)
    → JsMap.get hash store.blocks ≡ some row
    → row.block ≡ parent
    → root ≡ parent.header.state_root
    → root_differs root (get_block hash store) ≡ false
unfolding get_block
root_agrees root hash row parent store h own same =
    let again : row.block.header.state_root ≡ root =
      ap (λ (b : Block). b.header.state_root) own ∙ sym same in
    rw (get_block, h) (rw again (ground (arith, ===_refl root)))

-- A new block that `#connect` puts on its stored parent can be disconnected at once: `#disconnect` then
-- succeeds, the parent is the tip, and each outpoint, contract and nonce is as before; if the state before
-- is well formed, is the one that the parent commits to, the root depends on what the state holds alone,
-- the block is no genesis and starts with a coinbase, and no contract has the empty text for its address.
pub connect-disconnect :
    (o : Oracle) (h : Hashes) (state_root : WorldState → Hex) (block parent : Block) (work : ℕ)
    (chain after : ChainState)
    → IsWorld chain.state
    → StartsWithCoinbase block
    → ((creator : String) (nonce : ℕ) → (o.contract_address creator nonce === "") ≡ false)
    → ((s t : WorldState) → Same s t → state_root s ≡ state_root t)
    → (block.header.height == 0) ≡ false
    → get_header (h.block_hash block.header) chain.store ≡ none
    → get_block block.header.prev_hash chain.store ≡ some parent
    → parent.header.state_root ≡ state_root chain.state
    → connect o h state_root block work chain ≡ moved after
    → (back : ChainState) × (disconnect state_root after ≡ moved back)
      × Same back.state chain.state
      × (back.tip.hash ≡ block.header.prev_hash)
unfolding get_header get_block connected_undo
connect-disconnect o h state_root block parent work chain after world starts named respects high
      fresh stored commits done =
    let c = connect-IsConnected o h state_root block work chain after done in
    let (rows, u) = connected-rows o h state_root block work chain after parent fresh stored c in
    let (tip, (row, found, own)) =
      connected-tip o h state_root block work chain after parent fresh stored c in
    let hash = h.block_hash block.header in
    let undo = undo_of o hash block chain.state c.rec in
    let same =
      rewind-Same o state_root hash block chain.state c.rec after.state world starts named
        c.sound in
    let root = respects (rewind undo after.state) chain.state same in
    let (back, moves, state, at) =
      disconnect-moved state_root after undo (row_to_header block.header.prev_hash row)
        (rw tip high) (rw tip u)
        (rw tip (get_header-row block.header.prev_hash row after.store found))
        (root_agrees _ block.header.prev_hash row parent after.store found own
          (root ∙ sym commits)) in
    (back, moves, rw state same, rw at refl)
