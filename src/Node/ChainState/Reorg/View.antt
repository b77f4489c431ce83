-- ===== src/Node/ChainState/Reorg/View.antt =====
-- What `#connect` and `#disconnect` of chain/src/node/chainstate.ts leave of the stored blocks, but for
-- which of them are active.
use deckxcoin.Prelude.{
  ℕ, ◌≡◌, refl, sym, ap, ◌∙◌, Bool, true, false, Option, none, some, List, [], ◌∷◌, arith,
  if◌then◌else◌, Bool-cases, Option-cases, inl, inr, subst, ◌==◌,
}
use deckxcoin.Prelude.Eq.{◌===◌, string_eq, nat_eq, pair_eq, ===→eq, ===_refl}
use deckxcoin.Prelude.JsMap
use deckxcoin.Prelude.JsMap.{JsMap, get-put}
use deckxcoin.Block.Header.{Block, Hashes}
use deckxcoin.Tx.{Hex}
use deckxcoin.Tx.Oracle.{Oracle}
use Prim.Native.String.{String}
use deckxcoin.State.{WorldState, Utxo, ContractAccount}
use deckxcoin.Node.Store.{
  ChainStore, BlockRow, BlockUndo, StoredHeader, row_to_header, kept_block, put_block, get_block,
  get_header, get_undo, set_active, write_state, add_utxos, put_contracts, set_nonces,
}
use deckxcoin.Node.Store
use deckxcoin.Node.ChainState.{ChainState, moved, rewind, root_differs, disconnect}
use deckxcoin.Node.Draft.{undo_of}
use deckxcoin.Node.ChainState.Undo.Written.{IsConnected, commit_block-rows}

abbrev seen : Option BlockRow → Option (Block × ℕ)
seen none = none
seen (some row) = some (row.block, row.chain_work)

-- The block under a hash, and its accumulated work.
unfoldable pub view : Hex → ChainStore → Option (Block × ℕ)
view k store = seen (JsMap.get k store.blocks)

abbrev pub SameView : ChainStore → ChainStore → Type 0
SameView s t = (k : Hex) → view k t ≡ view k s

pub get_header-view :
    (k : Hex) (store : ChainStore) (header : StoredHeader)
    → get_header k store ≡ some header
    → (block : Block) × (view k store ≡ some (block, header.chain_work))
      × (header.hash ≡ k)
      × (get_block k store ≡ some block)
unfolding get_header view get_block
get_header-view k store header h = elim (Option-cases (JsMap.get k store.blocks)) [
  | inl e ↦ absurd (ground arith)
  | inr (row, e) ↦ (row.block, ground arith, ground arith, ground arith)
]

pub view-set_active :
    (k hash : Hex) (active : Bool) (store : ChainStore)
    → view k (set_active hash active store) ≡ view k store
unfolding set_active view
view-set_active k hash active store = elim (Option-cases (JsMap.get hash store.blocks)) [
  | inl e ↦ rw (set_active, e) refl
  | inr (row, e) ↦
      let g = get-put k hash (record row { active = active }) store.blocks in
      elim (Bool-cases (k === hash)) [
        | inl same ↦
            let e2 =
              subst (λ x. JsMap.get x store.blocks ≡ some row) (sym (===→eq k hash same)) e in
            rw (view, set_active, e) (rw (g, same, e2) refl)
        | inr other ↦ rw (view, set_active, e) (rw (g, other) refl)
      ]
]

-- The block that a hash keeps when it is put again.
abbrev pub old_block : Block → Option (Block × ℕ) → Block
old_block block none = block
old_block block (some known) = known.0

pub view-put_block :
    (k hash : Hex) (block : Block) (work : ℕ) (active : Bool) (store : ChainStore)
    → view k (put_block hash block work active store)
      ≡ (if k === hash then some (old_block block (view hash store), work) else view k store)
unfolding put_block view
view-put_block k hash block work active store =
    let row : BlockRow = record {
      block = kept_block block (JsMap.get hash store.blocks);
      chain_work = work;
      active = active;
    } in
    let g = get-put k hash row store.blocks in
    elim (Option-cases (JsMap.get hash store.blocks)) [
      | inl e ↦ ground arith
      | inr (old, e) ↦ ground arith
    ]

view-blocks : (k : Hex) (s t : ChainStore) → t.blocks ≡ s.blocks → view k t ≡ view k s
unfolding view
view-blocks k s t h = rw h refl

blocks-add_utxos : (us : List Utxo) (s : ChainStore) → (add_utxos us s).blocks ≡ s.blocks
unfolding add_utxos
blocks-add_utxos [] s = refl
blocks-add_utxos (u ∷ us) s = blocks-add_utxos us (Store.add_utxo u s)

blocks-put_contracts :
    (cs : List ContractAccount) (s : ChainStore) → (put_contracts cs s).blocks ≡ s.blocks
unfolding put_contracts
blocks-put_contracts [] s = refl
blocks-put_contracts (c ∷ cs) s = blocks-put_contracts cs (Store.put_contract c s)

blocks-set_nonces : (ns : List (String × ℕ)) (s : ChainStore) → (set_nonces ns s).blocks ≡ s.blocks
unfolding set_nonces
blocks-set_nonces [] s = refl
blocks-set_nonces ((a, n) ∷ ns) s = blocks-set_nonces ns (Store.set_nonce a n s)

blocks-write_state : (state : WorldState) (s : ChainStore) → (write_state state s).blocks ≡ s.blocks
unfolding write_state
blocks-write_state state s =
    blocks-set_nonces state.nonces _
    ∙ blocks-put_contracts (JsMap.values state.contracts) _
    ∙ blocks-add_utxos (JsMap.values state.utxos) _

-- The tip is stored, with its work.
abbrev pub IsTipped : ChainState → Type 0
IsTipped chain =
    (block : Block) × (view chain.tip.hash chain.store ≡ some (block, chain.tip.chain_work))

-- Each stored block stands under its own hash.
abbrev pub IsKeyed : Hashes → ChainStore → Type 0
IsKeyed h store =
    (k : Hex) (block : Block) (work : ℕ)
    → view k store ≡ some (block, work)
    → h.block_hash block.header ≡ k

pub SameView-IsKeyed : (h : Hashes) (s t : ChainStore) → SameView s t → IsKeyed h s → IsKeyed h t
SameView-IsKeyed h s t v keyed k block work e = keyed k block work (sym (v k) ∙ e)

-- A move that keeps the stored blocks, and has a stored tip.
pub record Keeps (chain next : ChainState) : Type 0 where
  pub same : SameView chain.store next.store
  pub tipped : IsTipped next

-- What `#disconnect` does where it succeeds.
pub record IsDisconnected (chain next : ChainState) : Type 0 where
  pub undo : BlockUndo
  pub high : (chain.tip.height == 0) ≡ false
  pub below : get_header chain.tip.prev_hash chain.store ≡ some next.tip
  pub store :
      next.store
      ≡ Store.set_tip next.tip.hash
          (write_state next.state (set_active chain.tip.hash false chain.store))

pub disconnect-IsDisconnected :
    (state_root : WorldState → Hex) (chain next : ChainState)
    → disconnect state_root chain ≡ moved next
    → IsDisconnected chain next
unfolding disconnect
disconnect-IsDisconnected state_root chain next h = elim (Bool-cases (chain.tip.height == 0)) [
  | inl low ↦ absurd (ground arith)
  | inr high ↦ elim (Option-cases (get_undo chain.tip.hash chain.store)) [
    | inl e ↦ absurd (ground arith)
    | inr (undo, e) ↦ elim (Option-cases (get_header chain.tip.prev_hash chain.store)) [
      | inl x ↦ absurd (ground arith)
      | inr (parent, x) ↦
          elim (Bool-cases (
            root_differs (state_root (rewind undo chain.state))
              (get_block parent.hash chain.store))) [
                | inl wrong ↦ absurd (ground arith)
                | inr right ↦
                    let same : record chain {
                      store = Store.set_tip parent.hash (
                          write_state (rewind undo chain.state)
                            (set_active chain.tip.hash false chain.store));
                      state = rewind undo chain.state;
                      tip = parent;
                    }
                        ≡ next =
                      ground arith in
                    rw (← same) (record { undo = undo; high = high; below = x; store = refl })
              ]
    ]
  ]
]

pub disconnect-Keeps : (chain next : ChainState) → IsDisconnected chain next → Keeps chain next
disconnect-Keeps chain next d =
    let v : SameView chain.store next.store = λ k.
      view-blocks k (set_active chain.tip.hash false chain.store) next.store (
        ap (λ (s : ChainStore). s.blocks) d.store
        ∙ blocks-write_state next.state (set_active chain.tip.hash false chain.store))
      ∙ view-set_active k chain.tip.hash false chain.store in
    let (block, found, name, body) =
      get_header-view chain.tip.prev_hash chain.store next.tip d.below in
    record { same = v; tipped = (block, v next.tip.hash ∙ rw name found) }

module _ (o : Oracle) (h : Hashes) (state_root : WorldState → Hex) (block : Block) (work : ℕ)
    (chain next : ChainState) (c : IsConnected o h state_root block work chain next) where
  -- After a block is connected, its hash has its work, and all else is as before.
  pub connect-view :
      (k : Hex)
      → view k next.store ≡ (
          if k === h.block_hash block.header
          then some (old_block block (view (h.block_hash block.header) chain.store), work)
          else view k chain.store)
  unfolding undo_of
  connect-view k =
      let hash = h.block_hash block.header in
      let (b, u) =
        commit_block-rows hash block work (undo_of o hash block chain.state c.rec) next.state
          chain.undo_retention chain.store refl refl in
      view-blocks k (put_block hash block work true chain.store) next.store
        (ap (λ (s : ChainStore). s.blocks) c.committed ∙ b)
      ∙ view-put_block k hash block work true chain.store

  -- The tip is the block, with its work.
  pub connect-tip :
      (next.tip.hash ≡ h.block_hash block.header) × (next.tip.chain_work ≡ work) × IsTipped next
  connect-tip =
      let hash = h.block_hash block.header in
      let (stored, found, name, body) = get_header-view hash next.store next.tip c.tipped in
      let v = connect-view hash in (name, ground (arith, ===_refl hash), (stored, rw name found))

  -- A stored block that is connected again keeps all.
  pub connect-Keeps :
      view (h.block_hash block.header) chain.store ≡ some (block, work) → Keeps chain next
  connect-Keeps known =
      let hash = h.block_hash block.header in
      record {
        same = λ k. connect-view k ∙ elim (Bool-cases (k === hash)) [
          | inl same ↦ rw same (rw known (sym (rw (===→eq k hash same) known)))
          | inr other ↦ rw other refl
        ];
        tipped = connect-tip.2;
      }
