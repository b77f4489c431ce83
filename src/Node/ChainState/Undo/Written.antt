-- ===== src/Node/ChainState/Undo/Written.antt =====
-- What `#connect` of chain/src/node/chainstate.ts writes to the tables of blocks and of undo records.
use Prim.Native.String.{String}
use deckxcoin.Prelude.{
  ℕ, ◌-◌, ◌≡◌, refl, sym, ap, ◌∙◌, true, false, Option, some, List, [], ◌∷◌, arith, Bool-cases,
  Option-cases, inl, inr, ◌⊎◌, subst, ltb,
}
use deckxcoin.Prelude.Eq.{◌===◌, string_eq, ===_refl}
use deckxcoin.Prelude.JsMap
use deckxcoin.Prelude.JsMap.{JsMap, get-put}
use deckxcoin.Block.Header.{Block, Hashes}
use deckxcoin.Tx.{Hex}
use deckxcoin.Tx.Oracle.{Oracle}
use deckxcoin.State.{Outpoint, Utxo, ContractAccount, WorldState, get_utxo, get_contract}
use deckxcoin.Chain.Blockchain.{BlockError}
use deckxcoin.Node.Store
use deckxcoin.Node.Store.{
  ChainStore, BlockRow, BlockUndo, StoredHeader, row_to_header, put_block, get_block, get_header,
  get_undo, put_undo, prune_undo, without_below,
}
use deckxcoin.Node.ChainState.{
  ChainState, remove_spent, add_created, write_contracts, write_nonces, commit_block, moved,
  connect,
}
use deckxcoin.Node.Draft.{Record, Drafted, drafted, declines, fails, draft_block, undo_of}

-- The rows of blocks and of undo records are the same.
abbrev SameRows : ChainStore → ChainStore → Type 0
SameRows s t = (t.blocks ≡ s.blocks) × (t.undo ≡ s.undo)

SameRows-trans : (s t u : ChainStore) → SameRows s t → SameRows t u → SameRows s u
SameRows-trans s t u a b = (b.0 ∙ a.0, b.1 ∙ a.1)

remove_spent-rows : (us : List Utxo) (s : ChainStore) → SameRows s (remove_spent us s)
unfolding remove_spent
remove_spent-rows [] s = (refl, refl)
remove_spent-rows (u ∷ us) s = remove_spent-rows us (Store.remove_utxo u.txid u.vout s)

add_created-rows :
    (draft : WorldState) (keys : List Outpoint) (s : ChainStore)
    → SameRows s (add_created draft keys s)
unfolding add_created
add_created-rows draft [] s = (refl, refl)
add_created-rows draft ((id, vout) ∷ rest) s = elim (Option-cases (get_utxo id vout draft)) [
  | inl e ↦ rw (add_created, e) (add_created-rows draft rest s)
  | inr (u, e) ↦ rw (add_created, e) (add_created-rows draft rest (Store.add_utxo u s))
]

write_contracts-rows :
    (draft : WorldState) (cs : List (String × Option ContractAccount)) (s : ChainStore)
    → SameRows s (write_contracts draft cs s)
unfolding write_contracts
write_contracts-rows draft [] s = (refl, refl)
write_contracts-rows draft ((a, b) ∷ rest) s = elim (Option-cases (get_contract a draft)) [
  | inl e ↦ rw (write_contracts, e) (write_contracts-rows draft rest (Store.remove_contract a s))
  | inr (c, e) ↦ rw (write_contracts, e) (write_contracts-rows draft rest (Store.put_contract c s))
]

write_nonces-rows :
    (draft : WorldState) (ns : List (String × ℕ)) (s : ChainStore)
    → SameRows s (write_nonces draft ns s)
unfolding write_nonces
write_nonces-rows draft [] s = (refl, refl)
write_nonces-rows draft ((a, n) ∷ rest) s = write_nonces-rows draft rest (Store.set_nonce a _ s)

get-without_below :
    (k : Hex) (n : ℕ) (u : BlockUndo) (m : JsMap Hex BlockUndo)
    → JsMap.get k m ≡ some u
    → ltb u.height n ≡ false
    → JsMap.get k (without_below n m) ≡ some u
unfolding without_below
get-without_below k n u [] h l = absurd (ground arith)
get-without_below k n u ((j, v) ∷ m) h l = elim (Bool-cases (k === j)) [
  | inl same ↦
      let own : v ≡ u = ground arith in
      let stays = subst (λ (v : BlockUndo). ltb v.height n ≡ false) (sym own) l in
      rw stays (rw same (ap some own))
  | inr other ↦
      let later = get-without_below k n u m (ground arith) l in
      elim (Bool-cases (ltb v.height n)) [
        | inl gone ↦ rw gone later
        | inr stays ↦ rw stays (rw other later)
      ]
]

module _ (hash : Hex) (block : Block) (work : ℕ) (undo : BlockUndo) (draft : WorldState)
    (retention : ℕ) (store : ChainStore) where
  written : ChainStore
  written = Store.set_tip hash (
      write_nonces draft undo.nonces (
        write_contracts draft undo.contracts (
          add_created draft undo.created
            (remove_spent undo.spent (put_undo undo (put_block hash block work true store))))))

  written-rows : SameRows (put_undo undo (put_block hash block work true store)) written
  unfolding written
  written-rows =
      let s1 = put_undo undo (put_block hash block work true store) in
      let s2 = remove_spent undo.spent s1 in
      let s3 = add_created draft undo.created s2 in
      let s4 = write_contracts draft undo.contracts s3 in
      SameRows-trans s1 s2 written (remove_spent-rows undo.spent s1) (
        SameRows-trans s2 s3 written (add_created-rows draft undo.created s2) (
          SameRows-trans s3 s4 written (write_contracts-rows draft undo.contracts s3)
            (write_nonces-rows draft undo.nonces s4)))

  pub commit_block-rows :
      undo.hash ≡ hash
      → undo.height ≡ block.header.height
      → ((commit_block hash block work undo draft retention store).blocks
          ≡ (put_block hash block work true store).blocks)
        × (JsMap.get hash (commit_block hash block work undo draft retention store).undo
            ≡ some undo)
  unfolding commit_block written put_undo prune_undo
  commit_block-rows own high =
      let (b, u) = written-rows in
      let kept : JsMap.get hash written.undo ≡ some undo =
        ap (JsMap.get hash) u
        ∙ rw (← own) (
            get-put undo.hash undo.hash undo (put_block undo.hash block work true store).undo
            ∙ rw (===_refl undo.hash) refl) in
      elim (Bool-cases (ltb retention block.header.height)) [
        | inl old ↦
            rw (commit_block, old)
              (
                b,
                get-without_below hash (block.header.height - retention) undo written.undo kept
                    (ground (arith, high)),
              )
        | inr young ↦ rw (commit_block, young) (b, kept)
      ]

Drafted-cases :
    (d : Drafted)
    → ((rec : Record) × (t : WorldState) × (d ≡ drafted rec t))
      ⊎ ((d ≡ fails) ⊎ ((e : BlockError) × (d ≡ declines e)))
Drafted-cases (drafted rec t) = inl (rec, t, refl)
Drafted-cases (declines e) = inr (inr (e, refl))
Drafted-cases fails = inr (inl refl)

module _ (o : Oracle) (h : Hashes) (state_root : WorldState → Hex) (block : Block) (work : ℕ)
    (chain after : ChainState) where
  -- What a block went through that was connected.
  pub record IsConnected : Type 0 where
    pub rec : Record
    pub sound : draft_block o state_root block chain.state ≡ drafted rec after.state
    pub committed :
        after.store
        ≡ commit_block
            (h.block_hash block.header)
            block
            work
            (undo_of o (h.block_hash block.header) block chain.state rec)
            after.state
            chain.undo_retention
            chain.store
    pub tipped : get_header (h.block_hash block.header) after.store ≡ some after.tip
    pub retention : after.undo_retention ≡ chain.undo_retention

  pub connect-IsConnected : connect o h state_root block work chain ≡ moved after → IsConnected
  unfolding connect
  connect-IsConnected c = elim (Drafted-cases (draft_block o state_root block chain.state)) [
    | inr (inl e) ↦ absurd (ground arith)
    | inr (inr (why, e)) ↦ absurd (ground arith)
    | inl (rec, draft, e) ↦
        let hash = h.block_hash block.header in
        let store =
          commit_block hash block work (undo_of o hash block chain.state rec) draft
            chain.undo_retention chain.store in
        elim (Option-cases (get_header hash store)) [
          | inl x ↦ absurd (ground arith)
          | inr (tip, x) ↦
              let same : record chain { store = store; state = draft; tip = tip } ≡ after =
                ground arith in
              rw (← same)
                (record { rec = rec; sound = e; committed = refl; tipped = x; retention = refl })
        ]
  ]
