-- ===== src/Node/ChainState/Undo/Restores.antt =====
-- Disconnecting the block that was just connected gives back the state before it
-- (chain/src/node/chainstate.ts).
use Prim.Native.String.{String}
use deckxcoin.Prelude.{
  ℕ, ◌≡◌, refl, sym, ap, ◌∙◌, Bool, true, false, ◌||◌, some, List, [], ◌∷◌, arith, Bool-cases,
  Option-cases, inl, inr, subst, any-append, ◌==◌,
}
use deckxcoin.Prelude.Eq.{◌===◌, string_eq, nat_eq, pair_eq}
use deckxcoin.Prelude.JsMap
use deckxcoin.Prelude.JsMap.{JsMap, IsMap, get-put, put-IsMap, delete-IsMap, get-delete}
use deckxcoin.Block.Header.{Block}
use deckxcoin.Tx.{Hex, Transaction, is_coinbase}
use deckxcoin.Chain.Apply.Effects.{SameRest, coinbase-rest}
use deckxcoin.Tx.Oracle.{Oracle}
use deckxcoin.State.{Outpoint, ContractAccount, WorldState, get_utxo, nonce_of}
use deckxcoin.Chain.Apply.Outpoints.{spends}
use deckxcoin.Node.ChainState.{unmake, unspend, put_back, rewind}
use deckxcoin.Node.Draft.{
  Record, targets_before, draft_block, drafted, created_of, spent_of, outpoints_from, undo_of,
}
use deckxcoin.Node.ChainState.Undo.Outpoints.{listed, Turns, Turns-trans, apply_tx-Turns}
use deckxcoin.Node.ChainState.Undo.Rewind.{takes, rewind-get}
use deckxcoin.Node.ChainState.Undo.Notes.{targets_before-Knows, targets_before-old}
use deckxcoin.Node.ChainState.Undo.Records.{IsRecord}
use deckxcoin.Node.ChainState.Undo.Accounts.{
  unmake-rest, unspend-rest, put_back-rest, reset_nonces-rest, put_back-get, reset_nonces-get,
  nonzero,
}
use deckxcoin.Node.ChainState.Undo.Drafts.{
  IsWorld, draft_block-IsDrafted, loop-Turns, loop-IsRecord,
}

-- The first transaction of the block is a coinbase.
abbrev pub StartsWithCoinbase : Block → Type 0
StartsWithCoinbase block =
    (coinbase : Transaction) (others : List Transaction)
    → block.transactions ≡ coinbase ∷ others
    → is_coinbase coinbase.kind ≡ true

or_comm : (a b : Bool) → (a || b) ≡ (b || a)
or_comm a b = ground arith

module _ (o : Oracle) (state_root : WorldState → Hex) (block : Block) (s : WorldState)
    (rec : Record) (t : WorldState) (world : IsWorld s) where
  pub draft_block-Turns :
      (key : Outpoint)
      → draft_block o state_root block s ≡ drafted rec t
      → Turns key (listed key (created_of o block.transactions)) (takes key block.transactions) s t
  unfolding created_of
  draft_block-Turns key h =
      let d = draft_block-IsDrafted o state_root block s rec t h in
      let one =
        loop-Turns o s block.header.height block.header.time d.others _ d.totals _ rec s d.between
          key world.utxos_map d.looped in
      let two = apply_tx-Turns o d.coinbase _ d.between d.receipt t key one.after_map d.paid in
      let points = outpoints_from (o.txid d.coinbase) 0 d.coinbase.outputs in
      let both = any-append (λ (other : Outpoint). key === other) points (created_of o d.others) in
      let all = Turns-trans key _ _ _ _ s d.between t one two in
      rw d.listed_txs (
        rw both (
          subst (λ made. Turns key made (spends d.coinbase.inputs key || takes key d.others) s t)
            (or_comm (listed key (created_of o d.others)) (listed key points))
            (subst
              (λ taken.
                Turns key (listed key (created_of o d.others) || listed key points) taken s t)
              (or_comm (takes key d.others) (spends d.coinbase.inputs key)) all)))

  pub draft_block-IsRecord :
      StartsWithCoinbase block
      → ((creator : String) (nonce : ℕ) → (o.contract_address creator nonce === "") ≡ false)
      → draft_block o state_root block s ≡ drafted rec t
      → IsRecord s rec t
  draft_block-IsRecord starts named h =
      let d = draft_block-IsDrafted o state_root block s rec t h in
      let before = targets_before s (d.coinbase ∷ d.others) [] in
      let first : Record = record { contracts = before; nonces = [] } in
      let (m, old) =
        targets_before-old s (d.coinbase ∷ d.others) [] tt (λ a v g. absurd (ground arith)) in
      let known = targets_before-Knows s (d.coinbase ∷ d.others) [] in
      let start : IsRecord s first s = record {
        contracts_map = world.contracts_map;
        nonces_map = world.nonces_map;
        rec_contracts = m;
        rec_nonces = tt;
        unnamed = world.unnamed;
        old_contracts = old;
        same_contracts = λ a free. refl;
        old_nonces = λ a n g. absurd (ground arith);
        same_nonces = λ a free. refl;
      } in
      let looped =
        loop-IsRecord o s block.header.height block.header.time d.others _ d.totals first rec s
          d.between named start known.1 d.looped in
      let (c, n) =
        coinbase-rest o d.coinbase _ d.between d.receipt t (starts d.coinbase d.others d.listed_txs)
          d.paid in
      record {
        contracts_map = rw c looped.contracts_map;
        nonces_map = rw n looped.nonces_map;
        rec_contracts = looped.rec_contracts;
        rec_nonces = looped.rec_nonces;
        unnamed = rw c looped.unnamed;
        old_contracts = looped.old_contracts;
        same_contracts = rw c looped.same_contracts;
        old_nonces = looped.old_nonces;
        same_nonces = rw n looped.same_nonces;
      }

-- Two states in which every outpoint, address and account stands for the same.
pub record Same (s t : WorldState) : Type 0 where
  pub utxos : (key : Outpoint) → get_utxo key.0 key.1 s ≡ get_utxo key.0 key.1 t
  pub contracts : (a : String) → JsMap.get a s.contracts ≡ JsMap.get a t.contracts
  pub nonces : (a : String) → JsMap.get a s.nonces ≡ JsMap.get a t.nonces

nonzero-nonce_of :
    (a : String) (s : WorldState) → IsWorld s → nonzero (nonce_of a s) ≡ JsMap.get a s.nonces
unfolding nonce_of
nonzero-nonce_of a s w = elim (Option-cases (JsMap.get a s.nonces)) [
  | inl absent ↦ ground arith
  | inr (n, e) ↦
      let p = w.positive a in
      elim (Bool-cases (n == 0)) [
        | inl zeroed ↦ let zero_n : n ≡ 0 = ground arith in absurd (p (rw (← zero_n) e))
        | inr counted ↦ ground arith
      ]
]

module _ (o : Oracle) (state_root : WorldState → Hex) (hash : Hex) (block : Block) (s : WorldState)
    (rec : Record) (t : WorldState) (world : IsWorld s) (starts : StartsWithCoinbase block)
    (named : (creator : String) (nonce : ℕ) → (o.contract_address creator nonce === "") ≡ false)
    (h : draft_block o state_root block s ≡ drafted rec t) where
  spent_back : WorldState
  spent_back = unspend (spent_of s block.transactions) (unmake (created_of o block.transactions) t)

  spent_back-rest : SameRest t spent_back
  unfolding spent_back
  spent_back-rest =
      let (c, n) =
        unspend-rest (spent_of s block.transactions) (unmake (created_of o block.transactions) t) in
      let (d, m) = unmake-rest (created_of o block.transactions) t in (c ∙ d, n ∙ m)

  -- Unmaking, with its undo record, a block that has been applied to a well-formed state gives back that
  -- state: each outpoint, contract and nonce is as before; if the first transaction is a coinbase and no
  -- contract has the empty text for its address.
  pub rewind-Same : Same (rewind (undo_of o hash block s rec) t) s
  unfolding rewind undo_of spent_back get_utxo
  rewind-Same =
      let i = draft_block-IsRecord o state_root block s rec t world starts named h in
      let (c2, n2) = spent_back-rest in
      let s3 = put_back rec.contracts spent_back in
      let (u3, n3) = put_back-rest rec.contracts spent_back in
      let (u4, c4) = reset_nonces-rest rec.nonces s3 in
      record {
        utxos = λ key.
            let turns = draft_block-Turns o state_root block s rec t world key h in
            ap (JsMap.get key) (u4 ∙ u3)
            ∙ (rewind-get o block.transactions key s t world.placed turns).1;
        contracts = λ a.
            let own : (b : String) (c : ContractAccount)
                → JsMap.get b rec.contracts ≡ some (some c)
                → c.address ≡ b =
              λ b c g. world.filed b c (sym (i.old_contracts b (some c) g)) in
            let g =
              put_back-get a rec.contracts spent_back (rw c2 i.contracts_map) i.rec_contracts own in
            ap (JsMap.get a) c4 ∙ g ∙ elim (Option-cases (JsMap.get a rec.contracts)) [
              | inl free ↦ rw free (ap (JsMap.get a) c2 ∙ i.same_contracts a free)
              | inr (v, e) ↦ rw e (i.old_contracts a v e)
            ];
        nonces = λ a.
            let g = reset_nonces-get a rec.nonces s3 (rw n3 (rw n2 i.nonces_map)) i.rec_nonces in
            g ∙ elim (Option-cases (JsMap.get a rec.nonces)) [
              | inl free ↦ rw free (ap (JsMap.get a) (n3 ∙ n2) ∙ i.same_nonces a free)
              | inr (n, e) ↦ rw e (ap nonzero (i.old_nonces a n e) ∙ nonzero-nonce_of a s world)
            ];
      }
