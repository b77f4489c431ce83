-- ===== src/Node/ChainState/Undo/Drafts.antt =====
-- The block that `#connect` of chain/src/node/chainstate.ts applies to its draft, as a whole.
use Prim.Native.String.{String}
use deckxcoin.Prelude.{
  ℕ, ◌+◌, ◌≡◌, refl, false, none, some, List, [], ◌∷◌, arith, Bool-cases, inl, inr, ◌⊎◌, ◌≢◌, subst,
  All, All-imp, ltb, any-append,
}
use deckxcoin.Prelude.Eq.{◌===◌, string_eq, nat_eq, pair_eq}
use deckxcoin.Prelude.JsMap
use deckxcoin.Prelude.JsMap.{JsMap, IsMap}
use deckxcoin.Block.Header.{Block, block_gas_limit}
use deckxcoin.Tx.{Hex, Transaction}
use deckxcoin.Tx.Oracle.{Oracle}
use deckxcoin.State.{Outpoint, ContractAccount, WorldState}
use deckxcoin.Chain.Apply.{apply_tx}
use deckxcoin.Chain.Attempt.{TxContext, Receipt, got, ends, at_got, at_refuse, at_throw}
use deckxcoin.Chain.Blockchain.{BlockError, Totals}
use deckxcoin.Node.Draft.{
  Record, targets_before, record_receipt, Applied, applied, stops, breaks, apply_recording, drafted,
  draft_coinbase, draft_block, created_of, outpoints_from,
}
use deckxcoin.Node.ChainState.Undo.Outpoints.{
  listed, Turns, Turns-refl, Turns-trans, apply_tx-Turns,
}
use deckxcoin.Node.ChainState.Undo.Rewind.{takes, IsPlaced}
use deckxcoin.Node.ChainState.Undo.Notes.{Knows}
use deckxcoin.Node.ChainState.Undo.Records.{IsRecord, apply_tx-IsRecord, record_receipt-Knows}

-- The maps are well formed: no key twice, each thing under its own key, no contract under the empty
-- text, and no nonce that is zero.
pub record IsWorld (s : WorldState) : Type 0 where
  pub utxos_map : IsMap s.utxos
  pub contracts_map : IsMap s.contracts
  pub nonces_map : IsMap s.nonces
  pub placed : IsPlaced s
  pub filed : (a : String) (c : ContractAccount) → JsMap.get a s.contracts ≡ some c → c.address ≡ a
  pub unnamed : JsMap.get "" s.contracts ≡ none
  pub positive : (a : String) → JsMap.get a s.nonces ≢ some 0

module _ (o : Oracle) (p : WorldState) where
  -- One round of the loop.
  round :
      (height time : ℕ) (tx : Transaction) (txs : List Transaction) (totals after : Totals)
      (rec last : Record) (draft t : WorldState)
      → apply_recording o p height time (tx ∷ txs) totals rec draft ≡ applied after last t
      → (r : Receipt) × (n : WorldState) × (between : Totals) × (apply_tx o tx
            (record { height = height; time = time; available_fees = 0 })
            draft
          ≡ got (r, n))
        × (apply_recording o p height time txs between (record_receipt p n tx r rec) n
            ≡ applied after last t)
  unfolding apply_recording
  round height time tx txs totals after rec last draft t h =
      elim (ends
        (apply_tx o tx (record { height = height; time = time; available_fees = 0 }) draft)) [
          | at_throw e ↦ absurd (ground arith)
          | at_refuse why fee gas e ↦ absurd (ground arith)
          | at_got rn e ↦
              let between : Totals = record {
                fees = totals.fees + rn.0.fee;
                gas = totals.gas + rn.0.gas_used;
              } in
              elim (Bool-cases (ltb block_gas_limit between.gas)) [
                | inl over ↦ absurd (ground arith)
                | inr within ↦ (rn.0, rn.1, between, e, ground arith)
              ]
        ]

  pub loop-Turns :
      (height time : ℕ) (txs : List Transaction) (totals after : Totals) (rec last : Record)
      (draft t : WorldState) (key : Outpoint)
      → IsMap draft.utxos
      → apply_recording o p height time txs totals rec draft ≡ applied after last t
      → Turns key (listed key (created_of o txs)) (takes key txs) draft t
  unfolding created_of
  loop-Turns height time [] totals after rec last draft t key m h =
      let same : draft ≡ t = unfold apply_recording in ground arith in
      subst (Turns key false false draft) same (Turns-refl key draft m)
  loop-Turns height time (tx ∷ txs) totals after rec last draft t key m h =
      let (r, n, between, e, rest) = round height time tx txs totals after rec last draft t h in
      let one =
        apply_tx-Turns o tx (record { height = height; time = time; available_fees = 0 }) draft r n
          key m e in
      let two =
        loop-Turns height time txs between after (record_receipt p n tx r rec) last n t key
          one.after_map rest in
      let both =
        any-append (λ (other : Outpoint). key === other) (outpoints_from (o.txid tx) 0 tx.outputs)
          (created_of o txs) in
      rw both (Turns-trans key _ _ _ _ draft n t one two)

  pub loop-IsRecord :
      (height time : ℕ) (txs : List Transaction) (totals after : Totals) (rec last : Record)
      (draft t : WorldState)
      → ((creator : String) (nonce : ℕ) → (o.contract_address creator nonce === "") ≡ false)
      → IsRecord p rec draft
      → All (Knows rec.contracts) txs
      → apply_recording o p height time txs totals rec draft ≡ applied after last t
      → IsRecord p last t
  loop-IsRecord height time [] totals after rec last draft t named i k h =
      let same : (rec ≡ last) × (draft ≡ t) = unfold apply_recording in ground arith in
      subst (λ last. IsRecord p last t) same.0 (subst (IsRecord p rec) same.1 i)
  loop-IsRecord height time (tx ∷ txs) totals after rec last draft t named i k h =
      let (r, n, between, e, rest) = round height time tx txs totals after rec last draft t h in
      let ctx : TxContext = record { height = height; time = time; available_fees = 0 } in
      loop-IsRecord height time txs between after (record_receipt p n tx r rec) last n t named
        (apply_tx-IsRecord o tx ctx p rec draft r n i named k.0 e)
        (All-imp (record_receipt-Knows o tx ctx p rec draft r n i) txs k.1) rest

List-cases {ℓ} :
    {A : Type ℓ} (xs : List A) → (xs ≡ []) ⊎ ((x : A) × (rest : List A) × (xs ≡ x ∷ rest))
List-cases [] = inl refl
List-cases (x ∷ xs) = inr (x, xs, refl)

Applied-cases :
    (a : Applied)
    → ((totals : Totals) × (rec : Record) × (t : WorldState) × (a ≡ applied totals rec t))
      ⊎ ((a ≡ breaks) ⊎ ((e : BlockError) × (a ≡ stops e)))
Applied-cases (applied totals rec t) = inl (totals, rec, t, refl)
Applied-cases (stops e) = inr (inr (e, refl))
Applied-cases breaks = inr (inl refl)

-- What a draft went through: the loop, and then the coinbase.
pub record IsDrafted (o : Oracle) (block : Block) (s : WorldState) (rec : Record) (t : WorldState)
    : Type 0 where
  pub coinbase : Transaction
  pub others : List Transaction
  pub totals : Totals
  pub between : WorldState
  pub receipt : Receipt
  pub listed_txs : block.transactions ≡ coinbase ∷ others
  pub looped :
      apply_recording o s block.header.height block.header.time others
        (record { fees = 0; gas = 0 })
        (record { contracts = targets_before s (coinbase ∷ others) []; nonces = [] })
        s
      ≡ applied totals rec between
  pub paid :
      apply_tx o coinbase
        (record {
          height = block.header.height;
          time = block.header.time;
          available_fees = totals.fees;
        })
        between
      ≡ got (receipt, t)

module _ (o : Oracle) (state_root : WorldState → Hex) (block : Block) (s : WorldState)
    (rec : Record) (t : WorldState) where
  draft_coinbase-paid :
      (coinbase : Transaction) (totals : Totals) (old : Record) (n : WorldState)
      → draft_coinbase o state_root block.header coinbase totals old n ≡ drafted rec t
      → (r : Receipt) × (apply_tx o coinbase
            (record {
              height = block.header.height;
              time = block.header.time;
              available_fees = totals.fees;
            })
            n
          ≡ got (r, t))
        × (old ≡ rec)
  unfolding draft_coinbase
  draft_coinbase-paid coinbase totals old n h =
      elim (ends (
        apply_tx o coinbase
          (record {
            height = block.header.height;
            time = block.header.time;
            available_fees = totals.fees;
          })
          n)) [
            | at_throw e ↦ absurd (ground arith)
            | at_refuse why fee gas e ↦ absurd (ground arith)
            | at_got rn e ↦ elim (Bool-cases (state_root rn.1 === block.header.state_root)) [
              | inl same ↦ (rn.0, ground arith, ground arith)
              | inr differs ↦ absurd (ground arith)
            ]
          ]

  pub draft_block-IsDrafted :
      draft_block o state_root block s ≡ drafted rec t → IsDrafted o block s rec t
  unfolding draft_block
  draft_block-IsDrafted h = elim (List-cases block.transactions) [
    | inl e ↦ absurd (ground arith)
    | inr (coinbase, others, e) ↦
        elim (Applied-cases (
          apply_recording o s block.header.height block.header.time others
            (record { fees = 0; gas = 0 })
            (record { contracts = targets_before s (coinbase ∷ others) []; nonces = [] }) s)) [
              | inr (inl x) ↦ absurd (ground arith)
              | inr (inr (why, x)) ↦ absurd (ground arith)
              | inl (totals, old, n, x) ↦
                  let (r, paid, same) = draft_coinbase-paid coinbase totals old n (ground arith) in
                  record {
                    coinbase = coinbase;
                    others = others;
                    totals = totals;
                    between = n;
                    receipt = r;
                    listed_txs = e;
                    looped = rw (← same) x;
                    paid = paid;
                  }
            ]
  ]
