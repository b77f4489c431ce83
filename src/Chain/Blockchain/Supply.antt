-- ===== src/Chain/Blockchain/Supply.antt =====
-- The supply of a `Blockchain` (chain/src/chain.ts), block by block.
use Prim.Native.String.{String}
use deckxcoin.Prelude.{
  length, ◌∙◌, sym, ℕ, ◌+◌, ◌-◌, ◌≤◌, ◌≡◌, true, false, some, List, [], ◌∷◌, arith, any, length,
  Option-cases, inl, inr, ◌∙◌, subst, ap,
}
use deckxcoin.Block.Subsidy.{block_subsidy, cumulative_issuance}
use deckxcoin.Block.Subsidy.Issuance.{
  subsidies, cumulative_issuance-eq-subsidies, cumulative_issuance-le-max_supply,
}
use deckxcoin.Block.Header.{
  Block, Hashes, passes, check_header, check_transactions, compute_merkle_root,
}
use deckxcoin.Tx.{Hex, Transaction, is_coinbase, coinbase_tx}
use deckxcoin.Tx.Oracle.{Oracle}
use deckxcoin.State.{WorldState, total_supply, sum_values, add_utxo}
use deckxcoin.Chain.Apply.Conserves.{apply_tx-conserves, apply_tx-coinbase}
use deckxcoin.Chain.Blockchain.{
  Blockchain, added, Totals, replayed, apply_all, add_block, create, audit_supply, audit_supply_of,
}
use deckxcoin.Chain.Blockchain.Added.{context, count, apply_all-cons, add_block-IsAdded}

module _ (o : Oracle) (height time : ℕ) where
  -- The transactions behind the coinbase turn supply into fees, zap for zap.
  pub apply_all-conserves :
      (txs : List Transaction) (totals after : Totals) (s t : WorldState)
      → any (λ (tx : Transaction). is_coinbase tx.kind) txs ≡ false
      → apply_all o height time txs totals s ≡ replayed after t
      → total_supply t + after.fees ≡ total_supply s + totals.fees
  apply_all-conserves [] totals after s t none_coinbase h = unfold apply_all in ground arith
  apply_all-conserves (tx ∷ rest) totals after s t none_coinbase h =
      let (receipt, m, first, within, later) =
        apply_all-cons o height time tx rest totals after s t h in
      omega (
        arith,
        apply_tx-conserves o tx (context height time) s receipt m (ground arith) first,
        apply_all-conserves rest (count totals receipt) after m t (ground arith) later,
      )

-- A block whose transactions pass has one coinbase, its first transaction.
check_transactions-coinbase :
    (coinbase : Transaction) (rest : List Transaction)
    → check_transactions (coinbase ∷ rest) ≡ passes
    → (is_coinbase coinbase.kind ≡ true)
      × (any (λ (tx : Transaction). is_coinbase tx.kind) rest ≡ false)
unfolding check_transactions
check_transactions-coinbase coinbase rest h = ground arith

check_header-transactions :
    (h : Hashes) (block : Block) (now : ℕ)
    → check_header h block now ≡ passes
    → check_transactions block.transactions ≡ passes
unfolding check_header
check_header-transactions h block now e = ground arith

module _ (o : Oracle) (h : Hashes) (state_root : WorldState → Hex) where
  -- An added block raises the supply by its subsidy at most: the fees that the coinbase collects are
  -- coins that the other transactions gave up.
  pub add_block-supply :
      (chain next : Blockchain) (block : Block) (now : ℕ)
      → add_block o h state_root chain block now ≡ added next
      → total_supply next.state ≤ total_supply chain.state + block_subsidy (length chain.blocks)
  add_block-supply chain next block now e =
      let a = add_block-IsAdded o h state_root chain block now next e in
      let (first, others) = check_transactions-coinbase a.coinbase a.rest (
        subst (λ txs. check_transactions txs ≡ passes) a.transactions
          (check_header-transactions h block now a.header)) in
      let (grows, bound) =
        apply_tx-coinbase o a.coinbase _ a.draft a.receipt next.state first a.paid in
      omega (
        arith,
        apply_all-conserves o block.header.height block.header.time a.rest _ a.totals chain.state
            a.draft others a.replay,
        grows,
        bound,
        ap block_subsidy (a.placed.height ∙ sym (ap length a.tipped)),
      )

  -- The chains that `create` and `addBlock` make.
  pub data Reachable : Blockchain → Type 0 where
    genesis :
        (miner : String) (bits time : ℕ) (memo : String) (chain : Blockchain)
        → create o h state_root miner bits time memo ≡ some chain
        → Reachable chain
    grown :
        (chain next : Blockchain) (block : Block) (now : ℕ)
        → Reachable chain
        → add_block o h state_root chain block now ≡ added next
        → Reachable next

  pub create-supply :
      (miner : String) (bits time : ℕ) (memo : String) (chain : Blockchain)
      → create o h state_root miner bits time memo ≡ some chain
      → (total_supply chain.state ≡ block_subsidy 0) × (length chain.blocks ≡ 1)
  unfolding create add_utxo total_supply sum_values
  create-supply miner bits time memo chain e =
      let cb = coinbase_tx miner (block_subsidy 0) 0 memo in
      elim (Option-cases (compute_merkle_root h (cb ∷ []))) [
        | inl none_there ↦ absurd (ground arith)
        | inr (root, er) ↦ ground arith
      ]

  supply-le-subsidies :
      (chain : Blockchain)
      → Reachable chain
      → total_supply chain.state ≤ subsidies (length chain.blocks)
  unfolding subsidies
  supply-le-subsidies _ (genesis miner bits time memo chain e) =
      let (total, blocks) = create-supply miner bits time memo chain e in
      rw blocks (rw total (omega arith))
  supply-le-subsidies _ (grown chain next block now r e) =
      let a = add_block-IsAdded o h state_root chain block now next e in
      rw a.blocks
        (omega (arith, add_block-supply chain next block now e, supply-le-subsidies chain r))

  length-Reachable : (chain : Blockchain) → Reachable chain → 1 ≤ length chain.blocks
  length-Reachable _ (genesis miner bits time memo chain e) =
      rw (create-supply miner bits time memo chain e).1 (omega arith)
  length-Reachable _ (grown chain next block now r e) =
      rw (add_block-IsAdded o h state_root chain block now next e).blocks (omega arith)

  -- In every chain that grows from a genesis block by added blocks, the unspent outputs hold at most
  -- what the schedule has issued up to the tip, so the audit finds the supply under the cap.
  pub Reachable-audit :
      (chain : Blockchain)
      → Reachable chain
      → ((audit_supply chain).utxo_total ≤ (audit_supply chain).expected_subsidy)
        × ((audit_supply chain).under_cap ≡ true)
  unfolding audit_supply audit_supply_of
  Reachable-audit chain r =
      let last : length chain.blocks - 1 + 1 ≡ length chain.blocks =
        omega (arith, length-Reachable chain r) in
      let issued = cumulative_issuance-eq-subsidies (length chain.blocks - 1) ∙ ap subsidies last in
      let bound : total_supply chain.state ≤ cumulative_issuance (length chain.blocks - 1) =
        omega (arith, supply-le-subsidies chain r, issued) in
      (bound, ground (arith, bound, cumulative_issuance-le-max_supply (length chain.blocks - 1)))
