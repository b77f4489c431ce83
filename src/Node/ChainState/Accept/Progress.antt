-- ===== src/Node/ChainState/Accept/Progress.antt =====
-- Where `acceptBlock` of chain/src/node/chainstate.ts leaves the tip, and its work.
use deckxcoin.Prelude.{ℕ, ◌≡◌, refl, Bool-cases, Option-cases, inl, inr, ◌⊎◌}
use deckxcoin.Prelude.Eq.{string_eq}
use deckxcoin.Block.Header.{
  Block, Hashes, HeaderError, HeaderCheck, passes, fails, crashes, check_header,
}
use deckxcoin.Tx.{Hex}
use deckxcoin.Tx.Oracle.{Oracle}
use deckxcoin.State.{WorldState}
use deckxcoin.Chain.Blockchain.{BlockError}
use deckxcoin.Node.Store.{get_header, has_block}
use deckxcoin.Node.ChainState.{ChainState}
use deckxcoin.Node.ChainState.Reorg.View.{IsTipped, IsKeyed}
use deckxcoin.Node.ChainState.Accept.{
  duplicate, orphan, refused, Context, fits, unfit, crash, check_parent, accept_block,
}
use deckxcoin.Node.ChainState.Accept.Placing.{Fulfils, view-absent, stays, place_block-Advances}

-- The ways the checks end.
HeaderCheck-cases :
    (c : HeaderCheck) → (c ≡ passes) ⊎ ((c ≡ crashes) ⊎ ((e : HeaderError) × (c ≡ fails e)))
HeaderCheck-cases passes = inl refl
HeaderCheck-cases crashes = inr (inl refl)
HeaderCheck-cases (fails e) = inr (inr (e, refl))

Context-cases : (c : Context) → (c ≡ fits) ⊎ ((c ≡ crash) ⊎ ((e : BlockError) × (c ≡ unfit e)))
Context-cases fits = inl refl
Context-cases crash = inr (inl refl)
Context-cases (unfit e) = inr (inr (e, refl))

-- When `acceptBlock` returns, the tip has at least the work of the tip before. It is the block if the
-- status is connected, with or without a reorganisation, and the tip from before for every other status,
-- a failed reorganisation included; and the stored blocks stand under their hashes, and the tip is
-- stored, as they did before.
pub accept_block-Advances :
    (o : Oracle) (h : Hashes) (state_root : WorldState → Hex) (block : Block) (now : ℕ)
    (chain : ChainState)
    → IsKeyed h chain.store
    → IsTipped chain
    → Fulfils h (h.block_hash block.header) chain (accept_block o h state_root block now chain)
unfolding accept_block
accept_block-Advances o h state_root block now chain keyed tipped =
    let stay = stays o h state_root block chain keyed tipped in
    elim (Bool-cases (has_block (h.block_hash block.header) chain.store)) [
      | inl there ↦ rw (accept_block, there) (stay duplicate refl)
      | inr new ↦ elim (HeaderCheck-cases (check_header h block now)) [
        | inr (inl x) ↦ rw (accept_block, new, x) tt
        | inr (inr (e, x)) ↦ rw (accept_block, new, x) (stay _ refl)
        | inl x ↦ elim (Option-cases (get_header block.header.prev_hash chain.store)) [
          | inl y ↦ rw (accept_block, new, x, y) (stay orphan refl)
          | inr (parent, y) ↦ elim (Context-cases (check_parent block parent chain.store)) [
            | inr (inl z) ↦ rw (accept_block, new, x, y, z) tt
            | inr (inr (e, z)) ↦ rw (accept_block, new, x, y, z) (stay (refused e) refl)
            | inl z ↦
                rw (accept_block, new, x, y, z)
                  (place_block-Advances o h state_root block chain keyed tipped
                    (view-absent (h.block_hash block.header) chain.store new) parent y)
          ]
        ]
      ]
    ]
