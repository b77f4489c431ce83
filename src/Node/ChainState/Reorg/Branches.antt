-- ===== src/Node/ChainState/Reorg/Branches.antt =====
-- The forward loop of `#reorgTo` (chain/src/node/chainstate.ts): where it leaves the tip, and that it
-- keeps the stored blocks.
use deckxcoin.Prelude.{
  ℕ, zero, suc, ◌≡◌, sym, ap, ◌∙◌, false, some, List, [], ◌∷◌, ◌++◌, arith, Bool-cases,
  Option-cases, inl, inr, subst, All, All-imp,
}
use deckxcoin.Prelude.Eq.{string_eq}
use deckxcoin.Prelude.JsMap
use deckxcoin.Block.Header.{Block, Hashes}
use deckxcoin.Tx.{Hex}
use deckxcoin.Tx.Oracle.{Oracle}
use deckxcoin.State.{WorldState}
use deckxcoin.Node.Store.{ChainStore, StoredHeader, get_header, get_block}
use deckxcoin.Node.ChainState.{ChainState, moved, connect}
use deckxcoin.Node.ChainState.Undo.Written.{connect-IsConnected}
use deckxcoin.Node.ChainState.Reorg.{reaches, walk_back, arrives, connect_branch}
use deckxcoin.Node.ChainState.Reorg.Moves.{
  Keeps-trans, at_moved, at_stuck, at_panic, move_ends, last_of, Holds,
}
use deckxcoin.Node.ChainState.Reorg.View.{
  view, IsKeyed, SameView-IsKeyed, get_header-view, view-set_active, Keeps, connect-tip,
  connect-Keeps,
}

-- The header's block is stored, with the header's work.
abbrev pub IsKnown : ChainStore → StoredHeader → Type 0
IsKnown store header = (block : Block) × (view header.hash store ≡ some (block, header.chain_work))

pub get_header-IsKnown :
    (k : Hex) (store : ChainStore) (header : StoredHeader)
    → get_header k store ≡ some header
    → IsKnown store header
get_header-IsKnown k store header h =
    let (block, found, name, body) = get_header-view k store header h in (block, rw name found)

pub walk_back-IsKnown :
    (steps : ℕ) (store : ChainStore) (cursor : StoredHeader) (branch found : List StoredHeader)
    (fork : StoredHeader)
    → IsKnown store cursor
    → All (IsKnown store) branch
    → walk_back steps store cursor branch ≡ reaches found fork
    → All (IsKnown store) found
unfolding walk_back
walk_back-IsKnown zero store cursor branch found fork c b h = absurd (ground arith)
walk_back-IsKnown (suc steps) store cursor branch found fork c b h =
    elim (Bool-cases cursor.active) [
      | inl on ↦ let same : branch ≡ found = ground arith in subst (All (IsKnown store)) same b
      | inr off ↦ elim (Option-cases (get_header cursor.prev_hash store)) [
        | inl e ↦ absurd (ground arith)
        | inr (parent, e) ↦
            walk_back-IsKnown steps store parent (cursor ∷ branch) found fork
              (get_header-IsKnown cursor.prev_hash store parent e) (c, b) (ground arith)
      ]
    ]

module _ (o : Oracle) (h : Hashes) (state_root : WorldState → Hex) where
  -- A stored block that is connected with its stored work.
  pub known-Keeps :
      (header : StoredHeader) (block : Block) (chain next : ChainState)
      → IsKeyed h chain.store
      → IsKnown chain.store header
      → get_block header.hash chain.store ≡ some block
      → connect o h state_root block header.chain_work chain ≡ moved next
      → Keeps chain next × (next.tip.hash ≡ header.hash)
  unfolding view get_block
  known-Keeps header block chain next keyed (stored, found) body e =
      let own : stored ≡ block = elim (Option-cases (JsMap.get header.hash chain.store.blocks)) [
        | inl x ↦ absurd (ground arith)
        | inr (row, x) ↦ ground arith
      ] in
      let at = keyed header.hash stored header.chain_work found in
      let at2 : h.block_hash block.header ≡ header.hash = rw (← own) at in
      let c = connect-IsConnected o h state_root block header.chain_work chain next e in
      (
        connect-Keeps o h state_root block header.chain_work chain next c (rw (at2, ← own) found),
        (connect-tip o h state_root block header.chain_work chain next c).0 ∙ at2,
      )

  pub Keeps-IsKeyed : (a b : ChainState) → Keeps a b → IsKeyed h a.store → IsKeyed h b.store
  Keeps-IsKeyed a b k keyed = SameView-IsKeyed h a.store b.store k.same keyed

  pub Keeps-IsKnown :
      (a b : ChainState) (header : StoredHeader)
      → Keeps a b
      → IsKnown a.store header
      → IsKnown b.store header
  Keeps-IsKnown a b header k (block, found) = (block, k.same header.hash ∙ found)

  pub connect_branch-Keeps :
      (branch : List StoredHeader) (origin chain : ChainState) (ids : List Hex)
      → IsKeyed h origin.store
      → All (IsKnown origin.store) branch
      → Keeps origin chain
      → Holds (Keeps origin) (connect_branch o h state_root branch chain ids)
  unfolding connect_branch
  connect_branch-Keeps [] origin chain ids keyed known k = k
  connect_branch-Keeps (header ∷ rest) origin chain ids keyed known k =
      elim (Option-cases (get_block header.hash chain.store)) [
        | inl e ↦ rw (connect_branch, e) k
        | inr (block, e) ↦ elim (move_ends (connect o h state_root block header.chain_work chain)) [
          | at_panic x ↦ rw (connect_branch, e, x) tt
          | at_stuck why x ↦
              rw (connect_branch, e, x)
                (record {
                  same = λ j. view-set_active j header.hash false chain.store ∙ k.same j;
                  tipped = (
                    k.tipped.0,
                    view-set_active chain.tip.hash header.hash false chain.store ∙ k.tipped.1,
                  );
                })
          | at_moved next x ↦
              let (one, tip) =
                known-Keeps header block chain next (Keeps-IsKeyed origin chain k keyed)
                  (Keeps-IsKnown origin chain header k known.0) e x in
              rw (connect_branch, e, x)
                (connect_branch-Keeps rest origin next _ keyed known.1
                  (Keeps-trans origin chain next k one))
        ]
      ]

  pub connect_branch-tip :
      (branch : List StoredHeader) (chain last : ChainState) (ids up : List Hex)
      → IsKeyed h chain.store
      → All (IsKnown chain.store) branch
      → connect_branch o h state_root branch chain ids ≡ arrives last up
      → last.tip.hash ≡ last_of chain.tip.hash branch
  unfolding connect_branch
  connect_branch-tip [] chain last ids up keyed known e =
      let same : chain ≡ last = ground arith in sym (ap (λ (c : ChainState). c.tip.hash) same)
  connect_branch-tip (header ∷ rest) chain last ids up keyed known e =
      elim (Option-cases (get_block header.hash chain.store)) [
        | inl x ↦ absurd (ground arith)
        | inr (block, x) ↦ elim (move_ends (connect o h state_root block header.chain_work chain)) [
          | at_panic y ↦ absurd (ground arith)
          | at_stuck why y ↦ absurd (ground arith)
          | at_moved next y ↦
              let (one, tip) = known-Keeps header block chain next keyed known.0 x y in
              let later =
                connect_branch-tip rest next last (ids ++ header.hash ∷ []) up
                  (Keeps-IsKeyed chain next one keyed)
                  (All-imp (λ other k. Keeps-IsKnown chain next other one k) rest known.1)
                  (ground arith) in
              later ∙ ap (λ d. last_of d rest) tip
        ]
      ]
