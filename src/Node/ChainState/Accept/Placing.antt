-- ===== src/Node/ChainState/Accept/Placing.antt =====
-- Where a block on a stored parent leaves the tip of chain/src/node/chainstate.ts, and its work.
use deckxcoin.Prelude.{
  ℕ, ◌+◌, ◌≤◌, ◌≡◌, refl, sym, ap, ◌∙◌, true, false, none, some, List, arith, if◌then◌else◌,
  Bool-cases, Option-cases, inl, inr, subst, ltb,
}
use deckxcoin.Prelude.Eq.{◌===◌, string_eq, ===→eq, ===_refl}
use deckxcoin.Prelude.JsMap
use deckxcoin.Block.Target.{block_work}
use deckxcoin.Block.Header.{Block, Hashes}
use deckxcoin.Tx.{Hex}
use deckxcoin.Tx.Oracle.{Oracle}
use deckxcoin.State.{WorldState}
use deckxcoin.Node.Store.{ChainStore, StoredHeader, get_header, has_block, put_block}
use deckxcoin.Node.ChainState.{ChainState, MoveError, connect}
use deckxcoin.Node.ChainState.Undo.Written.{connect-IsConnected}
use deckxcoin.Node.ChainState.Reorg.{Reorg, reorganised, kept, diverges, reorg_to}
use deckxcoin.Node.ChainState.Reorg.View.{
  view, IsTipped, IsKeyed, SameView-IsKeyed, get_header-view, view-put_block, old_block,
  connect-view, connect-tip,
}
use deckxcoin.Node.ChainState.Reorg.Moves.{at_moved, at_stuck, at_panic, move_ends}
use deckxcoin.Node.ChainState.Reorg.Branches.{IsKnown, get_header-IsKnown}
use deckxcoin.Node.ChainState.Reorg.Outcome.{reorg_to-Lands}
use deckxcoin.Node.ChainState.Accept.{
  AcceptStatus, connected, reorg, sidechain, duplicate, orphan, refused, unmoved, Accepted,
  accepted, escapes, loops, extend, switch_to, branch_off, place_block,
}

-- The tip is the block where the status says so, and else the tip from before.
abbrev pub TipOf : Hex → Hex → AcceptStatus → Hex → Type 0
TipOf old new connected tip = tip ≡ new
TipOf old new (reorg down up) tip = tip ≡ new
TipOf old new sidechain tip = tip ≡ old
TipOf old new duplicate tip = tip ≡ old
TipOf old new orphan tip = tip ≡ old
TipOf old new (refused e) tip = tip ≡ old
TipOf old new (unmoved e) tip = tip ≡ old

-- What an acceptance keeps and reaches.
pub record Advances (h : Hashes) (hash : Hex) (chain : ChainState) (status : AcceptStatus)
    (after : ChainState) : Type 0 where
  pub keyed : IsKeyed h after.store
  pub tipped : IsTipped after
  pub work : chain.tip.chain_work ≤ after.tip.chain_work
  pub tip : TipOf chain.tip.hash hash status after.tip.hash

abbrev pub Fulfils : Hashes → Hex → ChainState → Accepted → Type 0
Fulfils h hash chain (accepted status after) = Advances h hash chain status after
Fulfils h hash chain escapes = Unit
Fulfils h hash chain loops = Unit

same-work :
    (k : Hex) (a b : ChainState)
    → IsTipped a
    → IsTipped b
    → view k b.store ≡ view k a.store
    → a.tip.hash ≡ k
    → b.tip.hash ≡ k
    → a.tip.chain_work ≡ b.tip.chain_work
same-work k a b (x, p) (y, q) v i j =
    let p2 : view k a.store ≡ some (x, a.tip.chain_work) = rw (← i) p in
    let q2 : view k b.store ≡ some (y, b.tip.chain_work) = rw (← j) q in ground arith

pub view-absent : (k : Hex) (store : ChainStore) → has_block k store ≡ false → view k store ≡ none
unfolding view has_block
view-absent k store h = elim (Option-cases (JsMap.get k store.blocks)) [
  | inl e ↦ rw e refl
  | inr (row, e) ↦ absurd (ground arith)
]

data ReorgEnds (r : Reorg) : Type 0 where
  at_new : (after : ChainState) (down up : List Hex) → r ≡ reorganised after down up → ReorgEnds r
  at_old : (e : MoveError) (after : ChainState) → r ≡ kept e after → ReorgEnds r
  at_throw : r ≡ Reorg.throws → ReorgEnds r
  at_loop : r ≡ diverges → ReorgEnds r

reorg_ends : (r : Reorg) → ReorgEnds r
reorg_ends (reorganised after down up) = at_new after down up refl
reorg_ends (kept e after) = at_old e after refl
reorg_ends Reorg.throws = at_throw refl
reorg_ends diverges = at_loop refl

switch-Advances :
    (o : Oracle) (h : Hashes) (state_root : WorldState → Hex) (hash : Hex) (chain s : ChainState)
    (target : StoredHeader)
    → s.tip ≡ chain.tip
    → IsKeyed h s.store
    → IsTipped s
    → IsKnown s.store target
    → target.hash ≡ hash
    → chain.tip.chain_work ≤ target.chain_work
    → Fulfils h hash chain (switch_to o h state_root target s)
unfolding switch_to
switch-Advances o h state_root hash chain s target same keyed tipped known name more =
    let lands = reorg_to-Lands o h state_root target s keyed tipped known in
    elim (reorg_ends (reorg_to o h state_root target s)) [
      | at_throw e ↦ rw (switch_to, e) tt
      | at_loop e ↦ rw (switch_to, e) tt
      | at_new after down up e ↦
          let (keeps, tip) = rw e at lands in
          let there =
            subst (λ k. view k after.store ≡ some (keeps.tipped.0, after.tip.chain_work)) tip
              keeps.tipped.1 in
          let here = keeps.same target.hash ∙ known.1 in
          let width : after.tip.chain_work ≡ target.chain_work = ground arith in
          rw (switch_to, e)
            (record {
              keyed = SameView-IsKeyed h s.store after.store keeps.same keyed;
              tipped = keeps.tipped;
              work = omega (arith, width, more);
              tip = tip ∙ name;
            })
      | at_old why after e ↦
          let (keeps, tip) = rw e at lands in
          let width =
            same-work s.tip.hash s after tipped keeps.tipped (keeps.same s.tip.hash) refl tip in
          rw (switch_to, e)
            (record {
              keyed = SameView-IsKeyed h s.store after.store keeps.same keyed;
              tipped = keeps.tipped;
              work = omega (arith, width, ap (λ (t : StoredHeader). t.chain_work) same);
              tip = tip ∙ ap (λ (t : StoredHeader). t.hash) same;
            })
    ]

module _ (o : Oracle) (h : Hashes) (state_root : WorldState → Hex) (block : Block)
    (chain : ChainState) (keyed : IsKeyed h chain.store) (tipped : IsTipped chain) where
  pub stays :
      (status : AcceptStatus)
      → TipOf chain.tip.hash (h.block_hash block.header) status chain.tip.hash
      → Advances h (h.block_hash block.header) chain status chain
  stays status tip = record { keyed = keyed; tipped = tipped; work = omega arith; tip = tip }

  module _ (absent : view (h.block_hash block.header) chain.store ≡ none) where
    -- The tip of before is another block.
    old_tip : (chain.tip.hash === h.block_hash block.header) ≡ false
    old_tip = elim (Bool-cases (chain.tip.hash === h.block_hash block.header)) [
      | inr other ↦ other
      | inl same ↦
          let here =
            subst (λ k. view k chain.store ≡ some (tipped.0, chain.tip.chain_work))
              (===→eq chain.tip.hash (h.block_hash block.header) same) tipped.1 in
          absurd (ground arith)
    ]

    put-IsKeyed :
        (work : ℕ) (store : ChainStore)
        → ((k : Hex)
            → view k store ≡ (
                if k === h.block_hash block.header
                then some (old_block block (view (h.block_hash block.header) chain.store), work)
                else view k chain.store))
        → IsKeyed h store
    put-IsKeyed work store v k b w e =
        let vk = v k in
        elim (Bool-cases (k === h.block_hash block.header)) [
          | inl same ↦
              let own : block ≡ b = ground arith in
              ap (λ (b : Block). h.block_hash b.header) (sym own)
              ∙ sym (===→eq k (h.block_hash block.header) same)
          | inr other ↦ keyed k b w (ground arith)
        ]

    extend-Advances :
        (parent : StoredHeader)
        → get_header block.header.prev_hash chain.store ≡ some parent
        → (parent.hash === chain.tip.hash) ≡ true
        → Fulfils h
            (h.block_hash block.header)
            chain
            (extend o h state_root block (parent.chain_work + block_work block.header.bits) chain)
    unfolding extend
    extend-Advances parent found at =
        let work = parent.chain_work + block_work block.header.bits in
        elim (move_ends (connect o h state_root block work chain)) [
          | at_panic e ↦ rw (extend, e) tt
          | at_stuck why e ↦ rw (extend, e) (stays (unmoved why) refl)
          | at_moved next e ↦
              let c = connect-IsConnected o h state_root block work chain next e in
              let (tip, done, stored) = connect-tip o h state_root block work chain next c in
              let (body, seen, name, got) =
                get_header-view block.header.prev_hash chain.store parent found in
              let tip_name : block.header.prev_hash ≡ chain.tip.hash =
                sym name ∙ ===→eq parent.hash chain.tip.hash at in
              let seen2 =
                subst (λ k. view k chain.store ≡ some (body, parent.chain_work)) tip_name seen in
              let old = tipped.1 in
              let same : parent.chain_work ≡ chain.tip.chain_work = ground arith in
              rw (extend, e)
                (record {
                  keyed =
                      put-IsKeyed work next.store
                        (connect-view o h state_root block work chain next c);
                  tipped = stored;
                  work = omega (arith, same, done);
                  tip = tip;
                })
        ]

    -- The chain with the block stored off the active chain.
    stored : ℕ → ChainState
    stored work = record chain {
      store = put_block (h.block_hash block.header) block work false chain.store;
    }

    stored-view :
        (work : ℕ) (k : Hex)
        → view k (stored work).store ≡ (
            if k === h.block_hash block.header
            then some (old_block block (view (h.block_hash block.header) chain.store), work)
            else view k chain.store)
    unfolding stored
    stored-view work k = view-put_block k (h.block_hash block.header) block work false chain.store

    stored-IsTipped : (work : ℕ) → IsTipped (stored work)
    unfolding stored
    stored-IsTipped work =
        let v = stored-view work chain.tip.hash in
        let apart = old_tip in (tipped.0, v ∙ rw apart tipped.1)

    branch_off-Advances :
        (work : ℕ)
        → Fulfils h
            (h.block_hash block.header)
            chain
            (branch_off o h state_root (h.block_hash block.header) block work chain)
    unfolding branch_off switch_to stored
    branch_off-Advances work =
        let hash = h.block_hash block.header in
        let keyed2 = put-IsKeyed work (stored work).store (stored-view work) in
        let tipped2 = stored-IsTipped work in
        elim (Bool-cases (ltb chain.tip.chain_work work)) [
          | inr less ↦
              rw (branch_off, less)
                (record { keyed = keyed2; tipped = tipped2; work = omega arith; tip = refl })
          | inl more ↦ elim (Option-cases (get_header hash (stored work).store)) [
            | inl e ↦ rw (branch_off, more, e) tt
            | inr (target, e) ↦
                let known = get_header-IsKnown hash (stored work).store target e in
                let lands =
                  reorg_to-Lands o h state_root target (stored work) keyed2 tipped2 known in
                let (body, seen, name, got) = get_header-view hash (stored work).store target e in
                let v = stored-view work hash in
                let width : target.chain_work ≡ work = ground (arith, ===_refl hash) in
                rw (branch_off, more, e)
                  (switch-Advances o h state_root hash chain (stored work) target refl keyed2
                    tipped2 known name (ground (arith, width)))
          ]
        ]

    pub place_block-Advances :
        (parent : StoredHeader)
        → get_header block.header.prev_hash chain.store ≡ some parent
        → Fulfils h
            (h.block_hash block.header)
            chain
            (place_block o h state_root block parent chain)
    unfolding place_block
    place_block-Advances parent found = elim (Bool-cases (parent.hash === chain.tip.hash)) [
      | inl at ↦ rw (place_block, at) (extend-Advances parent found at)
      | inr off ↦
          rw (place_block, off)
            (branch_off-Advances (parent.chain_work + block_work block.header.bits))
    ]
