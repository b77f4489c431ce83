-- ===== src/Node/ChainState/Reorg/Ends.antt =====
-- `#reorgTo` of chain/src/node/chainstate.ts ends: its loops go down by a height a round.
use deckxcoin.Prelude.{
  ℕ, zero, suc, ◌+◌, ◌<◌, ◌≡◌, refl, sym, ◌∙◌, Option, none, some, List, [], ◌∷◌, ◌++◌, arith,
  Bool-cases, Option-cases, inl, inr, ltb,
}
use deckxcoin.Prelude.Eq.{◌===◌, string_eq}
use deckxcoin.Prelude.JsMap
use deckxcoin.Block.Header.{Block, Hashes}
use deckxcoin.Tx.{Hex}
use deckxcoin.Tx.Oracle.{Oracle}
use deckxcoin.State.{WorldState}
use deckxcoin.Node.Store.{ChainStore, StoredHeader, get_header, get_block}
use deckxcoin.Node.ChainState.{ChainState, MoveError, connect, disconnect}
use deckxcoin.Node.ChainState.Reorg.{
  spins, walk_back, endless, disconnect_to, connect_branch, restore_to, diverges, restored, move_up,
  reorg_to,
}
use deckxcoin.Node.ChainState.Reorg.View.{
  view, SameView, disconnect-IsDisconnected, disconnect-Keeps,
}
use deckxcoin.Node.ChainState.Reorg.Moves.{at_moved, at_stuck, at_panic, move_ends}
use deckxcoin.Node.ChainState.Reorg.Outcome.{
  at_reach, at_dangling, at_spin, walk_ends, at_arrival, at_halt, at_break, at_endless,
  progress_ends,
}

-- A stored parent is lower than its child.
abbrev pub IsLinked : ChainStore → Type 0
IsLinked store =
    (k : Hex) (child parent : Block × ℕ)
    → view k store ≡ some child
    → view child.0.header.prev_hash store ≡ some parent
    → parent.0.header.height < child.0.header.height

-- The header is that of a stored block.
abbrev pub IsHeaderOf : ChainStore → StoredHeader → Type 0
IsHeaderOf store c =
    (known : Block × ℕ) × (view c.hash store ≡ some known)
    × (c.height ≡ known.0.header.height)
    × (c.prev_hash ≡ known.0.header.prev_hash)

pub get_header-IsHeaderOf :
    (k : Hex) (store : ChainStore) (c : StoredHeader)
    → get_header k store ≡ some c
    → IsHeaderOf store c × (c.hash ≡ k)
unfolding get_header view
get_header-IsHeaderOf k store c h = elim (Option-cases (JsMap.get k store.blocks)) [
  | inl e ↦ absurd (ground arith)
  | inr (row, e) ↦
      let name : c.hash ≡ k = ground arith in
      (((row.block, row.chain_work), rw (name, e) refl, ground arith, ground arith), name)
]

parent-lower :
    (store : ChainStore) (c parent : StoredHeader)
    → IsLinked store
    → IsHeaderOf store c
    → get_header c.prev_hash store ≡ some parent
    → (parent.height < c.height) × IsHeaderOf store parent
parent-lower store c parent linked (known, seen, high, below) h =
    let (own, name) = get_header-IsHeaderOf c.prev_hash store parent h in
    let there = rw name at own.1 in
    (omega (arith, linked c.hash known own.0 seen (rw (← below) there), high, own.2), own)

walk_back-ends :
    (steps : ℕ) (store : ChainStore) (cursor : StoredHeader) (branch : List StoredHeader)
    → IsLinked store
    → IsHeaderOf store cursor
    → cursor.height < steps
    → ¬ (walk_back steps store cursor branch ≡ spins)
unfolding walk_back
walk_back-ends zero store cursor branch linked own n h = omega arith
walk_back-ends (suc steps) store cursor branch linked own n h = elim (Bool-cases cursor.active) [
  | inl on ↦ ground arith
  | inr off ↦ elim (Option-cases (get_header cursor.prev_hash store)) [
    | inl e ↦ ground arith
    | inr (parent, e) ↦
        let (lower, known) = parent-lower store cursor parent linked own e in
        walk_back-ends steps store parent (cursor ∷ branch) linked known (omega (arith, lower, n))
          (ground arith)
  ]
]

SameView-IsLinked : (s t : ChainStore) → SameView s t → IsLinked s → IsLinked t
SameView-IsLinked s t v linked k child parent c p =
    linked k child parent (sym (v k) ∙ c) (sym (v child.0.header.prev_hash) ∙ p)

SameView-IsHeaderOf :
    (s t : ChainStore) (c : StoredHeader) → SameView s t → IsHeaderOf s c → IsHeaderOf t c
SameView-IsHeaderOf s t c v (known, seen, high, below) = (known, v c.hash ∙ seen, high, below)

disconnect_to-ends :
    (state_root : WorldState → Hex) (steps : ℕ) (fork : Hex) (chain : ChainState) (ids : List Hex)
    → IsLinked chain.store
    → IsHeaderOf chain.store chain.tip
    → chain.tip.height < steps
    → ¬ (disconnect_to state_root steps fork chain ids ≡ endless)
unfolding disconnect_to
disconnect_to-ends state_root zero fork chain ids linked own n h = omega arith
disconnect_to-ends state_root (suc steps) fork chain ids linked own n h =
    elim (Bool-cases (chain.tip.hash === fork)) [
      | inl there ↦ ground arith
      | inr away ↦ elim (move_ends (disconnect state_root chain)) [
        | at_panic e ↦ ground arith
        | at_stuck why e ↦ ground arith
        | at_moved next e ↦
            let d = disconnect-IsDisconnected state_root chain next e in
            let k = disconnect-Keeps chain next d in
            let (lower, known) = parent-lower chain.store chain.tip next.tip linked own d.below in
            disconnect_to-ends state_root steps fork next (ids ++ chain.tip.hash ∷ [])
              (SameView-IsLinked chain.store next.store k.same linked)
              (SameView-IsHeaderOf chain.store next.store next.tip k.same known)
              (omega (arith, lower, n)) (ground arith)
      ]
    ]

restored-ends : (e : MoveError) (m : Option ChainState) → ¬ (restored e m ≡ diverges)
restored-ends e none h = ground arith
restored-ends e (some chain) h = ground arith

module _ (o : Oracle) (h : Hashes) (state_root : WorldState → Hex) where
  connect_branch-ends :
      (branch : List StoredHeader) (chain : ChainState) (ids : List Hex)
      → ¬ (connect_branch o h state_root branch chain ids ≡ endless)
  unfolding connect_branch
  connect_branch-ends [] chain ids x = ground arith
  connect_branch-ends (header ∷ rest) chain ids x =
      elim (Option-cases (get_block header.hash chain.store)) [
        | inl e ↦ ground arith
        | inr (block, e) ↦ elim (move_ends (connect o h state_root block header.chain_work chain)) [
          | at_panic y ↦ ground arith
          | at_stuck why y ↦ ground arith
          | at_moved next y ↦ connect_branch-ends rest next (ids ++ header.hash ∷ []) (ground arith)
        ]
      ]

  move_up-ends :
      (original : StoredHeader) (down : List Hex) (branch : List StoredHeader) (chain : ChainState)
      → ¬ (move_up o h state_root original down branch chain ≡ diverges)
  unfolding move_up
  move_up-ends original down branch chain x =
      elim (progress_ends (connect_branch o h state_root branch chain [])) [
        | at_arrival last up e ↦ ground arith
        | at_halt why last up e ↦
            restored-ends why (restore_to o h state_root original down up last) (ground arith)
        | at_break last e ↦ ground arith
        | at_endless e ↦ connect_branch-ends branch chain [] e
      ]

  -- A reorganisation ends, with a result or an exception, if each stored parent is lower than its child,
  -- and the target and the tip are stored.
  pub reorg_to-ends :
      (target : StoredHeader) (chain : ChainState)
      → IsLinked chain.store
      → IsHeaderOf chain.store target
      → IsHeaderOf chain.store chain.tip
      → ¬ (reorg_to o h state_root target chain ≡ diverges)
  unfolding reorg_to
  reorg_to-ends target chain linked known tip x =
      elim (walk_ends (walk_back (suc target.height) chain.store target [])) [
        | at_spin e ↦
            walk_back-ends (suc target.height) chain.store target [] linked known (omega arith) e
        | at_dangling e ↦ ground arith
        | at_reach branch fork e ↦
            elim (Bool-cases (ltb (fork.height + chain.undo_retention) chain.tip.height)) [
              | inl deep ↦ ground arith
              | inr near ↦
                  elim (progress_ends
                    (disconnect_to state_root (suc chain.tip.height) fork.hash chain [])) [
                      | at_arrival low down y ↦
                          move_up-ends chain.tip down branch low (ground arith)
                      | at_halt why low down y ↦
                          restored-ends why (restore_to o h state_root chain.tip down [] low)
                            (ground arith)
                      | at_break low y ↦ ground arith
                      | at_endless y ↦
                          disconnect_to-ends state_root (suc chain.tip.height) fork.hash chain []
                            linked tip (omega arith) y
                    ]
            ]
      ]
