-- ===== src/Node/ChainState/Reorg/Moves.antt =====
-- Where the loops of `#reorgTo` and `#restoreTo` (chain/src/node/chainstate.ts) leave the tip, and that
-- they keep the stored blocks.
use deckxcoin.Prelude.{
  ℕ, zero, suc, ◌≡◌, refl, ◌∙◌, List, [], ◌∷◌, ◌++◌, arith, Bool-cases, Option-cases, inl, inr,
  subst,
}
use deckxcoin.Prelude.Eq.{◌===◌, string_eq, ===→eq}
use deckxcoin.Tx.{Hex}
use deckxcoin.State.{WorldState}
use deckxcoin.Node.Store.{ChainStore, StoredHeader, get_header}
use deckxcoin.Node.ChainState.{ChainState, Move, moved, stuck, panics, MoveError, disconnect}
use deckxcoin.Node.ChainState.Reorg.{
  reaches, walk_back, Progress, arrives, halts, breaks, endless, disconnect_to,
}
use deckxcoin.Node.ChainState.Reorg.View.{
  IsTipped, Keeps, disconnect-IsDisconnected, disconnect-Keeps,
}

pub Keeps-refl : (chain : ChainState) → IsTipped chain → Keeps chain chain
Keeps-refl chain t = record { same = λ k. refl; tipped = t }

pub Keeps-trans : (a b c : ChainState) → Keeps a b → Keeps b c → Keeps a c
Keeps-trans a b c x y = record { same = λ k. y.same k ∙ x.same k; tipped = y.tipped }

-- The three ways a move ends.
pub data MoveEnds (m : Move) : Type 0 where
  at_moved : (next : ChainState) → m ≡ moved next → MoveEnds m
  at_stuck : (e : MoveError) → m ≡ stuck e → MoveEnds m
  at_panic : m ≡ panics → MoveEnds m

pub move_ends : (m : Move) → MoveEnds m
move_ends (moved next) = at_moved next refl
move_ends (stuck e) = at_stuck e refl
move_ends panics = at_panic refl

-- The hash of the last header, or `d`.
abbrev pub last_of : Hex → List StoredHeader → Hex
last_of d [] = d
last_of d (x ∷ xs) = last_of x.hash xs

-- The walk back gives a branch that ends in its target.
pub walk_back-last :
    (steps : ℕ) (store : ChainStore) (cursor : StoredHeader) (branch found : List StoredHeader)
    (fork : StoredHeader)
    → walk_back steps store cursor branch ≡ reaches found fork
    → last_of fork.hash found ≡ last_of cursor.hash branch
unfolding walk_back
walk_back-last zero store cursor branch found fork h = absurd (ground arith)
walk_back-last (suc steps) store cursor branch found fork h = elim (Bool-cases cursor.active) [
  | inl on ↦
      let same : (branch ≡ found) × (cursor ≡ fork) = ground arith in
      rw (← same.0) (rw (← same.1) refl)
  | inr off ↦ elim (Option-cases (get_header cursor.prev_hash store)) [
    | inl e ↦ absurd (ground arith)
    | inr (parent, e) ↦
        walk_back-last steps store parent (cursor ∷ branch) found fork (ground arith)
  ]
]

-- What holds of a progress that arrives or halts.
abbrev pub Holds : (ChainState → Type 0) → Progress → Type 0
Holds P (arrives chain ids) = P chain
Holds P (halts e chain ids) = P chain
Holds P (breaks chain) = Unit
Holds P endless = Unit

pub disconnect_to-Keeps :
    (state_root : WorldState → Hex) (steps : ℕ) (fork : Hex) (origin chain : ChainState)
    (ids : List Hex)
    → Keeps origin chain
    → Holds (Keeps origin) (disconnect_to state_root steps fork chain ids)
unfolding disconnect_to
disconnect_to-Keeps state_root zero fork origin chain ids k = tt
disconnect_to-Keeps state_root (suc steps) fork origin chain ids k =
    elim (Bool-cases (chain.tip.hash === fork)) [
      | inl there ↦ rw (disconnect_to, there) k
      | inr away ↦ elim (move_ends (disconnect state_root chain)) [
        | at_panic e ↦ rw (disconnect_to, away, e) tt
        | at_stuck why e ↦ rw (disconnect_to, away, e) k
        | at_moved next e ↦
            let one =
              disconnect-Keeps chain next (disconnect-IsDisconnected state_root chain next e) in
            rw (disconnect_to, away, e)
              (disconnect_to-Keeps state_root steps fork origin next _
                (Keeps-trans origin chain next k one))
      ]
    ]

pub disconnect_to-tip :
    (state_root : WorldState → Hex) (steps : ℕ) (fork : Hex) (chain down : ChainState)
    (ids gone : List Hex)
    → disconnect_to state_root steps fork chain ids ≡ arrives down gone
    → down.tip.hash ≡ fork
unfolding disconnect_to
disconnect_to-tip state_root zero fork chain down ids gone h = absurd (ground arith)
disconnect_to-tip state_root (suc steps) fork chain down ids gone h =
    elim (Bool-cases (chain.tip.hash === fork)) [
      | inl there ↦
          let same : chain ≡ down = ground arith in
          subst (λ (c : ChainState). c.tip.hash ≡ fork) same (===→eq chain.tip.hash fork there)
      | inr away ↦ elim (move_ends (disconnect state_root chain)) [
        | at_panic e ↦ absurd (ground arith)
        | at_stuck why e ↦ absurd (ground arith)
        | at_moved next e ↦
            disconnect_to-tip state_root steps fork next down (ids ++ chain.tip.hash ∷ []) gone
              (ground arith)
      ]
    ]
