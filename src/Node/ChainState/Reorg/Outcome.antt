-- ===== src/Node/ChainState/Reorg/Outcome.antt =====
-- Where `#reorgTo` of chain/src/node/chainstate.ts leaves the tip.
use deckxcoin.Prelude.{
  suc, ◌+◌, ◌≡◌, refl, ap, ◌∙◌, List, [], Bool-cases, Option-cases, inl, inr, ltb, All, All-imp,
}
use deckxcoin.Block.Header.{Hashes}
use deckxcoin.Tx.{Hex}
use deckxcoin.Tx.Oracle.{Oracle}
use deckxcoin.State.{WorldState}
use deckxcoin.Node.Store.{StoredHeader}
use deckxcoin.Node.ChainState.{ChainState, MoveError}
use deckxcoin.Node.ChainState.Reorg.{
  Walk, reaches, dangling, spins, walk_back, Progress, arrives, halts, breaks, endless,
  disconnect_to, connect_branch, restore_to, Reorg, reorganised, kept, throws, diverges, restored,
  move_up, reorg_to,
}
use deckxcoin.Node.ChainState.Reorg.View.{IsTipped, IsKeyed, Keeps}
use deckxcoin.Node.ChainState.Reorg.Moves.{
  Keeps-refl, last_of, walk_back-last, disconnect_to-Keeps, disconnect_to-tip,
}
use deckxcoin.Node.ChainState.Reorg.Branches.{
  IsKnown, walk_back-IsKnown, Keeps-IsKeyed, Keeps-IsKnown, connect_branch-Keeps,
  connect_branch-tip,
}
use deckxcoin.Node.ChainState.Reorg.Restored.{restore_to-tip}

-- The ways a walk and a progress end.
pub data WalkEnds (w : Walk) : Type 0 where
  at_reach :
      (branch : List StoredHeader) (fork : StoredHeader) → w ≡ reaches branch fork → WalkEnds w
  at_dangling : w ≡ dangling → WalkEnds w
  at_spin : w ≡ spins → WalkEnds w

pub walk_ends : (w : Walk) → WalkEnds w
walk_ends (reaches branch fork) = at_reach branch fork refl
walk_ends dangling = at_dangling refl
walk_ends spins = at_spin refl

pub data ProgressEnds (p : Progress) : Type 0 where
  at_arrival : (chain : ChainState) (ids : List Hex) → p ≡ arrives chain ids → ProgressEnds p
  at_halt :
      (e : MoveError) (chain : ChainState) (ids : List Hex) → p ≡ halts e chain ids → ProgressEnds p
  at_break : (chain : ChainState) → p ≡ breaks chain → ProgressEnds p
  at_endless : p ≡ endless → ProgressEnds p

pub progress_ends : (p : Progress) → ProgressEnds p
progress_ends (arrives chain ids) = at_arrival chain ids refl
progress_ends (halts e chain ids) = at_halt e chain ids refl
progress_ends (breaks chain) = at_break chain refl
progress_ends endless = at_endless refl

-- What a reorganisation that returns has made of the chain.
abbrev pub Lands : ChainState → StoredHeader → Reorg → Type 0
Lands chain target (reorganised after down up) = Keeps chain after × (after.tip.hash ≡ target.hash)
Lands chain target (kept e after) = Keeps chain after × (after.tip.hash ≡ chain.tip.hash)
Lands chain target throws = Unit
Lands chain target diverges = Unit

module _ (o : Oracle) (h : Hashes) (state_root : WorldState → Hex) (target : StoredHeader)
    (chain : ChainState) (keyed : IsKeyed h chain.store) (tipped : IsTipped chain) where
  restored-Lands :
      (e : MoveError) (down up : List Hex) (last : ChainState)
      → Keeps chain last
      → Lands chain target (restored e (restore_to o h state_root chain.tip down up last))
  restored-Lands e down up last k =
      elim (Option-cases (restore_to o h state_root chain.tip down up last)) [
        | inl x ↦ rw (restored, x) tt
        | inr (after, x) ↦
            rw (restored, x)
              (restore_to-tip o h state_root chain.tip down up chain last after keyed k x)
      ]

  move_up-Lands :
      (down : List Hex) (branch : List StoredHeader) (low : ChainState)
      → Keeps chain low
      → All (IsKnown chain.store) branch
      → last_of low.tip.hash branch ≡ target.hash
      → Lands chain target (move_up o h state_root chain.tip down branch low)
  unfolding move_up
  move_up-Lands down branch low k known ends =
      let held = connect_branch-Keeps o h state_root branch chain low [] keyed known k in
      elim (progress_ends (connect_branch o h state_root branch low [])) [
        | at_break last x ↦ rw (move_up, x) tt
        | at_endless x ↦ rw (move_up, x) tt
        | at_halt e last up x ↦ rw (move_up, x) (restored-Lands e down up last (rw x at held))
        | at_arrival last up x ↦
            let tip =
              connect_branch-tip o h state_root branch low last [] up
                (Keeps-IsKeyed o h state_root chain low k keyed)
                (All-imp (λ header. Keeps-IsKnown o h state_root chain low header k) branch known)
                x in
            rw (move_up, x) (rw x at held, tip ∙ ends)
      ]

  -- A reorganisation that returns has kept every stored block and its work. Its tip is the target if it
  -- succeeds, and the tip from before if it does not; if the stored blocks stand under their hashes, and
  -- the tip and the target are stored.
  pub reorg_to-Lands :
      IsKnown chain.store target → Lands chain target (reorg_to o h state_root target chain)
  unfolding reorg_to
  reorg_to-Lands known = elim (walk_ends (walk_back (suc target.height) chain.store target [])) [
    | at_spin x ↦ rw (reorg_to, x) tt
    | at_dangling x ↦ rw (reorg_to, x) (Keeps-refl chain tipped, refl)
    | at_reach branch fork x ↦
        let ends = walk_back-last (suc target.height) chain.store target [] branch fork x in
        let all =
          walk_back-IsKnown (suc target.height) chain.store target [] branch fork known tt x in
        elim (Bool-cases (ltb (fork.height + chain.undo_retention) chain.tip.height)) [
          | inl deep ↦ rw (reorg_to, x, deep) (Keeps-refl chain tipped, refl)
          | inr near ↦
              let held =
                disconnect_to-Keeps state_root (suc chain.tip.height) fork.hash chain chain []
                  (Keeps-refl chain tipped) in
              elim (progress_ends
                (disconnect_to state_root (suc chain.tip.height) fork.hash chain [])) [
                  | at_break low y ↦ rw (reorg_to, x, near, y) tt
                  | at_endless y ↦ rw (reorg_to, x, near, y) tt
                  | at_halt e low down y ↦
                      rw (reorg_to, x, near, y) (restored-Lands e down [] low (rw y at held))
                  | at_arrival low down y ↦
                      let there =
                        disconnect_to-tip state_root (suc chain.tip.height) fork.hash chain low []
                          down y in
                      rw (reorg_to, x, near, y)
                        (move_up-Lands down branch low (rw y at held) all
                          (ap (λ d. last_of d branch) there ∙ ends))
                ]
        ]
  ]
