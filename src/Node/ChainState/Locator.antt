-- ===== src/Node/ChainState/Locator.antt =====
-- `locator` and `findForkPoint` of chain/src/node/chainstate.ts. The loop of `locator` goes down by at
-- least one height a round.
use deckxcoin.Prelude.{
  ℕ, zero, suc, ◌-◌, ◌*◌, Bool, false, ◌||◌, Option, none, some, List, [], ◌∷◌, ◌++◌, ltb, leb,
  length, if◌then◌else◌,
}
use deckxcoin.Prelude.Eq.{◌===◌, string_eq}
use deckxcoin.Tx.{Hex}
use deckxcoin.Node.Store.{ChainStore, StoredHeader, get_header, get_active_at}
use deckxcoin.Node.ChainState.{ChainState}

abbrev push_header : Option StoredHeader → List Hex → List Hex
push_header none hashes = hashes
push_header (some header) hashes = header.hash ∷ hashes

-- The hashes so far, the last one first.
unfoldable pub locate : ℕ → ChainStore → ℕ → ℕ → List Hex → List Hex
locate zero store height step hashes = hashes
locate (suc rounds) store height step hashes =
    let pushed = push_header (get_active_at height store) hashes in
    let wider = if leb 10 (length pushed) then step * 2 else step in
    let rest = locate rounds store (height - wider) wider pushed in
    if ltb height wider || ltb 32 (length pushed) then pushed else rest

reversed : List Hex → List Hex
reversed [] = []
reversed (x ∷ xs) = reversed xs ++ x ∷ []

abbrev ends_with : Hex → List Hex → Bool
ends_with hash [] = false
ends_with hash (last ∷ rest) = last === hash

unfoldable pub locator : ChainState → List Hex
unfolding locate reversed
locator chain =
    let hashes = locate (suc chain.tip.height) chain.store chain.tip.height 1 [] in
    reversed (elim (get_active_at 0 chain.store) [
      | none ↦ hashes
      | some genesis ↦ if ends_with genesis.hash hashes then hashes else genesis.hash ∷ hashes
    ])

-- `none` stands for the `undefined` of a store with no active genesis.
unfoldable pub find_fork_point : List Hex → ChainStore → Option StoredHeader
find_fork_point [] store = get_active_at 0 store
find_fork_point (hash ∷ rest) store =
    let later = find_fork_point rest store in
    elim (get_header hash store) [
      | none ↦ later
      | some header ↦ if header.active then some header else later
    ]
