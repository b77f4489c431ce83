-- ===== src/Merkle.antt =====
-- The transaction tree of chain/src/merkle.ts, over any node type: in the source the nodes are
-- digests, and `node a b` is sha256d(concat(a, b)).
pub mod Proofs
pub mod Duplicates
use deckxcoin.Prelude.{
  ℕ, zero, suc, ◌+◌, ◌-◌, ◌/◌, ◌%◌, Bool, false, ◌&&◌, Option, none, some, List, [], ◌∷◌, ◌++◌,
  ◌==◌, leb, length, get_elem?, if◌then◌else◌,
}
use deckxcoin.Prelude.Eq.{Eq, ◌===◌}

module _ {N : Type 0} where
  unfoldable pub last? : List N → Option N
  last? [] = none
  last? (a ∷ []) = some a
  last? (a ∷ b ∷ rest) = last? (b ∷ rest)

  -- `[...level, level[level.length - 1]]` on an odd level.
  unfoldable pub pad : List N → List N
  pad level =
      if length level % 2 == 1
      then elim (last? level) [ none ↦ level | some a ↦ level ++ a ∷ [] ]
      else level

  -- One step of `for (let i = 0; i < level.length; i += 2)`; a padded level has no odd node left.
  unfoldable pub pairs : (N → N → N) → List N → List N
  pairs node [] = []
  pairs node (a ∷ []) = []
  pairs node (a ∷ b ∷ rest) = node a b ∷ pairs node rest

  -- The two last nodes are the same; `level` has more than one.
  unfoldable pub ends_twice : ⦃e : Eq N⦄ → List N → Bool
  ends_twice [] = false
  ends_twice (a ∷ []) = false
  ends_twice (a ∷ b ∷ []) = b === a
  ends_twice (a ∷ b ∷ c ∷ rest) = ends_twice (b ∷ c ∷ rest)

  -- `while (level.length > 1)`; `none` is the exception, or that the fuel ran out.
  unfoldable pub root_loop : ⦃e : Eq N⦄ → (N → N → N) → ℕ → List N → Option N
  root_loop node fuel [] = none
  root_loop node fuel (a ∷ []) = some a
  root_loop node zero (a ∷ b ∷ rest) = none
  root_loop node (suc fuel) (a ∷ b ∷ rest) =
      let up = root_loop node fuel (pairs node (pad (a ∷ b ∷ rest))) in
      if length (a ∷ b ∷ rest) % 2 == 1 && ends_twice (a ∷ b ∷ rest) then none else up

  -- Each round halves the level, so that its length is enough fuel.
  unfoldable pub merkle_root : ⦃e : Eq N⦄ → (N → N → N) → N → List N → Option N
  unfolding root_loop
  merkle_root node empty_root [] = some empty_root
  merkle_root node empty_root (a ∷ rest) = root_loop node (length (a ∷ rest)) (a ∷ rest)

  -- The path of a proof: each sibling, with whether it stands on the right.
  unfoldable pub proof_loop : (N → N → N) → ℕ → ℕ → List N → List (N × Bool)
  proof_loop node fuel index [] = []
  proof_loop node fuel index (a ∷ []) = []
  proof_loop node zero index (a ∷ b ∷ rest) = []
  proof_loop node (suc fuel) index (a ∷ b ∷ rest) =
      let level = pad (a ∷ b ∷ rest) in
      let up = proof_loop node fuel (index / 2) (pairs node level) in
      let is_even = index % 2 == 0 in
      elim (get_elem? level (if is_even then index + 1 else index - 1)) [
        | none ↦ up
        | some sibling ↦ (sibling, is_even) ∷ up
      ]

  -- `none`: the index is out of range, and the function throws.
  unfoldable pub merkle_proof : (N → N → N) → List N → ℕ → Option (List (N × Bool))
  unfolding proof_loop
  merkle_proof node leaves index =
      if leb (length leaves) index
      then none
      else some (proof_loop node (length leaves) index leaves)

  unfoldable pub fold_proof : (N → N → N) → N → List (N × Bool) → N
  fold_proof node acc [] = acc
  fold_proof node acc ((sibling, right) ∷ path) =
      fold_proof node (if right then node acc sibling else node sibling acc) path

  unfoldable pub verify_merkle_proof : ⦃e : Eq N⦄ → (N → N → N) → N → List (N × Bool) → N → Bool
  unfolding fold_proof
  verify_merkle_proof node leaf path root = fold_proof node leaf path === root
