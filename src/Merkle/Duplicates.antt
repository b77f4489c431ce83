-- ===== src/Merkle/Duplicates.antt =====
-- The loop of `merkleRoot` (chain/src/merkle.ts) ends, and what its guard against duplicated leaves
-- lets through.
use deckxcoin.Prelude.{
  ℕ, zero, suc, ◌+◌, ◌-◌, ◌%◌, ◌≤◌, ◌≡◌, refl, sym, ap, ◌∙◌, false, List, [], ◌∷◌, ◌++◌, arith,
  ◌==◌, length, length-append, Bool-cases, inl, inr,
}
use deckxcoin.Prelude.Eq.{Eq}
use deckxcoin.Merkle.{pad, pairs, ends_twice, root_loop, merkle_root}
use deckxcoin.Merkle.Proofs.{length-pairs, length-pad, pad_cases}

module _ {N : Type 0} ⦃e : Eq N⦄ (node : N → N → N) where
  level_shrinks :
      (a b : N) (xs : List N) → suc (length (pairs node (pad (a ∷ b ∷ xs)))) ≤ length (a ∷ b ∷ xs)
  level_shrinks a b xs =
      let (even, low, high) = length-pad a (b ∷ xs) in
      omega (arith, length-pairs node (pad (a ∷ b ∷ xs)))

  root_loop_more :
      (fuel : ℕ) (level : List N)
      → length level ≤ fuel
      → root_loop node (suc fuel) level ≡ root_loop node fuel level
  unfolding root_loop
  root_loop_more fuel [] h = refl
  root_loop_more fuel (a ∷ []) h = refl
  root_loop_more zero (a ∷ b ∷ xs) h = absurd (omega arith)
  root_loop_more (suc fuel) (a ∷ b ∷ xs) h =
      let again =
        root_loop_more fuel (pairs node (pad (a ∷ b ∷ xs))) (omega (arith, level_shrinks a b xs)) in
      rw again

  root_loop_add :
      (k : ℕ) (level : List N)
      → root_loop node (length level + k) level ≡ root_loop node (length level) level
  root_loop_add zero level = let q : length level + 0 ≡ length level = omega arith in rw q
  root_loop_add (suc k) level =
      let q : length level + suc k ≡ suc (length level + k) = omega arith in
      rw q (root_loop_more (length level + k) level (omega arith) ∙ root_loop_add k level)

  -- The loop ends by its test: no more rounds than there are nodes are ever made, whatever the fuel
  -- beyond that.
  pub root_loop_ends :
      (fuel : ℕ) (level : List N)
      → length level ≤ fuel
      → root_loop node fuel level ≡ root_loop node (length level) level
  root_loop_ends fuel level h =
      let q : fuel ≡ length level + (fuel - length level) = omega arith in
      rw q (root_loop_add (fuel - length level) level)

  pad_even : (a : N) (xs : List N) → length (a ∷ xs) % 2 ≡ 0 → pad (a ∷ xs) ≡ a ∷ xs
  unfolding pad
  pad_even a xs h = ground arith

  -- A level that the guard lets through.
  root_loop_step :
      (fuel : ℕ) (a b : N) (xs : List N)
      → (length (a ∷ b ∷ xs) % 2 ≡ 1 → ends_twice (a ∷ b ∷ xs) ≡ false)
      → root_loop node (suc fuel) (a ∷ b ∷ xs) ≡ root_loop node fuel (pairs node (pad (a ∷ b ∷ xs)))
  unfolding root_loop
  root_loop_step fuel a b xs h = elim (Bool-cases (length (a ∷ b ∷ xs) % 2 == 1)) [
    | inl odd ↦ rw (odd, h (ground arith))
    | inr even ↦ rw even
  ]

  same_root :
      (empty_root a b c : N) (xs : List N)
      → length (a ∷ b ∷ xs) % 2 ≡ 1
      → ends_twice (a ∷ b ∷ xs) ≡ false
      → pad (a ∷ b ∷ xs) ≡ a ∷ b ∷ (xs ++ c ∷ [])
      → merkle_root node empty_root (a ∷ b ∷ (xs ++ c ∷ []))
        ≡ merkle_root node empty_root (a ∷ b ∷ xs)
  unfolding merkle_root
  same_root empty_root a b c xs odd h e =
      let longer : length (xs ++ c ∷ []) ≡ suc (length xs) =
        omega (arith, length-append xs (c ∷ [])) in
      let even : length (a ∷ b ∷ (xs ++ c ∷ [])) % 2 ≡ 0 = omega arith in
      let level = pairs node (pad (a ∷ b ∷ xs)) in
      let fits = level_shrinks a b xs in
      let up =
        root_loop_step (suc (length (xs ++ c ∷ []))) a b (xs ++ c ∷ []) (λ o. absurd (omega arith))
        ∙ ap (λ l. root_loop node (suc (length (xs ++ c ∷ []))) (pairs node l))
            (pad_even a (b ∷ (xs ++ c ∷ [])) even ∙ sym e)
        ∙ root_loop_ends (suc (length (xs ++ c ∷ []))) level (omega arith) in
      up
      ∙ sym (
          root_loop_step (suc (length xs)) a b xs (λ _. h)
          ∙ root_loop_ends (suc (length xs)) level (omega arith))

  -- On an odd number of leaves of which the two last differ, the list that repeats the last leaf is
  -- longer by one, and has the same root, or throws with it: whenever one of the two lists has a root, the
  -- other has that root too.
  pub merkle_root-pad :
      (empty_root a b : N) (xs : List N)
      → length (a ∷ b ∷ xs) % 2 ≡ 1
      → ends_twice (a ∷ b ∷ xs) ≡ false
      → (length (pad (a ∷ b ∷ xs)) ≡ length (a ∷ b ∷ xs) + 1)
        × (merkle_root node empty_root (pad (a ∷ b ∷ xs))
            ≡ merkle_root node empty_root (a ∷ b ∷ xs))
  merkle_root-pad empty_root a b xs odd h = elim (pad_cases a (b ∷ xs)) [
    | inl (even, e) ↦ absurd (omega arith)
    | inr (_, (c, e)) ↦ (
      rw (e, length-append (a ∷ b ∷ xs) (c ∷ [])) (omega arith),
      rw e (same_root empty_root a b c xs odd h e),
    )
  ]
