-- ===== src/Merkle/Proofs.antt =====
-- A proof that `merkleProof` (chain/src/merkle.ts) makes verifies against the root that `merkleRoot`
-- computes.
use deckxcoin.Prelude.{
  ℕ, zero, suc, ◌+◌, ◌-◌, ◌/◌, ◌%◌, ◌≤◌, ◌<◌, ◌≡◌, ◌⊎◌, refl, Bool, true, false, some, List, [],
  ◌∷◌, ◌++◌, arith, ◌==◌, length, length-append, get_elem?, Bool-cases, inl, inr,
}
use deckxcoin.Prelude.Eq.{Eq, ===_refl}
use deckxcoin.Merkle.{
  last?, pad, pairs, root_loop, merkle_root, proof_loop, merkle_proof, fold_proof,
  verify_merkle_proof,
}

module _ {N : Type 0} where
  get_elem?-append :
      (xs ys : List N) (i : ℕ) (a : N) → get_elem? xs i ≡ some a → get_elem? (xs ++ ys) i ≡ some a
  get_elem?-append [] ys i a h = cc
  get_elem?-append (x ∷ xs) ys zero a h = h
  get_elem?-append (x ∷ xs) ys (suc i) a h = get_elem?-append xs ys i a h

  get_elem?-below : (xs : List N) (i : ℕ) → i < length xs → (a : N) × (get_elem? xs i ≡ some a)
  get_elem?-below [] i h = absurd (omega arith)
  get_elem?-below (x ∷ xs) zero h = (x, refl)
  get_elem?-below (x ∷ xs) (suc i) h = get_elem?-below xs i (omega arith)

  below-get_elem? : (xs : List N) (i : ℕ) (a : N) → get_elem? xs i ≡ some a → i < length xs
  below-get_elem? [] i a h = cc
  below-get_elem? (x ∷ xs) zero a h = omega arith
  below-get_elem? (x ∷ xs) (suc i) a h = omega (arith, below-get_elem? xs i a h)

  last?-cons : (a : N) (xs : List N) → (b : N) × (last? (a ∷ xs) ≡ some b)
  unfolding last?
  last?-cons a [] = (a, refl)
  last?-cons a (b ∷ xs) = last?-cons b xs

  pub pad_cases :
      (a : N) (xs : List N)
      → ((length (a ∷ xs) % 2 ≡ 0) × (pad (a ∷ xs) ≡ a ∷ xs))
        ⊎ ((length (a ∷ xs) % 2 ≡ 1) × ((b : N) × (pad (a ∷ xs) ≡ (a ∷ xs) ++ b ∷ [])))
  unfolding pad
  pad_cases a xs =
      let (b, e) = last?-cons a xs in
      elim (Bool-cases (length (a ∷ xs) % 2 == 1)) [
        | inl odd ↦ inr ((ground arith), (b, rw (odd, e)))
        | inr even ↦ inl ((ground arith), rw even)
      ]

  pub length-pad :
      (a : N) (xs : List N)
      → (length (pad (a ∷ xs)) % 2 ≡ 0)
        × (length (a ∷ xs) ≤ length (pad (a ∷ xs)))
        × (length (pad (a ∷ xs)) ≤ length (a ∷ xs) + 1)
  length-pad a xs = elim (pad_cases a xs) [
    | inl (even, e) ↦ rw e (omega arith)
    | inr (odd, (b, e)) ↦ rw (e, length-append (a ∷ xs) (b ∷ [])) (omega arith)
  ]

  get_elem?-pad :
      (a : N) (xs : List N) (i : ℕ) (x : N)
      → get_elem? (a ∷ xs) i ≡ some x
      → get_elem? (pad (a ∷ xs)) i ≡ some x
  get_elem?-pad a xs i x h = elim (pad_cases a xs) [
    | inl (even, e) ↦ rw e h
    | inr (odd, (b, e)) ↦ rw e (get_elem?-append (a ∷ xs) (b ∷ []) i x h)
  ]

  module _ (node : N → N → N) where
    pub length-pairs : (xs : List N) → length (pairs node xs) ≡ length xs / 2
    unfolding pairs
    length-pairs [] = refl
    length-pairs (a ∷ []) = omega arith
    length-pairs (a ∷ b ∷ rest) = omega (arith, length-pairs rest)

    -- The parent of the nodes `2 * i` and `2 * i + 1`.
    get_elem?-pairs :
        (xs : List N) (i : ℕ) (a b : N)
        → get_elem? xs (i + i) ≡ some a
        → get_elem? xs (i + i + 1) ≡ some b
        → get_elem? (pairs node xs) i ≡ some (node a b)
    unfolding pairs
    get_elem?-pairs [] i a b h k = cc
    get_elem?-pairs (x ∷ []) zero a b h k = ground arith
    get_elem?-pairs (x ∷ []) (suc i) a b h k =
        absurd (omega (arith, below-get_elem? (x ∷ []) _ a h))
    get_elem?-pairs (x ∷ y ∷ xs) zero a b h k = ground arith
    get_elem?-pairs (x ∷ y ∷ xs) (suc i) a b h k =
        let e : suc i + suc i ≡ suc (suc (i + i)) = omega arith in
        let f : suc i + suc i + 1 ≡ suc (suc (i + i + 1)) = omega arith in
        get_elem?-pairs xs i a b (rw e at h) (rw f at k)

    -- The sibling is there: a padded level is even.
    sibling_even :
        (a : N) (xs : List N) (k : ℕ) (x : N)
        → get_elem? (a ∷ xs) (k + k) ≡ some x
        → (s : N) × (get_elem? (pad (a ∷ xs)) (k + k + 1) ≡ some s)
          × (get_elem? (pairs node (pad (a ∷ xs))) k ≡ some (node x s))
    sibling_even a xs k x h =
        let (even, le, _) = length-pad a xs in
        let (s, e) =
          get_elem?-below (pad (a ∷ xs)) (k + k + 1)
            (omega (arith, below-get_elem? (a ∷ xs) _ x h)) in
        (s, e, get_elem?-pairs (pad (a ∷ xs)) k x s (get_elem?-pad a xs (k + k) x h) e)

    sibling_odd :
        (a : N) (xs : List N) (k : ℕ) (x : N)
        → get_elem? (a ∷ xs) (k + k + 1) ≡ some x
        → (s : N) × (get_elem? (pad (a ∷ xs)) (k + k) ≡ some s)
          × (get_elem? (pairs node (pad (a ∷ xs))) k ≡ some (node s x))
    sibling_odd a xs k x h =
        let (even, le, _) = length-pad a xs in
        let (s, e) =
          get_elem?-below (pad (a ∷ xs)) (k + k) (omega (arith, below-get_elem? (a ∷ xs) _ x h)) in
        (s, e, get_elem?-pairs (pad (a ∷ xs)) k s x e (get_elem?-pad a xs (k + k + 1) x h))

    proof_loop_even :
        (fuel index : ℕ) (a b : N) (xs : List N) (s : N)
        → index % 2 ≡ 0
        → get_elem? (pad (a ∷ b ∷ xs)) (index + 1) ≡ some s
        → proof_loop node (suc fuel) index (a ∷ b ∷ xs)
          ≡ (s, true) ∷ proof_loop node fuel (index / 2) (pairs node (pad (a ∷ b ∷ xs)))
    unfolding proof_loop
    proof_loop_even fuel index a b xs s h g = ground arith

    proof_loop_odd :
        (fuel index : ℕ) (a b : N) (xs : List N) (s : N)
        → index % 2 ≡ 1
        → get_elem? (pad (a ∷ b ∷ xs)) (index - 1) ≡ some s
        → proof_loop node (suc fuel) index (a ∷ b ∷ xs)
          ≡ (s, false) ∷ proof_loop node fuel (index / 2) (pairs node (pad (a ∷ b ∷ xs)))
    unfolding proof_loop
    proof_loop_odd fuel index a b xs s h g = ground arith

    module _ ⦃e : Eq N⦄ where
      root_loop-suc :
          (fuel : ℕ) (a b : N) (xs : List N) (r : N)
          → root_loop node (suc fuel) (a ∷ b ∷ xs) ≡ some r
          → root_loop node fuel (pairs node (pad (a ∷ b ∷ xs))) ≡ some r
      unfolding root_loop
      root_loop-suc fuel a b xs r h = ground arith

      pub fold-proof_loop :
          (fuel index : ℕ) (level : List N) (x r : N)
          → get_elem? level index ≡ some x
          → root_loop node fuel level ≡ some r
          → fold_proof node x (proof_loop node fuel index level) ≡ r
      unfolding fold_proof
      fold-proof_loop fuel index [] x r g h = cc
      fold-proof_loop fuel zero (a ∷ []) x r g h = unfold root_loop proof_loop in cc
      fold-proof_loop fuel (suc index) (a ∷ []) x r g h = cc
      fold-proof_loop zero index (a ∷ b ∷ xs) x r g h = unfold root_loop in cc
      fold-proof_loop (suc fuel) index (a ∷ b ∷ xs) x r g h = elim (Bool-cases (index % 2 == 0)) [
        | inl even ↦
            let f : index ≡ index / 2 + index / 2 = ground arith in
            let (s, es, up) = sibling_even a (b ∷ xs) (index / 2) x (rw f at g) in
            let q : index / 2 + index / 2 + 1 ≡ index + 1 = omega arith in
            rw (proof_loop_even fuel index a b xs s (ground arith) (rw q at es)) (
              fold-proof_loop fuel (index / 2) (pairs node (pad (a ∷ b ∷ xs))) (node x s) r up
                (root_loop-suc fuel a b xs r h))
        | inr odd ↦
            let f : index ≡ index / 2 + index / 2 + 1 = ground arith in
            let (s, es, up) = sibling_odd a (b ∷ xs) (index / 2) x (rw f at g) in
            let q : index / 2 + index / 2 ≡ index - 1 = omega arith in
            rw (proof_loop_odd fuel index a b xs s (ground arith) (rw q at es)) (
              fold-proof_loop fuel (index / 2) (pairs node (pad (a ∷ b ∷ xs))) (node s x) r up
                (root_loop-suc fuel a b xs r h))
      ]

-- Wherever `merkleRoot` computes a root, the proof that `merkleProof` makes for the leaf at an index
-- in range verifies against it.
pub verify-merkle_proof :
    {N : Type 0} ⦃e : Eq N⦄ (node : N → N → N) (empty_root root leaf : N) (leaves : List N)
    (index : ℕ)
    → merkle_root node empty_root leaves ≡ some root
    → get_elem? leaves index ≡ some leaf
    → (path : List (N × Bool)) × (merkle_proof node leaves index ≡ some path)
      × (verify_merkle_proof node leaf path root ≡ true)
verify-merkle_proof node empty_root root leaf [] index h g = cc
verify-merkle_proof node empty_root root leaf (a ∷ rest) index h g = (
  proof_loop node (length (a ∷ rest)) index (a ∷ rest),
  unfold merkle_proof in ground (arith, below-get_elem? (a ∷ rest) index leaf g),
  unfold verify_merkle_proof merkle_root in
      rw (fold-proof_loop node (length (a ∷ rest)) index (a ∷ rest) leaf root g h) (===_refl root),
)
