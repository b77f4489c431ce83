-- ===== src/Volt/Channel/Sweeps/Taken.antt =====
-- The outputs that `penaltyFor` of chain/src/volt/channel.ts takes from a revoked commitment.
use deckxcoin.Prelude.{
  ℕ, zero, suc, ◌+◌, ◌≡◌, refl, Bool, true, false, Option, none, some, List, [], ◌∷◌, ◌==◌, any,
  get_elem?, if◌then◌else◌, arith, Option-cases, inl, inr, ◌⊎◌, subst, All, All-imp,
}
use deckxcoin.Prelude.Eq.{◌===◌, string_eq, nat_eq}
use deckxcoin.Tx.{Hex, TxInput, TxOutput, OutputScript, p2pkh, multisig2, htlc, ptlc, revocable}
use deckxcoin.Tx.Build.{KeyPair}
use deckxcoin.Tx.Check.Amounts.{amount}
use deckxcoin.Volt.Channel.Sweeps.{Swept, signer_of, collect, swept_total}

-- The two kinds of output that a punisher with `own` and a revocation key takes: one of the cheater that
-- names a revocation key, and a plain one of the punisher's address.
abbrev pub IsRevocable : TxOutput → Type 0
IsRevocable out = (delay : ℕ) × (key : Hex) × (out.script ≡ some (revocable delay key))

abbrev pub IsPlain : KeyPair → TxOutput → Type 0
IsPlain own out = (out.script ≡ none) × ((out.address === own.address) ≡ true)

-- The key that goes with the kind.
abbrev pub Takes : KeyPair → KeyPair → TxOutput → Hex → Type 0
Takes revocation own out pubkey =
    (IsRevocable out × (pubkey ≡ revocation.public_key))
    ⊎ (IsPlain own out × (pubkey ≡ own.public_key))

-- An input takes an output of the commitment.
abbrev pub TakesFrom : KeyPair → KeyPair → Hex → List TxOutput → TxInput → Type 0
TakesFrom revocation own id outs input =
    (input.txid ≡ id)
    × (out : TxOutput) × (get_elem? outs input.vout ≡ some out)
    × Takes revocation own out input.pubkey

abbrev is_takeable : KeyPair → TxOutput → Bool
is_takeable own out = elim out.script [
  | some (revocable delay key) ↦ true
  | some p2pkh ↦ false
  | some (multisig2 a b) ↦ false
  | some (htlc hash timeout refund) ↦ false
  | some (ptlc point timeout refund) ↦ false
  | none ↦ out.address === own.address
]

-- The value of the outputs of the two kinds.
abbrev pub takeable : KeyPair → List TxOutput → ℕ
takeable own [] = 0
takeable own (out ∷ rest) =
    (if is_takeable own out then amount out.value else 0) + takeable own rest

module _ (revocation own : KeyPair) where
  signer_of-Takes :
      (out : TxOutput) (script : Option OutputScript) (key : KeyPair)
      → out.script ≡ script
      → signer_of revocation own out ≡ some key
      → Takes revocation own out key.public_key
  signer_of-Takes out none key e h = ground arith
  signer_of-Takes out (some p2pkh) key e h = absurd (ground arith)
  signer_of-Takes out (some (multisig2 a b)) key e h = absurd (ground arith)
  signer_of-Takes out (some (htlc hash timeout refund)) key e h = absurd (ground arith)
  signer_of-Takes out (some (ptlc point timeout refund)) key e h = absurd (ground arith)
  signer_of-Takes out (some (revocable delay rk)) key e h = inl ((delay, rk, e), ground arith)

  signer_of-some :
      (out : TxOutput)
      → IsRevocable out ⊎ IsPlain own out
      → (key : KeyPair) × (signer_of revocation own out ≡ some key)
  signer_of-some out (inl (delay, key, e)) = (revocation, rw e refl)
  signer_of-some out (inr (e, same)) = (own, rw e (rw same refl))

  -- What stands in the list that `collect` makes from output `vout` on.
  abbrev pub IsCollected : ℕ → List TxOutput → Swept → Type 0
  IsCollected vout outs s =
      (n : ℕ) × (out : TxOutput) × (s.vout ≡ vout + n)
      × (get_elem? outs n ≡ some out)
      × Takes revocation own out s.signer.public_key

  later-IsCollected :
      (vout : ℕ) (out : TxOutput) (rest : List TxOutput) (s : Swept)
      → IsCollected (vout + 1) rest s
      → IsCollected vout (out ∷ rest) s
  later-IsCollected vout out rest s (n, found, at, there, takes) =
      (suc n, found, omega (arith, at), there, takes)

  pub collect-IsCollected :
      (vout : ℕ) (outs : List TxOutput)
      → All (IsCollected vout outs) (collect revocation own vout outs)
  unfolding collect
  collect-IsCollected vout [] = tt
  collect-IsCollected vout (out ∷ rest) =
      let more =
        All-imp (later-IsCollected vout out rest) (collect revocation own (vout + 1) rest)
          (collect-IsCollected (vout + 1) rest) in
      elim (Option-cases (signer_of revocation own out)) [
        | inl e ↦ rw (collect, e) more
        | inr (key, e) ↦
            rw (collect, e)
              ((0, out, omega arith, refl, signer_of-Takes out out.script key refl e), more)
      ]

  pub collect-every :
      (vout n : ℕ) (outs : List TxOutput) (out : TxOutput)
      → get_elem? outs n ≡ some out
      → IsRevocable out ⊎ IsPlain own out
      → any (λ (s : Swept). s.vout == vout + n) (collect revocation own vout outs) ≡ true
  unfolding collect
  collect-every vout n [] out h k = cc
  collect-every vout zero (x ∷ rest) out h k =
      let same : x ≡ out = ground arith in
      let (key, e) = signer_of-some out k in
      let e2 : signer_of revocation own x ≡ some key = rw same e in rw (collect, e2) (ground arith)
  collect-every vout (suc n) (x ∷ rest) out h k =
      let more = collect-every (vout + 1) n rest out (ground arith) k in
      let shift : vout + 1 + n ≡ vout + suc n = omega arith in
      let later =
        subst
          (λ v. any (λ (s : Swept). s.vout == v) (collect revocation own (vout + 1) rest) ≡ true)
          shift more in
      elim (Option-cases (signer_of revocation own x)) [
        | inl e ↦ rw (collect, e) later
        | inr (key, e) ↦ rw (collect, e) (ground arith)
      ]

  pub swept_total-collect :
      (vout : ℕ) (outs : List TxOutput)
      → swept_total (collect revocation own vout outs) ≡ takeable own outs
  unfolding swept_total collect
  swept_total-collect vout [] = refl
  swept_total-collect vout (out ∷ rest) = ground (arith, swept_total-collect (vout + 1) rest)
