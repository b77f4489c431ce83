-- ===== src/Tx/Check/Amounts.antt =====
-- The sums that `checkTx` (chain/src/tx.ts) computes and compares.
use deckxcoin.Prelude.{
  ℕ, ◌+◌, ◌≤◌, ◌≡◌, ◌≢◌, refl, true, Option, none, some, List, [], ◌∷◌, arith, length, All,
}
use deckxcoin.Prelude.Int.{ℤ, pos, negsuc}
use deckxcoin.Tx.{TxInput, TxOutput, Transaction, PrevOut, max_money}
use deckxcoin.Tx.Oracle.{Oracle}
use deckxcoin.Tx.Check.{
  Checked, valid, bad, thrown, ◌>>=◌, check_outputs, check_distinct, check_inputs, check_spend,
}

-- BigInt(o.value) where it is at least zero.
abbrev pub amount : Option ℤ → ℕ
amount none = 0
amount (some (pos v)) = v
amount (some (negsuc n)) = 0

abbrev pub outputs_value : List TxOutput → ℕ
outputs_value [] = 0
outputs_value (out ∷ rest) = amount out.value + outputs_value rest

abbrev pub prev_value : List PrevOut → ℕ
prev_value [] = 0
prev_value (prev ∷ prevs) = prev.value + prev_value prevs

-- Every output that is let through has an integer value of at least zero and a canonical address.
abbrev pub IsPayable : Oracle → TxOutput → Type 0
IsPayable o out =
    (out.value ≡ some (pos (amount out.value))) × (o.is_canonical_address out.address ≡ true)

module _ {ℓ κ} {A : Type ℓ} {B : Type κ} where
  pub >>=-valid :
      (m : Checked A) (f : A → Checked B) (b : B)
      → (m >>= f) ≡ valid b
      → (a : A) × (m ≡ valid a) × (f a ≡ valid b)
  >>=-valid (valid a) f b h = (a, refl, h)
  >>=-valid (bad e) f b h = cc
  >>=-valid thrown f b h = cc

module _ (o : Oracle) where
  pub check_outputs-sum :
      (outs : List TxOutput) (sum total : ℕ)
      → check_outputs o outs sum ≡ valid total
      → (total ≡ sum + outputs_value outs) × All (IsPayable o) outs
  unfolding check_outputs
  check_outputs-sum [] sum total h = ground arith
  check_outputs-sum (out ∷ rest) sum total h =
      ground (arith, check_outputs-sum rest (sum + amount out.value) total)

  pub check_outputs-le :
      (outs : List TxOutput) (sum total : ℕ)
      → sum ≤ max_money
      → check_outputs o outs sum ≡ valid total
      → total ≤ max_money
  unfolding check_outputs
  check_outputs-le [] sum total p h = ground arith
  check_outputs-le (out ∷ rest) sum total p h =
      ground (arith, check_outputs-le rest (sum + amount out.value) total)

  module _ (tx : Transaction) where
    pub check_inputs-sum :
        (i : ℕ) (inputs : List TxInput) (prevs : List PrevOut) (sum total : ℕ)
        → length prevs ≡ length inputs
        → check_inputs o tx i inputs prevs sum ≡ valid total
        → total ≡ sum + prev_value prevs
    unfolding check_inputs
    check_inputs-sum i [] [] sum total l h = ground arith
    check_inputs-sum i [] (p ∷ prevs) sum total l h = absurd (omega arith)
    check_inputs-sum i (input ∷ inputs) [] sum total l h = cc
    check_inputs-sum i (input ∷ inputs) (p ∷ prevs) sum total l h =
        ground (arith, check_inputs-sum (i + 1) inputs prevs (sum + p.value) total)

    -- What the checks of a spend have established.
    pub record IsSpend (prevs : List PrevOut) (output_sum fee : ℕ) : Type 0 where
      pub some_input : length tx.inputs ≢ 0
      pub same_length : length prevs ≡ length tx.inputs
      pub distinct : check_distinct tx.inputs [] ≡ valid tt
      pub inputs_valid : check_inputs o tx 0 tx.inputs prevs 0 ≡ valid (output_sum + fee)
      pub within : output_sum + fee ≤ max_money

    pub check_spend-IsSpend :
        (prevs : List PrevOut) (output_sum fee : ℕ)
        → check_spend o tx prevs output_sum ≡ valid fee
        → IsSpend prevs output_sum fee
    unfolding check_spend
    check_spend-IsSpend prevs output_sum fee h = ground arith
