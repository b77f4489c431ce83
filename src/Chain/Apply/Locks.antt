-- ===== src/Chain/Apply/Locks.antt =====
-- The time locks of a spend in chain/src/chain.ts.
use deckxcoin.Prelude.{
  ℕ, ◌+◌, ◌%◌, ◌≤◌, ◌≡◌, inl, inr, subst, true, false, some, List, [], ◌∷◌, arith, ◌==◌, map,
}
use deckxcoin.Prelude.Eq.{◌===◌, string_eq}
use deckxcoin.Tx.{Hex, TxInput, revocable, Transaction, is_coinbase}
use deckxcoin.Tx.Oracle.{Oracle, Bytes}
use deckxcoin.Tx.Check.{valid, check_input, check_inputs, check_script, script_of, owner_key}
use deckxcoin.Tx.Check.Amounts.{>>=-valid, outputs_value, check_spend-IsSpend}
use deckxcoin.Tx.Check.Inputs.{Meets, check_key-KeySpend}
use deckxcoin.State.{Utxo, WorldState, coinbase_maturity}
use deckxcoin.Chain.Apply.{resolve, relative_locks, examine, prev_out, apply_tx}
use deckxcoin.Chain.Contract.{Outcome}
use deckxcoin.Chain.Attempt.{got, TxContext, Receipt}
use deckxcoin.Chain.Apply.Conserves.{apply_spend-IsApplied, check_tx-spend}

-- The relation of each input to the output that it spends.
abbrev pub Pairwise : (TxInput → Utxo → Type 0) → List TxInput → List Utxo → Type 0
Pairwise P [] [] = Unit
Pairwise P [] (u ∷ us) = ⊥
Pairwise P (input ∷ inputs) [] = ⊥
Pairwise P (input ∷ inputs) (u ∷ us) = P input u × Pairwise P inputs us

-- Old enough for its sequence, unless that is 0xffffffff, and a coinbase's output for its maturity.
abbrev pub Aged : ℕ → TxInput → Utxo → Type 0
Aged height input u =
    ((input.sequence == 0xffffffff) ≡ false → u.height + input.sequence % 65_536 ≤ height)
    × (u.coinbase ≡ true → u.height + coinbase_maturity ≤ height)

relative_locks-Aged :
    (height : ℕ) (s : WorldState) (inputs : List TxInput) (us : List Utxo)
    → resolve height s inputs ≡ got us
    → relative_locks height inputs us ≡ got tt
    → Pairwise (Aged height) inputs us
unfolding resolve relative_locks
relative_locks-Aged height s [] [] r h = tt
relative_locks-Aged height s [] (u ∷ us) r h = cc
relative_locks-Aged height s (input ∷ inputs) [] r h = absurd (ground arith)
relative_locks-Aged height s (input ∷ inputs) (u ∷ us) r h = (
  ((λ k. ground arith), λ k. ground arith),
  relative_locks-Aged height s inputs us (ground arith) (ground arith),
)

module _ (o : Oracle) (tx : Transaction) (ctx : TxContext) (s : WorldState) where
  examine-locks :
      (fee : ℕ) (outcome : Outcome) (us : List Utxo)
      → resolve ctx.height s tx.inputs ≡ got us
      → examine o tx ctx s ≡ got (fee, outcome)
      → (relative_locks ctx.height tx.inputs us ≡ got tt) × (tx.lock_time ≤ ctx.height)
  unfolding examine
  examine-locks fee outcome us r h = (ground arith, ground arith)

  -- A transaction that is applied waits for every lock: its own lock time is reached, and each output
  -- that it spends is as many blocks old as the low 16 bits of the input's sequence say, unless the
  -- sequence is 0xffffffff, and 100 blocks old where a coinbase made it.
  pub apply_tx-Aged :
      (r : Receipt) (t : WorldState) (us : List Utxo)
      → is_coinbase tx.kind ≡ false
      → apply_tx o tx ctx s ≡ got (r, t)
      → resolve ctx.height s tx.inputs ≡ got us
      → Pairwise (Aged ctx.height) tx.inputs us × (tx.lock_time ≤ ctx.height)
  unfolding apply_tx
  apply_tx-Aged r t us k h found =
      let a = apply_spend-IsApplied o tx ctx s r t (rw k at h) in
      let (locks, absolute) = examine-locks r.fee a.outcome us found a.examined in
      (relative_locks-Aged ctx.height s tx.inputs us found locks, absolute)

  -- A revocable output stays shut to its owner's key for its delay.
  abbrev pub Delayed : TxInput → Utxo → Type 0
  Delayed input u =
      (delay : ℕ) (revocation_key : Hex)
      → o.is_contract_address u.address ≡ false
      → u.script ≡ some (revocable delay revocation_key)
      → (input.sequence == 0xffffffff) ≡ false
      → (input.pubkey === revocation_key) ≡ false
      → u.height + delay ≤ ctx.height

  check_input-Delayed :
      (i : ℕ) (input : TxInput) (u : Utxo)
      → check_input o tx i input (prev_out u) ≡ valid tt
      → Aged ctx.height input u
      → Delayed input u
  unfolding check_input
  check_input-Delayed i input u h old delay key no_contract script sequence other =
      let spend = check_key-KeySpend o tx input (prev_out u) i (rw no_contract at h) in
      let digest = o.sighash tx i u.value u.address in
      let met : Meets o tx input (prev_out u) spend.pubkey digest (revocable delay key) =
        subst (λ x. Meets o tx input (prev_out u) spend.pubkey digest (script_of x)) script
          spend.meets in
      elim met [
        | inl revoked ↦ absurd (ground arith)
        | inr (owner, long) ↦ omega (arith, old.0 sequence)
      ]

  check_inputs-Delayed :
      (i : ℕ) (inputs : List TxInput) (us : List Utxo) (sum total : ℕ)
      → check_inputs o tx i inputs (map prev_out us) sum ≡ valid total
      → Pairwise (Aged ctx.height) inputs us
      → Pairwise Delayed inputs us
  unfolding check_inputs
  check_inputs-Delayed i [] [] sum total h old = tt
  check_inputs-Delayed i [] (u ∷ us) sum total h old = old
  check_inputs-Delayed i (input ∷ inputs) [] sum total h old = old
  check_inputs-Delayed i (input ∷ inputs) (u ∷ us) sum total h old =
      let (one, first, rest) = >>=-valid (check_input o tx i input (prev_out u)) _ total h in
      (
        check_input-Delayed i input u first old.0,
        check_inputs-Delayed (i + 1) inputs us (sum + u.value) total rest old.1,
      )

  -- A revocable output that is spent without its revocation key, by an input whose sequence is not
  -- 0xffffffff, is as many blocks old as its delay.
  pub apply_tx-Delayed :
      (r : Receipt) (t : WorldState) (us : List Utxo)
      → is_coinbase tx.kind ≡ false
      → apply_tx o tx ctx s ≡ got (r, t)
      → resolve ctx.height s tx.inputs ≡ got us
      → Pairwise Delayed tx.inputs us
  unfolding apply_tx
  apply_tx-Delayed r t us k h found =
      let a = apply_spend-IsApplied o tx ctx s r t (rw k at h) in
      let same : a.us ≡ us = let e = a.resolved in cc in
      let v =
        check_spend-IsSpend o tx (map prev_out us) (outputs_value tx.outputs) r.fee
          (check_tx-spend o tx (map prev_out us) r.fee k (rw same at a.checked_tx)) in
      check_inputs-Delayed 0 tx.inputs us 0 _ v.inputs_valid (apply_tx-Aged r t us k h found).0

-- The owner of a revocable output of a delay of at most 65,535 blocks who writes the sequence 0xffffffff
-- meets its script, and no relative lock stops the spend at any height, whatever the age of the output.
pub final_sequence-escapes :
    (o : Oracle) (tx : Transaction) (input : TxInput) (u : Utxo) (pubkey digest : Bytes) (delay : ℕ)
    (revocation_key : Hex) (height : ℕ)
    → input.sequence ≡ 0xffffffff
    → owner_key o pubkey (prev_out u) ≡ true
    → delay ≤ 65_535
    → (check_script o tx input (prev_out u) pubkey digest (revocable delay revocation_key)
        ≡ valid tt)
      × (relative_locks height (input ∷ []) (u ∷ []) ≡ got tt)
unfolding check_script relative_locks
final_sequence-escapes o tx input u pubkey digest delay key height e owner short =
    (ground arith, ground arith)
