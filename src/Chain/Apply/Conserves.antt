-- ===== src/Chain/Apply/Conserves.antt =====
-- What a transaction does to the supply (chain/src/chain.ts, `applyTx`).
use deckxcoin.Prelude.{
  ℕ, ◌+◌, ◌≤◌, ◌≡◌, refl, sym, Bool, true, false, Option, none, some, List, [], ◌∷◌, arith,
  Option-cases, inl, inr, map,
}
use deckxcoin.Block.Subsidy.{block_subsidy}
use deckxcoin.Tx.{TxInput, Transaction, PrevOut, is_coinbase}
use deckxcoin.Tx.Oracle.{Oracle}
use deckxcoin.Tx.Check.{valid, check_tx, check_common, check_spend, check_distinct}
use deckxcoin.Tx.Check.Amounts.{
  outputs_value, prev_value, check_spend-IsSpend, check_outputs-sum, check_inputs-sum, >>=-valid,
}
use deckxcoin.State.{
  Utxo, WorldState, get_utxo, total_supply, bump_nonce, put_contract, set_storage,
}
use deckxcoin.Chain.Apply.{
  resolve, prev_out, examine, spend_inputs, move_coins, apply_coinbase, apply_spend, apply_tx,
}
use deckxcoin.Chain.Contract.{Outcome, Effect, no_effect, deploys, writes, commit_effect}
use deckxcoin.Chain.Attempt.{Attempt, or_throw, got, refuse, throws, ◌>>=◌, TxContext, Receipt}
use deckxcoin.Chain.Apply.Coins.{
  utxos_value, Found, resolve-Found, total_supply-spend_inputs, total_supply-add_outputs,
}

pub >>=-got {ℓ κ} :
    {A : Type ℓ} {B : Type κ} (m : Attempt A) (f : A → Attempt B) (b : B)
    → (m >>= f) ≡ got b
    → (a : A) × (m ≡ got a) × (f a ≡ got b)
>>=-got (got a) f b h = (a, refl, h)
>>=-got (refuse e fee gas) f b h = cc
>>=-got throws f b h = cc

pub or_throw-got {ℓ} : {A : Type ℓ} (o : Option A) (a : A) → or_throw o ≡ got a → o ≡ some a
or_throw-got none a h = cc
or_throw-got (some b) a h = cc

prev_value-map : (us : List Utxo) → prev_value (map prev_out us) ≡ utxos_value us
prev_value-map [] = refl
prev_value-map (u ∷ us) = omega (arith, prev_value-map us)

total_supply-commit_effect :
    (e : Effect) (s t : WorldState) → commit_effect e s ≡ some t → total_supply t ≡ total_supply s
unfolding commit_effect total_supply bump_nonce put_contract set_storage
total_supply-commit_effect no_effect s t h = ground arith
total_supply-commit_effect (deploys account) s t h = ground arith
total_supply-commit_effect (writes target storage) s t h = ground arith

module _ (o : Oracle) (tx : Transaction) where
  check_common-sum :
      (total : ℕ) → check_common o tx ≡ valid total → total ≡ outputs_value tx.outputs
  unfolding check_common
  check_common-sum total h = ground (arith, check_outputs-sum o tx.outputs 0 total)

  pub check_tx-spend :
      (prevs : List PrevOut) (fee : ℕ)
      → is_coinbase tx.kind ≡ false
      → check_tx o tx prevs ≡ valid fee
      → check_spend o tx prevs (outputs_value tx.outputs) ≡ valid fee
  unfolding check_tx
  check_tx-spend prevs fee k h =
      let (total, common, spend) = >>=-valid (check_common o tx) _ fee (rw k at h) in
      rw (check_common-sum total common) at spend

  -- A valid transaction that is no coinbase pays what its inputs hold beyond its outputs.
  pub check_tx-fee :
      (prevs : List PrevOut) (fee : ℕ)
      → is_coinbase tx.kind ≡ false
      → check_tx o tx prevs ≡ valid fee
      → (outputs_value tx.outputs + fee ≡ prev_value prevs)
        × (check_distinct tx.inputs [] ≡ valid tt)
  check_tx-fee prevs fee k h =
      let v =
        check_spend-IsSpend o tx prevs (outputs_value tx.outputs) fee
          (check_tx-spend prevs fee k h) in
      (
        omega (arith, check_inputs-sum o tx 0 tx.inputs prevs 0 _ v.same_length v.inputs_valid),
        v.distinct,
      )

  pub examine-resolve :
      (ctx : TxContext) (s : WorldState) (fee : ℕ) (outcome : Outcome)
      → examine o tx ctx s ≡ got (fee, outcome)
      → (us : List Utxo) × (resolve ctx.height s tx.inputs ≡ got us)
        × (check_tx o tx (map prev_out us) ≡ valid fee)
  unfolding examine
  examine-resolve ctx s fee outcome h =
      let (us, e, rest) = >>=-got (resolve ctx.height s tx.inputs) _ (fee, outcome) h in
      (us, e, ground arith)

  move_coins-sum :
      (us : List Utxo) (height : ℕ) (coinbase : Bool) (s t : WorldState)
      → check_distinct tx.inputs [] ≡ valid tt
      → Found s tx.inputs us
      → move_coins o tx height coinbase s ≡ some t
      → total_supply t + utxos_value us ≡ total_supply s + outputs_value tx.outputs
  unfolding move_coins
  move_coins-sum us height coinbase s t d f h = elim (Option-cases (spend_inputs tx.inputs s)) [
    | inl gone ↦ absurd (ground arith)
    | inr (m, e) ↦ omega (
      arith,
      total_supply-spend_inputs tx.inputs us s m [] d f e,
      total_supply-add_outputs (o.txid tx) height coinbase 0 tx.outputs m t (ground arith),
    )
  ]

pub utxos-commit_effect :
    (e : Effect) (s t : WorldState) → commit_effect e s ≡ some t → t.utxos ≡ s.utxos
unfolding commit_effect bump_nonce put_contract set_storage
utxos-commit_effect no_effect s t h = ground arith
utxos-commit_effect (deploys account) s t h = ground arith
utxos-commit_effect (writes target storage) s t h = ground arith

pub Found-same :
    (s t : WorldState) (inputs : List TxInput) (us : List Utxo)
    → t.utxos ≡ s.utxos
    → Found s inputs us
    → Found t inputs us
unfolding get_utxo
Found-same s t [] [] e f = tt
Found-same s t [] (u ∷ us) e f = f
Found-same s t (input ∷ inputs) [] e f = f
Found-same s t (input ∷ inputs) (u ∷ us) e f = (rw e f.0, Found-same s t inputs us e f.1)

module _ (o : Oracle) (tx : Transaction) (ctx : TxContext) (s : WorldState) where
  -- What a spend that is applied went through.
  pub record IsApplied (r : Receipt) (t : WorldState) : Type 0 where
    pub outcome : Outcome
    pub us : List Utxo
    pub written : WorldState
    pub examined : examine o tx ctx s ≡ got (r.fee, outcome)
    pub gas : r.gas_used ≡ outcome.gas_used
    pub resolved : resolve ctx.height s tx.inputs ≡ got us
    pub checked_tx : check_tx o tx (map prev_out us) ≡ valid r.fee
    pub committed : commit_effect outcome.effect s ≡ some written
    pub moved : move_coins o tx ctx.height false written ≡ some t

  pub apply_spend-IsApplied :
      (r : Receipt) (t : WorldState) → apply_spend o tx ctx s ≡ got (r, t) → IsApplied r t
  unfolding apply_spend
  apply_spend-IsApplied r t h =
      let (examined, e, rest) = >>=-got (examine o tx ctx s) _ (r, t) h in
      let (written, ew, moves) =
        >>=-got (or_throw (commit_effect examined.1.effect s)) _ (r, t) rest in
      let (moved, em, last) =
        >>=-got (or_throw (move_coins o tx ctx.height false written)) _ (r, t) moves in
      let same : (examined.0 ≡ r.fee) × (examined.1.gas_used ≡ r.gas_used) × (moved ≡ t) =
        ground arith in
      let again : examine o tx ctx s ≡ got (r.fee, examined.1) = rw (← same.0) e in
      let (us, er, ec) = examine-resolve o tx ctx s r.fee examined.1 again in
      record {
        outcome = examined.1;
        us = us;
        written = written;
        examined = again;
        gas = sym same.1;
        resolved = er;
        checked_tx = ec;
        committed = or_throw-got _ written ew;
        moved = rw (← same.2) (or_throw-got _ moved em);
      }

  -- A transaction that is no coinbase makes and destroys nothing: what the unspent outputs lose is
  -- its fee.
  pub apply_tx-conserves :
      (r : Receipt) (t : WorldState)
      → is_coinbase tx.kind ≡ false
      → apply_tx o tx ctx s ≡ got (r, t)
      → total_supply t + r.fee ≡ total_supply s
  unfolding apply_tx
  apply_tx-conserves r t k h =
      let a = apply_spend-IsApplied r t (rw k at h) in
      let (sum, distinct) = check_tx-fee o tx (map prev_out a.us) r.fee k a.checked_tx in
      let found = resolve-Found ctx.height s tx.inputs a.us a.resolved in
      omega (
        arith,
        prev_value-map a.us,
        sum,
        move_coins-sum o tx a.us ctx.height false a.written t distinct
            (Found-same s a.written tx.inputs a.us
              (utxos-commit_effect a.outcome.effect s a.written a.committed) found)
            a.moved,
        total_supply-commit_effect a.outcome.effect s a.written a.committed,
      )

  -- A coinbase adds its outputs, which are at most the subsidy of its height and the fees.
  pub apply_tx-coinbase :
      (r : Receipt) (t : WorldState)
      → is_coinbase tx.kind ≡ true
      → apply_tx o tx ctx s ≡ got (r, t)
      → (total_supply t ≡ total_supply s + outputs_value tx.outputs)
        × (outputs_value tx.outputs ≤ block_subsidy ctx.height + ctx.available_fees)
  unfolding apply_tx apply_coinbase
  apply_tx-coinbase r t k h =
      let h' = rw k at h in
      ground (arith, total_supply-add_outputs (o.txid tx) ctx.height true 0 tx.outputs s t)
