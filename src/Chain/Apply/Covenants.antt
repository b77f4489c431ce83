-- ===== src/Chain/Apply/Covenants.antt =====
-- The covenant of a contract-locked output in chain/src/chain.ts: what the contract's run has to say
-- before the output is spent.
use Prim.Native.String.{String}
use deckxcoin.Prelude.{
  ℕ, ◌+◌, ◌≡◌, subst, ap, Bool, true, false, Option, none, some, List, [], ◌∷◌, arith, any, All,
  map, ◌==◌, length, Bool-cases, inl, inr,
}
use deckxcoin.Prelude.Eq.{===→eq, string_eq}
use deckxcoin.Vm.{VmResult}
use deckxcoin.Tx.{TxInput, Transaction, ContractPayload, PrevOut, is_coinbase}
use deckxcoin.Tx.Oracle.{Oracle}
use deckxcoin.Tx.Check.{
  valid, check_inputs, check_input, check_covenant, is_call, is_deploy, target_of, equals_target,
}
use deckxcoin.Tx.Check.Amounts.{amount, outputs_value, >>=-valid, check_spend-IsSpend}
use deckxcoin.State.{Utxo, WorldState, ContractAccount, get_contract}
use deckxcoin.Chain.Apply.{resolve, prev_out, examine, apply_tx}
use deckxcoin.Chain.Contract.{spender_of}
use deckxcoin.Chain.Contract.{Outcome, authorise, settle, run_contract, word_at}
use deckxcoin.Chain.Attempt.{got, TxContext, Receipt}
use deckxcoin.Chain.Apply.Runs.{Ran, program_of, run_contract-Runs, load_program-call}
use deckxcoin.Chain.Apply.Conserves.{check_tx-spend, apply_spend-IsApplied}

abbrev pub locked : Oracle → List Utxo → Bool
locked o us = any (λ (u : Utxo). o.is_contract_address u.address) us

-- The outputs of `us` that a contract locks are all locked by `target`.
abbrev pub OwnedBy : Oracle → Option String → List Utxo → Type 0
OwnedBy o target us =
    All (λ (u : Utxo). o.is_contract_address u.address ≡ true → target ≡ some u.address) us

equals_target-some :
    (target : Option String) (address : String)
    → equals_target target address ≡ true
    → target ≡ some address
equals_target-some none address h = cc
equals_target-some (some target) address h = ap some (===→eq target address h)

module _ (o : Oracle) (tx : Transaction) where
  check_covenant-target :
      (prev : PrevOut)
      → check_covenant tx prev ≡ valid tt
      → (is_call tx.kind ≡ true) × (target_of tx.contract ≡ some prev.address)
  unfolding check_covenant
  check_covenant-target prev h =
      ground (arith, equals_target-some (target_of tx.contract) prev.address)

  check_input-locked :
      (i : ℕ) (input : TxInput) (prev : PrevOut)
      → check_input o tx i input prev ≡ valid tt
      → o.is_contract_address prev.address ≡ true
      → (is_call tx.kind ≡ true) × (target_of tx.contract ≡ some prev.address)
  unfolding check_input
  check_input-locked i input prev h k = check_covenant-target prev (ground arith)

  check_inputs-OwnedBy :
      (i : ℕ) (inputs : List TxInput) (us : List Utxo) (sum total : ℕ)
      → length (map prev_out us) ≡ length inputs
      → check_inputs o tx i inputs (map prev_out us) sum ≡ valid total
      → OwnedBy o (target_of tx.contract) us × (locked o us ≡ true → is_call tx.kind ≡ true)
  unfolding check_inputs
  check_inputs-OwnedBy i [] [] sum total l h = (tt, λ k. cc)
  check_inputs-OwnedBy i [] (u ∷ us) sum total l h = absurd (omega arith)
  check_inputs-OwnedBy i (input ∷ inputs) [] sum total l h = absurd (omega arith)
  check_inputs-OwnedBy i (input ∷ inputs) (u ∷ us) sum total l h =
      let (one, first, rest) = >>=-valid (check_input o tx i input (prev_out u)) _ total h in
      let later = check_inputs-OwnedBy (i + 1) inputs us (sum + u.value) total (omega arith) rest in
      (
        ((λ k. (check_input-locked i input (prev_out u) first k).1), later.0),
        λ k. elim (Bool-cases (o.is_contract_address u.address)) [
          | inl mine ↦ (check_input-locked i input (prev_out u) first mine).0
          | inr other ↦ later.1 (ground arith)
        ],
      )

  module _ (ctx : TxContext) (s : WorldState) where
    examine-contract :
        (us : List Utxo) (fee : ℕ) (outcome : Outcome)
        → examine o tx ctx s ≡ got (fee, outcome)
        → resolve ctx.height s tx.inputs ≡ got us
        → is_call tx.kind ≡ true
        → run_contract o tx ctx us fee s ≡ got outcome
    unfolding examine
    examine-contract us fee outcome h r c = ground arith

    -- The run of the contract that a call names, on the storage that it has, and what its two first words
    -- say.
    pub record Approved (us : List Utxo) : Type 0 where
      pub payload : ContractPayload
      pub given : tx.contract ≡ some payload
      pub target : String
      pub named : payload.target ≡ some target
      pub account : ContractAccount
      pub stored : get_contract target s ≡ some account
      pub vm : VmResult
      pub ran : Ran o tx ctx s us payload (program_of o tx ctx s target account) vm
      pub approves : locked o us ≡ true → (word_at vm.return_value 0 == 0) ≡ false
      pub recipient :
          locked o us ≡ true
          → (word_at vm.return_value 1 == 0) ≡ false
          → any (λ out. o.address_word out.address == word_at vm.return_value 1) tx.outputs ≡ true

    settle-authorises :
        (us : List Utxo) (fee price : ℕ) (vm : VmResult)
        → settle o tx us fee price vm ≡ got tt
        → (locked o us ≡ true → (word_at vm.return_value 0 == 0) ≡ false)
          × (locked o us ≡ true
              → (word_at vm.return_value 1 == 0) ≡ false
              → any (λ out. o.address_word out.address == word_at vm.return_value 1) tx.outputs
                ≡ true)
    unfolding settle authorise
    settle-authorises us fee price vm h = ((λ k. ground arith), (λ k z. ground arith))

    run_contract-Approved :
        (us : List Utxo) (fee : ℕ) (outcome : Outcome)
        → is_deploy tx.kind ≡ false
        → run_contract o tx ctx us fee s ≡ got outcome
        → Approved us
    run_contract-Approved us fee outcome d h =
        let a = run_contract-Runs o tx ctx s us fee outcome h in
        let (named, account, stored, same) =
          load_program-call o tx ctx s a.payload (spender_of o us) a.program d a.loaded in
        let (approves, recipient) =
          settle-authorises us fee (amount a.payload.gas_price) a.vm a.settled in
        record {
          payload = a.payload;
          given = a.given;
          target = a.program.target;
          named = named;
          account = account;
          stored = stored;
          vm = a.vm;
          ran = subst (λ p. Ran o tx ctx s us a.payload p a.vm) same a.ran;
          approves = approves;
          recipient = recipient;
        }

    -- A transaction that spends an output that a contract locks is a call of that contract, which owns
    -- each such output that is spent. The code stored for that contract ran on its storage, with the words
    -- of the payload, to the end; the first word that it returned is not zero, and where the second is
    -- not zero some output pays the address of that word.
    pub apply_tx-Approved :
        (r : Receipt) (t : WorldState) (us : List Utxo)
        → is_coinbase tx.kind ≡ false
        → apply_tx o tx ctx s ≡ got (r, t)
        → resolve ctx.height s tx.inputs ≡ got us
        → locked o us ≡ true
        → OwnedBy o (target_of tx.contract) us × Approved us
    unfolding apply_tx
    apply_tx-Approved r t us k h found l =
        let a = apply_spend-IsApplied o tx ctx s r t (rw k at h) in
        let same : a.us ≡ us = let e = a.resolved in cc in
        let v =
          check_spend-IsSpend o tx (map prev_out us) (outputs_value tx.outputs) r.fee
            (check_tx-spend o tx (map prev_out us) r.fee k (rw same at a.checked_tx)) in
        let (owned, calls) = check_inputs-OwnedBy 0 tx.inputs us 0 _ v.same_length v.inputs_valid in
        let call = calls l in
        (
          owned,
          run_contract-Approved us r.fee a.outcome (ground arith)
              (examine-contract us r.fee a.outcome a.examined found call),
        )
