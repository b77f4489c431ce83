-- ===== src/Chain/Apply/Effects.antt =====
-- What a transaction of chain/src/chain.ts does to the contracts and the nonces.
use Prim.Native.String.{String}
use deckxcoin.Prelude.{
  refl, ℕ, ◌+◌, ◌≡◌, ◌∙◌, Bool, true, false, ◌||◌, none, some, List, [], ◌∷◌, arith, Bool-cases,
  Option-cases, inl, inr, subst, map, ltb, ◌&&◌,
}
use deckxcoin.Prelude.Eq.{string_eq}
use deckxcoin.Prelude.JsMap
use deckxcoin.Tx.{TxInput, TxOutput, ContractPayload, Transaction, is_coinbase}
use deckxcoin.Tx.Oracle.{Oracle}
use deckxcoin.Tx.Check.{check_tx, is_call, is_deploy}
use deckxcoin.Vm.{Storage, VmResult}
use deckxcoin.State.{
  Utxo, ContractAccount, WorldState, get_contract, put_contract, set_storage, nonce_of, bump_nonce,
  add_utxo, spend_utxo,
}
use deckxcoin.Chain.Apply.{
  examine, resolve, relative_locks, add_outputs, spend_inputs, move_coins, apply_coinbase,
  apply_spend, apply_tx, prev_out,
}
use deckxcoin.Chain.Contract.{spender_of}
use deckxcoin.Chain.Contract.{
  Outcome, Effect, no_effect, deploys, writes, effect_of, run_contract, commit_effect, deployed,
}
use deckxcoin.Chain.Attempt.{got, fail_if, checked, absolute_lock, TxContext, Receipt}
use deckxcoin.Chain.Apply.Coins.{spend_inputs-cons, add_outputs-cons}
use deckxcoin.Chain.Apply.Runs.{
  Ran, program_of, run_contract-Runs, load_program-call, load_program-deploy,
}
use deckxcoin.Chain.Apply.Conserves.{>>=-got, apply_spend-IsApplied, IsApplied}
use deckxcoin.Chain.Apply.Outpoints.{coinbase-parts}

module _ (o : Oracle) (tx : Transaction) (ctx : TxContext) (s : WorldState) where
  -- The account that a deploy makes: the code of the payload, with the storage that its run left, under an
  -- address that had none.
  pub record Deploys (account : ContractAccount) : Type 0 where
    pub deploy : is_deploy tx.kind ≡ true
    pub us : List Utxo
    pub resolved : resolve ctx.height s tx.inputs ≡ got us
    pub deployer : account.deployer ≡ spender_of o us
    pub payload : ContractPayload
    pub given : tx.contract ≡ some payload
    pub address : account.address ≡ o.contract_address account.deployer payload.nonce
    pub absent : get_contract account.address s ≡ none
    pub nonce : nonce_of account.deployer s ≡ payload.nonce
    pub code : payload.code ≡ some account.code
    pub vm : VmResult
    pub ran :
        Ran o tx ctx s us payload
          (record { target = account.address; code = account.code; storage = [] })
          vm
    pub storage : account.storage ≡ vm.storage
    pub deployed_at : account.deployed_at ≡ ctx.height

  -- The storage that a call writes: what the run of its target left.
  pub record Calls (target : String) (account : ContractAccount) (storage : Storage) : Type 0 where
    pub call : is_call tx.kind ≡ true
    pub us : List Utxo
    pub resolved : resolve ctx.height s tx.inputs ≡ got us
    pub payload : ContractPayload
    pub given : tx.contract ≡ some payload
    pub named : payload.target ≡ some target
    pub stored : get_contract target s ≡ some account
    pub vm : VmResult
    pub ran : Ran o tx ctx s us payload (program_of o tx ctx s target account) vm
    pub left : storage ≡ vm.storage

-- The three things that happen to contracts.
pub data Effects (o : Oracle) (tx : Transaction) (ctx : TxContext) (s : WorldState) (r : Receipt)
    (t : WorldState) : Type 0 where
  untouched :
      (is_deploy tx.kind || is_call tx.kind) ≡ false
      → t.contracts ≡ s.contracts
      → t.nonces ≡ s.nonces
      → r.contract_address ≡ none
      → Effects o tx ctx s r t
  deployment :
      (account : ContractAccount)
      → Deploys o tx ctx s account
      → t.contracts ≡ JsMap.put account.address account s.contracts
      → t.nonces ≡ JsMap.put account.deployer (nonce_of account.deployer s + 1) s.nonces
      → r.contract_address ≡ some account.address
      → Effects o tx ctx s r t
  storage_write :
      (target : String) (account : ContractAccount) (storage : Storage)
      → Calls o tx ctx s target account storage
      → t.contracts ≡ JsMap.put target (record account { storage = storage }) s.contracts
      → t.nonces ≡ s.nonces
      → r.contract_address ≡ none
      → Effects o tx ctx s r t

module _ (s t : WorldState) where
  abbrev pub SameRest : Type 0
  SameRest = (t.contracts ≡ s.contracts) × (t.nonces ≡ s.nonces)

spend_inputs-rest :
    (inputs : List TxInput) (s t : WorldState) → spend_inputs inputs s ≡ some t → SameRest s t
spend_inputs-rest [] s t h = unfold spend_inputs in ground arith
spend_inputs-rest (input ∷ rest) s t h =
    let (n, first, later) = spend_inputs-cons input rest s t h in
    let (c, k) = spend_inputs-rest rest n t later in
    let one : SameRest s n = unfold spend_utxo in ground arith in (c ∙ one.0, k ∙ one.1)

add_outputs-rest :
    (id : String) (height : ℕ) (coinbase : Bool) (vout : ℕ) (outs : List TxOutput)
    (s t : WorldState)
    → add_outputs id height coinbase vout outs s ≡ some t
    → SameRest s t
add_outputs-rest id height coinbase vout [] s t h = unfold add_outputs in ground arith
add_outputs-rest id height coinbase vout (out ∷ outs) s t h =
    let (n, first, later) = add_outputs-cons id height coinbase vout out outs s t h in
    let (c, k) = add_outputs-rest id height coinbase (vout + 1) outs n t later in
    let one : SameRest s n = unfold add_utxo in ground arith in (c ∙ one.0, k ∙ one.1)

module _ (o : Oracle) (tx : Transaction) where
  move_coins-rest :
      (height : ℕ) (coinbase : Bool) (s t : WorldState)
      → move_coins o tx height coinbase s ≡ some t
      → SameRest s t
  unfolding move_coins
  move_coins-rest height coinbase s t h = elim (Option-cases (spend_inputs tx.inputs s)) [
    | inl gone ↦ absurd (ground arith)
    | inr (n, e) ↦
        let (c, k) = spend_inputs-rest tx.inputs s n e in
        let (d, l) = add_outputs-rest (o.txid tx) height coinbase 0 tx.outputs n t (ground arith) in
        (d ∙ c, l ∙ k)
  ]

  -- What the contract part knows of what it decides.
  data Decides (ctx : TxContext) (s : WorldState) : Effect → Type 0 where
    nothing : (is_deploy tx.kind || is_call tx.kind) ≡ false → Decides ctx s no_effect
    deploying :
        (account : ContractAccount) → Deploys o tx ctx s account → Decides ctx s (deploys account)
    calling :
        (target : String) (account : ContractAccount) (storage : Storage)
        → Calls o tx ctx s target account storage
        → Decides ctx s (writes target storage)

  module _ (ctx : TxContext) (s : WorldState) where
    run_contract-Decides :
        (us : List Utxo) (fee : ℕ) (outcome : Outcome)
        → resolve ctx.height s tx.inputs ≡ got us
        → (is_deploy tx.kind || is_call tx.kind) ≡ true
        → run_contract o tx ctx us fee s ≡ got outcome
        → Decides ctx s outcome.effect
    unfolding effect_of
    run_contract-Decides us fee outcome found kind h =
        let a = run_contract-Runs o tx ctx s us fee outcome h in
        let e = a.effect in
        elim (Bool-cases (is_deploy tx.kind)) [
          | inl deploy ↦
              let (address, absent, code, empty, nonce) =
                load_program-deploy o tx ctx s a.payload (spender_of o us) a.program deploy
                  a.loaded in
              let account : ContractAccount = record {
                address = a.program.target;
                code = a.program.code;
                storage = a.vm.storage;
                deployed_at = ctx.height;
                deployer = spender_of o us;
              } in
              subst (Decides ctx s) (rw (effect_of, deploy) at e) (
                deploying account (record {
                  deploy = deploy;
                  us = us;
                  resolved = found;
                  deployer = refl;
                  payload = a.payload;
                  given = a.given;
                  address = address;
                  absent = absent;
                  nonce = nonce;
                  code = code;
                  vm = a.vm;
                  ran =
                      subst
                        (λ st.
                          Ran o tx ctx s us a.payload
                            (record {
                              target = a.program.target;
                              code = a.program.code;
                              storage = st;
                            })
                            a.vm)
                        empty a.ran;
                  storage = refl;
                  deployed_at = refl;
                }))
          | inr other ↦
              let (named, account, stored, same) =
                load_program-call o tx ctx s a.payload (spender_of o us) a.program other a.loaded in
              subst (Decides ctx s) (rw (effect_of, other) at e) (
                calling a.program.target account a.vm.storage (record {
                  call = ground arith;
                  us = us;
                  resolved = found;
                  payload = a.payload;
                  given = a.given;
                  named = named;
                  stored = stored;
                  vm = a.vm;
                  ran = subst (λ p. Ran o tx ctx s us a.payload p a.vm) same a.ran;
                  left = refl;
                }))
        ]

    examine-Decides :
        (fee : ℕ) (outcome : Outcome)
        → examine o tx ctx s ≡ got (fee, outcome)
        → Decides ctx s outcome.effect
    unfolding examine
    examine-Decides fee outcome h =
        let (us, e1, h1) = >>=-got (resolve ctx.height s tx.inputs) _ (fee, outcome) h in
        let (paid, e2, h2) =
          >>=-got (checked (check_tx o tx (map prev_out us))) _ (fee, outcome) h1 in
        let (u, e3, h3) = >>=-got (relative_locks ctx.height tx.inputs us) _ (fee, outcome) h2 in
        let (v, e4, h4) =
          >>=-got (fail_if (ltb 0 tx.lock_time && ltb ctx.height tx.lock_time) absolute_lock) _
            (fee, outcome) h3 in
        elim (Bool-cases (is_deploy tx.kind || is_call tx.kind)) [
          | inl contract ↦
              let (ran, e5, h5) =
                >>=-got (run_contract o tx ctx us paid s) _ (fee, outcome) (rw contract at h4) in
              let same : ran ≡ outcome = ground arith in
              subst (λ (x : Outcome). Decides ctx s x.effect) same
                (run_contract-Decides us paid ran e1 contract e5)
          | inr plain ↦
              let h5 = rw plain at h4 in
              let same : no_effect ≡ outcome.effect = ground arith in
              subst (Decides ctx s) same (nothing plain)
        ]

    commit-Effects :
        {e : Effect} (w t : WorldState) (r : Receipt)
        → Decides ctx s e
        → commit_effect e s ≡ some w
        → t.contracts ≡ w.contracts
        → t.nonces ≡ w.nonces
        → r.contract_address ≡ deployed e
        → Effects o tx ctx s r t
    unfolding commit_effect deployed put_contract bump_nonce set_storage get_contract
    commit-Effects w t r (nothing plain) h c n a = untouched plain (ground arith) (ground arith) a
    commit-Effects w t r (deploying account d) h c n a =
        deployment account d (ground arith) (ground arith) a
    commit-Effects w t r (calling target account storage d) h c n a =
        let there = d.stored in
        storage_write target account storage d (ground arith) (ground arith) a

module _ (o : Oracle) (tx : Transaction) (ctx : TxContext) (s : WorldState) (r : Receipt)
    (t : WorldState) where
  apply_spend-address :
      (a : IsApplied o tx ctx s r t)
      → apply_spend o tx ctx s ≡ got (r, t)
      → r.contract_address ≡ deployed a.outcome.effect
  unfolding apply_spend
  apply_spend-address a h =
      let e1 = a.examined in let e2 = a.committed in let e3 = a.moved in ground arith

  pub coinbase-rest : is_coinbase tx.kind ≡ true → apply_tx o tx ctx s ≡ got (r, t) → SameRest s t
  unfolding apply_tx
  coinbase-rest k h =
      let (fee, checks, pays) = coinbase-parts o tx ctx s r t k (rw k at h) in
      add_outputs-rest (o.txid tx) ctx.height true 0 tx.outputs s t pays

  -- A transaction that is applied and neither deploys nor calls leaves the contracts and nonces as they
  -- are. A deploy adds the contract that it reports: under the address of its spender and nonce, which
  -- was free, with the code of the payload, the storage that the run of that code left, and this height;
  -- and the spender's nonce, which was the payload's, is counted up. A call writes the storage that the
  -- run of the contract that it names left.
  pub apply_tx-Effects : apply_tx o tx ctx s ≡ got (r, t) → Effects o tx ctx s r t
  unfolding apply_tx
  apply_tx-Effects h = elim (Bool-cases (is_coinbase tx.kind)) [
    | inl coinbase ↦
        let h' = rw coinbase at h in
        let (fee, checks, pays) = coinbase-parts o tx ctx s r t coinbase h' in
        let (c, n) = add_outputs-rest (o.txid tx) ctx.height true 0 tx.outputs s t pays in
        untouched (ground arith) c n (unfold apply_coinbase in ground arith)
    | inr other ↦
        let h' = rw other at h in
        let a = apply_spend-IsApplied o tx ctx s r t h' in
        let (c, n) = move_coins-rest o tx ctx.height false a.written t a.moved in
        commit-Effects o tx ctx s a.written t r
          (examine-Decides o tx ctx s r.fee a.outcome a.examined) a.committed c n
          (apply_spend-address a h')
  ]
