-- ===== src/Chain/Apply/Runs.antt =====
-- The run of a contract in `applyTx` of chain/src/chain.ts: which code ran, on what, and what came of it.
use Prim.Native.String.{String}
use deckxcoin.Prelude.{
  ℕ, ◌≡◌, refl, true, false, none, some, List, [], arith, Option-cases, inl, inr,
}
use deckxcoin.Prelude.Int.{ℤ}
use deckxcoin.Vm.{VmResult, VmContext}
use deckxcoin.Vm.Run.{execute}
use deckxcoin.Tx.{ContractPayload, Transaction}
use deckxcoin.Tx.Oracle.{Oracle, Bytes}
use deckxcoin.Tx.Check.{is_deploy}
use deckxcoin.Tx.Check.Amounts.{amount}
use deckxcoin.State.{Utxo, WorldState, ContractAccount, get_contract, nonce_of, balance_of}
use deckxcoin.Chain.Contract.{
  spender_of, value_to, Outcome, Program, settle, load_program, effect_of, run_contract,
  calldata_of,
}
use deckxcoin.Chain.Attempt.{got, or_throw, or_fail, no_contract, TxContext}
use deckxcoin.Chain.Apply.Conserves.{>>=-got, or_throw-got}

module _ (o : Oracle) (tx : Transaction) (ctx : TxContext) (s : WorldState) where
  abbrev pub call_context : List Utxo → ContractPayload → String → List ℤ → VmContext
  call_context us payload target calldata = record {
    address = target;
    caller = spender_of o us;
    call_value = value_to target tx.outputs;
    calldata = calldata;
    block_number = ctx.height;
    block_time = ctx.time;
    gas_limit = payload.gas_limit;
    balance_of = λ a. balance_of a s;
  }

  -- The bytes of the program ran on its storage and the words of the payload, to the end.
  pub record Ran (us : List Utxo) (payload : ContractPayload) (program : Program) (vm : VmResult)
      : Type 0 where
    pub code : Bytes
    pub read : o.from_hex program.code ≡ some code
    pub calldata : List ℤ
    pub words : calldata_of payload.calldata ≡ some calldata
    pub ran :
        execute o.sha256_word o.address_word code
          (call_context us payload program.target calldata)
          program.storage
        ≡ some vm
    pub ok : vm.ok ≡ true

  -- What the contract part went through.
  pub record Runs (us : List Utxo) (fee : ℕ) (outcome : Outcome) : Type 0 where
    pub payload : ContractPayload
    pub given : tx.contract ≡ some payload
    pub program : Program
    pub loaded : load_program o tx payload (spender_of o us) s ≡ got program
    pub vm : VmResult
    pub ran : Ran us payload program vm
    pub settled : settle o tx us fee (amount payload.gas_price) vm ≡ got tt
    pub effect : effect_of tx (spender_of o us) ctx.height program vm ≡ outcome.effect

  settle-ok :
      (us : List Utxo) (fee price : ℕ) (vm : VmResult)
      → settle o tx us fee price vm ≡ got tt
      → vm.ok ≡ true
  unfolding settle
  settle-ok us fee price vm h = ground arith

  pub run_contract-Runs :
      (us : List Utxo) (fee : ℕ) (outcome : Outcome)
      → run_contract o tx ctx us fee s ≡ got outcome
      → Runs us fee outcome
  unfolding run_contract
  run_contract-Runs us fee outcome h =
      let (payload, given, h1) = >>=-got (or_throw tx.contract) _ outcome h in
      let (program, loaded, h2) =
        >>=-got (load_program o tx payload (spender_of o us) s) _ outcome h1 in
      let (code, read, h3) = >>=-got (or_throw (o.from_hex program.code)) _ outcome h2 in
      let (calldata, words, h4) = >>=-got (or_throw (calldata_of payload.calldata)) _ outcome h3 in
      let (vm, ran, h5) =
        >>=-got
          (or_throw (
            execute o.sha256_word o.address_word code
              (call_context us payload program.target calldata) program.storage))
          _ outcome h4 in
      let (done, settled, h6) =
        >>=-got (settle o tx us fee (amount payload.gas_price) vm) _ outcome h5 in
      record {
        payload = payload;
        given = or_throw-got _ payload given;
        program = program;
        loaded = loaded;
        vm = vm;
        ran = record {
          code = code;
          read = or_throw-got _ code read;
          calldata = calldata;
          words = or_throw-got _ calldata words;
          ran = or_throw-got _ vm ran;
          ok = settle-ok us fee (amount payload.gas_price) vm settled;
        };
        settled = settled;
        effect = ground arith;
      }

  -- The program of an account.
  abbrev pub program_of : String → ContractAccount → Program
  program_of target account = record {
    target = target;
    code = account.code;
    storage = account.storage;
  }

  pub load_program-call :
      (payload : ContractPayload) (spender : String) (program : Program)
      → is_deploy tx.kind ≡ false
      → load_program o tx payload spender s ≡ got program
      → (payload.target ≡ some program.target)
        × (account : ContractAccount) × (get_contract program.target s ≡ some account)
        × (program ≡ program_of program.target account)
  unfolding load_program
  load_program-call payload spender program d h =
      let (target, et, h1) = >>=-got (or_throw payload.target) _ program (rw d at h) in
      let (account, ea, h2) = >>=-got (or_fail (get_contract target s) no_contract) _ program h1 in
      let made : program_of target account ≡ program = ground arith in
      (
        rw (← made) (or_throw-got _ target et),
        account,
        rw (← made) (ground arith),
        rw (← made) refl,
      )

  pub load_program-deploy :
      (payload : ContractPayload) (spender : String) (program : Program)
      → is_deploy tx.kind ≡ true
      → load_program o tx payload spender s ≡ got program
      → (program.target ≡ o.contract_address spender payload.nonce)
        × (get_contract program.target s ≡ none)
        × (payload.code ≡ some program.code)
        × (program.storage ≡ [])
        × (nonce_of spender s ≡ payload.nonce)
  unfolding load_program
  load_program-deploy payload spender program k h =
      let h' = rw k at h in
      elim (Option-cases payload.code) [
        | inl e ↦ absurd (ground arith)
        | inr (code, e) ↦ ground arith
      ]
