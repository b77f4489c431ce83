-- ===== src/Vm/Ensures/Progress.antt =====
-- Every round of the loop of `execute` (chain/src/vm.ts) costs gas, so that the loop ends within
-- the gas limit.
use deckxcoin.Prelude.{
  ℕ, zero, suc, ◌+◌, ◌≤◌, ◌<◌, ◌≡◌, refl, false, Option, none, some, arith, get_elem?, Option-cases,
  inl, inr, List, [], ltb, length, All, Bool-cases,
}
use deckxcoin.Vm.{VmResult, VmContext, Storage, code_size, invalid_opcode}
use Prim.Native.String.{String}
use deckxcoin.Vm.Exec.{
  Env, Machine, Exec, Step, going, ended, ◌>>=◌, ◌>>◌, charge, fault, fail, done, max_code_size,
}
use deckxcoin.Vm.Opcodes.{Opcode, decode, base_gas}
use deckxcoin.Vm.Step.{sstore_cost, sstore_op, handle, charge_base, exec_byte}
use deckxcoin.Vm.Run.{run, execute, execute_lem, env_of, start}
use deckxcoin.Vm.Ensures.{
  IsSound, IsFair, After, Ensures, Any, Ensures-bind, Ensures-bind_later, Ensures-charge,
  Ensures-fault, Ensures-gets, Ensures-charge_some, ensures_rules, IsWord, done-IsFair,
}
use deckxcoin.Vm.Ensures.Handlers.{
  handle-Ensures, next-Ensures, written-Ensures, stop-Ensures, return-Ensures, revert-Ensures,
}

sstore_cost-pos : (previous value : ℕ) → 1 ≤ sstore_cost previous value
sstore_cost-pos previous value = ground arith

abbrev pub Finishes : Env → ℕ → Machine → Type 0
Finishes env fuel s = (r : VmResult) × (run fuel env s ≡ some r) × IsFair env r

module _ {env : Env} where
  Ensures-charge_least :
      (amount : ℕ) → 1 ≤ amount → Ensures env 1 (Any {A = Unit {0}}) (charge amount)
  Ensures-charge_least amount h = record {
    at = λ s v. least s (charge amount env s) ((Ensures-charge amount).at s v);
  }
    where
      least : (s : Machine) (r : Step (Unit {0})) → After env amount Any s r → After env 1 Any s r
      least s (going a s') (q, v, c) = (q, v, omega arith)
      least s (ended r) f = f

  charged_first :
      {R : Unit {0} → Type 0} (amount : ℕ) (f : Unit {0} → Exec (Unit {0}))
      → 1 ≤ amount
      → ((a : Unit {0}) → Ensures env 0 R (f a))
      → Ensures env 1 R (charge amount >>= f)
  charged_first amount f h rest = Ensures-bind _ f (Ensures-charge_least amount h) (λ a _. rest a)

  sstore-costs : Ensures env 1 Any sstore_op
  unfolding sstore_op
  sstore-costs =
      search (charged_first, sstore_cost-pos, ensures_rules, next-Ensures, written-Ensures) depth 12

  op_costs : (op : Opcode) → 1 ≤ base_gas op → Ensures env 1 Any (charge (base_gas op) >> handle op)
  op_costs op h = charged_first (base_gas op) (λ _. handle op) h (λ _. handle-Ensures op)

  free_first :
      (m n : Exec (Unit {0}))
      → Ensures env 0 Any m
      → Ensures env 1 Any n
      → Ensures env 1 Any (m >> n)
  free_first m n hm hn = Ensures-bind_later m (λ _. n) hm (λ _ _. hn)

  sstore_op-costs : Ensures env 1 Any (handle Opcode.sstore)
  unfolding handle
  sstore_op-costs = sstore-costs

  return_op-costs : Ensures env 1 Any (handle Opcode.return_)
  unfolding handle
  return_op-costs = return-Ensures

  op-Ensures : (op : Opcode) → Ensures env 1 Any (charge_base op >> handle op)
  unfolding charge_base base_gas
  op-Ensures Opcode.stop = free_first _ _ (Ensures-charge_some 0) stop-Ensures
  op-Ensures Opcode.return_ = free_first _ _ (Ensures-charge_some 0) return_op-costs
  op-Ensures Opcode.revert = free_first _ _ (Ensures-charge_some 0) revert-Ensures
  op-Ensures Opcode.sstore = free_first _ _ (Ensures-gets _) sstore_op-costs
  op-Ensures op = op_costs op (omega arith)

  decoded-Ensures :
      (o : Option Opcode)
      → Ensures {A = Unit {0}} env 1 Any
          (elim o [ none ↦ fault invalid_opcode | some op ↦ charge_base op >> handle op ])
  decoded-Ensures none = Ensures-fault invalid_opcode
  decoded-Ensures (some op) = op-Ensures op

  -- A round costs at least one unit of gas.
  pub exec_byte-Ensures : (byte : ℕ) → Ensures env 1 Any (exec_byte byte)
  unfolding exec_byte
  exec_byte-Ensures byte = decoded-Ensures (decode byte)

  After-round :
      (fuel byte : ℕ) (s : Machine)
      → get_elem? env.code s.pc ≡ some byte
      → (r : Step (Unit {0})) → exec_byte byte env s ≡ r
      → After env 1 Any s r
      → ((t : Machine) → IsSound env t → s.gas_used + 1 ≤ t.gas_used → Finishes env fuel t)
      → Finishes env (suc fuel) s
  unfolding run
  After-round fuel byte s e (going a t) f (_, v, c) rest =
      let (r, same, fair) = rest t v c in (r, rw (e, run, f) same, fair)
  After-round fuel byte s e (ended r) f fair rest = (r, rw (e, run, f), fair)

  -- More fuel than gas is left is enough.
  pub run-ends :
      (fuel : ℕ) (s : Machine)
      → IsSound env s
      → env.ctx.gas_limit < s.gas_used + fuel
      → Finishes env fuel s
  run-ends zero s v h = absurd (omega arith)
  run-ends (suc fuel) s v h = elim (Option-cases (get_elem? env.code s.pc)) [
    | inl e ↦ (
      done s.gas_used s.refund [] s.logs s.storage,
      unfold run in rw (e, run),
      done-IsFair s [] s.logs s.storage v tt,
    )
    | inr (byte, e) ↦
        After-round fuel byte s e (exec_byte byte env s) refl ((exec_byte-Ensures byte).at s v)
          (λ t w c. run-ends fuel t w (omega arith))
  ]

module _ (sha256_word : ℕ → ℕ) (address_word : String → ℕ) (code : List ℕ) (ctx : VmContext)
    (storage_in : Storage) where
  abbrev env : Env
  env = env_of sha256_word address_word code ctx storage_in

  too_long-IsFair : IsFair env (fail code_size ctx.gas_limit storage_in)
  unfolding fail
  too_long-IsFair = record {
    within = omega arith;
    returned = tt;
    rollback = λ _. (refl, refl, refl);
  }

  -- Every call ends, with at most the gas of its limit used and words returned. Unless it is ok, its
  -- result has the storage that the call was given, no logs and no words.
  pub execute_total :
      (r : VmResult) × (execute sha256_word address_word code ctx storage_in ≡ some r)
      × (r.gas_used ≤ ctx.gas_limit)
      × All IsWord r.return_value
      × (r.ok ≡ false → (r.storage ≡ storage_in) × (r.logs ≡ []) × (r.return_value ≡ []))
  execute_total = elim (Bool-cases (ltb max_code_size (length code))) [
    | inl long ↦
        let f = too_long-IsFair in
        (
          fail code_size ctx.gas_limit storage_in,
          rw (execute_lem, long),
          f.within,
          f.returned,
          f.rollback,
        )
    | inr short ↦
        let (r, e, f) =
          run-ends {env = env} (suc ctx.gas_limit) (start storage_in)
            (record { within = omega arith; depth = omega arith; words = tt }) (omega arith) in
        (r, rw (execute_lem, short) e, f.within, f.returned, f.rollback)
  ]
