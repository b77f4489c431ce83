-- ===== src/Vm/Ensures/Handlers.antt =====
-- Every opcode of chain/src/vm.ts keeps the machine sound and costs gas, or ends the run fairly.
use deckxcoin.Prelude.{
  ℕ, ◌≡◌, refl, Option, none, some, List, [], ◌∷◌, ◌++◌, arith, length-set, All, All-set,
  All-get_elem?, get_elem?, Option-cases, inl, inr,
}
use deckxcoin.Vm.{VmLog, truncated_push, stack_underflow}
use deckxcoin.Vm.Exec.{Env, Machine, Exec, ◌>>=◌, fail, done, pop_words, modify, finish, fault}
use deckxcoin.Vm.Opcodes.{Opcode}
use deckxcoin.Vm.Step.{
  next, unary, binary, constant, push_immediate, deep_enough, dup_at, swap_words, swapped, swap_at,
  exp_op, written, sstore_op, jump_to, log_op, return_op, revert_result, handle,
}
use deckxcoin.Vm.Ensures.{
  IsWord, IsSound, Ensures, Any, Ensures-bind_later, Ensures-fault, Ensures-modify, Ensures-finish,
  done-IsFair, ensures_rules, Ensures-pop_words,
}

module _ {env : Env} where
  pub next-Ensures : (n : ℕ) → Ensures env 0 (Any {A = Unit {0}}) (next n)
  unfolding next
  next-Ensures n = Ensures-modify _ (λ s. refl) (λ s. refl)

  unary-Ensures : (f : ℕ → ℕ) → Ensures env 0 Any (unary f)
  unfolding unary
  unary-Ensures f = search (ensures_rules, next-Ensures)

  binary-Ensures : (f : ℕ → ℕ → ℕ) → Ensures env 0 Any (binary f)
  unfolding binary
  binary-Ensures f = search (ensures_rules, next-Ensures) depth 8

  constant-Ensures : (f : Env → Machine → ℕ) → Ensures env 0 Any (constant f)
  unfolding constant
  constant-Ensures f = search (ensures_rules, next-Ensures)

  -- A change of the program counter, the storage or the logs.
  pc-Ensures : (dest : ℕ) → Ensures env 0 Any (modify (λ s. record s { pc = dest }))
  pc-Ensures dest = Ensures-modify _ (λ s. refl) (λ s. refl)

  pub written-Ensures :
      (key previous value : ℕ) → Ensures env 0 Any (modify (written key previous value))
  written-Ensures key previous value = Ensures-modify _ (λ s. ground arith) (λ s. ground arith)

  jump_to-Ensures : (dest : ℕ) → Ensures env 0 Any (jump_to dest)
  unfolding jump_to
  jump_to-Ensures dest = search (ensures_rules, pc-Ensures)

  truncated-Ensures :
      Ensures env 0
        (Any {A = Unit {0}})
        (finish (λ env s. fail truncated_push s.gas_used env.storage_in))
  unfolding fail
  truncated-Ensures =
      Ensures-finish _
        λ s v. record { within = v.within; returned = tt; rollback = λ _. (refl, refl, refl) }

  push_immediate-Ensures : (width : ℕ) → Ensures env 0 Any (push_immediate width)
  unfolding push_immediate
  push_immediate-Ensures width = search (ensures_rules, next-Ensures, truncated-Ensures) depth 8

  deep_enough-Ensures :
      {A B : Type 0} {k : ℕ} {R : B → Type 0} (o : Option A) (f : A → Exec B)
      → ((a : A) → Ensures env k R (f a))
      → Ensures env k R (deep_enough o f)
  unfolding deep_enough
  deep_enough-Ensures none f h = Ensures-fault _
  deep_enough-Ensures (some a) f h = h a

  dup_at-Ensures : (depth : ℕ) → Ensures env 0 Any (dup_at depth)
  unfolding dup_at
  dup_at-Ensures depth = search (ensures_rules, next-Ensures, deep_enough-Ensures) depth 8

  swapped-IsSound :
      (depth top other : ℕ) (s : Machine)
      → IsSound env s
      → get_elem? s.stack 0 ≡ some top
      → get_elem? s.stack depth ≡ some other
      → IsSound env (record s { stack = swapped depth top other s.stack })
  swapped-IsSound depth top other s v e f = record {
    within = v.within;
    depth = rw (length-set, length-set) v.depth;
    words =
        All-set IsWord _ depth top
          (All-set IsWord s.stack 0 other v.words
            (All-get_elem? IsWord s.stack depth other v.words f))
          (All-get_elem? IsWord s.stack 0 top v.words e);
  }

  swap_words-Ensures : (depth : ℕ) → Ensures env 0 Any (swap_words depth)
  unfolding swap_words deep_enough modify
  swap_words-Ensures depth = record {
    at = λ s v. elim (Option-cases (get_elem? s.stack 0)) [
      | inl e ↦ rw e (underflow.at s v)
      | inr (top, e) ↦ elim (Option-cases (get_elem? s.stack depth)) [
        | inl f ↦ rw (e, f) (underflow.at s v)
        | inr (other, f) ↦ rw (e, f) (tt, swapped-IsSound depth top other s v e f, omega arith)
      ]
    ];
  }
    where
      underflow : Ensures env 0 (Any {A = Unit {0}}) (fault {A = Unit {0}} stack_underflow)
      underflow = Ensures-fault stack_underflow

  swap_at-Ensures : (depth : ℕ) → Ensures env 0 Any (swap_at depth)
  unfolding swap_at
  swap_at-Ensures depth = search (ensures_rules, next-Ensures, swap_words-Ensures)

  exp-Ensures : Ensures env 0 Any exp_op
  unfolding exp_op
  exp-Ensures = search (ensures_rules, next-Ensures) depth 10

  sstore-Ensures : Ensures env 0 Any sstore_op
  unfolding sstore_op
  sstore-Ensures = search (ensures_rules, next-Ensures, written-Ensures) depth 12

  popped_words-Ensures :
      {B : Type 0} {k : ℕ} {R : B → Type 0} (count : ℕ) (f : List ℕ → Exec B)
      → ((out : List ℕ) → All IsWord out → Ensures env k R (f out))
      → Ensures env k R (pop_words count [] >>= f)
  popped_words-Ensures count f h = Ensures-bind_later _ f (Ensures-pop_words count [] tt) h

  logged-Ensures :
      (log : VmLog) → Ensures env 0 Any (modify (λ s. record s { logs = s.logs ++ log ∷ [] }))
  logged-Ensures log = Ensures-modify _ (λ s. refl) (λ s. refl)

  log-Ensures : Ensures env 0 Any log_op
  unfolding log_op
  log-Ensures = search (ensures_rules, next-Ensures, popped_words-Ensures, logged-Ensures) depth 14

  returned-Ensures :
      {k : ℕ} (out : List ℕ)
      → All IsWord out
      → Ensures env k
          (Any {A = Unit {0}})
          (finish (λ env s. done s.gas_used s.refund out s.logs s.storage))
  returned-Ensures out h = Ensures-finish _ λ s v. done-IsFair s out s.logs s.storage v h

  pub return-Ensures : {k : ℕ} → Ensures env k Any return_op
  unfolding return_op
  return-Ensures = search (ensures_rules, popped_words-Ensures, returned-Ensures) depth 8

  pub stop-Ensures : {k : ℕ} → Ensures env k Any (handle Opcode.stop)
  unfolding handle
  stop-Ensures = Ensures-finish _ λ s v. done-IsFair s [] s.logs s.storage v tt

  pub revert-Ensures : {k : ℕ} → Ensures env k Any (handle Opcode.revert)
  unfolding handle revert_result
  revert-Ensures =
      Ensures-finish _
        λ s v. record { within = v.within; returned = tt; rollback = λ _. (refl, refl, refl) }

  ruleset handler_rules = (
    ensures_rules, next-Ensures, unary-Ensures, binary-Ensures, constant-Ensures, jump_to-Ensures,
    push_immediate-Ensures, dup_at-Ensures, swap_at-Ensures, exp-Ensures, sstore-Ensures,
    log-Ensures, return-Ensures, stop-Ensures, revert-Ensures,
  )

  pub handle-Ensures : (op : Opcode) → Ensures env 0 Any (handle op)
  unfolding handle
  handle-Ensures Opcode.add = search handler_rules depth 8
  handle-Ensures op = search handler_rules depth 8
