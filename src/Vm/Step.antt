-- ===== src/Vm/Step.antt =====
-- One opcode: the body of the loop of `execute` in chain/src/vm.ts.
use Prim.Native.Nat.{bit_and, bit_or, bit_xor}
use mathlib.Core.List.{foldl}
use mathlib.Core.Option.{get_or}
use deckxcoin.Prelude.{
  ℕ, ◌+◌, ◌-◌, ◌*◌, ◌/◌, ◌%◌, ◌^◌, Bool, true, false, ◌&&◌, not, Option, none, some, List, [], ◌∷◌,
  ◌++◌, ltb, leb, ◌==◌, length, get_elem?, set, take, drop, any, if◌then◌else◌,
}
use deckxcoin.Prelude.Eq.{nat_eq}
use deckxcoin.Prelude.Int.{ℤ}
use deckxcoin.Prelude.JsMap.{get, put, delete}
use deckxcoin.Vm.{
  VmResult, truncated_push, invalid_opcode, invalid_jump, too_many_log_words, too_many_return_words,
  stack_underflow, execution_reverted,
}
use deckxcoin.Vm.Words.{word_mod, wrap, wrap_ℤ, sub_words, byte_len, mod_pow}
use deckxcoin.Vm.Opcodes.{Opcode, decode, base_gas}
use deckxcoin.Vm.Exec.{
  Env, Machine, Exec, ◌>>=◌, ◌>>◌, fail, done, fault, charge, pop, push, pop_words, gets, modify,
  finish,
}

-- beToBigInt
unfoldable pub be_to_nat : List ℕ → ℕ
be_to_nat = foldl (λ acc b. acc * 256 + b) 0

abbrev pub gas_sstore_set : ℕ
gas_sstore_set = 20_000

abbrev pub gas_sstore_reset : ℕ
gas_sstore_reset = 2_900

abbrev pub gas_sstore_clear_refund : ℕ
gas_sstore_clear_refund = 4_800

abbrev pub flag : Bool → ℕ
flag b = if b then 1 else 0

unfoldable pub next : ℕ → Exec (Unit {0})
next n = modify (λ s. record s { pc = s.pc + n })

unfoldable pub unary : (ℕ → ℕ) → Exec (Unit {0})
unary f = do a ← pop; push (f a); next 1

unfoldable pub binary : (ℕ → ℕ → ℕ) → Exec (Unit {0})
binary f = do a ← pop; b ← pop; push (f a b); next 1

unfoldable pub constant : (Env → Machine → ℕ) → Exec (Unit {0})
constant f = do v ← gets f; push v; next 1

unfoldable pub push_immediate : ℕ → Exec (Unit {0})
push_immediate width = do
  code ← gets (λ env s. env.code)
  here ← gets (λ env s. s.pc)
  if ltb (length code) (here + 1 + width)
      then finish (λ env s. fail truncated_push s.gas_used env.storage_in)
      else do push (be_to_nat (take width (drop (here + 1) code))); next (1 + width)

-- A word that the stack must be deep enough to hold.
unfoldable pub deep_enough : {A B : Type 0} → Option A → (A → Exec B) → Exec B
deep_enough none f = fault stack_underflow
deep_enough (some a) f = f a

unfoldable pub dup_at : ℕ → Exec (Unit {0})
dup_at depth = do
  found ← gets (λ env s. get_elem? s.stack (depth - 1))
  deep_enough found (λ v. push v >> next 1)

abbrev pub swapped : ℕ → ℕ → ℕ → List ℕ → List ℕ
swapped depth top other stack = set (set stack 0 other) depth top

-- The top of the stack and the word `depth` below it change places.
unfoldable pub swap_words : ℕ → Exec (Unit {0})
swap_words depth env s =
    deep_enough (get_elem? s.stack 0)
      (λ top.
        deep_enough (get_elem? s.stack depth)
          (λ other. modify (λ t. record t { stack = swapped depth top other t.stack })))
      env s

unfoldable pub swap_at : ℕ → Exec (Unit {0})
swap_at depth = do swap_words depth; next 1

unfoldable pub exp_op : Exec (Unit {0})
exp_op = do b ← pop; e ← pop; charge (50 * byte_len e); push (mod_pow b e); next 1

abbrev pub sstore_cost : ℕ → ℕ → ℕ
sstore_cost previous value =
    if previous == 0 && not (value == 0) then gas_sstore_set else gas_sstore_reset

abbrev pub written : ℕ → ℕ → ℕ → Machine → Machine
written key previous value s =
    if value == 0
    then record s {
      refund = if previous == 0 then s.refund else s.refund + gas_sstore_clear_refund;
      storage = delete key s.storage;
    }
    else record s { storage = put key value s.storage }

unfoldable pub sstore_op : Exec (Unit {0})
sstore_op = do
  key ← pop
  value ← pop
  previous ← gets (λ env s. get_or (get key s.storage) 0)
  charge (sstore_cost previous value)
  modify (written key previous value)
  next 1

unfoldable pub jump_to : ℕ → Exec (Unit {0})
jump_to dest = do
  dests ← gets (λ env s. env.jumpdests)
  if any (λ d. d == dest) dests then modify (λ s. record s { pc = dest }) else fault invalid_jump

unfoldable pub log_op : Exec (Unit {0})
log_op = do
  topic ← pop
  count ← pop
  if ltb 8 count then fault too_many_log_words else do
    charge (count * 8)
    words ← pop_words count []
    owner ← gets (λ env s. env.ctx.address)
    modify (λ s. record s {
      logs = s.logs ++ record { address = owner; topic = topic; words = words } ∷ [];
    })
    next 1

unfoldable pub return_op : Exec (Unit {0})
return_op = do
  count ← pop
  if ltb 16 count then fault too_many_return_words else do
    out ← pop_words count []
    finish (λ env s. done s.gas_used s.refund out s.logs s.storage)

unfoldable pub revert_result : Env → Machine → VmResult
revert_result env s = record {
  ok = false;
  error = some execution_reverted;
  gas_used = s.gas_used;
  return_value = [];
  logs = [];
  storage = env.storage_in;
  reverted = true;
}

-- Only the executing contract's own balance can be read.
abbrev pub own_balance : Env → ℕ → ℕ
own_balance env who =
    if who == env.address_word env.ctx.address then env.ctx.balance_of env.ctx.address else 0

abbrev pub calldata_word : List ℤ → ℕ → ℕ
calldata_word words i = elim (get_elem? words i) [ none ↦ 0 | some w ↦ wrap_ℤ w ]

-- The cases of the `switch`, and the three families before it.
unfoldable pub handle : Opcode → Exec (Unit {0})
handle Opcode.stop = finish (λ env s. done s.gas_used s.refund [] s.logs s.storage)
handle Opcode.add = binary (λ a b. a + b)
handle Opcode.mul = binary (λ a b. a * b)
handle Opcode.sub = binary sub_words
handle Opcode.div = binary (λ a b. if b == 0 then 0 else a / b)
handle Opcode.mod_ = binary (λ a b. if b == 0 then 0 else a % b)
handle Opcode.exp = exp_op
handle Opcode.lt = binary (λ a b. flag (ltb a b))
handle Opcode.gt = binary (λ a b. flag (ltb b a))
handle Opcode.eq = binary (λ a b. flag (a == b))
handle Opcode.is_zero = unary (λ a. flag (a == 0))
handle Opcode.and_ = binary bit_and
handle Opcode.or_ = binary bit_or
handle Opcode.xor_ = binary bit_xor
handle Opcode.not_ = unary (λ a. word_mod - 1 - wrap a)
handle Opcode.shl = binary (λ s v. if leb 256 s then 0 else v * 2 ^ s)
handle Opcode.shr = binary (λ s v. if leb 256 s then 0 else v / 2 ^ s)
handle Opcode.sha256 = do v ← pop; digest ← gets (λ env s. env.sha256_word v); push digest; next 1
handle Opcode.address = constant (λ env s. env.address_word env.ctx.address)
handle Opcode.caller = constant (λ env s. env.address_word env.ctx.caller)
handle Opcode.callvalue = constant (λ env s. env.ctx.call_value)
handle Opcode.balance = do
  who ← pop
  amount ← gets (λ env s. own_balance env who)
  push amount
  next 1
handle Opcode.calldata = do
  i ← pop
  word ← gets (λ env s. calldata_word env.ctx.calldata i)
  push word
  next 1
handle Opcode.calldatasize = constant (λ env s. length env.ctx.calldata)
handle Opcode.number = constant (λ env s. env.ctx.block_number)
handle Opcode.timestamp = constant (λ env s. env.ctx.block_time)
handle Opcode.pc = constant (λ env s. s.pc)
handle Opcode.gas = constant (λ env s. env.ctx.gas_limit - s.gas_used)
handle Opcode.pop_ = do _ ← pop; next 1
handle Opcode.jumpdest = next 1
handle Opcode.sload = do
  key ← pop
  value ← gets (λ env s. get_or (get key s.storage) 0)
  push value
  next 1
handle Opcode.sstore = sstore_op
handle Opcode.jump = do dest ← pop; jump_to dest
handle Opcode.jumpi = do dest ← pop; cond ← pop; if cond == 0 then next 1 else jump_to dest
handle Opcode.log = log_op
handle Opcode.return_ = return_op
handle Opcode.revert = finish revert_result
handle (Opcode.push_ width) = push_immediate width
handle (Opcode.dup depth) = dup_at depth
handle (Opcode.swap_ depth) = swap_at depth

-- SSTORE charges inside of its handler.
unfoldable pub charge_base : Opcode → Exec (Unit {0})
charge_base Opcode.sstore = gets (λ env s. tt)
charge_base op = charge (base_gas op)

-- One round of the loop at the byte `op`.
unfoldable pub exec_byte : ℕ → Exec (Unit {0})
exec_byte byte = elim (decode byte) [
  | none ↦ fault invalid_opcode
  | some op ↦ do charge_base op; handle op
]
