-- ===== src/Vm/Run.antt =====
-- The loop of `execute` in chain/src/vm.ts.
use Prim.Native.String.{String}
use deckxcoin.Prelude.{
  ◌≡◌, refl, ℕ, zero, suc, Option, none, some, List, [], ltb, length, get_elem?, if◌then◌else◌,
}
use deckxcoin.Vm.{Storage, VmContext, VmResult, code_size}
use deckxcoin.Vm.Words.{wrap_ℤ, sub_words, byte_len, mod_pow}
use deckxcoin.Vm.Opcodes.{decode, base_gas, scan_jumpdests}
use deckxcoin.Vm.Exec.{
  Env, Machine, going, ended, ◌>>=◌, fail, done, fault, charge, pop, push, pop_words, gets, modify,
  finish, max_code_size,
}
use deckxcoin.Vm.Step.{
  be_to_nat, next, unary, binary, constant, push_immediate, deep_enough, dup_at, swap_words,
  swap_at, exp_op, sstore_op, jump_to, log_op, return_op, revert_result, handle, charge_base,
  exec_byte,
}

-- `while (pc < code.length)`, with `fuel` rounds; `none` if they run out.
unfoldable pub run : ℕ → Env → Machine → Option VmResult
run zero env s = none
run (suc fuel) env s = elim (get_elem? env.code s.pc) [
  | none ↦ some (done s.gas_used s.refund [] s.logs s.storage)
  | some byte ↦ elim (exec_byte byte env s) [ ended r ↦ some r | going _ s' ↦ run fuel env s' ]
]

abbrev pub env_of : (ℕ → ℕ) → (String → ℕ) → List ℕ → VmContext → Storage → Env
env_of sha256_word address_word code ctx storage_in = record {
  code = code;
  ctx = ctx;
  storage_in = storage_in;
  jumpdests = scan_jumpdests code;
  sha256_word = sha256_word;
  address_word = address_word;
}

abbrev pub start : Storage → Machine
start storage_in = record {
  pc = 0;
  gas_used = 0;
  refund = 0;
  stack = [];
  storage = storage_in;
  logs = [];
}

-- Every round costs gas, so that `gas_limit + 1` rounds are enough.
unfoldable pub execute : (ℕ → ℕ) → (String → ℕ) → List ℕ → VmContext → Storage → Option VmResult
unfolding run exec_byte charge_base handle next unary binary constant push_immediate deep_enough
    dup_at swap_words swap_at exp_op sstore_op jump_to log_op return_op revert_result be_to_nat
    ◌>>=◌ fail done fault charge pop push pop_words gets modify finish decode base_gas
    scan_jumpdests wrap_ℤ sub_words byte_len mod_pow
execute sha256_word address_word code ctx storage_in =
    if ltb max_code_size (length code)
    then some (fail code_size ctx.gas_limit storage_in)
    else run (suc ctx.gas_limit) (env_of sha256_word address_word code ctx storage_in)
        (start storage_in)

-- The two ways into a run, for proofs that keep `run` shut.
pub execute_lem :
    (sha256_word : ℕ → ℕ) (address_word : String → ℕ) (code : List ℕ) (ctx : VmContext)
    (storage_in : Storage)
    → execute sha256_word address_word code ctx storage_in ≡ (
        if ltb max_code_size (length code)
        then some (fail code_size ctx.gas_limit storage_in)
        else run
            (suc ctx.gas_limit)
            (env_of sha256_word address_word code ctx storage_in)
            (start storage_in))
unfolding execute
execute_lem sha256_word address_word code ctx storage_in = refl
