-- ===== src/Vm/Exec.antt =====
-- What the handlers of `execute` (chain/src/vm.ts) share: its local variables, `charge`, `pop` and
-- `push`, and the returns and exceptions that leave the loop.
use Prim.Native.String.{String}
use deckxcoin.Prelude.{
  ℕ, zero, suc, ◌+◌, ◌-◌, ◌/◌, min, true, false, none, some, List, [], ◌∷◌, ltb, leb, length,
  if◌then◌else◌,
}
use deckxcoin.Vm.{
  Storage, VmContext, VmLog, VmError, VmResult, out_of_gas, stack_underflow, stack_overflow,
}
use deckxcoin.Vm.Words.{wrap}

-- What a run reads and never writes. The digests are those of the hash library:
-- `sha256_word v` is beToBigInt(sha256(beBytes(v, 32))).
pub record Env : Type 0 where
  pub code : List ℕ
  pub ctx : VmContext
  pub storage_in : Storage
  pub jumpdests : List ℕ
  pub sha256_word : ℕ → ℕ
  pub address_word : String → ℕ

-- The variables of the loop. The top of the stack is the head of the list.
pub record Machine : Type 0 where
  pub pc : ℕ
  pub gas_used : ℕ
  pub refund : ℕ
  pub stack : List ℕ
  pub storage : Storage
  pub logs : List VmLog

abbrev pub max_stack : ℕ
max_stack = 1024

abbrev pub max_code_size : ℕ
max_code_size = 24_576

pub data Step (A : Type 0) : Type 0 where
  going : A → Machine → Step A
  ended : VmResult → Step A

abbrev pub Exec : Type 0 → Type 0
Exec A = Env → Machine → Step A

infixl 5 ◌>>=◌ ◌>>◌
unfoldable pub ◌>>=◌ : {A B : Type 0} → Exec A → (A → Exec B) → Exec B
◌>>=◌ m f env s = elim (m env s) [ going a s' ↦ f a env s' | ended r ↦ ended r ]

abbrev pub ◌>>◌ : {B : Type 0} → Exec (Unit {0}) → Exec B → Exec B
m >> k = m >>= λ _. k

unfoldable pub fail : VmError → ℕ → Storage → VmResult
fail error gas_used storage = record {
  ok = false;
  error = some error;
  gas_used = gas_used;
  return_value = [];
  logs = [];
  storage = storage;
  reverted = false;
}

unfoldable pub done : ℕ → ℕ → List ℕ → List VmLog → Storage → VmResult
done gas_used refund return_value logs storage = record {
  ok = true;
  error = none;
  gas_used = gas_used - min refund (gas_used / 5);
  return_value = return_value;
  logs = logs;
  storage = storage;
  reverted = false;
}

-- `return fail(error, ctx.gasLimit, storageIn)`, also where the `catch` makes it of an exception.
unfoldable pub fault : {A : Type 0} → VmError → Exec A
unfolding fail
fault error env s = ended (fail error env.ctx.gas_limit env.storage_in)

unfoldable pub charge : ℕ → Exec (Unit {0})
unfolding fail
charge amount env s =
    if ltb env.ctx.gas_limit (s.gas_used + amount)
    then ended (fail out_of_gas env.ctx.gas_limit env.storage_in)
    else going tt (record s { gas_used = s.gas_used + amount })

-- A stack that is popped, as data.
unfoldable pub pop_stack : List ℕ → Exec ℕ
unfolding fault
pop_stack [] = fault stack_underflow
pop_stack (v ∷ rest) = λ env s. going v (record s { stack = rest })

unfoldable pub pop : Exec ℕ
unfolding pop_stack
pop env s = pop_stack s.stack env s

unfoldable pub push : ℕ → Exec (Unit {0})
unfolding fault
push v env s =
    if leb max_stack (length s.stack)
    then fault stack_overflow env s
    else going tt (record s { stack = wrap v ∷ s.stack })

-- `for (let i = 0; i < count; i++) out.unshift(pop().toString())`
unfoldable pub pop_words : ℕ → List ℕ → Exec (List ℕ)
pop_words zero out = λ env s. going out s
pop_words (suc count) out = do v ← pop; pop_words count (v ∷ out)

unfoldable pub gets : {A : Type 0} → (Env → Machine → A) → Exec A
gets f env s = going (f env s) s

unfoldable pub modify : (Machine → Machine) → Exec (Unit {0})
modify f env s = going tt (f s)

unfoldable pub finish : {A : Type 0} → (Env → Machine → VmResult) → Exec A
finish f env s = ended (f env s)
