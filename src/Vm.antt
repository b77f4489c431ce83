-- ===== src/Vm.antt =====
-- The Deckx virtual machine, chain/src/vm.ts: the data that its parts share.
pub mod Words
pub mod Opcodes
pub mod Exec
pub mod Step
pub mod Ensures
pub mod Run
use Prim.Native.String.{String}
use deckxcoin.Prelude.{ℕ, Bool, List, Option}
use deckxcoin.Prelude.Int.{ℤ}
use deckxcoin.Prelude.JsMap.{JsMap}

-- Slots and values are the numbers whose decimal texts the source stores.
abbrev pub Storage : Type 0
Storage = JsMap ℕ ℕ

pub record VmContext : Type 0 where
  pub address : String
  pub caller : String
  pub call_value : ℕ
  pub calldata : List ℤ
  pub block_number : ℕ
  pub block_time : ℕ
  pub gas_limit : ℕ
  pub balance_of : String → ℕ

pub record VmLog : Type 0 where
  pub address : String
  pub topic : ℕ
  pub words : List ℕ

-- The texts that `fail` is given.
pub data VmError : Type 0 where
  code_size truncated_push out_of_gas invalid_opcode invalid_jump : VmError
  too_many_log_words too_many_return_words stack_underflow stack_overflow : VmError
  execution_reverted : VmError

pub record VmResult : Type 0 where
  pub ok : Bool
  pub error : Option VmError
  pub gas_used : ℕ
  pub return_value : List ℕ
  pub logs : List VmLog
  pub storage : Storage
  pub reverted : Bool
