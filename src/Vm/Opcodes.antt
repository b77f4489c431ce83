-- ===== src/Vm/Opcodes.antt =====
-- The opcode table and the base costs of chain/src/vm.ts.
use deckxcoin.Prelude.{
  ℕ, ◌+◌, ◌-◌, ◌&&◌, Option, none, some, List, [], ◌∷◌, leb, ◌==◌, if◌then◌else◌,
}

pub data Opcode : Type 0 where
  stop add mul sub div mod_ exp : Opcode
  lt gt eq is_zero and_ or_ xor_ not_ shl shr : Opcode
  sha256 address balance caller callvalue calldata calldatasize number timestamp : Opcode
  pop_ sload sstore jump jumpi pc gas jumpdest log return_ revert : Opcode
  push_ dup swap_ : ℕ → Opcode

abbrev op_table : List (ℕ × Opcode)
op_table =
    (0x00, stop)
    ∷ (0x01, add)
    ∷ (0x02, mul)
    ∷ (0x03, sub)
    ∷ (0x04, div)
    ∷ (0x05, mod_)
    ∷ (0x0a, exp)
    ∷ (0x10, lt)
    ∷ (0x11, gt)
    ∷ (0x14, eq)
    ∷ (0x15, is_zero)
    ∷ (0x16, and_)
    ∷ (0x17, or_)
    ∷ (0x18, xor_)
    ∷ (0x19, not_)
    ∷ (0x1b, shl)
    ∷ (0x1c, shr)
    ∷ (0x20, sha256)
    ∷ (0x30, address)
    ∷ (0x31, balance)
    ∷ (0x33, caller)
    ∷ (0x34, callvalue)
    ∷ (0x35, calldata)
    ∷ (0x36, calldatasize)
    ∷ (0x43, number)
    ∷ (0x42, timestamp)
    ∷ (0x50, pop_)
    ∷ (0x54, sload)
    ∷ (0x55, sstore)
    ∷ (0x56, jump)
    ∷ (0x57, jumpi)
    ∷ (0x58, pc)
    ∷ (0x5a, gas)
    ∷ (0x5b, jumpdest)
    ∷ (0xa0, log)
    ∷ (0xf3, return_)
    ∷ (0xfd, revert)
    ∷ []

find_op : ℕ → List (ℕ × Opcode) → Option Opcode
find_op byte [] = none
find_op byte ((b, op) ∷ rest) = if byte == b then some op else find_op byte rest

-- The ranges PUSH1 to PUSH32, DUP1 to DUP16 and SWAP1 to SWAP16 carry their width or depth; a byte
-- that `GAS` has no entry for is no opcode.
unfoldable pub decode : ℕ → Option Opcode
unfolding find_op
decode byte =
    if leb 0x60 byte && leb byte 0x7f
    then some (push_ (byte - 0x60 + 1))
    else if leb 0x80 byte && leb byte 0x8f
    then some (dup (byte - 0x80 + 1))
    else if leb 0x90 byte && leb byte 0x9f
    then some (swap_ (byte - 0x90 + 1))
    else find_op byte op_table

-- GAS, and GAS_PUSH, GAS_DUP, GAS_SWAP.
unfoldable pub base_gas : Opcode → ℕ
base_gas stop = 0
base_gas add = 3
base_gas mul = 5
base_gas sub = 3
base_gas div = 5
base_gas mod_ = 5
base_gas exp = 10
base_gas lt = 3
base_gas gt = 3
base_gas eq = 3
base_gas is_zero = 3
base_gas and_ = 3
base_gas or_ = 3
base_gas xor_ = 3
base_gas not_ = 3
base_gas shl = 3
base_gas shr = 3
base_gas sha256 = 60
base_gas address = 2
base_gas balance = 100
base_gas caller = 2
base_gas callvalue = 2
base_gas calldata = 3
base_gas calldatasize = 2
base_gas number = 2
base_gas timestamp = 2
base_gas pop_ = 2
base_gas sload = 100
base_gas sstore = 0
base_gas jump = 8
base_gas jumpi = 10
base_gas pc = 2
base_gas gas = 2
base_gas jumpdest = 1
base_gas log = 375
base_gas return_ = 0
base_gas revert = 0
base_gas (push_ width) = 3
base_gas (dup depth) = 3
base_gas (swap_ depth) = 3

-- scanJumpdests: the positions of JUMPDEST bytes outside of PUSH immediates. `skip` counts the
-- immediate bytes that are still to pass over.
unfoldable pub scan_from : ℕ → ℕ → List ℕ → List ℕ
scan_from skip i [] = []
scan_from (ℕ.suc skip) i (op ∷ code) = scan_from skip (i + 1) code
scan_from ℕ.zero i (op ∷ code) =
    let width = if leb 0x60 op && leb op 0x7f then op - 0x60 + 1 else 0 in
    let rest = scan_from width (i + 1) code in if op == 0x5b then i ∷ rest else rest

unfoldable pub scan_jumpdests : List ℕ → List ℕ
unfolding scan_from
scan_jumpdests code = scan_from 0 0 code
