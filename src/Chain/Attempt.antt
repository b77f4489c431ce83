-- ===== src/Chain/Attempt.antt =====
-- The results of `applyTx` of chain/src/chain.ts, and what they are made of.
use Prim.Native.String.{String}
use deckxcoin.Prelude.{ℕ, Bool, true, false, Option, none, some, List, ◌≡◌, refl}
use deckxcoin.Prelude.Eq.{string_eq, nat_eq}
use deckxcoin.Vm.{VmLog, VmError}
use deckxcoin.Tx.Check.{TxError, Checked, valid, bad, thrown}

-- The texts that `failure` is given.
pub data ApplyError : Type 0 where
  invalid : TxError → ApplyError
  coinbase_overpays supply_cap : ApplyError
  unknown_output immature : ApplyError
  relative_lock absolute_lock : ApplyError
  contract_exists nonce_mismatch no_contract gas_not_covered : ApplyError
  vm_failed : Option VmError → ApplyError
  covenant_refused recipient_mismatch : ApplyError

-- `refuse e fee gas_used` is a result that is not ok.
pub data Attempt {ℓ} (A : Type ℓ) : Type ℓ where
  got : A → Attempt A
  refuse : ApplyError → ℕ → ℕ → Attempt A
  throws : Attempt A

infixl 5 ◌>>=◌ ◌>>◌
abbrev pub ◌>>=◌ {ℓ κ} : {A : Type ℓ} {B : Type κ} → Attempt A → (A → Attempt B) → Attempt B
got a >>= f = f a
refuse e fee gas >>= f = refuse e fee gas
throws >>= f = throws

abbrev pub ◌>>◌ {ℓ} : {B : Type ℓ} → Attempt (Unit {0}) → Attempt B → Attempt B
m >> k = m >>= λ _. k

abbrev pub fail_if : Bool → ApplyError → Attempt (Unit {0})
fail_if true e = refuse e 0 0
fail_if false e = got tt

abbrev pub or_throw {ℓ} : {A : Type ℓ} → Option A → Attempt A
or_throw none = throws
or_throw (some a) = got a

abbrev pub or_fail {ℓ} : {A : Type ℓ} → Option A → ApplyError → Attempt A
or_fail none e = refuse e 0 0
or_fail (some a) e = got a

abbrev pub checked : Checked ℕ → Attempt ℕ
checked (valid fee) = got fee
checked (bad e) = refuse (invalid e) 0 0
checked thrown = throws

pub record TxContext : Type 0 where
  pub height : ℕ
  pub time : ℕ
  pub available_fees : ℕ

pub record Receipt : Type 0 where
  pub fee : ℕ
  pub gas_used : ℕ
  pub logs : List VmLog
  pub contract_address : Option String

-- The three ways an attempt ends.
pub data Ends {ℓ} {A : Type ℓ} (m : Attempt A) : Type ℓ where
  at_got : (a : A) → m ≡ got a → Ends m
  at_refuse : (e : ApplyError) (fee gas : ℕ) → m ≡ refuse e fee gas → Ends m
  at_throw : m ≡ throws → Ends m

pub ends {ℓ} : {A : Type ℓ} (m : Attempt A) → Ends m
ends (got a) = at_got a refl
ends (refuse e fee gas) = at_refuse e fee gas refl
ends throws = at_throw refl
