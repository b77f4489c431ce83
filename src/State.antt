-- ===== src/State.antt =====
-- The world state, chain/src/state.ts: unspent outputs, contracts and nonces. An outpoint, the text
-- `txid:vout`, is the pair of the two.
pub mod Supply
use Prim.Native.String.{String}
use deckxcoin.Prelude.{ℕ, zero, ◌+◌, Bool, Option, none, some, [], ◌∷◌, ◌==◌, if◌then◌else◌}
use deckxcoin.Prelude.Eq.{◌===◌, string_eq, nat_eq, pair_eq}
use deckxcoin.Prelude.JsMap
use deckxcoin.Prelude.JsMap.{JsMap}
use deckxcoin.Tx.{Hex, OutputScript}
use deckxcoin.Vm.{Storage}

abbrev pub Outpoint : Type 0
Outpoint = Hex × ℕ

pub record Utxo : Type 0 where
  pub txid : Hex
  pub vout : ℕ
  pub value : ℕ
  pub address : String
  pub script : Option OutputScript
  pub height : ℕ
  pub coinbase : Bool

pub record ContractAccount : Type 0 where
  pub address : String
  pub code : Hex
  pub storage : Storage
  pub deployed_at : ℕ
  pub deployer : String

pub record WorldState : Type 0 where
  pub utxos : JsMap Outpoint Utxo
  pub contracts : JsMap String ContractAccount
  pub nonces : JsMap String ℕ

abbrev pub empty : WorldState
empty = record { utxos = []; contracts = []; nonces = [] }

abbrev pub outpoint : Hex → ℕ → Outpoint
outpoint txid vout = (txid, vout)

abbrev pub coinbase_maturity : ℕ
coinbase_maturity = 100

-- `none`: the outpoint exists already, and the method throws.
unfoldable pub add_utxo : Utxo → WorldState → Option WorldState
add_utxo u s =
    if JsMap.has (outpoint u.txid u.vout) s.utxos
    then none
    else some (record s { utxos = JsMap.put (outpoint u.txid u.vout) u s.utxos })

unfoldable pub get_utxo : Hex → ℕ → WorldState → Option Utxo
get_utxo txid vout s = JsMap.get (outpoint txid vout) s.utxos

-- `none`: unknown or already spent, and the method throws.
unfoldable pub spend_utxo : Hex → ℕ → WorldState → Option WorldState
spend_utxo txid vout s =
    if JsMap.has (outpoint txid vout) s.utxos
    then some (record s { utxos = JsMap.delete (outpoint txid vout) s.utxos })
    else none

values_for : String → JsMap Outpoint Utxo → ℕ
values_for address [] = 0
values_for address ((k, u) ∷ m) =
    (if u.address === address then u.value else 0) + values_for address m

unfoldable pub balance_of : String → WorldState → ℕ
unfolding values_for
balance_of address s = values_for address s.utxos

unfoldable pub sum_values : JsMap Outpoint Utxo → ℕ
sum_values [] = 0
sum_values ((k, u) ∷ m) = u.value + sum_values m

unfoldable pub total_supply : WorldState → ℕ
unfolding sum_values
total_supply s = sum_values s.utxos

unfoldable pub put_contract : ContractAccount → WorldState → WorldState
put_contract c s = record s { contracts = JsMap.put c.address c s.contracts }

unfoldable pub get_contract : String → WorldState → Option ContractAccount
get_contract address s = JsMap.get address s.contracts

-- `none`: unknown contract, and the method throws.
unfoldable pub set_storage : String → Storage → WorldState → Option WorldState
set_storage address storage s = elim (JsMap.get address s.contracts) [
  | none ↦ none
  | some c ↦
      some (record s { contracts = JsMap.put address (record c { storage = storage }) s.contracts })
]

unfoldable pub nonce_of : String → WorldState → ℕ
nonce_of address s = elim (JsMap.get address s.nonces) [ none ↦ 0 | some n ↦ n ]

unfoldable pub bump_nonce : String → WorldState → WorldState
unfolding nonce_of
bump_nonce address s = record s { nonces = JsMap.put address (nonce_of address s + 1) s.nonces }

-- Reorganisation only: a nonce is forced, and zero removes the entry.
unfoldable pub set_nonce : String → ℕ → WorldState → WorldState
set_nonce address nonce s =
    if nonce == 0
    then record s { nonces = JsMap.delete address s.nonces }
    else record s { nonces = JsMap.put address nonce s.nonces }

unfoldable pub drop_contract : String → WorldState → WorldState
drop_contract address s = record s { contracts = JsMap.delete address s.contracts }
