-- ===== src/State/Supply.antt =====
-- What the operations on the unspent outputs (chain/src/state.ts) do to the supply.
use deckxcoin.Prelude.{◌+◌, ◌≡◌, none, some, [], ◌∷◌, arith}
use deckxcoin.Prelude.Eq.{string_eq, nat_eq, pair_eq}
use deckxcoin.Prelude.JsMap
use deckxcoin.Prelude.JsMap.{JsMap, get-put, IsMap, get-delete_ne, get-delete_self}
use deckxcoin.State.{
  WorldState, Utxo, Outpoint, outpoint, add_utxo, get_utxo, spend_utxo, sum_values, total_supply,
}

sum_values-put :
    (k : Outpoint) (u : Utxo) (m : JsMap Outpoint Utxo)
    → JsMap.get k m ≡ none
    → sum_values (JsMap.put k u m) ≡ sum_values m + u.value
unfolding sum_values
sum_values-put k u [] h = omega arith
sum_values-put k u ((j, w) ∷ m) h = ground (arith, sum_values-put k u m)

sum_values-delete :
    (k : Outpoint) (u : Utxo) (m : JsMap Outpoint Utxo)
    → JsMap.get k m ≡ some u
    → sum_values (JsMap.delete k m) + u.value ≡ sum_values m
unfolding sum_values
sum_values-delete k u [] h = cc
sum_values-delete k u ((j, w) ∷ m) h = ground (arith, sum_values-delete k u m)

-- A new output adds its value.
pub total_supply-add_utxo :
    (u : Utxo) (s t : WorldState)
    → add_utxo u s ≡ some t
    → total_supply t ≡ total_supply s + u.value
unfolding add_utxo total_supply
total_supply-add_utxo u s t h = ground (arith, sum_values-put (outpoint u.txid u.vout) u s.utxos)

-- A spent output takes its value away.
pub total_supply-spend_utxo :
    (u : Utxo) (s t : WorldState) (key : Outpoint)
    → get_utxo key.0 key.1 s ≡ some u
    → spend_utxo key.0 key.1 s ≡ some t
    → total_supply t + u.value ≡ total_supply s
unfolding get_utxo spend_utxo total_supply
total_supply-spend_utxo u s t key g h = ground (arith, sum_values-delete key u s.utxos)
