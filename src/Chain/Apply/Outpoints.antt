-- ===== src/Chain/Apply/Outpoints.antt =====
-- The unspent outputs after a transaction of chain/src/chain.ts, outpoint by outpoint.
use deckxcoin.Prelude.{
  ℕ, ◌+◌, ◌≡◌, refl, sym, ap, ◌∙◌, Bool, true, false, Option, none, some, List, [], ◌∷◌, arith, any,
  if◌then◌else◌, Bool-cases, Option-cases, inl, inr, length, ◌==◌,
}
use deckxcoin.Prelude.Eq.{◌===◌, string_eq, nat_eq, pair_eq}
use deckxcoin.Prelude.JsMap
use deckxcoin.Prelude.JsMap.{JsMap, IsMap, get-put, put-IsMap, delete-IsMap, get-delete}
use deckxcoin.Tx.{Hex, TxInput, TxOutput, Transaction, is_coinbase}
use deckxcoin.Tx.Oracle.{Oracle}
use deckxcoin.Tx.Check.{Checked, valid, bad, thrown, check_tx}
use deckxcoin.State.{Outpoint, Utxo, WorldState, outpoint, add_utxo, get_utxo, spend_utxo}
use deckxcoin.Chain.Apply.{add_outputs, spend_inputs, utxo_of, move_coins, apply_tx, apply_coinbase}
use deckxcoin.Chain.Attempt.{got, checked, TxContext, Receipt}
use deckxcoin.Chain.Apply.Coins.{key_of, spend_inputs-cons, add_outputs-cons}
use deckxcoin.Chain.Apply.Conserves.{>>=-got, apply_spend-IsApplied, utxos-commit_effect}

-- Whether some input spends the outpoint.
abbrev pub spends : List TxInput → Outpoint → Bool
spends inputs key = any (λ (input : TxInput). key === key_of input) inputs

-- The output that stands at the outpoint among those from `vout` on.
unfoldable pub created : Hex → ℕ → Bool → ℕ → List TxOutput → Outpoint → Option Utxo
created id height coinbase vout [] key = none
created id height coinbase vout (out ∷ rest) key =
    elim (created id height coinbase (vout + 1) rest key) [
      | some u ↦ some u
      | none ↦ if key === outpoint id vout then some (utxo_of id height vout coinbase out) else none
    ]

abbrev overlay : Option Utxo → Option Utxo → Option Utxo
overlay (some u) before = some u
overlay none before = before

pub spend_utxo-step :
    (k key : Outpoint) (s t : WorldState)
    → IsMap s.utxos
    → spend_utxo k.0 k.1 s ≡ some t
    → IsMap t.utxos
      × (get_utxo key.0 key.1 t ≡ (if key === k then none else get_utxo key.0 key.1 s))
unfolding spend_utxo get_utxo
spend_utxo-step k key s t m h =
    let e : record s { utxos = JsMap.delete k s.utxos } ≡ t = ground arith in
    (rw (← e) (delete-IsMap k s.utxos m), rw (← e) (get-delete key k s.utxos m))

pub spend_inputs-get :
    (inputs : List TxInput) (key : Outpoint) (s t : WorldState)
    → IsMap s.utxos
    → spend_inputs inputs s ≡ some t
    → IsMap t.utxos
      × (get_utxo key.0 key.1 t ≡ (if spends inputs key then none else get_utxo key.0 key.1 s))
spend_inputs-get [] key s t m h =
    unfold spend_inputs in let e : s ≡ t = ground arith in (rw (← e) m, rw (← e) refl)
spend_inputs-get (input ∷ inputs) key s t m h =
    let (n, first, rest) = spend_inputs-cons input inputs s t h in
    let (mn, gn) = spend_utxo-step (key_of input) key s n m first in
    let (mt, gt) = spend_inputs-get inputs key n t mn rest in (mt, ground arith)

pub add_utxo-step :
    (u : Utxo) (key : Outpoint) (s t : WorldState)
    → IsMap s.utxos
    → add_utxo u s ≡ some t
    → IsMap t.utxos
      × (get_utxo key.0 key.1 t
          ≡ (if key === outpoint u.txid u.vout then some u else get_utxo key.0 key.1 s))
unfolding add_utxo get_utxo
add_utxo-step u key s t m h =
    let e : record s { utxos = JsMap.put (outpoint u.txid u.vout) u s.utxos } ≡ t = ground arith in
    (
      rw (← e) (put-IsMap (outpoint u.txid u.vout) u s.utxos m),
      rw (← e) (get-put key (outpoint u.txid u.vout) u s.utxos),
    )

add_outputs-get :
    (id : Hex) (height : ℕ) (coinbase : Bool) (vout : ℕ) (outs : List TxOutput) (key : Outpoint)
    (s t : WorldState)
    → IsMap s.utxos
    → add_outputs id height coinbase vout outs s ≡ some t
    → IsMap t.utxos
      × (get_utxo key.0 key.1 t
          ≡ overlay (created id height coinbase vout outs key) (get_utxo key.0 key.1 s))
unfolding created
add_outputs-get id height coinbase vout [] key s t m h =
    unfold add_outputs in let e : s ≡ t = ground arith in (rw (← e) m, rw (← e) refl)
add_outputs-get id height coinbase vout (out ∷ outs) key s t m h =
    let (n, first, rest) = add_outputs-cons id height coinbase vout out outs s t h in
    let (mn, gn) = add_utxo-step (utxo_of id height vout coinbase out) key s n m first in
    let (mt, gt) = add_outputs-get id height coinbase (vout + 1) outs key n t mn rest in
    (mt, ground arith)

-- What stands at an outpoint after the transaction: its own outputs, else nothing where it spends, else
-- what stood there.
unfoldable pub utxo_after : Oracle → Transaction → ℕ → Outpoint → Option Utxo → Option Utxo
unfolding created
utxo_after o tx height key before =
    overlay (created (o.txid tx) height (is_coinbase tx.kind) 0 tx.outputs key)
      (if spends tx.inputs key then none else before)

checked-got : (c : Checked ℕ) (fee : ℕ) → checked c ≡ got fee → c ≡ valid fee
checked-got (valid n) fee h = cc
checked-got (bad e) fee h = cc
checked-got thrown fee h = cc

module _ (o : Oracle) (tx : Transaction) (ctx : TxContext) (s : WorldState) where
  move_coins-get :
      (height : ℕ) (coinbase : Bool) (key : Outpoint) (t u : WorldState)
      → IsMap t.utxos
      → move_coins o tx height coinbase t ≡ some u
      → IsMap u.utxos
        × (get_utxo key.0 key.1 u
            ≡ overlay
                (created (o.txid tx) height coinbase 0 tx.outputs key)
                (if spends tx.inputs key then none else get_utxo key.0 key.1 t))
  unfolding move_coins
  move_coins-get height coinbase key t u m h = elim (Option-cases (spend_inputs tx.inputs t)) [
    | inl gone ↦ absurd (ground arith)
    | inr (n, e) ↦
        let (mn, gn) = spend_inputs-get tx.inputs key t n m e in
        let (mu, gu) =
          add_outputs-get (o.txid tx) height coinbase 0 tx.outputs key n u mn (ground arith) in
        (mu, gu ∙ ap (overlay (created (o.txid tx) height coinbase 0 tx.outputs key)) gn)
  ]

  no_input : (inputs : List TxInput) → (length inputs == 0) ≡ true → inputs ≡ []
  no_input [] h = refl
  no_input (input ∷ inputs) h = absurd (ground arith)

  coinbase-inputs :
      (fee : ℕ) → is_coinbase tx.kind ≡ true → check_tx o tx [] ≡ valid fee → tx.inputs ≡ []
  unfolding check_tx
  coinbase-inputs fee k h = no_input tx.inputs (ground arith)

  pub coinbase-parts :
      (r : Receipt) (t : WorldState)
      → is_coinbase tx.kind ≡ true
      → apply_coinbase o tx ctx s ≡ got (r, t)
      → (fee : ℕ) × (check_tx o tx [] ≡ valid fee)
        × (add_outputs (o.txid tx) ctx.height true 0 tx.outputs s ≡ some t)
  unfolding apply_coinbase
  coinbase-parts r t k h =
      let (fee, e, rest) = >>=-got (checked (check_tx o tx [])) _ (r, t) h in
      (fee, checked-got _ fee e, ground arith)

  -- After a transaction is applied, of either kind, an outpoint holds the output that the transaction
  -- makes there, else nothing if the transaction spends it, else what it held before; and no outpoint
  -- stands twice.
  pub apply_tx-get :
      (r : Receipt) (t : WorldState) (key : Outpoint)
      → IsMap s.utxos
      → apply_tx o tx ctx s ≡ got (r, t)
      → IsMap t.utxos
        × (get_utxo key.0 key.1 t ≡ utxo_after o tx ctx.height key (get_utxo key.0 key.1 s))
  unfolding apply_tx utxo_after get_utxo
  apply_tx-get r t key m h = elim (Bool-cases (is_coinbase tx.kind)) [
    | inl coinbase ↦
        let (fee, checks, pays) = coinbase-parts r t coinbase (rw coinbase at h) in
        let (mt, gt) = add_outputs-get (o.txid tx) ctx.height true 0 tx.outputs key s t m pays in
        (
          mt,
          rw coinbase (
              gt
              ∙ ap
                  (λ inputs.
                    overlay (created (o.txid tx) ctx.height true 0 tx.outputs key)
                      (if spends inputs key then none else get_utxo key.0 key.1 s))
                  (sym (coinbase-inputs fee coinbase checks))),
        )
    | inr other ↦
        let a = apply_spend-IsApplied o tx ctx s r t (rw other at h) in
        let same = utxos-commit_effect a.outcome.effect s a.written a.committed in
        let (mt, gt) = move_coins-get ctx.height false key a.written t (rw same m) a.moved in
        (
          mt,
          rw other (
              gt
              ∙ ap
                  (λ m.
                    overlay (created (o.txid tx) ctx.height false 0 tx.outputs key)
                      (if spends tx.inputs key then none else JsMap.get key m))
                  same),
        )
  ]
