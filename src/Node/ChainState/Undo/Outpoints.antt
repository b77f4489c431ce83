-- ===== src/Node/ChainState/Undo/Outpoints.antt =====
-- The unspent outputs before a block, after it, and after its undo record
-- (chain/src/node/chainstate.ts).
use deckxcoin.Prelude.{
  ℕ, ◌+◌, ◌≡◌, refl, sym, ap, ◌∙◌, Bool, true, false, ◌||◌, none, some, List, [], ◌∷◌, arith, any,
  if◌then◌else◌, Bool-cases, Option-cases, inl, inr, ◌⊎◌, subst,
}
use deckxcoin.Prelude.Eq.{◌===◌, string_eq, nat_eq, pair_eq, ===→eq}
use deckxcoin.Prelude.JsMap
use deckxcoin.Prelude.JsMap.{JsMap, IsMap}
use deckxcoin.Tx.{Hex, TxOutput, Transaction, is_coinbase}
use deckxcoin.Tx.Oracle.{Oracle}
use deckxcoin.State.{Outpoint, Utxo, WorldState, outpoint, add_utxo, get_utxo}
use deckxcoin.Chain.Apply.{add_outputs, spend_inputs, utxo_of, move_coins, apply_tx}
use deckxcoin.Chain.Attempt.{got, TxContext, Receipt}
use deckxcoin.Chain.Apply.Coins.{add_outputs-cons}
use deckxcoin.Chain.Apply.Conserves.{apply_spend-IsApplied, utxos-commit_effect}
use deckxcoin.Chain.Apply.Outpoints.{
  spends, created, utxo_after, apply_tx-get, add_utxo-step, spend_inputs-get, coinbase-parts,
}
use deckxcoin.Node.Draft.{outpoints_from}

abbrev pub listed : Outpoint → List Outpoint → Bool
listed key keys = any (λ (other : Outpoint). key === other) keys

created-none :
    (id : Hex) (height : ℕ) (coinbase : Bool) (vout : ℕ) (outs : List TxOutput) (key : Outpoint)
    → listed key (outpoints_from id vout outs) ≡ false
    → created id height coinbase vout outs key ≡ none
unfolding created outpoints_from
created-none id height coinbase vout [] key h = refl
created-none id height coinbase vout (out ∷ outs) key h =
    let rest = created-none id height coinbase (vout + 1) outs key (ground arith) in ground arith

add_utxo-absent :
    (u : Utxo) (s t : WorldState) → add_utxo u s ≡ some t → get_utxo u.txid u.vout s ≡ none
unfolding add_utxo get_utxo
add_utxo-absent u s t h = ground arith

-- Where outputs are made, nothing stood before.
add_outputs-absent :
    (id : Hex) (height : ℕ) (coinbase : Bool) (vout : ℕ) (outs : List TxOutput) (key : Outpoint)
    (s t : WorldState)
    → IsMap s.utxos
    → add_outputs id height coinbase vout outs s ≡ some t
    → listed key (outpoints_from id vout outs) ≡ true
    → get_utxo key.0 key.1 s ≡ none
unfolding outpoints_from
add_outputs-absent id height coinbase vout [] key s t m h l = absurd (ground arith)
add_outputs-absent id height coinbase vout (out ∷ outs) key s t m h l =
    let (n, first, rest) = add_outputs-cons id height coinbase vout out outs s t h in
    let (mn, gn) = add_utxo-step (utxo_of id height vout coinbase out) key s n m first in
    elim (Bool-cases (key === outpoint id vout)) [
      | inl same ↦
          subst (λ (k : Outpoint). get_utxo k.0 k.1 s ≡ none) (sym (===→eq key (id, vout) same))
            (add_utxo-absent (utxo_of id height vout coinbase out) s n first)
      | inr other ↦
          let later =
            add_outputs-absent id height coinbase (vout + 1) outs key n t mn rest (ground arith) in
          ground arith
    ]

-- What a list of transactions does to an outpoint, by whether they make it and whether they spend it.
pub record Turns (key : Outpoint) (makes takes : Bool) (s t : WorldState) : Type 0 where
  pub after_map : IsMap t.utxos
  pub unmade :
      makes ≡ false → get_utxo key.0 key.1 t ≡ (if takes then none else get_utxo key.0 key.1 s)
  pub made : makes ≡ true → (takes ≡ true) ⊎ (get_utxo key.0 key.1 s ≡ none)

pub Turns-refl : (key : Outpoint) (s : WorldState) → IsMap s.utxos → Turns key false false s s
Turns-refl key s m = record { after_map = m; unmade = λ h. refl; made = λ h. absurd (ground arith) }

pub Turns-trans :
    (key : Outpoint) (a b c d : Bool) (s t u : WorldState)
    → Turns key a b s t
    → Turns key c d t u
    → Turns key (a || c) (b || d) s u
Turns-trans key a b c d s t u x y = record {
  after_map = y.after_map;
  unmade =
      λ h. let one = x.unmade (ground arith) in let two = y.unmade (ground arith) in ground arith;
  made = λ h. elim (Bool-cases a) [
    | inl first ↦ elim (x.made first) [ inl taken ↦ inl (ground arith) | inr absent ↦ inr absent ]
    | inr later ↦
        let one = x.unmade later in
        elim (y.made (ground arith)) [
          | inl taken ↦ inl (ground arith)
          | inr absent ↦ elim (Bool-cases b) [
            | inl taken ↦ inl (ground arith)
            | inr kept ↦ inr (ground arith)
          ]
        ]
  ];
}

module _ (o : Oracle) (tx : Transaction) (ctx : TxContext) (s : WorldState) (r : Receipt)
    (t : WorldState) where
  apply_tx-made :
      (key : Outpoint)
      → IsMap s.utxos
      → apply_tx o tx ctx s ≡ got (r, t)
      → listed key (outpoints_from (o.txid tx) 0 tx.outputs) ≡ true
      → (spends tx.inputs key ≡ true) ⊎ (get_utxo key.0 key.1 s ≡ none)
  unfolding apply_tx move_coins get_utxo
  apply_tx-made key m h l = elim (Bool-cases (is_coinbase tx.kind)) [
    | inl coinbase ↦
        let (fee, checks, pays) = coinbase-parts o tx ctx s r t coinbase (rw coinbase at h) in
        inr (add_outputs-absent (o.txid tx) ctx.height true 0 tx.outputs key s t m pays l)
    | inr other ↦
        let a = apply_spend-IsApplied o tx ctx s r t (rw other at h) in
        let same = utxos-commit_effect a.outcome.effect s a.written a.committed in
        elim (Option-cases (spend_inputs tx.inputs a.written)) [
          | inl gone ↦ let moves = a.moved in absurd (ground arith)
          | inr (n, e) ↦
              let moves = a.moved in
              let (mn, gn) = spend_inputs-get tx.inputs key a.written n (rw same m) e in
              let absent =
                add_outputs-absent (o.txid tx) ctx.height false 0 tx.outputs key n t mn
                  (ground arith) l in
              elim (Bool-cases (spends tx.inputs key)) [
                | inl taken ↦ inl taken
                | inr kept ↦ inr (ap (JsMap.get key) (sym same) ∙ ground arith)
              ]
        ]
  ]

  pub apply_tx-Turns :
      (key : Outpoint)
      → IsMap s.utxos
      → apply_tx o tx ctx s ≡ got (r, t)
      → Turns key (listed key (outpoints_from (o.txid tx) 0 tx.outputs)) (spends tx.inputs key) s t
  unfolding utxo_after
  apply_tx-Turns key m h =
      let (mt, gt) = apply_tx-get o tx ctx s r t key m h in
      record {
        after_map = mt;
        unmade = λ l.
            let none_made =
              created-none (o.txid tx) ctx.height (is_coinbase tx.kind) 0 tx.outputs key l in
            ground arith;
        made = apply_tx-made key m h;
      }
