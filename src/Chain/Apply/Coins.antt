-- ===== src/Chain/Apply/Coins.antt =====
-- The coins of a transaction in chain/src/chain.ts: what is spent was there, once, and what is added
-- is what the outputs say.
use deckxcoin.Prelude.{
  ℕ, ◌+◌, ◌≡◌, subst, ◌∙◌, Bool, true, false, some, List, [], ◌∷◌, arith, any, Option-cases, inl,
  inr, Bool-cases,
}
use deckxcoin.Prelude.Eq.{◌===◌, ===→eq, ===_refl, string_eq, nat_eq, pair_eq}
use deckxcoin.Prelude.JsMap.{get-delete_ne}
use deckxcoin.Tx.{Hex, TxInput, TxOutput}
use deckxcoin.Tx.Check.{valid, check_distinct}
use deckxcoin.Tx.Check.Amounts.{outputs_value}
use deckxcoin.State.{Outpoint, Utxo, WorldState, add_utxo, get_utxo, spend_utxo, total_supply}
use deckxcoin.State.Supply.{total_supply-add_utxo, total_supply-spend_utxo}
use deckxcoin.Chain.Apply.{resolve, add_outputs, spend_inputs, utxo_of}
use deckxcoin.Chain.Attempt.{got}

abbrev pub key_of : TxInput → Outpoint
key_of input = (input.txid, input.vout)

-- Every input finds its output.
abbrev pub Found : WorldState → List TxInput → List Utxo → Type 0
Found s [] [] = Unit
Found s [] (u ∷ us) = ⊥
Found s (input ∷ inputs) [] = ⊥
Found s (input ∷ inputs) (u ∷ us) = (get_utxo input.txid input.vout s ≡ some u) × Found s inputs us

abbrev pub utxos_value : List Utxo → ℕ
utxos_value [] = 0
utxos_value (u ∷ us) = u.value + utxos_value us

abbrev pub Apart : Outpoint → List TxInput → Type 0
Apart key [] = Unit
Apart key (input ∷ inputs) = ((key_of input === key) ≡ false) × Apart key inputs

pub resolve-Found :
    (height : ℕ) (s : WorldState) (inputs : List TxInput) (us : List Utxo)
    → resolve height s inputs ≡ got us
    → Found s inputs us
unfolding resolve
resolve-Found height s [] [] h = tt
resolve-Found height s [] (u ∷ us) h = cc
resolve-Found height s (input ∷ inputs) [] h = ground arith
resolve-Found height s (input ∷ inputs) (u ∷ us) h =
    ground (arith, resolve-Found height s inputs us)

any_member :
    (key key' : Outpoint) (seen : List Outpoint)
    → any (λ k. k === key) seen ≡ true
    → any (λ k. k === key') seen ≡ false
    → (key' === key) ≡ false
any_member key key' seen h k = elim (Bool-cases (key' === key)) [
  | inl same ↦
      let e = ===→eq key' key same in
      let k' = subst (λ x. any (λ k. k === x) seen ≡ false) e k in cc
  | inr other ↦ other
]

check_distinct-Apart :
    (inputs : List TxInput) (seen : List Outpoint) (key : Outpoint)
    → any (λ k. k === key) seen ≡ true
    → check_distinct inputs seen ≡ valid tt
    → Apart key inputs
unfolding check_distinct
check_distinct-Apart [] seen key m h = tt
check_distinct-Apart (input ∷ inputs) seen key m h =
    elim (Bool-cases (any (λ k. k === key_of input) seen)) [
      | inl again ↦ absurd (ground arith)
      | inr new ↦ (
        any_member key (key_of input) seen m new,
        check_distinct-Apart inputs (key_of input ∷ seen) key (ground arith) (ground arith),
      )
    ]

check_distinct-rest :
    (input : TxInput) (inputs : List TxInput) (seen : List Outpoint)
    → check_distinct (input ∷ inputs) seen ≡ valid tt
    → check_distinct inputs (key_of input ∷ seen) ≡ valid tt
unfolding check_distinct
check_distinct-rest input inputs seen h = ground arith

newest : (key : Outpoint) (seen : List Outpoint) → any (λ k. k === key) (key ∷ seen) ≡ true
newest key seen = rw (===_refl key)

get_utxo-spend_utxo :
    (key other : Outpoint) (s t : WorldState)
    → (other === key) ≡ false
    → spend_utxo key.0 key.1 s ≡ some t
    → get_utxo other.0 other.1 t ≡ get_utxo other.0 other.1 s
unfolding get_utxo spend_utxo
get_utxo-spend_utxo key other s t a h = ground (arith, get-delete_ne other key s.utxos a)

-- The first round of each of the two loops.
pub spend_inputs-cons :
    (input : TxInput) (inputs : List TxInput) (s t : WorldState)
    → spend_inputs (input ∷ inputs) s ≡ some t
    → (m : WorldState) × (spend_utxo input.txid input.vout s ≡ some m)
      × (spend_inputs inputs m ≡ some t)
unfolding spend_inputs
spend_inputs-cons input inputs s t h = elim (Option-cases (spend_utxo input.txid input.vout s)) [
  | inl gone ↦ absurd (ground arith)
  | inr (m, e) ↦ (m, e, ground arith)
]

pub add_outputs-cons :
    (id : Hex) (height : ℕ) (coinbase : Bool) (vout : ℕ) (out : TxOutput) (outs : List TxOutput)
    (s t : WorldState)
    → add_outputs id height coinbase vout (out ∷ outs) s ≡ some t
    → (m : WorldState) × (add_utxo (utxo_of id height vout coinbase out) s ≡ some m)
      × (add_outputs id height coinbase (vout + 1) outs m ≡ some t)
unfolding add_outputs
add_outputs-cons id height coinbase vout out outs s t h =
    elim (Option-cases (add_utxo (utxo_of id height vout coinbase out) s)) [
      | inl there ↦ absurd (ground arith)
      | inr (m, e) ↦ (m, e, ground arith)
    ]

spend_utxo-Found :
    (key : Outpoint) (s t : WorldState) (inputs : List TxInput) (us : List Utxo)
    → Apart key inputs
    → spend_utxo key.0 key.1 s ≡ some t
    → Found s inputs us
    → Found t inputs us
spend_utxo-Found key s t [] [] a h f = tt
spend_utxo-Found key s t [] (u ∷ us) a h f = f
spend_utxo-Found key s t (input ∷ inputs) [] a h f = f
spend_utxo-Found key s t (input ∷ inputs) (u ∷ us) a h f = (
  get_utxo-spend_utxo key (key_of input) s t a.0 h ∙ f.0,
  spend_utxo-Found key s t inputs us a.1 h f.1,
)

-- Spending distinct outputs takes away the sum of their values.
pub total_supply-spend_inputs :
    (inputs : List TxInput) (us : List Utxo) (s t : WorldState) (seen : List Outpoint)
    → check_distinct inputs seen ≡ valid tt
    → Found s inputs us
    → spend_inputs inputs s ≡ some t
    → total_supply t + utxos_value us ≡ total_supply s
total_supply-spend_inputs [] [] s t seen d f h = unfold spend_inputs in ground arith
total_supply-spend_inputs [] (u ∷ us) s t seen d f h = absurd f
total_supply-spend_inputs (input ∷ inputs) [] s t seen d f h = absurd f
total_supply-spend_inputs (input ∷ inputs) (u ∷ us) s t seen d f h =
    let (m, first, rest) = spend_inputs-cons input inputs s t h in
    let later = check_distinct-rest input inputs seen d in
    let found =
      spend_utxo-Found (key_of input) s m inputs us
        (check_distinct-Apart inputs (key_of input ∷ seen) (key_of input)
          (newest (key_of input) seen) later)
        first f.1 in
    omega (
      arith,
      total_supply-spend_utxo u s m (key_of input) f.0 first,
      total_supply-spend_inputs inputs us m t (key_of input ∷ seen) later found rest,
    )

-- Adding outputs adds the sum of their values.
pub total_supply-add_outputs :
    (id : Hex) (height : ℕ) (coinbase : Bool) (vout : ℕ) (outs : List TxOutput) (s t : WorldState)
    → add_outputs id height coinbase vout outs s ≡ some t
    → total_supply t ≡ total_supply s + outputs_value outs
total_supply-add_outputs id height coinbase vout [] s t h = unfold add_outputs in ground arith
total_supply-add_outputs id height coinbase vout (out ∷ outs) s t h =
    let (m, first, rest) = add_outputs-cons id height coinbase vout out outs s t h in
    omega (
      arith,
      total_supply-add_utxo (utxo_of id height vout coinbase out) s m first,
      total_supply-add_outputs id height coinbase (vout + 1) outs m t rest,
    )
