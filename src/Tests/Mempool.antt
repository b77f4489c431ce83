-- ===== src/Tests/Mempool.antt =====
-- A small pool, its template, and encodings.
use deckxcoin.Prelude.{
  ℕ, ◌+◌, ◌≡◌, ◌≤◌, ◌<◌, refl, true, false, none, some, [], ◌∷◌, List, arith, if◌then◌else◌,
  Option-cases, Bool-cases, inl, inr, ◌⊎◌, ◌↔◌, All, length,
}
use deckxcoin.Prelude.Eq.{◌===◌, string_eq, nat_eq, pair_eq}
use deckxcoin.Prelude.JsMap
use deckxcoin.Tx.{Hex, TxInput, Transaction}
use deckxcoin.Tx.Oracle.{Oracle}
use deckxcoin.Tx.Serialize.{Encoder, serialize_tx, serialize_tx-witness}
use deckxcoin.State.{WorldState}
use deckxcoin.Node.Mempool.{
  MempoolEntry, Mempool, MempoolOptions, new_mempool, add, admitted, grow, insert_entry,
  first_conflict, revalidate, rate_of,
}
use deckxcoin.Node.Mempool.Consistent.{IsConsistent, empty-IsConsistent, grow-IsConsistent}
use deckxcoin.Node.Mempool.Sound.{IsSound}
use deckxcoin.Node.Mempool.Reachable.{
  Reachable, starts, continues, adds, Reachable-IsSound, Reachable-apart,
}
use deckxcoin.Node.Mempool.Revalidate.{IsLive, revalidate-keeps}
use deckxcoin.Node.Mempool.Template.{for_block, among}
use deckxcoin.Node.Mempool.Template.Distinct.{
  ids_of, txs_of, IsDistinct, IsPooled, for_block-IsPart,
}
use deckxcoin.Node.Mempool.Template.Complete.{for_block_complete}
use deckxcoin.Node.Mempool.Template.Ordered.{IsOrdered, for_block-IsOrdered}
use deckxcoin.Tests.Toy.{toy, to, from, payment, coin, holding}

abbrev plain : Encoder
plain = record {
  from_hex = λ text. some [];
  utf8 = λ text. [];
  script_json = λ script. "";
  contract_json = λ payload. "";
}

-- No id is the empty text.
abbrev named_toy : Oracle
named_toy = record toy {
  txid = λ tx. elim tx.memo [ none ↦ "none" | some text ↦ if text === "" then "none" else text ];
}

named_toy-filled : (tx : Transaction) → (named_toy.txid tx === "") ≡ false
named_toy-filled tx = elim (Option-cases tx.memo) [
  | inl e ↦ rw e refl
  | inr (text, e) ↦ elim (Bool-cases (text === "")) [
    | inl blank ↦ rw (e, blank) refl
    | inr filled ↦ rw (e, filled) filled
  ]
]

abbrev spend : Transaction
spend = payment "spend" "old" (to "bob" 40)

abbrev coins : WorldState
coins = holding (coin "old" "alice" 50 none)

abbrev defaults : MempoolOptions
defaults = record { max_size = none; min_fee_rate = none; expiry_blocks = none }

abbrev spend_entry : MempoolEntry
spend_entry = record {
  tx = spend;
  txid = "spend";
  fee = 10;
  size = 72;
  fee_rate = rate_of 10 72;
  added_at = 1;
  added_at_height = 8;
}

spend_added :
    add named_toy plain spend coins 8 0 1 (new_mempool defaults)
    ≡ admitted (insert_entry spend_entry (new_mempool defaults)) spend_entry
unfolding add deckxcoin.Node.Mempool.add_new first_conflict deckxcoin.Node.Mempool.admit
    serialize_tx deckxcoin.Prelude.Double.quotient deckxcoin.Prelude.Double.to_number
    deckxcoin.Chain.Apply.apply_tx deckxcoin.Chain.Apply.apply_spend deckxcoin.Chain.Apply.examine
    deckxcoin.Chain.Apply.resolve deckxcoin.State.get_utxo deckxcoin.Tx.Check.check_tx
    deckxcoin.Tx.Check.check_common deckxcoin.Tx.Check.check_outputs deckxcoin.Tx.Check.check_spend
    deckxcoin.Tx.Check.check_input deckxcoin.Chain.Apply.relative_locks
    deckxcoin.Chain.Contract.commit_effect deckxcoin.Chain.Apply.move_coins
    deckxcoin.Chain.Apply.spend_inputs deckxcoin.State.spend_utxo deckxcoin.Chain.Apply.add_outputs
    deckxcoin.State.add_utxo
spend_added = refl

abbrev reached :
    Reachable named_toy plain named_toy-filled (insert_entry spend_entry (new_mempool defaults))
reached = continues (starts defaults) (adds spend coins 8 0 1 spend_entry spend_added)

Reachable-IsSound_example : IsSound (insert_entry spend_entry (new_mempool defaults))
Reachable-IsSound_example = Reachable-IsSound named_toy plain named_toy-filled reached

-- A parent that pays little, and its child
abbrev entry_of : Transaction → Hex → ℕ → MempoolEntry
entry_of tx id rate = record {
  tx = tx;
  txid = id;
  fee = rate;
  size = 1;
  fee_rate = rate;
  added_at = 1;
  added_at_height = 8;
}

abbrev parent : MempoolEntry
parent = entry_of (payment "parent" "old" (to "bob" 40)) "parent" 1

abbrev child : MempoolEntry
child = entry_of (payment "child" "parent" (to "carol" 30)) "child" 9

abbrev family : Mempool
family = record {
  entries = ("child", child) ∷ ("parent", parent) ∷ [];
  spent = (("parent", 0), "child") ∷ (("old", 0), "parent") ∷ [];
  max_size = 5000;
  min_fee_rate = 0;
  expiry_blocks = 336;
}

family-IsConsistent : IsConsistent family
unfolding grow first_conflict
family-IsConsistent =
    grow-IsConsistent parent (grow child (new_mempool defaults))
      (grow-IsConsistent child (new_mempool defaults)
        (empty-IsConsistent (new_mempool defaults) refl refl) refl refl refl)
      refl refl refl

for_block-IsPart_example :
    (es : List MempoolEntry) × (for_block family 4000 ≡ txs_of es)
    × IsDistinct (ids_of es)
    × All (IsPooled family) es
    × (length es ≤ 4000)
for_block-IsPart_example = for_block-IsPart family 4000 family-IsConsistent

for_block_complete_example :
    (es : List MempoolEntry) × (for_block family 1 ≡ txs_of es)
    × IsDistinct (ids_of es)
    × All (IsPooled family) es
    × ((id : Hex) (e : MempoolEntry)
        → JsMap.get id family.entries ≡ some e
        → (among id (ids_of es) ≡ true) ⊎ (length es ≡ 1))
for_block_complete_example = for_block_complete family 1 family-IsConsistent

abbrev rank : Hex → ℕ
rank id = if id === "child" then 1 else 0

family-ranked :
    (e : MempoolEntry)
    → IsPooled family e
    → All
        (λ (input : TxInput).
          (JsMap.get input.txid family.entries ≡ none) ⊎ (rank input.txid < rank e.txid))
        e.tx.inputs
family-ranked e p =
    JsMap.values-All
      (λ (e : MempoolEntry).
        All
          (λ (input : TxInput).
            (JsMap.get input.txid family.entries ≡ none) ⊎ (rank input.txid < rank e.txid))
          e.tx.inputs)
      e.txid e family.entries ((inr (omega arith), tt), ((inl refl, tt), tt)) p

family-shallow : (e : MempoolEntry) → IsPooled family e → rank e.txid < 26
family-shallow e p = ground arith

for_block-IsOrdered_example :
    (es : List MempoolEntry) × (for_block family 4000 ≡ txs_of es)
    × IsDistinct (ids_of es)
    × All (IsPooled family) es
    × IsOrdered family [] es
for_block-IsOrdered_example =
    for_block-IsOrdered family 4000 family-IsConsistent rank family-ranked family-shallow

-- The parent comes first, though the child pays more.
family-template : for_block family 4000 ≡ parent.tx ∷ child.tx ∷ []
unfolding for_block
family-template = refl

-- Without room for both, the first of them alone
family-full : for_block family 1 ≡ parent.tx ∷ []
unfolding for_block
family-full = refl

abbrev pruned : Mempool
pruned = record family { entries = ("parent", parent) ∷ []; spent = (("old", 0), "parent") ∷ [] }

-- The child cannot apply to a tip that lacks its parent's output, and is dropped.
revalidated : revalidate toy coins 8 0 family ≡ some (1, pruned)
unfolding revalidate deckxcoin.Chain.Apply.apply_tx deckxcoin.Chain.Apply.apply_spend
    deckxcoin.Chain.Apply.examine deckxcoin.Chain.Apply.resolve deckxcoin.State.get_utxo
    deckxcoin.Tx.Check.check_tx deckxcoin.Tx.Check.check_common deckxcoin.Tx.Check.check_outputs
    deckxcoin.Tx.Check.check_spend deckxcoin.Tx.Check.check_input
    deckxcoin.Chain.Apply.relative_locks deckxcoin.Chain.Contract.commit_effect
    deckxcoin.Chain.Apply.move_coins deckxcoin.Chain.Apply.spend_inputs deckxcoin.State.spend_utxo
    deckxcoin.Chain.Apply.add_outputs deckxcoin.State.add_utxo
revalidated = refl

revalidate-keeps_example :
    (JsMap.get "parent" pruned.entries ≡ some parent)
    ↔ ((JsMap.get "parent" family.entries ≡ some parent) × IsLive toy coins 8 0 family parent)
revalidate-keeps_example =
    revalidate-keeps toy coins 8 0 family 1 pruned "parent" parent family-IsConsistent revalidated

Reachable-apart_example : ◌≡◌ {A = Hex} "spend" "spend"
unfolding insert_entry grow
Reachable-apart_example =
    Reachable-apart named_toy plain named_toy-filled "spend" "spend" spend_entry spend_entry
      ("old", 0) reached refl refl refl refl

-- Another signature does not change the encoding that the id is over.
serialize_tx-witness_example :
    serialize_tx plain
      (record spend { inputs = record (from "old") { signature = "other" } ∷ [] })
      false
    ≡ serialize_tx plain spend false
serialize_tx-witness_example =
    serialize_tx-witness plain spend (record (from "old") { signature = "other" } ∷ []) refl
