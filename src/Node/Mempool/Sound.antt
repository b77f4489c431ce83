-- ===== src/Node/Mempool/Sound.antt =====
-- What `add`, `remove` and the eviction of chain/src/node/mempool.ts keep of a pool.
use deckxcoin.Prelude.{
  ℕ, ◌+◌, true, false, none, some, List, [], ◌∷◌, ltb, length, ◌≡◌, refl, ap, ◌∙◌, arith, ◌≤◌,
  Bool-cases, Option-cases, inl, inr, ltb→le, length-map,
}
use deckxcoin.Prelude.{All}
use deckxcoin.Prelude.Eq.{◌===◌, string_eq, nat_eq, pair_eq}
use deckxcoin.Prelude.JsMap
use deckxcoin.Prelude.JsMap.{JsMap, IsMap, get-put, get-delete}
use deckxcoin.Tx.{Hex, Transaction}
use deckxcoin.Tx.Oracle.{Oracle}
use deckxcoin.Tx.Serialize.{Encoder, serialize_tx}
use deckxcoin.State.{WorldState}
use deckxcoin.Chain.Apply.{apply_tx}
use deckxcoin.Chain.Attempt.{Receipt, got, ends, at_got, at_refuse, at_throw}
use deckxcoin.Node.Mempool.{
  MempoolEntry, Mempool, admitted, first_conflict, remove, remove_entry, removed, clear, cheapest,
  entries_of, evict_cheapest, insert_entry, grow, admit, add_new, add, on_tip,
}
use deckxcoin.Node.Mempool.Consistent.{IsConsistent, removed-IsConsistent, grow-IsConsistent}

-- What `add` has tested of an entry that it admits, and what it makes of the pool.
pub record IsAdmitted (o : Oracle) (tx : Transaction) (state : WorldState) (height time : ℕ)
    (pool after : Mempool) (entry : MempoolEntry) : Type 0 where
  pub new : JsMap.get (o.txid tx) pool.entries ≡ none
  pub clear : first_conflict (o.txid tx) pool.spent tx.inputs ≡ none
  pub receipt : Receipt
  pub state_after : WorldState
  pub applies : apply_tx o tx (on_tip height time) state ≡ got (receipt, state_after)
  pub own_tx : entry.tx ≡ tx
  pub own_id : entry.txid ≡ o.txid tx
  pub own_fee : entry.fee ≡ receipt.fee
  pub pays : ltb entry.fee_rate pool.min_fee_rate ≡ false
  pub result : after ≡ insert_entry entry pool

module _ (o : Oracle) (enc : Encoder) (tx : Transaction) (state : WorldState) (height time now : ℕ)
    (pool after : Mempool) (entry : MempoolEntry) where
  admit-parts :
      (fee : ℕ)
      → admit enc tx (o.txid tx) fee height now pool ≡ admitted after entry
      → (entry.tx ≡ tx)
        × (entry.txid ≡ o.txid tx)
        × (entry.fee ≡ fee)
        × (ltb entry.fee_rate pool.min_fee_rate ≡ false)
        × (after ≡ insert_entry entry pool)
  unfolding admit
  admit-parts fee h = elim (Option-cases (serialize_tx enc tx true)) [
    | inl e ↦ absurd (ground arith)
    | inr (bytes, e) ↦ ground arith
  ]

  pub add-IsAdmitted :
      add o enc tx state height time now pool ≡ admitted after entry
      → IsAdmitted o tx state height time pool after entry
  unfolding add add_new
  add-IsAdmitted h = elim (Option-cases (JsMap.get (o.txid tx) pool.entries)) [
    | inr (old, e) ↦ absurd (ground arith)
    | inl new ↦ elim (Option-cases (first_conflict (o.txid tx) pool.spent tx.inputs)) [
      | inr (clash, e) ↦ absurd (ground arith)
      | inl clear ↦ elim (ends (apply_tx o tx (on_tip height time) state)) [
        | at_throw e ↦ absurd (ground arith)
        | at_refuse why fee gas e ↦ absurd (ground arith)
        | at_got (r, t) e ↦
            let (t1, t2, t3, t4, t5) = admit-parts r.fee (ground arith) in
            record {
              new = new;
              clear = clear;
              receipt = r;
              state_after = t;
              applies = e;
              own_tx = t1;
              own_id = t2;
              own_fee = t3;
              pays = t4;
              result = t5;
            }
      ]
    ]
  ]

-- Every entry is found under its own id.
pub entries-get :
    (pool : Mempool)
    → IsConsistent pool
    → All (λ e. JsMap.get e.txid pool.entries ≡ some e) (entries_of pool)
entries-get pool c =
    JsMap.values-get (λ (e : MempoolEntry). e.txid) pool.entries c.entries_map
      (λ j e g. (c.named j e g).0)

module _ {ℓ} (P : MempoolEntry → Type ℓ) where
  cheapest-some :
      (victim : MempoolEntry) (es : List MempoolEntry)
      → P victim
      → All P es
      → (e : MempoolEntry) × (cheapest (some victim) es ≡ some e) × P e
  unfolding cheapest
  cheapest-some victim [] p h = (victim, refl, p)
  cheapest-some victim (e ∷ es) p h = elim (Bool-cases (ltb e.fee_rate victim.fee_rate)) [
    | inl lower ↦ rw lower (cheapest-some e es h.0 h.1)
    | inr higher ↦ rw higher (cheapest-some victim es p h.1)
  ]

  cheapest-none :
      (es : List MempoolEntry)
      → 1 ≤ length es
      → All P es
      → (e : MempoolEntry) × (cheapest none es ≡ some e) × P e
  unfolding cheapest
  cheapest-none [] n h = absurd (omega arith)
  cheapest-none (e ∷ es) n h = cheapest-some e es h.0 h.1

pub removed-some :
    (id : Hex) (e : MempoolEntry) (pool : Mempool)
    → JsMap.get id pool.entries ≡ some e
    → removed id pool ≡ remove_entry id e pool
unfolding remove
removed-some id e pool g = ground arith

pub removed-none :
    (id : Hex) (pool : Mempool) → JsMap.get id pool.entries ≡ none → removed id pool ≡ pool
unfolding remove
removed-none id pool g = ground arith

removed-length :
    (id : Hex) (e : MempoolEntry) (pool : Mempool)
    → JsMap.get id pool.entries ≡ some e
    → length (removed id pool).entries + 1 ≡ length pool.entries
unfolding remove_entry
removed-length id e pool g = rw (removed-some id e pool g) (JsMap.length-delete id e pool.entries g)

removed-le : (id : Hex) (pool : Mempool) → length (removed id pool).entries ≤ length pool.entries
removed-le id pool = elim (Option-cases (JsMap.get id pool.entries)) [
  | inl absent ↦ rw (removed-none id pool absent) (omega arith)
  | inr (e, g) ↦ omega (arith, removed-length id e pool g)
]

evict-some :
    (victim : MempoolEntry) (pool : Mempool)
    → cheapest none (entries_of pool) ≡ some victim
    → evict_cheapest pool ≡ removed victim.txid pool
unfolding evict_cheapest
evict-some victim pool g = cc

evict-none : (pool : Mempool) → cheapest none (entries_of pool) ≡ none → evict_cheapest pool ≡ pool
unfolding evict_cheapest
evict-none pool g = cc

evict-IsConsistent : (pool : Mempool) → IsConsistent pool → IsConsistent (evict_cheapest pool)
evict-IsConsistent pool c = elim (Option-cases (cheapest none (entries_of pool))) [
  | inl e ↦ rw (evict-none pool e) c
  | inr (victim, e) ↦ rw (evict-some victim pool e) (removed-IsConsistent victim.txid pool c)
]

evict-length :
    (pool : Mempool)
    → IsConsistent pool
    → 1 ≤ length pool.entries
    → length (evict_cheapest pool).entries + 1 ≡ length pool.entries
evict-length pool c n =
    let (victim, e, g) =
      cheapest-none (λ (e : MempoolEntry). JsMap.get e.txid pool.entries ≡ some e) (entries_of pool)
        (omega (arith, length-map (λ (p : Hex × MempoolEntry). p.1) pool.entries))
        (entries-get pool c) in
    rw (evict-some victim pool e) (removed-length victim.txid victim pool g)

evict-le : (pool : Mempool) → length (evict_cheapest pool).entries ≤ length pool.entries
evict-le pool = elim (Option-cases (cheapest none (entries_of pool))) [
  | inl e ↦ rw (evict-none pool e) (omega arith)
  | inr (victim, e) ↦ rw (evict-some victim pool e) (removed-le victim.txid pool)
]

-- The two maps agree, and there are at most `max_size` entries.
pub record IsSound (pool : Mempool) : Type 0 where
  pub consistent : IsConsistent pool
  pub bounded : length pool.entries ≤ pool.max_size

pub removed-IsSound : (id : Hex) (pool : Mempool) → IsSound pool → IsSound (removed id pool)
removed-IsSound id pool s = record {
  consistent = removed-IsConsistent id pool s.consistent;
  bounded = elim (Option-cases (JsMap.get id pool.entries)) [
    | inl absent ↦ rw (removed-none id pool absent) s.bounded
    | inr (e, g) ↦
        let k : (removed id pool).max_size ≡ pool.max_size =
          unfold remove_entry in ap (λ (p : Mempool). p.max_size) (removed-some id e pool g) in
        omega (arith, removed-length id e pool g, k, s.bounded)
  ];
}

insert_entry-big :
    (entry : MempoolEntry) (pool : Mempool)
    → ltb pool.max_size (length (grow entry pool).entries) ≡ true
    → insert_entry entry pool ≡ evict_cheapest (grow entry pool)
unfolding insert_entry
insert_entry-big entry pool h = ground arith

insert_entry-small :
    (entry : MempoolEntry) (pool : Mempool)
    → ltb pool.max_size (length (grow entry pool).entries) ≡ false
    → insert_entry entry pool ≡ grow entry pool
unfolding insert_entry
insert_entry-small entry pool h = ground arith

max_size-removed : (id : Hex) (pool : Mempool) → (removed id pool).max_size ≡ pool.max_size
unfolding remove_entry
max_size-removed id pool = elim (Option-cases (JsMap.get id pool.entries)) [
  | inl absent ↦ ap (λ (p : Mempool). p.max_size) (removed-none id pool absent)
  | inr (e, g) ↦ ap (λ (p : Mempool). p.max_size) (removed-some id e pool g)
]

max_size-evict_cheapest : (pool : Mempool) → (evict_cheapest pool).max_size ≡ pool.max_size
max_size-evict_cheapest pool = elim (Option-cases (cheapest none (entries_of pool))) [
  | inl e ↦ ap (λ (p : Mempool). p.max_size) (evict-none pool e)
  | inr (victim, e) ↦
      ap (λ (p : Mempool). p.max_size) (evict-some victim pool e)
      ∙ max_size-removed victim.txid pool
]

pub insert_entry-IsSound :
    (entry : MempoolEntry) (pool : Mempool)
    → IsSound pool
    → IsConsistent (grow entry pool)
    → IsSound (insert_entry entry pool)
unfolding grow
insert_entry-IsSound entry pool s c =
    let n = JsMap.length-put entry.txid entry pool.entries in
    elim (Bool-cases (ltb pool.max_size (length (grow entry pool).entries))) [
      | inl big ↦
          let one : 1 ≤ length (grow entry pool).entries = ground arith in
          let l = evict-length (grow entry pool) c one in
          let k = max_size-evict_cheapest (grow entry pool) in
          rw (insert_entry-big entry pool big) (record {
            consistent = evict-IsConsistent (grow entry pool) c;
            bounded = omega (arith, l, k, n, s.bounded);
          })
      | inr small ↦ rw (insert_entry-small entry pool small) (record {
        consistent = c;
        bounded = ltb→le pool.max_size (length (grow entry pool).entries) small;
      })
    ]

pub add-IsSound :
    (o : Oracle) (enc : Encoder) (tx : Transaction) (state : WorldState) (height time now : ℕ)
    (pool after : Mempool) (entry : MempoolEntry)
    → (o.txid tx === "") ≡ false
    → IsSound pool
    → add o enc tx state height time now pool ≡ admitted after entry
    → IsSound after
add-IsSound o enc tx state height time now pool after entry filled s h =
    let a = add-IsAdmitted o enc tx state height time now pool after entry h in
    rw a.result (
      insert_entry-IsSound entry pool s (
        grow-IsConsistent entry pool s.consistent (rw a.own_id a.new)
          (rw (a.own_id, a.own_tx) a.clear) (rw a.own_id filled)))
