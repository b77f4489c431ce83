-- ===== src/Node/Mempool.antt =====
-- `Mempool` of chain/src/node/mempool.ts: its entries, the outpoints that they spend, and what
-- changes them.
pub mod Consistent
pub mod Sound
pub mod Reachable
pub mod Template
pub mod Revalidate
use deckxcoin.Prelude.{
  ℕ, ◌+◌, ◌-◌, Bool, true, false, ◌&&◌, not, Option, none, some, List, [], ◌∷◌, ltb, length,
  if◌then◌else◌,
}
use deckxcoin.Prelude.Eq.{◌===◌, string_eq, nat_eq, pair_eq}
use deckxcoin.Prelude.JsMap
use deckxcoin.Prelude.JsMap.{JsMap}
use deckxcoin.Prelude.Double.{Double, to_number, quotient}
use deckxcoin.Tx.{Hex, TxInput, Transaction, is_coinbase}
use deckxcoin.Tx.Oracle.{Oracle}
use deckxcoin.Tx.Serialize.{Encoder, serialize_tx}
use deckxcoin.State.{Outpoint, WorldState}
use deckxcoin.Chain.Apply.{apply_tx}
use deckxcoin.Chain.Attempt.{ApplyError, got, refuse, throws, TxContext}
use deckxcoin.Chain.Apply.Coins.{key_of}

pub record MempoolEntry : Type 0 where
  pub tx : Transaction
  pub txid : Hex
  pub fee : ℕ
  pub size : ℕ
  pub fee_rate : Double
  pub added_at : ℕ
  pub added_at_height : ℕ

pub record Mempool : Type 0 where
  pub entries : JsMap Hex MempoolEntry
  pub spent : JsMap Outpoint Hex
  pub max_size : ℕ
  pub min_fee_rate : Double
  pub expiry_blocks : ℕ

pub record MempoolOptions : Type 0 where
  pub max_size : Option ℕ
  pub min_fee_rate : Option Double
  pub expiry_blocks : Option ℕ

abbrev or_else : Option ℕ → ℕ → ℕ
or_else none d = d
or_else (some v) d = v

abbrev pub new_mempool : MempoolOptions → Mempool
new_mempool opts = record {
  entries = [];
  spent = [];
  max_size = or_else opts.max_size 5000;
  min_fee_rate = or_else opts.min_fee_rate 0;
  expiry_blocks = or_else opts.expiry_blocks 336;
}

-- The texts of `add`.
pub data PoolError : Type 0 where
  never_relayed : PoolError
  conflicts : Hex → Outpoint → PoolError
  inapplicable : ApplyError → PoolError
  low_fee_rate : PoolError

-- `admitted` carries the pool as it then is; `known` is the duplicate; `crashes`: an exception leaves
-- `add`. The pool changes in none of the other cases.
pub data AddResult : Type 0 where
  admitted : Mempool → MempoolEntry → AddResult
  known : MempoolEntry → AddResult
  refused : PoolError → AddResult
  crashes : AddResult

-- The first input whose outpoint another pooled transaction spends. An empty text counts as no owner.
unfoldable pub first_conflict : Hex → JsMap Outpoint Hex → List TxInput → Option (Hex × Outpoint)
first_conflict id spent [] = none
first_conflict id spent (input ∷ rest) =
    let later = first_conflict id spent rest in
    elim (JsMap.get (key_of input) spent) [
      | none ↦ later
      | some owner ↦
          if not (owner === "") && not (owner === id) then some (owner, key_of input) else later
    ]

unfoldable pub claim_inputs : Hex → List TxInput → JsMap Outpoint Hex → JsMap Outpoint Hex
claim_inputs id [] spent = spent
claim_inputs id (input ∷ rest) spent = claim_inputs id rest (JsMap.put (key_of input) id spent)

-- `if (this.#spent.get(key) === id) this.#spent.delete(key)`, for every input.
unfoldable pub release_inputs : Hex → List TxInput → JsMap Outpoint Hex → JsMap Outpoint Hex
release_inputs id [] spent = spent
release_inputs id (input ∷ rest) spent =
    release_inputs id rest (JsMap.delete_if (key_of input) id spent)

unfoldable pub remove_entry : Hex → MempoolEntry → Mempool → Mempool
unfolding release_inputs
remove_entry id entry pool = record pool {
  entries = JsMap.delete id pool.entries;
  spent = release_inputs id entry.tx.inputs pool.spent;
}

-- `none`: there is no such entry, and the method returns false.
unfoldable pub remove : Hex → Mempool → Option Mempool
unfolding remove_entry
remove id pool = elim (JsMap.get id pool.entries) [
  | none ↦ none
  | some entry ↦ some (remove_entry id entry pool)
]

abbrev pub removed : Hex → Mempool → Mempool
removed id pool = elim (remove id pool) [ none ↦ pool | some after ↦ after ]

abbrev pub clear : Mempool → Mempool
clear pool = record pool { entries = []; spent = [] }

abbrev pub entries_of : Mempool → List MempoolEntry
entries_of pool = JsMap.values pool.entries

-- The first of the entries with the least fee rate, where `victim` is the best so far.
unfoldable pub cheapest : Option MempoolEntry → List MempoolEntry → Option MempoolEntry
cheapest victim [] = victim
cheapest none (entry ∷ rest) = cheapest (some entry) rest
cheapest (some victim) (entry ∷ rest) =
    cheapest (some (if ltb entry.fee_rate victim.fee_rate then entry else victim)) rest

unfoldable pub evict_cheapest : Mempool → Mempool
unfolding cheapest remove
evict_cheapest pool = elim (cheapest none (entries_of pool)) [
  | none ↦ pool
  | some victim ↦ removed victim.txid pool
]

-- The context of a validation on top of the tip at `height`.
abbrev pub on_tip : ℕ → ℕ → TxContext
on_tip height time = record { height = height + 1; time = time; available_fees = 0 }

abbrev pub rate_of : ℕ → ℕ → Double
rate_of fee size = if ltb 0 size then quotient (to_number fee) size else 0

unfoldable pub grow : MempoolEntry → Mempool → Mempool
unfolding claim_inputs
grow entry pool = record pool {
  entries = JsMap.put entry.txid entry pool.entries;
  spent = claim_inputs entry.txid entry.tx.inputs pool.spent;
}

unfoldable pub insert_entry : MempoolEntry → Mempool → Mempool
unfolding grow evict_cheapest
insert_entry entry pool =
    let grown = grow entry pool in
    if ltb pool.max_size (length grown.entries) then evict_cheapest grown else grown

-- From the fee of a transaction that applies; `now` is `Date.now()`.
unfoldable pub admit : Encoder → Transaction → Hex → ℕ → ℕ → ℕ → Mempool → AddResult
unfolding insert_entry
admit enc tx id fee height now pool = elim (serialize_tx enc tx true) [
  | none ↦ crashes
  | some bytes ↦
      let rate = rate_of fee (length bytes) in
      let entry : MempoolEntry = record {
        tx = tx;
        txid = id;
        fee = fee;
        size = length bytes;
        fee_rate = rate;
        added_at = now;
        added_at_height = height;
      } in
      if ltb rate pool.min_fee_rate
      then refused low_fee_rate
      else admitted (insert_entry entry pool) entry
]

-- The tests behind the one for a duplicate.
unfoldable pub add_new :
    Oracle → Encoder → Transaction → WorldState → ℕ → ℕ → ℕ → Mempool → AddResult
unfolding first_conflict admit
add_new o enc tx state height time now pool =
    if is_coinbase tx.kind
    then refused never_relayed
    else elim (first_conflict (o.txid tx) pool.spent tx.inputs) [
      | some clash ↦ refused (conflicts clash.0 clash.1)
      | none ↦ elim (apply_tx o tx (on_tip height time) state) [
        | throws ↦ crashes
        | refuse e fee gas ↦ refused (inapplicable e)
        | got after ↦ admit enc tx (o.txid tx) after.0.fee height now pool
      ]
    ]

unfoldable pub add : Oracle → Encoder → Transaction → WorldState → ℕ → ℕ → ℕ → Mempool → AddResult
unfolding add_new
add o enc tx state height time now pool = elim (JsMap.get (o.txid tx) pool.entries) [
  | some entry ↦ known entry
  | none ↦ add_new o enc tx state height time now pool
]

-- How many left, and the pool without them.
unfoldable pub on_block_connected : Oracle → List Transaction → Mempool → ℕ × Mempool
unfolding remove
on_block_connected o [] pool = (0, pool)
on_block_connected o (tx ∷ rest) pool = elim (remove (o.txid tx) pool) [
  | none ↦ on_block_connected o rest pool
  | some after ↦ let (n, last) = on_block_connected o rest after in (n + 1, last)
]

-- The pool, the number restored, and whether an exception left the loop there.
unfoldable pub on_block_disconnected :
    Oracle → Encoder → List Transaction → WorldState → ℕ → ℕ → ℕ → Mempool → ℕ × Mempool × Bool
unfolding add
on_block_disconnected o enc [] state height time now pool = (0, pool, false)
on_block_disconnected o enc (tx ∷ rest) state height time now pool =
    if is_coinbase tx.kind
    then on_block_disconnected o enc rest state height time now pool
    else elim (add o enc tx state height time now pool) [
      | admitted after entry ↦
          let (n, last, threw) = on_block_disconnected o enc rest state height time now after in
          (n + 1, last, threw)
      | known entry ↦ on_block_disconnected o enc rest state height time now pool
      | refused e ↦ on_block_disconnected o enc rest state height time now pool
      | crashes ↦ (0, pool, true)
    ]

abbrev pub expired : ℕ → Mempool → MempoolEntry → Bool
expired height pool entry = ltb (entry.added_at_height + pool.expiry_blocks) height

abbrev and_drop : Hex → Option (List Hex) → Option (List Hex)
and_drop id none = none
and_drop id (some ids) = some (id ∷ ids)

-- The ids that `revalidate` drops; `none`: an exception leaves it before anything is dropped.
unfoldable pub stale : Oracle → WorldState → ℕ → ℕ → Mempool → List MempoolEntry → Option (List Hex)
stale o state height time pool [] = some []
stale o state height time pool (entry ∷ rest) =
    let later = stale o state height time pool rest in
    let drop_it = and_drop entry.txid later in
    if expired height pool entry
    then drop_it
    else elim (apply_tx o entry.tx (on_tip height time) state) [
      | throws ↦ none
      | refuse e fee gas ↦ drop_it
      | got after ↦ later
    ]

unfoldable pub remove_all : List Hex → Mempool → Mempool
unfolding remove
remove_all [] pool = pool
remove_all (id ∷ rest) pool = remove_all rest (removed id pool)

unfoldable pub revalidate : Oracle → WorldState → ℕ → ℕ → Mempool → Option (ℕ × Mempool)
unfolding stale remove_all
revalidate o state height time pool = elim (stale o state height time pool (entries_of pool)) [
  | none ↦ none
  | some dropped ↦ some (length dropped, remove_all dropped pool)
]
