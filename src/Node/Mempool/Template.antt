-- ===== src/Node/Mempool/Template.antt =====
-- `forBlock` and `stats` of chain/src/node/mempool.ts. The depth of `visit` is counted down from 26, the
-- calls that it lets through.
pub mod Distinct
pub mod Complete
pub mod Ordered
use deckxcoin.Prelude.{
  ℕ, zero, suc, ◌+◌, Bool, ◌||◌, not, none, some, List, [], ◌∷◌, ◌++◌, ltb, leb, length, any,
  if◌then◌else◌, min, max,
}
use deckxcoin.Prelude.Eq.{◌===◌, string_eq}
use deckxcoin.Prelude.JsMap
use deckxcoin.Prelude.Double.{Double}
use deckxcoin.Tx.{Hex, TxInput, Transaction}
use deckxcoin.Node.Mempool.{MempoolEntry, Mempool, entries_of}

-- The transactions so far, and the ids that are emitted.
pub record Template : Type 0 where
  pub emitted : List Hex
  pub out : List Transaction

abbrev pub among : Hex → List Hex → Bool
among id ids = any (λ other. id === other) ids

-- Array.prototype.sort by fee rate, the highest first; equal rates keep their order.
unfoldable pub insert_by_fee : MempoolEntry → List MempoolEntry → List MempoolEntry
insert_by_fee e [] = e ∷ []
insert_by_fee e (f ∷ rest) =
    if ltb e.fee_rate f.fee_rate then f ∷ insert_by_fee e rest else e ∷ f ∷ rest

unfoldable pub sort_by_fee : List MempoolEntry → List MempoolEntry
unfolding insert_by_fee
sort_by_fee [] = []
sort_by_fee (e ∷ es) = insert_by_fee e (sort_by_fee es)

-- Emitted already, or no room.
abbrev pub is_done : ℕ → Hex → Template → Bool
is_done limit id t = among id t.emitted || leb limit (length t.out)

unfoldable pub emit : ℕ → MempoolEntry → Template → Template
emit limit entry t =
    if is_done limit entry.txid t
    then t
    else record { emitted = t.emitted ++ entry.txid ∷ []; out = t.out ++ entry.tx ∷ [] }

-- The parent of an input, where it is pooled and not emitted yet, by the call `go`.
unfoldable pub visit_parent :
    Mempool → (MempoolEntry → Template → Template) → TxInput → Template → Template
visit_parent pool go input t = elim (JsMap.get input.txid pool.entries) [
  | none ↦ t
  | some parent ↦ if among input.txid t.emitted then t else go parent t
]

unfoldable pub visit_parents :
    Mempool → (MempoolEntry → Template → Template) → List TxInput → Template → Template
unfolding visit_parent
visit_parents pool go [] t = t
visit_parents pool go (input ∷ rest) t = visit_parents pool go rest (visit_parent pool go input t)

unfoldable pub visit : Mempool → ℕ → ℕ → MempoolEntry → Template → Template
unfolding emit visit_parents
visit pool limit zero entry t = t
visit pool limit (suc calls) entry t =
    let u = visit_parents pool (visit pool limit calls) entry.tx.inputs t in
    if is_done limit entry.txid t then t else emit limit entry u

unfoldable pub visit_all : Mempool → ℕ → List MempoolEntry → Template → Template
unfolding visit
visit_all pool limit [] t = t
visit_all pool limit (entry ∷ rest) t = visit_all pool limit rest (visit pool limit 26 entry t)

abbrev pub blank : Template
blank = record { emitted = []; out = [] }

abbrev pub template_of : Mempool → ℕ → Template
template_of pool limit = visit_all pool limit (sort_by_fee (entries_of pool)) blank

unfoldable pub for_block : Mempool → ℕ → List Transaction
unfolding visit_all sort_by_fee
for_block pool limit = (template_of pool limit).out

pub record PoolStats : Type 0 where
  pub count : ℕ
  pub bytes : ℕ
  pub total_fees : ℕ
  pub min_fee_rate : Double
  pub max_fee_rate : Double

lowest : Double → List MempoolEntry → Double
lowest rate [] = rate
lowest rate (e ∷ es) = lowest (min rate e.fee_rate) es

highest : Double → List MempoolEntry → Double
highest rate [] = rate
highest rate (e ∷ es) = highest (max rate e.fee_rate) es

-- The rates of an empty pool are zero.
abbrev stats_of : List MempoolEntry → PoolStats
unfolding lowest highest
stats_of [] = record { count = 0; bytes = 0; total_fees = 0; min_fee_rate = 0; max_fee_rate = 0 }
stats_of (e ∷ es) =
    let rest = stats_of es in
    record {
      count = suc rest.count;
      bytes = e.size + rest.bytes;
      total_fees = e.fee + rest.total_fees;
      min_fee_rate = lowest e.fee_rate es;
      max_fee_rate = highest e.fee_rate es;
    }

unfoldable pub stats : Mempool → PoolStats
unfolding lowest highest
stats pool = stats_of (entries_of pool)
