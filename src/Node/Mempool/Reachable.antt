-- ===== src/Node/Mempool/Reachable.antt =====
-- What holds of every pool that the methods of chain/src/node/mempool.ts make.
use deckxcoin.Prelude.{
  ℕ, true, false, some, List, [], ◌∷◌, ◌≡◌, refl, arith, Bool-cases, Option-cases, inl, inr, subst,
}
use deckxcoin.Prelude.Eq.{◌===◌, string_eq, nat_eq, pair_eq}
use deckxcoin.Prelude.JsMap
use deckxcoin.Prelude.JsMap.{JsMap, IsMap, get-put, get-delete}
use deckxcoin.Tx.{Hex, Transaction, is_coinbase}
use deckxcoin.Tx.Oracle.{Oracle}
use deckxcoin.Tx.Serialize.{Encoder}
use deckxcoin.State.{Outpoint, WorldState}
use deckxcoin.Chain.Apply.Outpoints.{spends}
use deckxcoin.Node.Mempool.{
  MempoolEntry, Mempool, MempoolOptions, new_mempool, AddResult, PoolError, admitted, known,
  refused, crashes, remove, removed, clear, add, on_block_connected, on_block_disconnected,
  remove_all, revalidate, stale, entries_of,
}
use deckxcoin.Node.Mempool.Consistent.{empty-IsConsistent}
use deckxcoin.Node.Mempool.Sound.{IsSound, removed-IsSound, add-IsSound}

remove-removed :
    (id : Hex) (pool after : Mempool) → remove id pool ≡ some after → removed id pool ≡ after
remove-removed id pool after h = ground arith

remove-IsSound :
    (id : Hex) (pool after : Mempool) → IsSound pool → remove id pool ≡ some after → IsSound after
remove-IsSound id pool after s h =
    subst IsSound (remove-removed id pool after h) (removed-IsSound id pool s)

connected-IsSound :
    (o : Oracle) (txs : List Transaction) (pool : Mempool)
    → IsSound pool
    → IsSound (on_block_connected o txs pool).1
unfolding on_block_connected
connected-IsSound o [] pool s = s
connected-IsSound o (tx ∷ rest) pool s = elim (Option-cases (remove (o.txid tx) pool)) [
  | inl absent ↦ rw (on_block_connected, absent) (connected-IsSound o rest pool s)
  | inr (after, e) ↦
      rw (on_block_connected, e)
        (connected-IsSound o rest after (remove-IsSound (o.txid tx) pool after s e))
]

remove_all-IsSound :
    (ids : List Hex) (pool : Mempool) → IsSound pool → IsSound (remove_all ids pool)
unfolding remove_all
remove_all-IsSound [] pool s = s
remove_all-IsSound (id ∷ rest) pool s =
    remove_all-IsSound rest (removed id pool) (removed-IsSound id pool s)

-- The four ways an `add` ends.
data AddEnds (r : AddResult) : Type 0 where
  at_admitted : (after : Mempool) (entry : MempoolEntry) → r ≡ admitted after entry → AddEnds r
  at_known : (entry : MempoolEntry) → r ≡ known entry → AddEnds r
  at_refused : (e : PoolError) → r ≡ refused e → AddEnds r
  at_crash : r ≡ crashes → AddEnds r

add_ends : (r : AddResult) → AddEnds r
add_ends (admitted after entry) = at_admitted after entry refl
add_ends (known entry) = at_known entry refl
add_ends (refused e) = at_refused e refl
add_ends crashes = at_crash refl

module _ (o : Oracle) (enc : Encoder)
    (filled : (tx : Transaction) → (o.txid tx === "") ≡ false) where
  disconnected-IsSound :
      (txs : List Transaction) (state : WorldState) (height time now : ℕ) (pool : Mempool)
      → IsSound pool
      → IsSound (on_block_disconnected o enc txs state height time now pool).1
  unfolding on_block_disconnected
  disconnected-IsSound [] state height time now pool s = s
  disconnected-IsSound (tx ∷ rest) state height time now pool s =
      elim (Bool-cases (is_coinbase tx.kind)) [
        | inl skip ↦
            rw (on_block_disconnected, skip)
              (disconnected-IsSound rest state height time now pool s)
        | inr other ↦ elim (add_ends (add o enc tx state height time now pool)) [
          | at_admitted after entry e ↦
              rw (on_block_disconnected, other, e)
                (disconnected-IsSound rest state height time now after
                  (add-IsSound o enc tx state height time now pool after entry (filled tx) s e))
          | at_known entry e ↦
              rw (on_block_disconnected, other, e)
                (disconnected-IsSound rest state height time now pool s)
          | at_refused why e ↦
              rw (on_block_disconnected, other, e)
                (disconnected-IsSound rest state height time now pool s)
          | at_crash e ↦ rw (on_block_disconnected, other, e) s
        ]
      ]

  -- A call that changes the pool.
  pub data Change : Mempool → Mempool → Type 0 where
    adds :
        {pool after : Mempool} (tx : Transaction) (state : WorldState) (height time now : ℕ)
        (entry : MempoolEntry)
        → add o enc tx state height time now pool ≡ admitted after entry
        → Change pool after
    removes : {pool after : Mempool} (id : Hex) → remove id pool ≡ some after → Change pool after
    clears : {pool : Mempool} → Change pool (clear pool)
    connects :
        {pool : Mempool} (txs : List Transaction) → Change pool (on_block_connected o txs pool).1
    disconnects :
        {pool : Mempool} (txs : List Transaction) (state : WorldState) (height time now : ℕ)
        → Change pool (on_block_disconnected o enc txs state height time now pool).1
    revalidates :
        {pool after : Mempool} (state : WorldState) (height time n : ℕ)
        → revalidate o state height time pool ≡ some (n, after)
        → Change pool after

  pub data Reachable : Mempool → Type 0 where
    starts : (opts : MempoolOptions) → Reachable (new_mempool opts)
    continues : {pool after : Mempool} → Reachable pool → Change pool after → Reachable after

  revalidate-IsSound :
      (state : WorldState) (height time n : ℕ) (pool after : Mempool)
      → IsSound pool
      → revalidate o state height time pool ≡ some (n, after)
      → IsSound after
  unfolding revalidate
  revalidate-IsSound state height time n pool after s h =
      elim (Option-cases (stale o state height time pool (entries_of pool))) [
        | inl e ↦ absurd (ground arith)
        | inr (dropped, e) ↦ subst IsSound (ground arith) (remove_all-IsSound dropped pool s)
      ]

  Change-IsSound : {pool after : Mempool} → Change pool after → IsSound pool → IsSound after
  Change-IsSound {pool} {after} (adds tx state height time now entry e) s =
      add-IsSound o enc tx state height time now pool after entry (filled tx) s e
  Change-IsSound {pool} {after} (removes id e) s = remove-IsSound id pool after s e
  Change-IsSound {pool} clears s = record {
    consistent = empty-IsConsistent (clear pool) refl refl;
    bounded = omega arith;
  }
  Change-IsSound {pool} (connects txs) s = connected-IsSound o txs pool s
  Change-IsSound {pool} (disconnects txs state height time now) s =
      disconnected-IsSound txs state height time now pool s
  Change-IsSound {pool} {after} (revalidates state height time n e) s =
      revalidate-IsSound state height time n pool after s e

  -- Whatever methods have run, the pool holds at most `max_size` entries, each entry stands under its own
  -- id, the outpoints that entries spend are recorded as theirs, and no others are recorded; if no
  -- transaction has the empty text for its id.
  pub Reachable-IsSound : {pool : Mempool} → Reachable pool → IsSound pool
  Reachable-IsSound (starts opts) = record {
    consistent = empty-IsConsistent (new_mempool opts) refl refl;
    bounded = omega arith;
  }
  Reachable-IsSound (continues r c) = Change-IsSound c (Reachable-IsSound r)

  -- Two pooled transactions never spend one outpoint, whatever methods have run, if no transaction has
  -- the empty text for its id.
  pub Reachable-apart :
      {pool : Mempool} (i j : Hex) (a b : MempoolEntry) (k : Outpoint)
      → Reachable pool
      → JsMap.get i pool.entries ≡ some a
      → JsMap.get j pool.entries ≡ some b
      → spends a.tx.inputs k ≡ true
      → spends b.tx.inputs k ≡ true
      → i ≡ j
  Reachable-apart {pool} i j a b k r ga gb sa sb =
      let c = (Reachable-IsSound r).consistent in
      let x = c.recorded i a k ga sa in let y = c.recorded j b k gb sb in ground arith
