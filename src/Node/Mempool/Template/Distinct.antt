-- ===== src/Node/Mempool/Template/Distinct.antt =====
-- What `forBlock` of chain/src/node/mempool.ts emits: pooled transactions, each once, and all of them
-- if there is room.
use deckxcoin.Prelude.{
  ℕ, zero, suc, ◌+◌, ◌≤◌, false, ◌||◌, some, List, [], ◌∷◌, ◌++◌, ltb, length, map, ◌≡◌, refl, sym,
  ap, ◌∙◌, arith, Bool-cases, Option-cases, inl, inr, subst, All, All-append, ◌↔◌, length-map,
  length-append,
}
use deckxcoin.Prelude.Eq.{◌===◌, string_eq}
use deckxcoin.Prelude.JsMap
use deckxcoin.Tx.{Hex, TxInput, Transaction}
use deckxcoin.Node.Mempool.{MempoolEntry, Mempool, entries_of}
use deckxcoin.Node.Mempool.Consistent.{IsConsistent}
use deckxcoin.Node.Mempool.Sound.{entries-get}
use deckxcoin.Node.Mempool.Template.{
  Template, among, insert_by_fee, sort_by_fee, is_done, emit, visit_parent, visit_parents, visit,
  visit_all, blank, for_block,
}

abbrev pub ids_of : List MempoolEntry → List Hex
ids_of es = map (λ (e : MempoolEntry). e.txid) es

abbrev pub txs_of : List MempoolEntry → List Transaction
txs_of es = map (λ (e : MempoolEntry). e.tx) es

abbrev pub IsDistinct : List Hex → Type 0
IsDistinct [] = Unit
IsDistinct (id ∷ ids) = (among id ids ≡ false) × IsDistinct ids

pub among-append :
    (id : Hex) (xs ys : List Hex) → among id (xs ++ ys) ≡ (among id xs || among id ys)
among-append id [] ys = refl
among-append id (x ∷ xs) ys = ground (arith, among-append id xs ys)

append-IsDistinct :
    (xs : List Hex) (id : Hex) → IsDistinct xs → among id xs ≡ false → IsDistinct (xs ++ id ∷ [])
append-IsDistinct [] id d n = (refl, tt)
append-IsDistinct (x ∷ xs) id d n =
    let a = among-append x xs (id ∷ []) in
    let other : (x === id) ≡ false =
      ground (arith, string_eq.beq_iff x id, string_eq.beq_iff id x) in
    (ground arith, append-IsDistinct xs id d.1 (ground arith))

pub map-append {ℓ κ} :
    {A : Type ℓ} {B : Type κ} (f : A → B) (xs ys : List A) → map f (xs ++ ys) ≡ map f xs ++ map f ys
map-append f [] ys = refl
map-append f (x ∷ xs) ys = ap (λ zs. f x ∷ zs) (map-append f xs ys)

abbrev pub IsPooled : Mempool → MempoolEntry → Type 0
IsPooled pool e = JsMap.get e.txid pool.entries ≡ some e

pub found-IsPooled :
    (pool : Mempool)
    → IsConsistent pool
    → (id : Hex) (e : MempoolEntry) → JsMap.get id pool.entries ≡ some e
    → IsPooled pool e
found-IsPooled pool c id e g =
    subst (λ id. JsMap.get id pool.entries ≡ some e) (sym (c.named id e g).0) g

module _ (pool : Mempool) (limit : ℕ) where
  -- What is emitted is some pooled entries, each once, within the limit.
  abbrev pub IsPart : Template → Type 0
  IsPart t =
      (es : List MempoolEntry) × (t.emitted ≡ ids_of es)
      × (t.out ≡ txs_of es)
      × IsDistinct (ids_of es)
      × All (IsPooled pool) es
      × (length es ≤ limit)

  emit-IsPart :
      (e : MempoolEntry) (t : Template) → IsPooled pool e → IsPart t → IsPart (emit limit e t)
  unfolding emit
  emit-IsPart e t p (es, ids, txs, d, pooled, n) = elim (Bool-cases (is_done limit e.txid t)) [
    | inl done ↦ rw done (es, ids, txs, d, pooled, n)
    | inr fresh ↦
        let apart : among e.txid t.emitted ≡ false = ground arith in
        let room : length t.out + 1 ≤ limit = ground arith in
        rw fresh (
          es ++ e ∷ [],
          ap (λ xs. xs ++ e.txid ∷ []) ids
              ∙ sym (map-append (λ (e : MempoolEntry). e.txid) es (e ∷ [])),
          ap (λ xs. xs ++ e.tx ∷ []) txs
              ∙ sym (map-append (λ (e : MempoolEntry). e.tx) es (e ∷ [])),
          rw (map-append (λ (e : MempoolEntry). e.txid) es (e ∷ []))
              (append-IsDistinct (ids_of es) e.txid d (rw (← ids) apart)),
          All-append (IsPooled pool) es (e ∷ []) pooled (p, tt),
          omega (
            arith,
            length-append es (e ∷ []),
            length-map (λ (e : MempoolEntry). e.tx) es,
            room,
            ap length txs,
          ),
        )
  ]

  parent-IsPart :
      (go : MempoolEntry → Template → Template)
      → ((e : MempoolEntry) (t : Template) → IsPooled pool e → IsPart t → IsPart (go e t))
      → IsConsistent pool
      → (input : TxInput) (t : Template) → IsPart t
      → IsPart (visit_parent pool go input t)
  unfolding visit_parent
  parent-IsPart go keeps c input t p = elim (Option-cases (JsMap.get input.txid pool.entries)) [
    | inl absent ↦ rw (visit_parent, absent) p
    | inr (parent, e) ↦ elim (Bool-cases (among input.txid t.emitted)) [
      | inl there ↦ rw (visit_parent, e, there) p
      | inr away ↦
          rw (visit_parent, e, away) (keeps parent t (found-IsPooled pool c input.txid parent e) p)
    ]
  ]

  parents-IsPart :
      (go : MempoolEntry → Template → Template)
      → ((e : MempoolEntry) (t : Template) → IsPooled pool e → IsPart t → IsPart (go e t))
      → IsConsistent pool
      → (inputs : List TxInput) (t : Template) → IsPart t
      → IsPart (visit_parents pool go inputs t)
  unfolding visit_parents
  parents-IsPart go keeps c [] t p = p
  parents-IsPart go keeps c (input ∷ rest) t p =
      parents-IsPart go keeps c rest (visit_parent pool go input t)
        (parent-IsPart go keeps c input t p)

  visit-IsPart :
      (calls : ℕ) (e : MempoolEntry) (t : Template)
      → IsConsistent pool
      → IsPooled pool e
      → IsPart t
      → IsPart (visit pool limit calls e t)
  unfolding visit
  visit-IsPart zero e t c p h = h
  visit-IsPart (suc calls) e t c p h =
      let u =
        parents-IsPart (visit pool limit calls) (λ f v q g. visit-IsPart calls f v c q g) c
          e.tx.inputs t h in
      let after = emit-IsPart e (visit_parents pool (visit pool limit calls) e.tx.inputs t) p u in
      elim (Bool-cases (is_done limit e.txid t)) [
        | inl done ↦ rw (visit, done) h
        | inr fresh ↦ rw (visit, fresh) after
      ]

  pub visit_all-IsPart :
      (es : List MempoolEntry) (t : Template)
      → IsConsistent pool
      → All (IsPooled pool) es
      → IsPart t
      → IsPart (visit_all pool limit es t)
  unfolding visit_all
  visit_all-IsPart [] t c p h = h
  visit_all-IsPart (e ∷ es) t c p h =
      visit_all-IsPart es (visit pool limit 26 e t) c p.1 (visit-IsPart 26 e t c p.0 h)

-- The sorting keeps the members.
module _ {ℓ} (P : MempoolEntry → Type ℓ) where
  All-insert :
      (e : MempoolEntry) (es : List MempoolEntry) → All P (insert_by_fee e es) ↔ (P e × All P es)
  unfolding insert_by_fee
  All-insert e [] = (λ h. h, λ h. h)
  All-insert e (f ∷ es) = elim (Bool-cases (ltb e.fee_rate f.fee_rate)) [
    | inl lower ↦
        let (to, from) = All-insert e es in
        rw lower (λ h. let (p, rest) = to h.1 in (p, (h.0, rest)), λ (p, h). (h.0, from (p, h.1)))
    | inr higher ↦ rw higher (λ h. h, λ h. h)
  ]

  pub All-sort : (es : List MempoolEntry) → All P (sort_by_fee es) ↔ All P es
  unfolding sort_by_fee
  All-sort [] = (λ h. h, λ h. h)
  All-sort (e ∷ es) =
      let (to, from) = All-insert e (sort_by_fee es) in
      let (down, up) = All-sort es in
      (λ h. let (p, rest) = to h in (p, down rest), λ (p, h). from (p, up h))

-- Of a pool whose two maps agree, `forBlock` returns the transactions of pooled entries, at most `limit`
-- of them and none twice.
pub for_block-IsPart :
    (pool : Mempool) (limit : ℕ)
    → IsConsistent pool
    → (es : List MempoolEntry) × (for_block pool limit ≡ txs_of es)
      × IsDistinct (ids_of es)
      × All (IsPooled pool) es
      × (length es ≤ limit)
unfolding for_block
for_block-IsPart pool limit c =
    let sorted = (All-sort (IsPooled pool) (entries_of pool)).1 (entries-get pool c) in
    let (es, ids, txs, d, p, n) =
      visit_all-IsPart pool limit (sort_by_fee (entries_of pool)) blank c sorted
        ([], refl, refl, tt, tt, omega arith) in
    (es, txs, d, p, n)
