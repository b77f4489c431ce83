-- ===== src/Node/Mempool/Template/Ordered.antt =====
-- `forBlock` of chain/src/node/mempool.ts emits parents before children, where no chain of pooled
-- transactions is too long for its depth.
use deckxcoin.Prelude.{
  All-append, ℕ, zero, suc, ◌≤◌, ◌<◌, true, ◌||◌, none, some, List, [], ◌∷◌, ◌++◌, ◌≡◌, refl, sym,
  ap, ◌∙◌, arith, Bool-cases, Option-cases, inl, inr, subst, All, All-imp, ◌⊎◌,
}
use deckxcoin.Prelude.Eq.{string_eq}
use deckxcoin.Prelude.JsMap
use deckxcoin.Tx.{Hex, TxInput}
use deckxcoin.Node.Mempool.{MempoolEntry, Mempool, entries_of}
use deckxcoin.Node.Mempool.Consistent.{IsConsistent}
use deckxcoin.Node.Mempool.Sound.{entries-get}
use deckxcoin.Node.Mempool.Template.{
  Template, among, sort_by_fee, is_done, emit, visit_parent, visit_parents, visit, visit_all, blank,
  for_block,
}
use deckxcoin.Node.Mempool.Template.Distinct.{
  IsDistinct, visit_all-IsPart, ids_of, txs_of, IsPooled, found-IsPooled, map-append, All-sort,
}
use deckxcoin.Node.Mempool.Template.Complete.{
  Grows, parents-Grows, visit-Grows, IsSettled, Grows-IsSettled, visit-IsSettled,
}

-- The input spends no pooled transaction, or one with its id in the list.
abbrev pub IsFed : Mempool → List Hex → TxInput → Type 0
IsFed pool seen input = (JsMap.get input.txid pool.entries ≡ none) ⊎ (among input.txid seen ≡ true)

-- The pooled parents of each entry stand before it, or in `seen`.
abbrev pub IsOrdered : Mempool → List Hex → List MempoolEntry → Type 0
IsOrdered pool seen [] = Unit
IsOrdered pool seen (e ∷ es) = All (IsFed pool seen) e.tx.inputs × IsOrdered pool (e.txid ∷ seen) es

append-IsOrdered :
    (pool : Mempool) (seen : List Hex) (es : List MempoolEntry) (e : MempoolEntry)
    → IsOrdered pool seen es
    → All
        (λ (input : TxInput).
          (JsMap.get input.txid pool.entries ≡ none)
          ⊎ ((among input.txid (ids_of es) || among input.txid seen) ≡ true))
        e.tx.inputs
    → IsOrdered pool seen (es ++ e ∷ [])
append-IsOrdered pool seen [] e o fed = (fed, tt)
append-IsOrdered pool seen (x ∷ es) e o fed = (
  o.0,
  append-IsOrdered pool (x.txid ∷ seen) es e o.1 (
      All-imp (λ input f. elim f [ inl free ↦ inl free | inr m ↦ inr (ground arith) ]) e.tx.inputs
        fed),
)

module _ (pool : Mempool) (limit : ℕ) (c : IsConsistent pool) where
  abbrev IsSeries : Template → Type 0
  IsSeries t =
      (es : List MempoolEntry) × (t.emitted ≡ ids_of es)
      × (t.out ≡ txs_of es)
      × All (IsPooled pool) es
      × IsOrdered pool [] es

  abbrev IsReady : Template → TxInput → Type 0
  IsReady t input = (JsMap.get input.txid pool.entries ≡ none) ⊎ IsSettled pool limit input.txid t

  emit-IsSeries :
      (e : MempoolEntry) (t : Template)
      → IsPooled pool e
      → All (IsReady t) e.tx.inputs
      → IsSeries t
      → IsSeries (emit limit e t)
  unfolding emit
  emit-IsSeries e t pooled ready (es, ids, txs, p, o) = elim (Bool-cases (is_done limit e.txid t)) [
    | inl done ↦ rw done (es, ids, txs, p, o)
    | inr fresh ↦ rw fresh (
      es ++ e ∷ [],
      ap (λ xs. xs ++ e.txid ∷ []) ids
          ∙ sym (map-append (λ (e : MempoolEntry). e.txid) es (e ∷ [])),
      ap (λ xs. xs ++ e.tx ∷ []) txs ∙ sym (map-append (λ (e : MempoolEntry). e.tx) es (e ∷ [])),
      All-append (IsPooled pool) es (e ∷ []) p (pooled, tt),
      append-IsOrdered pool [] es e o (
          All-imp
            (λ input r. elim r [
              | inl free ↦ inl free
              | inr (inl m) ↦ inr (let m2 = rw ids at m in ground arith)
              | inr (inr full) ↦ absurd (ground arith)
            ])
            e.tx.inputs ready),
    )
  ]

  -- What `visit_parents` needs of its calls: they go up the order, never take back, and settle the parent.
  record Visits (go : MempoolEntry → Template → Template) (e : MempoolEntry) : Type 0 where
    series : (t : Template) → IsSeries t → IsSeries (go e t)
    settles : (t : Template) → IsSettled pool limit e.txid (go e t)

  abbrev Goes : (MempoolEntry → Template → Template) → TxInput → Type 0
  Goes go input = (p : MempoolEntry) → JsMap.get input.txid pool.entries ≡ some p → Visits go p

  parent-IsSeries :
      (go : MempoolEntry → Template → Template) (input : TxInput) (t : Template)
      → Goes go input
      → IsSeries t
      → IsSeries (visit_parent pool go input t) × IsReady (visit_parent pool go input t) input
  unfolding visit_parent
  parent-IsSeries go input t v s = elim (Option-cases (JsMap.get input.txid pool.entries)) [
    | inl absent ↦ (rw (visit_parent, absent) s, inl absent)
    | inr (parent, e) ↦ elim (Bool-cases (among input.txid t.emitted)) [
      | inl there ↦ (rw (visit_parent, e, there) s, inr (rw (visit_parent, e, there) (inl there)))
      | inr away ↦
          let w = v parent e in
          let settled : IsSettled pool limit input.txid (go parent t) =
            subst (λ id. IsSettled pool limit id (go parent t)) (c.named input.txid parent e).0
              (w.settles t) in
          (rw (visit_parent, e, away) (w.series t s), inr (rw (visit_parent, e, away) settled))
    ]
  ]

  Grows-IsReady :
      (input : TxInput) (t u : Template) → Grows pool limit t u → IsReady t input → IsReady u input
  Grows-IsReady input t u g (inl free) = inl free
  Grows-IsReady input t u g (inr s) = inr (Grows-IsSettled pool limit input.txid t u g s)

  parents-IsSeries :
      (go : MempoolEntry → Template → Template)
      → ((e : MempoolEntry) (t : Template) → Grows pool limit t (go e t))
      → (inputs : List TxInput) (t : Template) → All (Goes go) inputs
      → IsSeries t
      → IsSeries (visit_parents pool go inputs t)
        × All (IsReady (visit_parents pool go inputs t)) inputs
  unfolding visit_parents
  parents-IsSeries go g [] t v s = (s, tt)
  parents-IsSeries go g (input ∷ rest) t v s =
      let u = visit_parent pool go input t in
      let (s1, r1) = parent-IsSeries go input t v.0 s in
      let (s2, r2) = parents-IsSeries go g rest u v.1 s1 in
      (s2, (Grows-IsReady input u _ (parents-Grows pool limit go g rest u) r1, r2))

  -- A rank that goes down from a pooled transaction to its pooled parents.
  module _ (rank : Hex → ℕ)
      (ranked : (e : MempoolEntry)
        → IsPooled pool e
        → All
            (λ (input : TxInput).
              (JsMap.get input.txid pool.entries ≡ none) ⊎ (rank input.txid < rank e.txid))
            e.tx.inputs) where
    parents-lower :
        (e : MempoolEntry) (calls : ℕ)
        → IsPooled pool e
        → rank e.txid ≤ calls
        → ((p : MempoolEntry)
            → IsPooled pool p
            → rank p.txid < calls
            → Visits (visit pool limit calls) p)
        → All (Goes (visit pool limit calls)) e.tx.inputs
    parents-lower e calls pe n v =
        All-imp
          (λ input r p g. elim r [
            | inl free ↦ absurd (ground arith)
            | inr lower ↦
                let name = ap rank (c.named input.txid p g).0 in
                v p (found-IsPooled pool c input.txid p g) (omega (arith, name, lower, n))
          ])
          e.tx.inputs (ranked e pe)

    visit-Visits :
        (calls : ℕ) (e : MempoolEntry)
        → IsPooled pool e
        → rank e.txid < calls
        → Visits (visit pool limit calls) e
    unfolding visit
    visit-Visits zero e p n = absurd (omega arith)
    visit-Visits (suc calls) e p n = record {
      series = λ t s.
          let (u, ready) =
            parents-IsSeries (visit pool limit calls) (visit-Grows pool limit calls) e.tx.inputs t
              (parents-lower e calls p (omega arith) (λ q qp m. visit-Visits calls q qp m)) s in
          elim (Bool-cases (is_done limit e.txid t)) [
            | inl done ↦ rw (visit, done) s
            | inr fresh ↦
                rw (visit, fresh)
                  (emit-IsSeries e (visit_parents pool (visit pool limit calls) e.tx.inputs t) p
                    ready u)
          ];
      settles = λ t. visit-IsSettled pool limit calls e t;
    }

    visit_all-IsSeries :
        (es : List MempoolEntry) (t : Template)
        → All (λ (e : MempoolEntry). IsPooled pool e × (rank e.txid < 26)) es
        → IsSeries t
        → IsSeries (visit_all pool limit es t)
    unfolding visit_all
    visit_all-IsSeries [] t p s = s
    visit_all-IsSeries (e ∷ es) t p s =
        visit_all-IsSeries es (visit pool limit 26 e t) p.1
          ((visit-Visits 26 e p.0.0 p.0.1).series t s)

    -- Of a pool whose two maps agree, `forBlock` returns the transactions of distinct pooled entries, of
    -- which each has its pooled parents before it; if the parents of pooled entries have a lower rank, from 25 down.
    pub for_block-IsOrdered :
        ((e : MempoolEntry) → IsPooled pool e → rank e.txid < 26)
        → (es : List MempoolEntry) × (for_block pool limit ≡ txs_of es)
          × IsDistinct (ids_of es)
          × All (IsPooled pool) es
          × IsOrdered pool [] es
    unfolding for_block
    for_block-IsOrdered shallow =
        let all =
          All-imp (λ (e : MempoolEntry) g. (g, shallow e g)) (entries_of pool)
            (entries-get pool c) in
        let sorted =
          (All-sort (λ (e : MempoolEntry). IsPooled pool e × (rank e.txid < 26))
              (entries_of pool)).1
            all in
        let (es, ids, txs, p, o) =
          visit_all-IsSeries (sort_by_fee (entries_of pool)) blank sorted
            ([], refl, refl, tt, tt) in
        let plain = (All-sort (IsPooled pool) (entries_of pool)).1 (entries-get pool c) in
        let (fs, names, _, d, _, _) =
          visit_all-IsPart pool limit (sort_by_fee (entries_of pool)) blank c plain
            ([], refl, refl, tt, tt, omega arith) in
        (es, txs, subst IsDistinct (sym names ∙ ids) d, p, o)
