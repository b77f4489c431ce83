-- ===== src/Node/Mempool/Template/Complete.antt =====
-- `forBlock` of chain/src/node/mempool.ts leaves out a pooled transaction only for want of room.
use deckxcoin.Prelude.{
  ℕ, zero, suc, ◌≤◌, true, some, List, [], ◌∷◌, length, ◌≡◌, refl, sym, ap, arith, Bool-cases,
  Option-cases, inl, inr, All, ◌⊎◌, length-map, length-append,
}
use deckxcoin.Prelude.Eq.{string_eq, ===_refl}
use deckxcoin.Prelude.JsMap
use deckxcoin.Tx.{Hex, TxInput}
use deckxcoin.Node.Mempool.{MempoolEntry, Mempool, entries_of}
use deckxcoin.Node.Mempool.Consistent.{IsConsistent}
use deckxcoin.Node.Mempool.Sound.{entries-get}
use deckxcoin.Node.Mempool.Template.{
  Template, among, sort_by_fee, is_done, emit, visit_parent, visit_parents, visit, visit_all, blank,
  template_of, for_block,
}
use deckxcoin.Node.Mempool.Template.Distinct.{
  ids_of, txs_of, IsDistinct, IsPooled, among-append, All-sort, visit_all-IsPart,
}

module _ (pool : Mempool) (limit : ℕ) where
  -- What is emitted stays so, and what is full stays full.
  pub record Grows (t u : Template) : Type 0 where
    pub keeps : (id : Hex) → among id t.emitted ≡ true → among id u.emitted ≡ true
    pub full : limit ≤ length t.out → limit ≤ length u.out

  pub Grows-refl : (t : Template) → Grows t t
  Grows-refl t = record { keeps = λ id h. h; full = λ h. h }

  pub Grows-trans : (t u v : Template) → Grows t u → Grows u v → Grows t v
  Grows-trans t u v a b = record {
    keeps = λ id h. b.keeps id (a.keeps id h);
    full = λ h. b.full (a.full h);
  }

  emit-Grows : (e : MempoolEntry) (t : Template) → Grows t (emit limit e t)
  unfolding emit
  emit-Grows e t = elim (Bool-cases (is_done limit e.txid t)) [
    | inl done ↦ rw done (Grows-refl t)
    | inr fresh ↦ rw fresh (record {
      keeps = λ id h. ground (arith, among-append id t.emitted (e.txid ∷ []));
      full = λ h. omega (arith, length-append t.out (e.tx ∷ []), h);
    })
  ]

  pub parent-Grows :
      (go : MempoolEntry → Template → Template)
      → ((e : MempoolEntry) (t : Template) → Grows t (go e t))
      → (input : TxInput) (t : Template) → Grows t (visit_parent pool go input t)
  unfolding visit_parent
  parent-Grows go g input t = elim (Option-cases (JsMap.get input.txid pool.entries)) [
    | inl absent ↦ rw (visit_parent, absent) (Grows-refl t)
    | inr (parent, e) ↦ elim (Bool-cases (among input.txid t.emitted)) [
      | inl there ↦ rw (visit_parent, e, there) (Grows-refl t)
      | inr away ↦ rw (visit_parent, e, away) (g parent t)
    ]
  ]

  pub parents-Grows :
      (go : MempoolEntry → Template → Template)
      → ((e : MempoolEntry) (t : Template) → Grows t (go e t))
      → (inputs : List TxInput) (t : Template) → Grows t (visit_parents pool go inputs t)
  unfolding visit_parents
  parents-Grows go g [] t = Grows-refl t
  parents-Grows go g (input ∷ rest) t =
      let u = visit_parent pool go input t in
      Grows-trans t u _ (parent-Grows go g input t) (parents-Grows go g rest u)

  pub visit-Grows :
      (calls : ℕ) (e : MempoolEntry) (t : Template) → Grows t (visit pool limit calls e t)
  unfolding visit
  visit-Grows zero e t = Grows-refl t
  visit-Grows (suc calls) e t =
      let u = visit_parents pool (visit pool limit calls) e.tx.inputs t in
      let a = parents-Grows (visit pool limit calls) (visit-Grows calls) e.tx.inputs t in
      elim (Bool-cases (is_done limit e.txid t)) [
        | inl done ↦ rw (visit, done) (Grows-refl t)
        | inr fresh ↦ rw (visit, fresh) (Grows-trans t u (emit limit e u) a (emit-Grows e u))
      ]

  -- Emitted, or there is no room for it.
  abbrev pub IsSettled : Hex → Template → Type 0
  IsSettled id t = (among id t.emitted ≡ true) ⊎ (limit ≤ length t.out)

  pub Grows-IsSettled : (id : Hex) (t u : Template) → Grows t u → IsSettled id t → IsSettled id u
  Grows-IsSettled id t u g (inl h) = inl (g.keeps id h)
  Grows-IsSettled id t u g (inr h) = inr (g.full h)

  done-IsSettled : (id : Hex) (t : Template) → is_done limit id t ≡ true → IsSettled id t
  done-IsSettled id t h = ground arith

  emit-IsSettled : (e : MempoolEntry) (t : Template) → IsSettled e.txid (emit limit e t)
  unfolding emit
  emit-IsSettled e t = elim (Bool-cases (is_done limit e.txid t)) [
    | inl done ↦ rw done (done-IsSettled e.txid t done)
    | inr fresh ↦
        rw fresh
          (inl (ground (arith, among-append e.txid t.emitted (e.txid ∷ []), ===_refl e.txid)))
  ]

  pub visit-IsSettled :
      (calls : ℕ) (e : MempoolEntry) (t : Template)
      → IsSettled e.txid (visit pool limit (suc calls) e t)
  unfolding visit
  visit-IsSettled calls e t = elim (Bool-cases (is_done limit e.txid t)) [
    | inl done ↦ rw (visit, done) (done-IsSettled e.txid t done)
    | inr fresh ↦
        rw (visit, fresh)
          (emit-IsSettled e (visit_parents pool (visit pool limit calls) e.tx.inputs t))
  ]

  visit_all-IsSettled :
      (es : List MempoolEntry) (t : Template)
      → Grows t (visit_all pool limit es t)
        × All (λ (e : MempoolEntry). IsSettled e.txid (visit_all pool limit es t)) es
  unfolding visit_all
  visit_all-IsSettled [] t = (Grows-refl t, tt)
  visit_all-IsSettled (e ∷ es) t =
      let u = visit pool limit 26 e t in
      let (g, h) = visit_all-IsSettled es u in
      (
        Grows-trans t u _ (visit-Grows 26 e t) g,
        (Grows-IsSettled e.txid u _ g (visit-IsSettled 25 e t), h),
      )

-- Of a pool whose two maps agree, `forBlock` returns the transactions of distinct pooled entries, and
-- every pooled entry is among them, unless there are `limit` of them.
pub for_block_complete :
    (pool : Mempool) (limit : ℕ)
    → IsConsistent pool
    → (es : List MempoolEntry) × (for_block pool limit ≡ txs_of es)
      × IsDistinct (ids_of es)
      × All (IsPooled pool) es
      × ((id : Hex) (e : MempoolEntry)
          → JsMap.get id pool.entries ≡ some e
          → (among id (ids_of es) ≡ true) ⊎ (length es ≡ limit))
unfolding for_block
for_block_complete pool limit c =
    let sorted = (All-sort (IsPooled pool) (entries_of pool)).1 (entries-get pool c) in
    let (es, ids, txs, d, p, n) =
      visit_all-IsPart pool limit (sort_by_fee (entries_of pool)) blank c sorted
        ([], refl, refl, tt, tt, omega arith) in
    let (g, settled) = visit_all-IsSettled pool limit (sort_by_fee (entries_of pool)) blank in
    let all =
      (All-sort (λ (e : MempoolEntry). IsSettled pool limit e.txid (template_of pool limit))
          (entries_of pool)).0
        settled in
    (
      es,
      txs,
      d,
      p,
      λ id e h. elim (JsMap.values-All _ id e pool.entries all h) [
        | inl m ↦ inl (rw (sym ids, sym ((c.named id e h).0)) m)
        | inr full ↦
            inr (omega (arith, full, ap length txs, length-map (λ (e : MempoolEntry). e.tx) es, n))
      ],
    )
