-- ===== src/Node/Mempool/Revalidate.antt =====
-- What `revalidate` of chain/src/node/mempool.ts leaves in the pool.
use deckxcoin.Prelude.{
  ℕ, ◌+◌, ◌≤◌, Bool, true, none, some, List, [], ◌∷◌, if◌then◌else◌, ◌≡◌, refl, sym, arith,
  Bool-cases, Option-cases, inl, inr, subst, any, All, All-imp, ◌↔◌, ◌⊎◌,
}
use deckxcoin.Prelude.Eq.{◌===◌, string_eq, ===→eq, ===_refl}
use deckxcoin.Prelude.JsMap
use deckxcoin.Prelude.JsMap.{IsMap, get-delete}
use deckxcoin.Tx.{Hex}
use deckxcoin.Tx.Oracle.{Oracle}
use deckxcoin.State.{WorldState}
use deckxcoin.Chain.Apply.{apply_tx}
use deckxcoin.Chain.Attempt.{ApplyError, Receipt, got, refuse, ends, at_got, at_refuse, at_throw}
use deckxcoin.Node.Mempool.{
  MempoolEntry, Mempool, remove_entry, removed, on_tip, expired, stale, remove_all, revalidate,
  entries_of,
}
use deckxcoin.Node.Mempool.Consistent.{IsConsistent, removed-IsConsistent}
use deckxcoin.Node.Mempool.Sound.{removed-some, removed-none, entries-get}

abbrev among : Hex → List Hex → Bool
among id ids = any (λ other. id === other) ids

removed-get :
    (j id : Hex) (pool : Mempool)
    → IsConsistent pool
    → JsMap.get j (removed id pool).entries ≡ (if j === id then none else JsMap.get j pool.entries)
removed-get j id pool c = elim (Option-cases (JsMap.get id pool.entries)) [
  | inl absent ↦ rw (removed-none id pool absent) (elim (Bool-cases (j === id)) [
    | inl same ↦ rw same (rw (===→eq j id same) absent)
    | inr other ↦ rw other refl
  ])
  | inr (e, g) ↦
      rw (removed-some id e pool g)
        (unfold remove_entry in get-delete j id pool.entries c.entries_map)
]

remove_all-get :
    (j : Hex) (ids : List Hex) (pool : Mempool)
    → IsConsistent pool
    → JsMap.get j (remove_all ids pool).entries
      ≡ (if among j ids then none else JsMap.get j pool.entries)
unfolding remove_all
remove_all-get j [] pool c = refl
remove_all-get j (id ∷ ids) pool c =
    let r = remove_all-get j ids (removed id pool) (removed-IsConsistent id pool c) in
    let g = removed-get j id pool c in ground arith

module _ (o : Oracle) (state : WorldState) (height time : ℕ) (pool : Mempool) where
  -- The entry is at most `expiry_blocks` old, and its transaction applies on top of the tip.
  abbrev pub IsLive : MempoolEntry → Type 0
  IsLive e =
      (height ≤ e.added_at_height + pool.expiry_blocks)
      × (r : Receipt) × (t : WorldState) × (apply_tx o e.tx (on_tip height time) state ≡ got (r, t))

  abbrev IsStale : MempoolEntry → Type 0
  IsStale e =
      (expired height pool e ≡ true)
      ⊎ ((why : ApplyError) × (fee : ℕ) × (gas : ℕ) × (apply_tx o e.tx (on_tip height time) state
            ≡ refuse why fee gas))

  live-IsStale : (e : MempoolEntry) → IsLive e → ¬ IsStale e
  live-IsStale e l = ground arith

  -- One entry's part in the ids that are dropped: it is live and adds none, or it is stale and adds its own.
  stale-cons :
      (e : MempoolEntry) (es : List MempoolEntry) (ids : List Hex)
      → stale o state height time pool (e ∷ es) ≡ some ids
      → (IsLive e × (stale o state height time pool es ≡ some ids))
        ⊎ (IsStale e
            × (later : List Hex) × (stale o state height time pool es ≡ some later)
            × (ids ≡ e.txid ∷ later))
  unfolding stale
  stale-cons e es ids h = elim (Option-cases (stale o state height time pool es)) [
    | inl bad ↦ absurd (elim (Bool-cases (expired height pool e)) [
      | inl old ↦ ground arith
      | inr fresh ↦ elim (ends (apply_tx o e.tx (on_tip height time) state)) [
        | at_throw x ↦ ground arith
        | at_refuse why fee gas x ↦ ground arith
        | at_got rt x ↦ ground arith
      ]
    ])
    | inr (later, rest) ↦ elim (Bool-cases (expired height pool e)) [
      | inl old ↦ inr (inl old, later, rest, ground arith)
      | inr fresh ↦ elim (ends (apply_tx o e.tx (on_tip height time) state)) [
        | at_throw x ↦ absurd (ground arith)
        | at_refuse why fee gas x ↦ inr (inr (why, fee, gas, x), later, rest, ground arith)
        | at_got rt x ↦ inl ((ground arith, rt.0, rt.1, x), ground arith)
      ]
    ]
  ]

  -- An id that is dropped has a stale entry, and an entry whose id is not dropped is live.
  stale-ids :
      (P : MempoolEntry → Type 0) (es : List MempoolEntry) (ids : List Hex)
      → All P es
      → stale o state height time pool es ≡ some ids
      → All (λ e. (among e.txid ids ≡ true) ⊎ IsLive e) es
        × ((id : Hex) → among id ids ≡ true → (e : MempoolEntry) × P e × (e.txid ≡ id) × IsStale e)
  stale-ids P [] ids p h = (tt, λ id m. absurd (unfold stale in ground arith))
  stale-ids P (e ∷ es) ids p h = elim (stale-cons e es ids h) [
    | inl (live, rest) ↦ let (one, two) = stale-ids P es ids p.1 rest in ((inr live, one), two)
    | inr (old, later, rest, same) ↦
        let (one, two) = stale-ids P es later p.1 rest in
        rw same (
          (
            inl (ground (arith, ===_refl e.txid)),
            All-imp (λ f m. elim m [ inl there ↦ inl (ground arith) | inr live ↦ inr live ]) es one,
          ),
          λ id m. elim (Bool-cases (id === e.txid)) [
            | inl self ↦ (e, p.0, sym (===→eq id e.txid self), old)
            | inr other ↦ two id (ground arith)
          ],
        )
  ]

  revalidate-parts :
      (n : ℕ) (after : Mempool)
      → revalidate o state height time pool ≡ some (n, after)
      → (ids : List Hex) × (stale o state height time pool (entries_of pool) ≡ some ids)
        × (after ≡ remove_all ids pool)
  unfolding revalidate
  revalidate-parts n after h =
      elim (Option-cases (stale o state height time pool (entries_of pool))) [
        | inl e ↦ absurd (ground arith)
        | inr (ids, e) ↦ (ids, e, ground arith)
      ]

  -- When `revalidate` returns on a pool whose two maps agree, an entry is in the pool exactly if it was
  -- and is live: not older than `expiry_blocks`, with a transaction that applies to the state of the tip.
  pub revalidate-keeps :
      (n : ℕ) (after : Mempool) (id : Hex) (e : MempoolEntry)
      → IsConsistent pool
      → revalidate o state height time pool ≡ some (n, after)
      → (JsMap.get id after.entries ≡ some e) ↔ ((JsMap.get id pool.entries ≡ some e) × IsLive e)
  revalidate-keeps n after id e c h =
      let (ids, dropped, same) = revalidate-parts n after h in
      let (kept, gone) =
        stale-ids (λ e. JsMap.get e.txid pool.entries ≡ some e) (entries_of pool) ids
          (entries-get pool c) dropped in
      let g = remove_all-get id ids pool c in
      rw same (
        λ there.
            let before : JsMap.get id pool.entries ≡ some e = ground arith in
            (
              before,
              elim (JsMap.values-All _ id e pool.entries kept before) [
                | inl m ↦
                    let name = (c.named id e before).0 in
                    let own = subst (λ i. among i ids ≡ true) name m in absurd (ground arith)
                | inr live ↦ live
              ],
            ),
        λ (before, live). elim (Bool-cases (among id ids)) [
          | inl m ↦
              let (f, there, name, old) = gone id m in
              let found = subst (λ i. JsMap.get i pool.entries ≡ some f) name there in
              let self : f ≡ e = ground arith in
              absurd (live-IsStale e live (subst IsStale self old))
          | inr out ↦ ground arith
        ],
      )
