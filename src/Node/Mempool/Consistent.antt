-- ===== src/Node/Mempool/Consistent.antt =====
-- The two maps of the pool of chain/src/node/mempool.ts agree, after any operations.
use deckxcoin.Prelude.{
  true, false, ◌&&◌, none, some, List, [], ◌∷◌, if◌then◌else◌, ◌≡◌, refl, sym, ap, ◌∙◌, arith,
  Bool-cases, Option-cases, inl, inr, subst,
}
use deckxcoin.Prelude.Eq.{◌===◌, string_eq, nat_eq, pair_eq, ===→eq, ===_refl}
use deckxcoin.Prelude.JsMap
use deckxcoin.Prelude.JsMap.{
  JsMap, IsMap, get-put, put-IsMap, delete-IsMap, get-delete, get-delete_ne,
}
use deckxcoin.Tx.{Hex, TxInput}
use deckxcoin.State.{Outpoint}
use deckxcoin.Chain.Apply.Coins.{key_of}
use deckxcoin.Chain.Apply.Outpoints.{spends}
use deckxcoin.Node.Mempool.{
  grow, MempoolEntry, Mempool, first_conflict, claim_inputs, release_inputs, remove_entry, remove,
  removed,
}

-- The entry stands under its own id, which is not empty.
abbrev pub IsNamed : JsMap Hex MempoolEntry → Type 0
IsNamed entries =
    (id : Hex) (e : MempoolEntry)
    → JsMap.get id entries ≡ some e
    → (e.txid ≡ id) × ((id === "") ≡ false)

-- Each recorded outpoint is spent by the entry that owns it, and each outpoint that an entry spends is
-- recorded as its own.
pub record IsConsistent (pool : Mempool) : Type 0 where
  pub entries_map : IsMap pool.entries
  pub spent_map : IsMap pool.spent
  pub named : IsNamed pool.entries
  pub owner :
      (k : Outpoint) (id : Hex)
      → JsMap.get k pool.spent ≡ some id
      → (e : MempoolEntry) × (JsMap.get id pool.entries ≡ some e) × (spends e.tx.inputs k ≡ true)
  pub recorded :
      (id : Hex) (e : MempoolEntry) (k : Outpoint)
      → JsMap.get id pool.entries ≡ some e
      → spends e.tx.inputs k ≡ true
      → JsMap.get k pool.spent ≡ some id

module _ (id : Hex) (k : Outpoint) where
  pub release_inputs-get :
      (inputs : List TxInput) (spent : JsMap Outpoint Hex)
      → IsMap spent
      → IsMap (release_inputs id inputs spent)
        × (JsMap.get k (release_inputs id inputs spent)
            ≡ (if spends inputs k && JsMap.holds k id spent then none else JsMap.get k spent))
  unfolding release_inputs
  release_inputs-get [] spent m = (m, refl)
  release_inputs-get (input ∷ rest) spent m =
      let (mr, gr) =
        release_inputs-get rest (JsMap.delete_if (key_of input) id spent)
          (JsMap.delete_if-IsMap (key_of input) id spent m) in
      let gi = JsMap.get-delete_if k (key_of input) id spent m in (mr, ground arith)

  pub claim_inputs-get :
      (inputs : List TxInput) (spent : JsMap Outpoint Hex)
      → IsMap spent
      → IsMap (claim_inputs id inputs spent)
        × (JsMap.get k (claim_inputs id inputs spent)
            ≡ (if spends inputs k then some id else JsMap.get k spent))
  unfolding claim_inputs
  claim_inputs-get [] spent m = (m, refl)
  claim_inputs-get (input ∷ rest) spent m =
      let (mr, gr) =
        claim_inputs-get rest (JsMap.put (key_of input) id spent)
          (put-IsMap (key_of input) id spent m) in
      let gi = get-put k (key_of input) id spent in (mr, ground arith)

  -- Without a conflict, whoever owns an outpoint that an input spends has the empty id, or is `id`.
  pub first_conflict-none :
      (inputs : List TxInput) (spent : JsMap Outpoint Hex) (owner : Hex)
      → first_conflict id spent inputs ≡ none
      → spends inputs k ≡ true
      → JsMap.get k spent ≡ some owner
      → (owner === "") ≡ false
      → (owner === id) ≡ true
  unfolding first_conflict
  first_conflict-none [] spent owner h s g n = absurd (ground arith)
  first_conflict-none (input ∷ rest) spent owner h s g n = elim (Bool-cases (k === key_of input)) [
    | inl same ↦
        let g2 = subst (λ k. JsMap.get k spent ≡ some owner) (===→eq k (key_of input) same) g in
        ground arith
    | inr other ↦ first_conflict-none rest spent owner (ground arith) (ground arith) g n
  ]

pub empty-IsConsistent : (pool : Mempool) → pool.entries ≡ [] → pool.spent ≡ [] → IsConsistent pool
empty-IsConsistent pool e h = record {
  entries_map = rw e tt;
  spent_map = rw h tt;
  named = rw e (λ id e g. absurd (ground arith));
  owner = rw h (λ k id g. absurd (ground arith));
  recorded = rw e (λ id e k g s. absurd (ground arith));
}

module _ (id : Hex) (entry : MempoolEntry) (pool : Mempool) (c : IsConsistent pool) where
  -- What an entry is after a removal, it was before.
  pub remove_entry-get :
      (j : Hex) (e : MempoolEntry)
      → JsMap.get j (remove_entry id entry pool).entries ≡ some e
      → ((j === id) ≡ false) × (JsMap.get j pool.entries ≡ some e)
  unfolding remove_entry
  remove_entry-get j e g = let d = get-delete j id pool.entries c.entries_map in ground arith

  remove_entry-owner :
      (k : Outpoint) (j : Hex)
      → JsMap.get id pool.entries ≡ some entry
      → JsMap.get k (remove_entry id entry pool).spent ≡ some j
      → (e : MempoolEntry) × (JsMap.get j (remove_entry id entry pool).entries ≡ some e)
        × (spends e.tx.inputs k ≡ true)
  unfolding remove_entry
  remove_entry-owner k j h g =
      let (m, r) = release_inputs-get id k entry.tx.inputs pool.spent c.spent_map in
      let before : JsMap.get k pool.spent ≡ some j = ground arith in
      let (e, there, spending) = c.owner k j before in
      elim (Bool-cases (j === id)) [
        | inl same ↦
            let g2 = subst (λ j. JsMap.get j pool.entries ≡ some e) (===→eq j id same) there in
            let same_entry : e ≡ entry = ground arith in
            let spending2 =
              subst (λ (e : MempoolEntry). spends e.tx.inputs k ≡ true) same_entry spending in
            absurd (ground arith)
        | inr other ↦ (e, get-delete_ne j id pool.entries other ∙ there, spending)
      ]

  pub remove_entry-IsConsistent :
      JsMap.get id pool.entries ≡ some entry → IsConsistent (remove_entry id entry pool)
  unfolding remove_entry
  remove_entry-IsConsistent h = record {
    entries_map = delete-IsMap id pool.entries c.entries_map;
    spent_map = (release_inputs-get id ("", 0) entry.tx.inputs pool.spent c.spent_map).0;
    named = λ j e g. c.named j e ((remove_entry-get j e g).1);
    owner = λ k j g. remove_entry-owner k j h g;
    recorded = λ j e k g s.
        let (other, there) = remove_entry-get j e g in
        let before = c.recorded j e k there s in
        let (m, r) = release_inputs-get id k entry.tx.inputs pool.spent c.spent_map in ground arith;
  }

pub removed-IsConsistent :
    (id : Hex) (pool : Mempool) → IsConsistent pool → IsConsistent (removed id pool)
unfolding remove
removed-IsConsistent id pool c = elim (Option-cases (JsMap.get id pool.entries)) [
  | inl absent ↦ rw (removed, absent) c
  | inr (entry, there) ↦ rw (removed, there) (remove_entry-IsConsistent id entry pool c there)
]

module _ (entry : MempoolEntry) (pool : Mempool) (c : IsConsistent pool)
    (new : JsMap.get entry.txid pool.entries ≡ none)
    (clear : first_conflict entry.txid pool.spent entry.tx.inputs ≡ none) where
  -- Nobody owns the outpoints that a transaction without a conflict spends.
  unowned : (k : Outpoint) → spends entry.tx.inputs k ≡ true → JsMap.get k pool.spent ≡ none
  unowned k s = elim (Option-cases (JsMap.get k pool.spent)) [
    | inl free ↦ free
    | inr (owner, g) ↦
        let (e, there, spending) = c.owner k owner g in
        let (self, filled) = c.named owner e there in
        let same =
          first_conflict-none entry.txid k entry.tx.inputs pool.spent owner clear s g filled in
        let there2 =
          subst (λ j. JsMap.get j pool.entries ≡ some e) (===→eq owner entry.txid same) there in
        absurd (ground arith)
  ]

  grow-IsNamed : (entry.txid === "") ≡ false → IsNamed (grow entry pool).entries
  unfolding grow
  grow-IsNamed filled j e g = elim (Bool-cases (j === entry.txid)) [
    | inl same ↦
        let p = get-put j entry.txid entry pool.entries in
        let same_entry : entry ≡ e = ground arith in
        let id = ===→eq j entry.txid same in (rw (← same_entry) (sym id), rw id filled)
    | inr other ↦ let p = get-put j entry.txid entry pool.entries in c.named j e (ground arith)
  ]

  grow-owner :
      (k : Outpoint) (j : Hex)
      → JsMap.get k (grow entry pool).spent ≡ some j
      → (e : MempoolEntry) × (JsMap.get j (grow entry pool).entries ≡ some e)
        × (spends e.tx.inputs k ≡ true)
  unfolding grow
  grow-owner k j g =
      let (m, r) = claim_inputs-get entry.txid k entry.tx.inputs pool.spent c.spent_map in
      elim (Bool-cases (spends entry.tx.inputs k)) [
        | inl s ↦
            let id : entry.txid ≡ j = ground arith in
            (
              entry,
              rw (← id) (
                  get-put entry.txid entry.txid entry pool.entries
                  ∙ ap (λ b. if b then some entry else JsMap.get entry.txid pool.entries)
                      (===_refl entry.txid)),
              s,
            )
        | inr s ↦
            let (e, there, spending) = c.owner k j (ground arith) in
            elim (Bool-cases (j === entry.txid)) [
              | inl same ↦
                  let there2 =
                    subst (λ j. JsMap.get j pool.entries ≡ some e) (===→eq j entry.txid same)
                      there in
                  absurd (ground arith)
              | inr other ↦
                  let p = get-put j entry.txid entry pool.entries in (e, ground arith, spending)
            ]
      ]

  grow-recorded :
      (j : Hex) (e : MempoolEntry) (k : Outpoint)
      → JsMap.get j (grow entry pool).entries ≡ some e
      → spends e.tx.inputs k ≡ true
      → JsMap.get k (grow entry pool).spent ≡ some j
  unfolding grow
  grow-recorded j e k g s =
      let (m, r) = claim_inputs-get entry.txid k entry.tx.inputs pool.spent c.spent_map in
      let p = get-put j entry.txid entry pool.entries in
      elim (Bool-cases (j === entry.txid)) [
        | inl same ↦
            let same_entry : e ≡ entry = ground arith in
            let s2 = subst (λ (e : MempoolEntry). spends e.tx.inputs k ≡ true) same_entry s in
            rw (===→eq j entry.txid same) (r ∙ rw s2 refl)
        | inr other ↦
            let before = c.recorded j e k (ground arith) s in
            elim (Bool-cases (spends entry.tx.inputs k)) [
              | inl mine ↦ let free = unowned k mine in absurd (ground arith)
              | inr apart ↦ ground arith
            ]
      ]

  pub grow-IsConsistent : (entry.txid === "") ≡ false → IsConsistent (grow entry pool)
  unfolding grow
  grow-IsConsistent filled = record {
    entries_map = put-IsMap entry.txid entry pool.entries c.entries_map;
    spent_map = (claim_inputs-get entry.txid ("", 0) entry.tx.inputs pool.spent c.spent_map).0;
    named = grow-IsNamed filled;
    owner = grow-owner;
    recorded = grow-recorded;
  }
