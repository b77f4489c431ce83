-- ===== src/Node/ChainState/Undo/Notes.antt =====
-- The notes of `#connect` (chain/src/node/chainstate.ts), and the contracts that it notes first.
use Prim.Native.String.{String}
use deckxcoin.Prelude.{
  ◌≡◌, refl, sym, false, ◌&&◌, not, Option, none, some, List, [], ◌∷◌, arith, if◌then◌else◌,
  Bool-cases, Option-cases, inl, inr, ◌⊎◌, subst, All,
}
use deckxcoin.Prelude.Eq.{◌===◌, string_eq, ===→eq, ===_refl}
use deckxcoin.Prelude.JsMap
use deckxcoin.Prelude.JsMap.{JsMap, IsMap, get-put, put-IsMap}
use deckxcoin.Tx.{Transaction}
use deckxcoin.State.{ContractAccount, WorldState, get_contract}
use deckxcoin.Node.Draft.{Before, target_of, note, targets_before}

module _ {V : Type 0} where
  pub note-get :
      (j k : String) (v : V) (m : JsMap String V)
      → JsMap.get j (note k v m)
        ≡ (if (j === k) && not (JsMap.has k m) then some v else JsMap.get j m)
  note-get j k v m = ground (arith, get-put j k v m)

  pub note-IsMap : (k : String) (v : V) (m : JsMap String V) → IsMap m → IsMap (note k v m)
  note-IsMap k v m h = ground (arith, put-IsMap k v m h)

  -- A noted key has a value, and one with a value keeps it.
  pub note-keeps :
      (j k : String) (v w : V) (m : JsMap String V)
      → JsMap.get j m ≡ some w
      → JsMap.get j (note k v m) ≡ some w
  note-keeps j k v w m h = elim (Bool-cases (j === k)) [
    | inl same ↦
        let h2 = subst (λ j. JsMap.get j m ≡ some w) (===→eq j k same) h in
        let g = note-get j k v m in ground arith
    | inr other ↦ let g = note-get j k v m in ground arith
  ]

  pub note_self :
      (k : String) (v : V) (m : JsMap String V) → (w : V) × (JsMap.get k (note k v m) ≡ some w)
  note_self k v m = elim (Option-cases (JsMap.get k m)) [
    | inl e ↦ (v, let g = note-get k k v m in ground (arith, ===_refl k))
    | inr (w, e) ↦ (w, note-keeps k k v w m e)
  ]

  pub note-none :
      (j k : String) (v : V) (m : JsMap String V)
      → JsMap.get j (note k v m) ≡ none
      → ((j === k) ≡ false) × (JsMap.get j m ≡ none)
  note-none j k v m h = elim (Option-cases (JsMap.get j m)) [
    | inr (w, e) ↦ let g = note-keeps j k v w m e in absurd (ground arith)
    | inl e ↦ elim (Bool-cases (j === k)) [
      | inl same ↦
          let (w, g) = note_self k v m in
          let g2 = subst (λ j. JsMap.get j (note k v m) ≡ some w) (sym (===→eq j k same)) g in
          absurd (ground arith)
      | inr other ↦ (other, e)
    ]
  ]

  -- A value that is found after a note is the new one or an old one.
  pub note-some :
      (j k : String) (v w : V) (m : JsMap String V)
      → JsMap.get j (note k v m) ≡ some w
      → (JsMap.get j m ≡ some w) ⊎ ((j ≡ k) × (v ≡ w) × (JsMap.get k m ≡ none))
  note-some j k v w m h = elim (Option-cases (JsMap.get k m)) [
    | inr (x, e) ↦ let g = note-get j k v m in inl (ground arith)
    | inl e ↦
        let g = note-get j k v m in
        elim (Bool-cases (j === k)) [
          | inl same ↦ inr (===→eq j k same, ground arith, e)
          | inr other ↦ inl (ground arith)
        ]
  ]

-- The record holds the target that the transaction names.
abbrev pub Knows : Before → Transaction → Type 0
Knows before tx =
    (target : String)
    → target_of tx ≡ some target
    → (v : Option ContractAccount) × (JsMap.get target before ≡ some v)

-- The targets that `#connect` records first.
targets_before-keeps :
    (p : WorldState) (txs : List Transaction) (before : Before) (a : String)
    (v : Option ContractAccount)
    → JsMap.get a before ≡ some v
    → JsMap.get a (targets_before p txs before) ≡ some v
unfolding targets_before
targets_before-keeps p [] before a v h = h
targets_before-keeps p (tx ∷ txs) before a v h = elim (Option-cases (target_of tx)) [
  | inl e ↦ rw (targets_before, e) (targets_before-keeps p txs before a v h)
  | inr (target, e) ↦
      rw (targets_before, e)
        (targets_before-keeps p txs (note target (get_contract target p) before) a v
          (note-keeps a target (get_contract target p) v before h))
]

targets_before-plain :
    (p : WorldState) (tx : Transaction) (txs : List Transaction) (before : Before)
    → target_of tx ≡ none
    → targets_before p (tx ∷ txs) before ≡ targets_before p txs before
unfolding targets_before
targets_before-plain p tx txs before e = rw (targets_before, e) refl

targets_before-noted :
    (p : WorldState) (tx : Transaction) (txs : List Transaction) (before : Before) (target : String)
    → target_of tx ≡ some target
    → targets_before p (tx ∷ txs) before
      ≡ targets_before p txs (note target (get_contract target p) before)
unfolding targets_before
targets_before-noted p tx txs before target e = rw (targets_before, e) refl

pub targets_before-Knows :
    (p : WorldState) (txs : List Transaction) (before : Before)
    → All (Knows (targets_before p txs before)) txs
unfolding targets_before
targets_before-Knows p [] before = tt
targets_before-Knows p (tx ∷ txs) before = elim (Option-cases (target_of tx)) [
  | inl e ↦ (
    λ target h. absurd (ground arith),
    subst (λ b. All (Knows b) txs) (sym (targets_before-plain p tx txs before e))
        (targets_before-Knows p txs before),
  )
  | inr (address, e) ↦
      let noted = note address (get_contract address p) before in
      (
        λ target h.
            let (v, g) = note_self address (get_contract address p) before in
            let same : address ≡ target = ground arith in
            (v, rw (targets_before, e) (targets_before-keeps p txs noted target v (rw (← same) g))),
        subst (λ b. All (Knows b) txs) (sym (targets_before-noted p tx txs before address e))
            (targets_before-Knows p txs noted),
      )
]

pub targets_before-old :
    (p : WorldState) (txs : List Transaction) (before : Before)
    → IsMap before
    → ((a : String) (v : Option ContractAccount)
        → JsMap.get a before ≡ some v
        → v ≡ JsMap.get a p.contracts)
    → IsMap (targets_before p txs before)
      × ((a : String) (v : Option ContractAccount)
          → JsMap.get a (targets_before p txs before) ≡ some v
          → v ≡ JsMap.get a p.contracts)
unfolding targets_before get_contract
targets_before-old p [] before m h = (m, h)
targets_before-old p (tx ∷ txs) before m h = elim (Option-cases (target_of tx)) [
  | inl e ↦ rw (targets_before, e) (targets_before-old p txs before m h)
  | inr (target, e) ↦
      rw (targets_before, e)
        (targets_before-old p txs (note target (get_contract target p) before)
          (note-IsMap target (get_contract target p) before m)
          (λ a v g. elim (note-some a target (get_contract target p) v before g) [
            | inl old ↦ h a v old
            | inr (same, new, free) ↦ rw same (sym new)
          ]))
]
