-- ===== src/Node/ChainState/Undo/Rewind.antt =====
-- What `#disconnect` of chain/src/node/chainstate.ts does to the unspent outputs.
use deckxcoin.Prelude.{
  ◌≡◌, refl, sym, Bool, true, Option, none, some, List, [], ◌∷◌, arith, any, any-append,
  if◌then◌else◌, Bool-cases, Option-cases, inl, inr, subst, All, All-append,
}
use deckxcoin.Prelude.Eq.{◌===◌, string_eq, nat_eq, pair_eq, ===→eq, ===_refl}
use deckxcoin.Prelude.JsMap
use deckxcoin.Prelude.JsMap.{JsMap, IsMap, get-put, put-IsMap, delete-IsMap, get-delete}
use deckxcoin.Tx.{TxInput, Transaction}
use deckxcoin.Tx.Oracle.{Oracle}
use deckxcoin.State.{Outpoint, Utxo, WorldState, outpoint, add_utxo, get_utxo, spend_utxo}
use deckxcoin.Chain.Apply.Coins.{key_of}
use deckxcoin.Chain.Apply.Outpoints.{spends, add_utxo-step, spend_utxo-step}
use deckxcoin.Node.ChainState.{unmake_one, unmake, unspend_one, unspend}
use deckxcoin.Node.Draft.{spent_by, spent_of, created_of}
use deckxcoin.Node.ChainState.Undo.Outpoints.{listed, Turns}

-- Each unspent output stands at its own outpoint.
abbrev pub IsPlaced : WorldState → Type 0
IsPlaced s = (key : Outpoint) (u : Utxo) → get_utxo key.0 key.1 s ≡ some u → (u.txid, u.vout) ≡ key

abbrev pub takes : Outpoint → List Transaction → Bool
takes key txs = any (λ (tx : Transaction). spends tx.inputs key) txs

abbrev pub held : Outpoint → List Utxo → Bool
held key us = any (λ (u : Utxo). key === outpoint u.txid u.vout) us

abbrev IsHeld : WorldState → Utxo → Type 0
IsHeld s u = get_utxo u.txid u.vout s ≡ some u

unmake_one-get :
    (k key : Outpoint) (s : WorldState)
    → IsMap s.utxos
    → IsMap (unmake_one k s).utxos
      × (get_utxo key.0 key.1 (unmake_one k s)
          ≡ (if key === k then none else get_utxo key.0 key.1 s))
unfolding unmake_one
unmake_one-get k key s m = elim (Option-cases (spend_utxo k.0 k.1 s)) [
  | inl e ↦
      let absent : get_utxo k.0 k.1 s ≡ none = unfold spend_utxo get_utxo in ground arith in
      rw (unmake_one, e)
        (
          m,
          elim (Bool-cases (key === k)) [
            | inl same ↦ rw same (rw (===→eq key k same) absent)
            | inr other ↦ rw other refl
          ],
        )
  | inr (t, e) ↦ rw (unmake_one, e) (spend_utxo-step k key s t m e)
]

pub unmake-get :
    (keys : List Outpoint) (key : Outpoint) (s : WorldState)
    → IsMap s.utxos
    → IsMap (unmake keys s).utxos
      × (get_utxo key.0 key.1 (unmake keys s)
          ≡ (if listed key keys then none else get_utxo key.0 key.1 s))
unfolding unmake
unmake-get [] key s m = (m, refl)
unmake-get (k ∷ keys) key s m =
    let (m1, g1) = unmake_one-get k key s m in
    let (m2, g2) = unmake-get keys key (unmake_one k s) m1 in (m2, ground arith)

-- The output that stands there, else the one that stood there before, where the list holds it.
abbrev or_held : Option Utxo → Bool → Option Utxo → Option Utxo
or_held (some u) h before = some u
or_held none h before = if h then before else none

unspend_one-get :
    (u : Utxo) (key : Outpoint) (s before : WorldState)
    → IsMap s.utxos
    → IsHeld before u
    → IsMap (unspend_one u s).utxos
      × (get_utxo key.0 key.1 (unspend_one u s)
          ≡ or_held
              (get_utxo key.0 key.1 s)
              (key === outpoint u.txid u.vout)
              (get_utxo key.0 key.1 before))
unfolding unspend_one
unspend_one-get u key s before m h = elim (Option-cases (add_utxo u s)) [
  | inl e ↦
      let there : (v : Utxo) × (get_utxo u.txid u.vout s ≡ some v) =
        unfold add_utxo get_utxo in
        elim (Option-cases (JsMap.get (outpoint u.txid u.vout) s.utxos)) [
          | inl absent ↦ absurd (ground arith)
          | inr found ↦ found
        ] in
      rw (unspend_one, e)
        (
          m,
          elim (Bool-cases (key === outpoint u.txid u.vout)) [
            | inl same ↦
                let here =
                  subst (λ (k : Outpoint). get_utxo k.0 k.1 s ≡ some there.0)
                    (sym (===→eq key (u.txid, u.vout) same)) there.1 in
                ground arith
            | inr other ↦ ground arith
          ],
        )
  | inr (t, e) ↦
      let (mt, gt) = add_utxo-step u key s t m e in
      let absent : get_utxo u.txid u.vout s ≡ none = unfold add_utxo get_utxo in ground arith in
      rw (unspend_one, e)
        (
          mt,
          elim (Bool-cases (key === outpoint u.txid u.vout)) [
            | inl same ↦
                let back = sym (===→eq key (u.txid, u.vout) same) in
                let here = subst (λ (k : Outpoint). get_utxo k.0 k.1 s ≡ none) back absent in
                let was = subst (λ (k : Outpoint). get_utxo k.0 k.1 before ≡ some u) back h in
                ground arith
            | inr other ↦ ground arith
          ],
        )
]

pub unspend-get :
    (us : List Utxo) (key : Outpoint) (s before : WorldState)
    → IsMap s.utxos
    → All (IsHeld before) us
    → IsMap (unspend us s).utxos
      × (get_utxo key.0 key.1 (unspend us s)
          ≡ or_held (get_utxo key.0 key.1 s) (held key us) (get_utxo key.0 key.1 before))
unfolding unspend
unspend-get [] key s before m h = (m, ground arith)
unspend-get (u ∷ us) key s before m h =
    let (m1, g1) = unspend_one-get u key s before m h.0 in
    let (m2, g2) = unspend-get us key (unspend_one u s) before m1 h.1 in (m2, ground arith)

spent_by-IsHeld :
    (s : WorldState) (inputs : List TxInput) → IsPlaced s → All (IsHeld s) (spent_by s inputs)
unfolding spent_by
spent_by-IsHeld s [] p = tt
spent_by-IsHeld s (input ∷ rest) p = elim (Option-cases (get_utxo input.txid input.vout s)) [
  | inl e ↦ rw (All, spent_by, e) (spent_by-IsHeld s rest p)
  | inr (u, e) ↦
      let here =
        subst (λ (k : Outpoint). get_utxo k.0 k.1 s ≡ some u) (sym (p (key_of input) u e)) e in
      rw (All, spent_by, e) (here, spent_by-IsHeld s rest p)
]

pub spent_of-IsHeld :
    (s : WorldState) (txs : List Transaction) → IsPlaced s → All (IsHeld s) (spent_of s txs)
unfolding spent_of
spent_of-IsHeld s [] p = tt
spent_of-IsHeld s (tx ∷ rest) p =
    All-append (IsHeld s) (spent_by s tx.inputs) (spent_of s rest) (spent_by-IsHeld s tx.inputs p)
      (spent_of-IsHeld s rest p)

held-spent_by :
    (s : WorldState) (inputs : List TxInput) (key : Outpoint) (u : Utxo)
    → IsPlaced s
    → get_utxo key.0 key.1 s ≡ some u
    → spends inputs key ≡ true
    → held key (spent_by s inputs) ≡ true
unfolding spent_by
held-spent_by s [] key u p g h = absurd (ground arith)
held-spent_by s (input ∷ rest) key u p g h = elim (Bool-cases (key === key_of input)) [
  | inl same ↦
      let e =
        subst (λ (k : Outpoint). get_utxo k.0 k.1 s ≡ some u) (===→eq key (key_of input) same) g in
      let own = p key u g in
      rw (spent_by, e) (rw (← own) (ground (arith, ===_refl (outpoint u.txid u.vout))))
  | inr other ↦
      let later = held-spent_by s rest key u p g (ground arith) in
      elim (Option-cases (get_utxo input.txid input.vout s)) [
        | inl e ↦ rw (spent_by, e) later
        | inr (v, e) ↦ rw (spent_by, e) (ground arith)
      ]
]

pub held-spent_of :
    (s : WorldState) (txs : List Transaction) (key : Outpoint) (u : Utxo)
    → IsPlaced s
    → get_utxo key.0 key.1 s ≡ some u
    → takes key txs ≡ true
    → held key (spent_of s txs) ≡ true
unfolding spent_of
held-spent_of s [] key u p g h = absurd (ground arith)
held-spent_of s (tx ∷ rest) key u p g h =
    let a =
      any-append (λ (u : Utxo). key === outpoint u.txid u.vout) (spent_by s tx.inputs)
        (spent_of s rest) in
    elim (Bool-cases (spends tx.inputs key)) [
      | inl first ↦ let f = held-spent_by s tx.inputs key u p g first in ground arith
      | inr later ↦ let f = held-spent_of s rest key u p g (ground arith) in ground arith
    ]

-- An undo record's outputs, taken back and put back, are those of the state before.
pub rewind-get :
    (o : Oracle) (txs : List Transaction) (key : Outpoint) (s t : WorldState)
    → IsPlaced s
    → Turns key (listed key (created_of o txs)) (takes key txs) s t
    → IsMap (unspend (spent_of s txs) (unmake (created_of o txs) t)).utxos
      × (get_utxo key.0 key.1 (unspend (spent_of s txs) (unmake (created_of o txs) t))
          ≡ get_utxo key.0 key.1 s)
rewind-get o txs key s t p turns =
    let (m1, g1) = unmake-get (created_of o txs) key t turns.after_map in
    let (m2, g2) =
      unspend-get (spent_of s txs) key (unmake (created_of o txs) t) s m1
        (spent_of-IsHeld s txs p) in
    (
      m2,
      elim (Option-cases (get_utxo key.0 key.1 s)) [
        | inl absent ↦ elim (Bool-cases (listed key (created_of o txs))) [
          | inl made ↦ ground arith
          | inr unmade ↦ let kept = turns.unmade unmade in ground arith
        ]
        | inr (u, there) ↦
            let back = held-spent_of s txs key u p there in
            elim (Bool-cases (listed key (created_of o txs))) [
              | inl made ↦ elim (turns.made made) [
                | inl taken ↦ let h = back taken in ground arith
                | inr absent ↦ absurd (ground arith)
              ]
              | inr unmade ↦
                  let kept = turns.unmade unmade in
                  elim (Bool-cases (takes key txs)) [
                    | inl taken ↦ let h = back taken in ground arith
                    | inr left ↦ ground arith
                  ]
            ]
      ],
    )
