-- ===== src/Node/ChainState/Undo/Accounts.antt =====
-- What `#disconnect` of chain/src/node/chainstate.ts does to the contracts and the nonces.
use Prim.Native.String.{String}
use deckxcoin.Prelude.{
  ℕ, ◌≡◌, refl, sym, ◌∙◌, Option, none, some, List, [], ◌∷◌, arith, if◌then◌else◌, Bool-cases, inl,
  inr, subst, ◌==◌,
}
use deckxcoin.Prelude.Eq.{◌===◌, string_eq, nat_eq, pair_eq, ===→eq, ===_refl}
use deckxcoin.Prelude.JsMap
use deckxcoin.Prelude.JsMap.{JsMap, IsMap, get-put, put-IsMap, delete-IsMap, get-delete}
use deckxcoin.Chain.Apply.Effects.{SameRest}
use deckxcoin.State.{
  Outpoint, Utxo, ContractAccount, WorldState, put_contract, drop_contract, set_nonce, add_utxo,
  spend_utxo,
}
use deckxcoin.Node.ChainState.{
  unmake, unmake_one, unspend, unspend_one, put_back_one, put_back, reset_nonces,
}
use deckxcoin.Node.Draft.{Before}

unmake_one-rest : (key : Outpoint) (s : WorldState) → SameRest s (unmake_one key s)
unfolding unmake_one spend_utxo
unmake_one-rest key s = ground arith

unspend_one-rest : (u : Utxo) (s : WorldState) → SameRest s (unspend_one u s)
unfolding unspend_one add_utxo
unspend_one-rest u s = ground arith

-- The parts of a rewind that leave contracts and nonces, and what the others make of them.
pub unmake-rest : (keys : List Outpoint) (s : WorldState) → SameRest s (unmake keys s)
unfolding unmake
unmake-rest [] s = (refl, refl)
unmake-rest (key ∷ keys) s =
    let (c, n) = unmake-rest keys (unmake_one key s) in
    let (d, m) = unmake_one-rest key s in (c ∙ d, n ∙ m)

pub unspend-rest : (us : List Utxo) (s : WorldState) → SameRest s (unspend us s)
unfolding unspend
unspend-rest [] s = (refl, refl)
unspend-rest (u ∷ us) s =
    let (c, n) = unspend-rest us (unspend_one u s) in
    let (d, m) = unspend_one-rest u s in (c ∙ d, n ∙ m)

pub put_back-rest :
    (before : Before) (s : WorldState)
    → ((put_back before s).utxos ≡ s.utxos) × ((put_back before s).nonces ≡ s.nonces)
unfolding put_back put_contract drop_contract
put_back-rest [] s = (refl, refl)
put_back-rest ((a, none) ∷ rest) s = put_back-rest rest (drop_contract a s)
put_back-rest ((a, some c) ∷ rest) s = put_back-rest rest (put_contract c s)

set_nonce-rest :
    (a : String) (n : ℕ) (s : WorldState)
    → ((set_nonce a n s).utxos ≡ s.utxos) × ((set_nonce a n s).contracts ≡ s.contracts)
unfolding set_nonce
set_nonce-rest a n s = ground arith

pub reset_nonces-rest :
    (nonces : List (String × ℕ)) (s : WorldState)
    → ((reset_nonces nonces s).utxos ≡ s.utxos) × ((reset_nonces nonces s).contracts ≡ s.contracts)
unfolding reset_nonces
reset_nonces-rest [] s = (refl, refl)
reset_nonces-rest ((a, n) ∷ rest) s =
    let (u, c) = reset_nonces-rest rest (set_nonce a n s) in
    let (v, d) = set_nonce-rest a n s in (u ∙ v, c ∙ d)

put_back_one-get :
    (j a : String) (v : Option ContractAccount) (s : WorldState)
    → IsMap s.contracts
    → ((c : ContractAccount) → v ≡ some c → c.address ≡ a)
    → IsMap (put_back_one a v s).contracts
      × (JsMap.get j (put_back_one a v s).contracts
          ≡ (if j === a then v else JsMap.get j s.contracts))
unfolding put_back_one put_contract drop_contract
put_back_one-get j a none s m own = (delete-IsMap a s.contracts m, get-delete j a s.contracts m)
put_back_one-get j a (some c) s m own = (
  put-IsMap c.address c s.contracts m,
  subst
      (λ x.
        JsMap.get j (JsMap.put c.address c s.contracts)
        ≡ (if j === x then some c else JsMap.get j s.contracts))
      (own c refl) (get-put j c.address c s.contracts),
)

abbrev pub or_old : {V : Type 0} → Option V → V → V
or_old none old = old
or_old (some v) old = v

pub put_back-get :
    (j : String) (before : Before) (s : WorldState)
    → IsMap s.contracts
    → IsMap before
    → ((a : String) (c : ContractAccount) → JsMap.get a before ≡ some (some c) → c.address ≡ a)
    → JsMap.get j (put_back before s).contracts
      ≡ or_old (JsMap.get j before) (JsMap.get j s.contracts)
unfolding put_back
put_back-get j [] s m u own = refl
put_back-get j ((a, v) ∷ rest) s m u own =
    let here = ===_refl a in
    let (m1, g1) = put_back_one-get j a v s m (λ c e. own a c (rw e (ground arith))) in
    let later =
      put_back-get j rest (put_back_one a v s) m1 u.1
        (λ b c g. own b c (JsMap.get-cons b a (some c) v rest u.0 g)) in
    elim (Bool-cases (j === a)) [
      | inl same ↦
          let gone = subst (λ x. JsMap.get x rest ≡ none) (sym (===→eq j a same)) u.0 in
          ground arith
      | inr other ↦ ground arith
    ]

-- The nonce that `setNonce` leaves.
abbrev pub nonzero : ℕ → Option ℕ
nonzero n = if n == 0 then none else some n

set_nonce-get :
    (j a : String) (n : ℕ) (s : WorldState)
    → IsMap s.nonces
    → IsMap (set_nonce a n s).nonces
      × (JsMap.get j (set_nonce a n s).nonces
          ≡ (if j === a then nonzero n else JsMap.get j s.nonces))
unfolding set_nonce
set_nonce-get j a n s m = elim (Bool-cases (n == 0)) [
  | inl zeroed ↦ rw zeroed (delete-IsMap a s.nonces m, get-delete j a s.nonces m)
  | inr counted ↦ rw counted (put-IsMap a n s.nonces m, get-put j a n s.nonces)
]

abbrev pub or_reset : Option ℕ → Option ℕ → Option ℕ
or_reset none old = old
or_reset (some n) old = nonzero n

pub reset_nonces-get :
    (j : String) (nonces : JsMap String ℕ) (s : WorldState)
    → IsMap s.nonces
    → IsMap nonces
    → JsMap.get j (reset_nonces nonces s).nonces
      ≡ or_reset (JsMap.get j nonces) (JsMap.get j s.nonces)
unfolding reset_nonces
reset_nonces-get j [] s m u = refl
reset_nonces-get j ((a, n) ∷ rest) s m u =
    let (m1, g1) = set_nonce-get j a n s m in
    let later = reset_nonces-get j rest (set_nonce a n s) m1 u.1 in
    elim (Bool-cases (j === a)) [
      | inl same ↦
          let gone = subst (λ x. JsMap.get x rest ≡ none) (sym (===→eq j a same)) u.0 in
          ground arith
      | inr other ↦ ground arith
    ]
