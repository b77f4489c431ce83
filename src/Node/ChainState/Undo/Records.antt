-- ===== src/Node/ChainState/Undo/Records.antt =====
-- What `#connect` of chain/src/node/chainstate.ts records of contracts and nonces.
use Prim.Native.String.{String}
use deckxcoin.Prelude.{
  ℕ, ◌+◌, ◌≡◌, refl, sym, ◌∙◌, false, Option, none, some, arith, Bool-cases, Option-cases, inl, inr,
  subst,
}
use deckxcoin.Prelude.Eq.{◌===◌, string_eq, ===→eq, ===_refl}
use deckxcoin.Prelude.JsMap
use deckxcoin.Prelude.JsMap.{JsMap, IsMap, get-put, put-IsMap}
use deckxcoin.Tx.{Transaction, ContractPayload}
use deckxcoin.Tx.Oracle.{Oracle}
use deckxcoin.Vm.{Storage}
use deckxcoin.State.{ContractAccount, WorldState, nonce_of, get_contract}
use deckxcoin.Chain.Apply.{apply_tx}
use deckxcoin.Chain.Attempt.{got, TxContext, Receipt}
use deckxcoin.Chain.Apply.Effects.{untouched, deployment, storage_write, apply_tx-Effects}
use deckxcoin.Node.ChainState.Undo.Notes.{note-IsMap, note-keeps, note-none, note-some, Knows}
use deckxcoin.Node.Draft.{Record, target_of, note, reported, deployer_of, record_receipt}

-- What the record holds is as it was in `p`, and what it does not hold is in the draft as in `p`.
pub record IsRecord (p : WorldState) (rec : Record) (draft : WorldState) : Type 0 where
  pub contracts_map : IsMap draft.contracts
  pub nonces_map : IsMap draft.nonces
  pub rec_contracts : IsMap rec.contracts
  pub rec_nonces : IsMap rec.nonces
  pub unnamed : JsMap.get "" draft.contracts ≡ none
  pub old_contracts :
      (a : String) (v : Option ContractAccount)
      → JsMap.get a rec.contracts ≡ some v
      → v ≡ JsMap.get a p.contracts
  pub same_contracts :
      (a : String)
      → JsMap.get a rec.contracts ≡ none
      → JsMap.get a draft.contracts ≡ JsMap.get a p.contracts
  pub old_nonces : (a : String) (n : ℕ) → JsMap.get a rec.nonces ≡ some n → n ≡ nonce_of a p
  pub same_nonces :
      (a : String) → JsMap.get a rec.nonces ≡ none → JsMap.get a draft.nonces ≡ JsMap.get a p.nonces

unnamed-filled :
    (target : String) (account : ContractAccount) (draft : WorldState)
    → JsMap.get "" draft.contracts ≡ none
    → JsMap.get target draft.contracts ≡ some account
    → (target === "") ≡ false
unnamed-filled target account draft h g = elim (Bool-cases (target === "")) [
  | inl same ↦
      let g2 = subst (λ t. JsMap.get t draft.contracts ≡ some account) (===→eq target "" same) g in
      absurd (ground arith)
  | inr other ↦ other
]

record_receipt-deployment :
    (tx : Transaction) (p : WorldState) (rec : Record) (t : WorldState) (r : Receipt)
    (account : ContractAccount) (payload : ContractPayload)
    → (account.address === "") ≡ false
    → tx.contract ≡ some payload
    → get_contract account.address t ≡ some account
    → r.contract_address ≡ some account.address
    → record_receipt p t tx r rec ≡ record {
      contracts = note account.address none rec.contracts;
      nonces = note account.deployer (nonce_of account.deployer p) rec.nonces;
    }
unfolding record_receipt
record_receipt-deployment tx p rec t r account payload filled given found a =
    rw (record_receipt, deployer_of, a, filled, given, found) refl

module _ (o : Oracle) (tx : Transaction) (ctx : TxContext) (p : WorldState) (rec : Record)
    (draft : WorldState) (r : Receipt) (t : WorldState) (i : IsRecord p rec draft) where
  untouched-IsRecord :
      t.contracts ≡ draft.contracts
      → t.nonces ≡ draft.nonces
      → r.contract_address ≡ none
      → IsRecord p (record_receipt p t tx r rec) t
  unfolding record_receipt
  untouched-IsRecord c n a =
      rw (record_receipt, a)
        (record {
          contracts_map = rw c i.contracts_map;
          nonces_map = rw n i.nonces_map;
          rec_contracts = i.rec_contracts;
          rec_nonces = i.rec_nonces;
          unnamed = rw c i.unnamed;
          old_contracts = i.old_contracts;
          same_contracts = rw c i.same_contracts;
          old_nonces = i.old_nonces;
          same_nonces = rw n i.same_nonces;
        })

  storage-IsRecord :
      (target : String) (storage : Storage) (account : ContractAccount) (payload : ContractPayload)
      → Knows rec.contracts tx
      → tx.contract ≡ some payload
      → payload.target ≡ some target
      → JsMap.get target draft.contracts ≡ some account
      → t.contracts ≡ JsMap.put target (record account { storage = storage }) draft.contracts
      → t.nonces ≡ draft.nonces
      → r.contract_address ≡ none
      → IsRecord p (record_receipt p t tx r rec) t
  unfolding record_receipt target_of
  storage-IsRecord target storage account payload k given q there c n a =
      let filled = unnamed-filled target account draft i.unnamed there in
      let (v, known) = k target (ground arith) in
      let g =
        λ (j : String). get-put j target (record account { storage = storage }) draft.contracts in
      rw (record_receipt, a)
        (record {
          contracts_map = rw c (put-IsMap _ _ draft.contracts i.contracts_map);
          nonces_map = rw n i.nonces_map;
          rec_contracts = i.rec_contracts;
          rec_nonces = i.rec_nonces;
          unnamed =
              let u = i.unnamed in
              let gu = g "" in
              rw c (ground (arith, string_eq.beq_iff "" target, string_eq.beq_iff target ""));
          old_contracts = i.old_contracts;
          same_contracts = λ j free. elim (Bool-cases (j === target)) [
            | inl same ↦
                let free2 =
                  subst (λ j. JsMap.get j rec.contracts ≡ none) (===→eq j target same) free in
                absurd (ground arith)
            | inr other ↦ let gj = g j in let u = i.same_contracts j free in rw c (ground arith)
          ];
          old_nonces = i.old_nonces;
          same_nonces = rw n i.same_nonces;
        })

  deployment-IsRecord :
      (account : ContractAccount) (payload : ContractPayload)
      → (account.address === "") ≡ false
      → tx.contract ≡ some payload
      → JsMap.get account.address draft.contracts ≡ none
      → t.contracts ≡ JsMap.put account.address account draft.contracts
      → t.nonces ≡ JsMap.put account.deployer (nonce_of account.deployer draft + 1) draft.nonces
      → r.contract_address ≡ some account.address
      → IsRecord p (record_receipt p t tx r rec) t
  unfolding record_receipt get_contract
  deployment-IsRecord account payload filled given absent c n a =
      let address = account.address in
      let deployer = account.deployer in
      let found : JsMap.get address t.contracts ≡ some account =
        rw c (ground (arith, get-put address address account draft.contracts, ===_refl address)) in
      let g = λ (j : String). get-put j address account draft.contracts in
      let gn = λ (j : String). get-put j deployer (nonce_of deployer draft + 1) draft.nonces in
      let result = record_receipt-deployment tx p rec t r account payload filled given found a in
      rw result (record {
        contracts_map = rw c (put-IsMap _ _ draft.contracts i.contracts_map);
        nonces_map = rw n (put-IsMap _ _ draft.nonces i.nonces_map);
        rec_contracts = note-IsMap address none rec.contracts i.rec_contracts;
        rec_nonces = note-IsMap deployer (nonce_of deployer p) rec.nonces i.rec_nonces;
        unnamed =
            let u = i.unnamed in
            let gu = g "" in
            rw c (ground (arith, string_eq.beq_iff "" address, string_eq.beq_iff address ""));
        old_contracts = λ j v h. elim (note-some j address none v rec.contracts h) [
          | inl old ↦ i.old_contracts j v old
          | inr (same, new, free) ↦
              let u = i.same_contracts address free in rw same (sym new ∙ sym absent ∙ u)
        ];
        same_contracts = λ j free.
            let (other, free2) = note-none j address none rec.contracts free in
            let gj = g j in let u = i.same_contracts j free2 in rw c (ground arith);
        old_nonces = λ j m h. elim (note-some j deployer (nonce_of deployer p) m rec.nonces h) [
          | inl old ↦ i.old_nonces j m old
          | inr (same, new, free) ↦ rw same (sym new)
        ];
        same_nonces = λ j free.
            let (other, free2) = note-none j deployer (nonce_of deployer p) rec.nonces free in
            let gj = gn j in let u = i.same_nonces j free2 in rw n (ground arith);
      })

  pub apply_tx-IsRecord :
      ((creator : String) (nonce : ℕ) → (o.contract_address creator nonce === "") ≡ false)
      → Knows rec.contracts tx
      → apply_tx o tx ctx draft ≡ got (r, t)
      → IsRecord p (record_receipt p t tx r rec) t
  apply_tx-IsRecord named k h = elim (apply_tx-Effects o tx ctx draft r t h) [
    | untouched plain c n a ↦ untouched-IsRecord c n a
    | deployment account d c n a ↦
        let address = d.address in
        deployment-IsRecord account d.payload (rw address (named account.deployer d.payload.nonce))
          d.given (unfold get_contract in d.absent) c n a
    | storage_write target account storage d c n a ↦
        storage-IsRecord target storage account d.payload k d.given d.named
          (unfold get_contract in d.stored) c n a
  ]

  pub record_receipt-Knows :
      (other : Transaction)
      → Knows rec.contracts other
      → Knows (record_receipt p t tx r rec).contracts other
  unfolding record_receipt
  record_receipt-Knows other k target e = elim (Option-cases (reported r)) [
    | inl silent ↦ rw (record_receipt, silent) (k target e)
    | inr (address, loud) ↦
        let (v, known) = k target e in
        rw (record_receipt, loud) (v, note-keeps target address none v rec.contracts known)
  ]
