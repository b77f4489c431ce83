-- ===== src/Volt/Channel/Sweeps/Exits.antt =====
-- The two ways out of an HTLC output meet its script (chain/src/volt/channel.ts).
use Prim.Native.String.{String}
use deckxcoin.Prelude.{
  ltb, ◌<◌, ap, ℕ, ◌-◌, ◌≡◌, refl, true, false, none, some, [], ◌∷◌, leb, get_elem?, arith, subst,
}
use deckxcoin.Prelude.Eq.{◌===◌, string_eq}
use deckxcoin.Prelude.Int.{ℤ, pos}
use deckxcoin.Tx.{Hex, TxInput, TxOutput, OutputScript, htlc, Transaction, PrevOut}
use deckxcoin.Tx.Oracle.{Oracle, Bytes}
use deckxcoin.Tx.Build.{KeyPair, transfer_tx, sign_input, with_preimage}
use deckxcoin.Tx.Check.{valid, owner_key, check_script, opens_hash}
use deckxcoin.Tx.Check.Amounts.{amount}
use deckxcoin.Volt.Channel.{Side, VoltChannel, party}
use deckxcoin.Volt.Channel.Commitment.{Keys}
use deckxcoin.Volt.Channel.Sweeps.{prev_of, exit_tx, claim_tx, htlc_at, sweep_htlc_with_preimage}

-- The input of a transaction with one input meets the script.
abbrev pub Passes : Oracle → Transaction → PrevOut → Bytes → Bytes → OutputScript → Type 0
Passes o tx prev pubkey digest script =
    (input : TxInput) × (tx.inputs ≡ input ∷ [])
    × (check_script o tx input prev pubkey digest script ≡ valid tt)

-- A transaction that spends one outpoint with a key, in a way that meets the script, and pays a value to
-- the address of that key.
abbrev pub Claims :
    Oracle → Transaction → Hex → ℕ → KeyPair → ℕ → PrevOut → Bytes → Bytes → OutputScript → Type 0
Claims o tx id index key value prev pubkey digest script =
    (input : TxInput) × (tx.inputs ≡ input ∷ [])
    × (input.txid ≡ id)
    × (input.vout ≡ index)
    × (input.pubkey ≡ key.public_key)
    × (check_script o tx input prev pubkey digest script ≡ valid tt)
    × (tx.outputs ≡ record { value = some (pos value); address = key.address; script = none } ∷ [])

claim_tx-Claims :
    (k : Keys) (id : Hex) (index : ℕ) (out : TxOutput) (preimage : Hex) (key : KeyPair) (fee : ℕ)
    (memo : String) (pubkey digest bytes : Bytes) (hash : Hex) (timeout : ℕ) (refund_key : Hex)
    → (preimage === "") ≡ false
    → k.oracle.from_hex preimage ≡ some bytes
    → (k.oracle.sha256_hex bytes === hash) ≡ true
    → owner_key k.oracle pubkey (prev_of out) ≡ true
    → leb (amount out.value) fee ≡ false
    → Claims k.oracle
        (claim_tx k id index out preimage key fee memo)
        id
        index
        key
        (amount out.value - fee)
        (prev_of out)
        pubkey
        digest
        (htlc hash timeout refund_key)
unfolding claim_tx exit_tx with_preimage sign_input transfer_tx check_script opens_hash
claim_tx-Claims k id index out preimage key fee memo pubkey digest bytes hash timeout refund_key
      shown read opens owner over =
    let fits : ltb (amount out.value) fee ≡ false = ground arith in
    (_, refl, refl, refl, refl, ground arith, rw fits refl)

htlc_at-found :
    (tx : Transaction) (index timeout : ℕ) (out : TxOutput) (value : ℤ) (hash refund_key : Hex)
    → out.value ≡ some value
    → get_elem? tx.outputs index ≡ some out
    → out.script ≡ some (htlc hash timeout refund_key)
    → htlc_at tx index ≡ some (out, timeout)
unfolding htlc_at
htlc_at-found tx index timeout out value hash refund_key read found script = ground arith

module _ (k : Keys) (memo : String) (c : VoltChannel) (commitment tx : Transaction)
    (index fee timeout : ℕ) (out : TxOutput) (hash refund_key : Hex) (pubkey digest : Bytes)
    (found : get_elem? commitment.outputs index ≡ some out)
    (script : out.script ≡ some (htlc hash timeout refund_key)) where
  -- The sweep of an HTLC output, of a natural value, with a preimage of its hash, by the side whose key
  -- owns the output, spends that output with the key of that side and meets its script, and pays the
  -- value less the fee, which is lower, to the address of that side.
  pub sweep_htlc_with_preimage-Claims :
      (payee : Side) (preimage : Hex) (bytes : Bytes) (value : ℕ)
      → out.value ≡ some (pos value)
      → (preimage === "") ≡ false
      → k.oracle.from_hex preimage ≡ some bytes
      → (k.oracle.sha256_hex bytes === hash) ≡ true
      → k.oracle.from_hex (party payee c).key.public_key ≡ some pubkey
      → owner_key k.oracle pubkey (prev_of out) ≡ true
      → sweep_htlc_with_preimage k memo c commitment index preimage payee fee ≡ some tx
      → (fee < value)
        × Claims k.oracle tx
            (k.oracle.txid commitment)
            index
            (party payee c).key
            (value - fee)
            (prev_of out)
            pubkey
            digest
            (htlc hash timeout refund_key)
  unfolding sweep_htlc_with_preimage
  sweep_htlc_with_preimage-Claims payee preimage bytes value worth shown read opens key_read owner
        made =
      let there =
        htlc_at-found commitment index timeout out (pos value) hash refund_key worth found script in
      let key = (party payee c).key in
      let id = k.oracle.txid commitment in
      let over : leb (amount out.value) fee ≡ false = ground arith in
      let e : claim_tx k id index out preimage key fee memo ≡ tx = ground arith in
      let same : amount out.value ≡ value = ap amount worth in
      (
        ground (arith, same),
        subst
            (λ t.
              Claims k.oracle t id index key (value - fee) (prev_of out) pubkey digest
                (htlc hash timeout refund_key))
            e
            (subst
              (λ v.
                Claims k.oracle (claim_tx k id index out preimage key fee memo) id index key
                  (v - fee) (prev_of out) pubkey digest (htlc hash timeout refund_key))
              same
              (claim_tx-Claims k id index out preimage key fee memo pubkey digest bytes hash timeout
                refund_key shown read opens owner over)),
      )
