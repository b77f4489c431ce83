-- ===== src/Volt/Channel/Sweeps.antt =====
-- What is taken from a broadcast commitment of chain/src/volt/channel.ts: `penaltyFor`,
-- `sweepHtlcWithPreimage`, `refundHtlc`. A value that `BigInt` cannot read makes them throw; one below
-- zero, which no commitment has, counts as zero here.
pub mod Exits
pub mod Taken
pub mod Penalty
use Prim.Native.String.{String}
use deckxcoin.Prelude.{
  Bool, true, false, ℕ, ◌+◌, ◌-◌, max, Option, none, some, List, [], ◌∷◌, ltb, leb, length,
  get_elem?, map, ◌==◌, ◌||◌, if◌then◌else◌,
}
use deckxcoin.Prelude.Eq.{◌===◌, string_eq}
use deckxcoin.Prelude.Int.{ℤ, pos, negsuc}
use deckxcoin.Tx.{Hex, TxOutput, p2pkh, multisig2, htlc, ptlc, revocable, Transaction, PrevOut}
use deckxcoin.Tx.Oracle.{Oracle, Bytes}
use deckxcoin.Tx.Build.{KeyPair, Sign, InputSpec, transfer_tx, sign_input, with_preimage}
use deckxcoin.Tx.Check.Amounts.{amount}
use deckxcoin.Volt.Secrets.{secret}
use deckxcoin.Volt.Channel.{Side, other_side, VoltChannel, party}
use deckxcoin.Volt.Channel.Commitment.{Keys, pays}

-- An output that the punisher takes, with the key that signs for it.
pub record Swept : Type 0 where
  pub vout : ℕ
  pub prev : PrevOut
  pub signer : KeyPair

abbrev pub swept : ℕ → TxOutput → KeyPair → Swept
swept vout out signer = record {
  vout = vout;
  prev = record { value = amount out.value; address = out.address; script = out.script };
  signer = signer;
}

-- The signer of an output: the revocation key, the punisher's own key, or none.
abbrev pub signer_of : KeyPair → KeyPair → TxOutput → Option KeyPair
signer_of revocation own out = elim out.script [
  | some (revocable delay key) ↦ some revocation
  | some p2pkh ↦ none
  | some (multisig2 a b) ↦ none
  | some (htlc hash timeout refund) ↦ none
  | some (ptlc point timeout refund) ↦ none
  | none ↦ if out.address === own.address then some own else none
]

unfoldable pub collect : KeyPair → KeyPair → ℕ → List TxOutput → List Swept
collect revocation own vout [] = []
collect revocation own vout (out ∷ rest) =
    let later = collect revocation own (vout + 1) rest in
    elim (signer_of revocation own out) [ none ↦ later | some key ↦ swept vout out key ∷ later ]

-- `BigInt(out.value)` throws for none of the outputs.
unfoldable pub all_read : List TxOutput → Bool
all_read [] = true
all_read (out ∷ rest) = elim out.value [ none ↦ false | some value ↦ all_read rest ]

unfoldable pub swept_total : List Swept → ℕ
swept_total [] = 0
swept_total (s ∷ rest) = s.prev.value + swept_total rest

-- `signers.forEach((signer, i) => …)`, from input `i` on.
unfoldable pub sign_each : Oracle → Sign → ℕ → List Swept → Transaction → Transaction
sign_each o sign i [] tx = tx
sign_each o sign i (s ∷ rest) tx =
    sign_each o sign (i + 1) rest (sign_input o sign tx i s.signer s.prev)

abbrev spends_final : Hex → Swept → InputSpec
spends_final id s = record { txid = id; vout = s.vout; sequence = some 0xffffffff }

-- `none`: nothing to sweep, or no more than the fee, and the function throws.
unfoldable pub sweep_tx :
    Oracle → Sign → Hex → List Swept → String → ℕ → String → Option Transaction
unfolding swept_total sign_each transfer_tx
sweep_tx o sign id found sweep_to fee memo =
    let tx = transfer_tx (record {
      inputs = map (spends_final id) found;
      outputs = pays (swept_total found - fee) sweep_to none ∷ [];
      lock_time = none;
      memo = some memo;
    }) in
    if length found == 0 || leb (swept_total found) fee
    then none
    else some (sign_each o sign 0 found tx)

-- `revocation` is revocationKeyPair, and `memo` the text `volt:<id>:penalty:<n>`.
unfoldable pub penalty_for :
    Keys
    → (Bytes → Bytes → Option KeyPair)
    → String
    → VoltChannel
    → Transaction
    → ℕ
    → Side
    → String
    → ℕ
    → Option Transaction
unfolding collect all_read sweep_tx
penalty_for k revocation memo c revoked number cheater sweep_to fee =
    let punisher = party (other_side cheater) c in
    elim (secret k.chain_hash (party cheater c).secrets number) [
      | none ↦ none
      | some opened ↦ elim (revocation punisher.revocation_base.private_key opened) [
        | none ↦ none
        | some key ↦
            if all_read revoked.outputs
            then sweep_tx k.oracle k.sign (k.oracle.txid revoked)
                (collect key punisher.key 0 revoked.outputs) sweep_to fee memo
            else none
      ]
    ]

-- The difference as an integer.
abbrev minus : ℕ → ℕ → ℤ
minus a b = if ltb a b then negsuc (b - a - 1) else pos (a - b)

abbrev pub prev_of : TxOutput → PrevOut
prev_of out = record { value = amount out.value; address = out.address; script = out.script }

-- The payment that takes one output to the address of a key, before it is signed.
unfoldable pub exit_tx : Hex → ℕ → TxOutput → KeyPair → ℕ → Option ℕ → String → Transaction
unfolding transfer_tx
exit_tx id index out key fee lock_time memo = transfer_tx (record {
  inputs = record { txid = id; vout = index; sequence = none } ∷ [];
  outputs =
      record { value = some (minus (amount out.value) fee); address = key.address; script = none }
      ∷ [];
  lock_time = lock_time;
  memo = some memo;
})

unfoldable pub claim_tx : Keys → Hex → ℕ → TxOutput → Hex → KeyPair → ℕ → String → Transaction
unfolding exit_tx with_preimage sign_input
claim_tx k id index out preimage key fee memo =
    sign_input k.oracle k.sign (with_preimage (exit_tx id index out key fee none memo) 0 preimage) 0
      key (prev_of out)

unfoldable pub refund_tx : Keys → Hex → ℕ → TxOutput → KeyPair → ℕ → ℕ → String → Transaction
unfolding exit_tx sign_input
refund_tx k id index out key fee lock_time memo =
    sign_input k.oracle k.sign (exit_tx id index out key fee (some lock_time) memo) 0 key
      (prev_of out)

-- The timeout of an output that a hash locks.
abbrev htlc_timeout : TxOutput → Option ℕ
htlc_timeout out = elim out.script [
  | some (htlc hash timeout refund) ↦ some timeout
  | some p2pkh ↦ none
  | some (multisig2 a b) ↦ none
  | some (ptlc point timeout refund) ↦ none
  | some (revocable delay key) ↦ none
  | none ↦ none
]

-- The HTLC output at an index, where its value can be read.
htlc_at : Transaction → ℕ → Option (TxOutput × ℕ)
htlc_at tx index = elim (get_elem? tx.outputs index) [
  | none ↦ none
  | some out ↦ elim (htlc_timeout out) [
    | none ↦ none
    | some timeout ↦ elim out.value [ none ↦ none | some value ↦ some (out, timeout) ]
  ]
]

-- `none`: no HTLC output stands there, its value cannot be read, or is no more than the fee, and the method throws.
unfoldable pub sweep_htlc_with_preimage :
    Keys → String → VoltChannel → Transaction → ℕ → Hex → Side → ℕ → Option Transaction
unfolding htlc_at claim_tx
sweep_htlc_with_preimage k memo c commitment index preimage payee fee =
    elim (htlc_at commitment index) [
      | none ↦ none
      | some (out, timeout) ↦
          if leb (amount out.value) fee
          then none
          else some (
              claim_tx k (k.oracle.txid commitment) index out preimage (party payee c).key fee memo)
    ]

-- The value is not compared with the fee here.
unfoldable pub refund_htlc :
    Keys → String → VoltChannel → Transaction → ℕ → Side → ℕ → ℕ → Option Transaction
unfolding htlc_at refund_tx
refund_htlc k memo c commitment index payer at_height fee = elim (htlc_at commitment index) [
  | none ↦ none
  | some (out, timeout) ↦ some (
      refund_tx k (k.oracle.txid commitment) index out (party payer c).key fee
        (max at_height timeout) memo)
]
